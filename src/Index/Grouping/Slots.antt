-- ===== src/Index/Grouping/Slots.antt =====
-- The placing loops of bucket_index.hpp on any sequence of slots: each goes to the end of its bucket.
use mathlib.Core.Path.{ap₂, subst}
use mathlib.Core.List.{append_assoc, append-nil}
use native.Mathlib.Nat.{zero-add}
use speed_up.Common.{
  ℕ, zero, suc, ◌+◌, ◌<◌, ◌≡◌, refl, sym, ap, ◌∙◌, List, [], ◌∷◌, ◌++◌, length, length-append,
  get_or-append_at, length-map, length-replicate, map, get_or, ◌==◌, if◌then◌else◌, Bool-cases, inl,
  inr, ==_refl, ==_ne, All, arith,
}
use speed_up.Layout.{indices_from}
use speed_up.Index.Grouping.{Placed, place, place_slots, place_deferred}
use speed_up.Index.Grouping.Counting.{tally, tallies, slots_in}
use speed_up.Index.Grouping.Placing.{
  as_placed, opened, flat, add_slot, length-add_slot, opened-HasRoom, push-opened, place-push,
  empty, unplaced, unplaced-opened,
}
use speed_up.Index.Grouping.Same.{passing, Same, Same-length, tally-passing}
use speed_up.Index.Sorting.Blocks.{concat, starts}

module _ (buckets : List ℕ) where
  abbrev pub bucket : ℕ → ℕ
  bucket s = get_or buckets s 0

  -- The slots of bucket b among some slots.
  abbrev pub picked : (b : ℕ) → List ℕ → List ℕ
  picked b slots = passing (λ s. bucket s == b) slots

  -- The slots of the buckets from b, `k` of them.
  abbrev pub picks : (k b : ℕ) → List ℕ → List (List ℕ)
  picks zero b slots = []
  picks (suc k) b slots = picked b slots ∷ picks k (suc b) slots

  -- Some slots at the ends of the blocks of their buckets.
  appended : List (List ℕ) → (b : ℕ) → List ℕ → List (List ℕ)
  appended [] b slots = []
  appended (p ∷ ps) b slots = (p ++ picked b slots) ∷ appended ps (suc b) slots

  appended-below :
      (ps : List (List ℕ)) (b s : ℕ) (slots : List ℕ)
      → bucket s < b
      → appended ps b (s ∷ slots) ≡ appended ps b slots
  unfolding appended
  appended-below [] b s slots h = refl
  appended-below (p ∷ ps) b s slots h =
      rw (==_ne (bucket s) b (omega arith))
        (ap (◌∷◌ (p ++ picked b slots)) (appended-below ps (suc b) s slots (omega arith)))

  appended-add_slot :
      (ps : List (List ℕ)) (b i s : ℕ) (slots : List ℕ)
      → bucket s ≡ b + i
      → appended (add_slot i s ps) b slots ≡ appended ps b (s ∷ slots)
  unfolding appended add_slot
  appended-add_slot [] b i s slots h = refl
  appended-add_slot (p ∷ ps) b zero s slots h =
      let here : bucket s ≡ b = omega arith in
      rw
        (
          here,
          ==_refl,
          append_assoc p (s ∷ []) (picked b slots),
          appended-below ps (suc b) s slots (omega arith),
        )
        refl
  appended-add_slot (p ∷ ps) b (suc i) s slots h =
      rw (==_ne (bucket s) b (omega arith))
        (ap (◌∷◌ (p ++ picked b slots)) (appended-add_slot ps (suc b) i s slots (omega arith)))

  appended-nil : (ps : List (List ℕ)) (b : ℕ) → flat (opened ps b []) ≡ concat (appended ps b [])
  unfolding appended opened flat
  appended-nil [] b = refl
  appended-nil (p ∷ ps) b = ap₂ ◌++◌ (sym (append-nil p)) (appended-nil ps (suc b))

  appended-empty : (k b : ℕ) (slots : List ℕ) → appended (empty k) b slots ≡ picks k b slots
  unfolding appended
  appended-empty zero b slots = refl
  appended-empty (suc k) b slots = ap (◌∷◌ (picked b slots)) (appended-empty k (suc b) slots)

  -- The loop over the deferred slots, with room for all of them and no more.
  place_deferred-appended :
      (slots : List ℕ) (ps : List (List ℕ))
      → All (λ s. bucket s < length ps) slots
      → (place_deferred buckets slots (as_placed (opened ps 0 (map bucket slots)))).order
        ≡ concat (appended ps 0 slots)
  unfolding place_deferred
  place_deferred-appended [] ps h = appended-nil ps 0
  place_deferred-appended (s ∷ slots) ps h =
      let c = bucket s in
      let rest = map bucket slots in
      let kept : All (λ t. bucket t < length (add_slot c s ps)) slots =
        rw (length-add_slot c s ps) h.1 in
      let room = rw (zero-add c) at (opened-HasRoom ps 0 c rest h.0) in
      let pushed = rw (zero-add c) at (push-opened ps 0 c s rest h.0) in
      ap (λ p. (place_deferred buckets slots p).order)
        (place-push c s (opened ps 0 (c ∷ rest)) room ∙ ap as_placed pushed)
      ∙ place_deferred-appended slots (add_slot c s ps) kept
      ∙ ap concat (appended-add_slot ps 0 c s slots (sym (zero-add c)))

  -- From vectors that have room for them: the slots, grouped.
  pub place_deferred-picks :
      (k n : ℕ) (slots counts : List ℕ)
      → length slots ≡ n
      → All (λ s. bucket s < k) slots
      → counts ≡ tallies k 0 (map bucket slots)
      → (place_deferred buckets slots (unplaced k n counts)).order ≡ concat (picks k 0 slots)
  place_deferred-picks k n slots counts long below right =
      let many : length (empty k) ≡ k = length-replicate {A = List ℕ} k [] in
      ap (λ p. (place_deferred buckets slots p).order)
        (ap (unplaced k n) right
          ∙ unplaced-opened k n (map bucket slots) (length-map slots bucket ∙ long)
              (All-mapped k slots below))
      ∙ place_deferred-appended slots (empty k) (rw many below)
      ∙ ap concat (appended-empty k 0 slots)
    where
      All-mapped :
          (k : ℕ) (slots : List ℕ)
          → All (λ s. bucket s < k) slots
          → All (λ b. b < k) (map bucket slots)
      All-mapped k [] h = tt
      All-mapped k (s ∷ slots) h = (h.0, All-mapped k slots h.1)

  -- The loops one after the other.
  pub place_deferred-append :
      (xs ys : List ℕ) (p : Placed)
      → place_deferred buckets (xs ++ ys) p
        ≡ place_deferred buckets ys (place_deferred buckets xs p)
  unfolding place_deferred
  place_deferred-append [] ys p = refl
  place_deferred-append (x ∷ xs) ys p = place_deferred-append xs ys (place (bucket x) x p)

  -- The loop over the slots from `slot` on.
  pub place_slots-deferred :
      (slot : ℕ) (rest : List ℕ) (p : Placed)
      → ((i : ℕ) → i < length rest → get_or rest i 0 ≡ bucket (slot + i))
      → place_slots rest slot p ≡ place_deferred buckets (indices_from slot (length rest)) p
  unfolding place_slots place_deferred indices_from
  place_slots-deferred slot [] p h = refl
  place_slots-deferred slot (b ∷ rest) p h =
      let here : b ≡ bucket slot = h 0 (omega arith) ∙ ap bucket (omega arith) in
      place_slots-deferred (suc slot) rest (place b slot p)
        (λ i lt. h (suc i) (omega arith) ∙ ap bucket (omega arith))
      ∙ ap (λ c. place_deferred buckets (indices_from (suc slot) (length rest)) (place c slot p))
          here

  -- The buckets in order.
  pub map-bucket :
      (front rest : List ℕ)
      → buckets ≡ front ++ rest
      → map bucket (indices_from (length front) (length rest)) ≡ rest
  unfolding indices_from
  map-bucket front [] e = refl
  map-bucket front (b ∷ rest) e =
      let more = front ++ b ∷ [] in
      let next : suc (length front) ≡ length more = omega (arith, length-append front (b ∷ [])) in
      ap₂ ◌∷◌ (ap (λ l. get_or l (length front) 0) e ∙ get_or-append_at 0 front b rest) (
        ap (λ i. map bucket (indices_from i (length rest))) next
        ∙ map-bucket more rest (e ∙ sym (append_assoc front (b ∷ []) rest)))

  pub slots_in-picked :
      (b : ℕ) (front rest : List ℕ)
      → buckets ≡ front ++ rest
      → slots_in b (length front) rest ≡ picked b (indices_from (length front) (length rest))
  unfolding indices_from
  slots_in-picked b front [] e = refl
  slots_in-picked b front (c ∷ rest) e =
      let more = front ++ c ∷ [] in
      let next : length more ≡ suc (length front) = omega (arith, length-append front (c ∷ [])) in
      let here : bucket (length front) ≡ c =
        ap (λ l. get_or l (length front) 0) e ∙ get_or-append_at 0 front c rest in
      let later : slots_in b (suc (length front)) rest
          ≡ picked b (indices_from (suc (length front)) (length rest)) =
        subst (λ i. slots_in b i rest ≡ picked b (indices_from i (length rest))) next
          (slots_in-picked b more rest (e ∙ sym (append_assoc front (c ∷ []) rest))) in
      elim (Bool-cases (c == b)) [
        | inl k ↦ rw (here, k) (ap (◌∷◌ (length front)) later)
        | inr k ↦ rw (here, k) later
      ]

  -- How many slots of a bucket there are.
  pub tally-bucket : (b : ℕ) (slots : List ℕ) → tally b (map bucket slots) ≡ length (picked b slots)
  tally-bucket b [] = refl
  tally-bucket b (s ∷ slots) = elim (Bool-cases (bucket s == b)) [
    | inl e ↦ rw e (omega (arith, tally-bucket b slots))
    | inr e ↦ rw e (omega (arith, tally-bucket b slots))
  ]

  pub picked-Same : (b : ℕ) (xs ys : List ℕ) → Same xs ys → Same (picked b xs) (picked b ys)
  picked-Same b xs ys h s =
      let test = λ (t : ℕ). bucket t == b in
      tally-passing test s xs
      ∙ ap (λ n. if test s then n else 0) (h s)
      ∙ sym (tally-passing test s ys)

  pub tallies-Same :
      (k b : ℕ) (xs ys : List ℕ)
      → Same xs ys
      → tallies k b (map bucket xs) ≡ tallies k b (map bucket ys)
  tallies-Same zero b xs ys h = refl
  tallies-Same (suc k) b xs ys h =
      let same : tally b (map bucket xs) ≡ tally b (map bucket ys) =
        tally-bucket b xs
        ∙ Same-length (picked b xs) (picked b ys) (picked-Same b xs ys h)
        ∙ sym (tally-bucket b ys) in
      ap₂ ◌∷◌ same (tallies-Same k (suc b) xs ys h)

  pub starts-Same :
      (k b first : ℕ) (xs ys : List ℕ)
      → Same xs ys
      → starts first (picks k b xs) ≡ starts first (picks k b ys)
  starts-Same zero b first xs ys h = refl
  starts-Same (suc k) b first xs ys h =
      let same = Same-length (picked b xs) (picked b ys) (picked-Same b xs ys h) in
      ap (◌∷◌ first) (
        ap (λ m. starts (first + m) (picks k (suc b) xs)) same
        ∙ starts-Same k (suc b) (first + length (picked b ys)) xs ys h)

  pub length-picks : (k b : ℕ) (slots : List ℕ) → length (picks k b slots) ≡ k
  length-picks zero b slots = refl
  length-picks (suc k) b slots = ap suc (length-picks k (suc b) slots)
