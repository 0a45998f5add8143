-- ===== src/Index/Sorting/Whole.antt =====
-- Sorting the slots bucket by bucket is sorting all slots.
use mathlib.Core.Path.{ap₂, subst}
use mathlib.Core.List.{append_assoc}
use speed_up.Common.{
  ℕ, zero, suc, ◌+◌, ◌<◌, ◌≤◌, ◌≡◌, refl, sym, ap, ◌∙◌, Bool, false, List, [], ◌∷◌, ◌++◌, length,
  map, get_or, ◌==◌, Bool-cases, inl, inr, ==_iff, ==_ne, All, All-append, length-append, arith,
}
use speed_up.Layout.{indices_from}
use speed_up.Std.{insert, stable_sort}
use speed_up.Std.Sort.{IsStrictWeak, IsFloor}
use speed_up.Std.Commute.{IsTotal, stable_sort-append_floor, stable_sort-middle}
use speed_up.Index.Grouping.Counting.{slots_in, grouped}
use speed_up.Index.Sorting.Blocks.{concat}

-- The slots from `slot` on, bucket by bucket: `grouped` with another first slot.
abbrev grouped_from : (k b slot : ℕ) → List ℕ → List ℕ
grouped_from zero b slot buckets = []
grouped_from (suc k) b slot buckets = slots_in b slot buckets ++ grouped_from k (suc b) slot buckets

grouped_from-grouped :
    (k b : ℕ) (buckets : List ℕ) → grouped_from k b 0 buckets ≡ grouped k b buckets
grouped_from-grouped zero b buckets = refl
grouped_from-grouped (suc k) b buckets =
    ap (◌++◌ (slots_in b 0 buckets)) (grouped_from-grouped k (suc b) buckets)

grouped_from-nil : (k b slot : ℕ) → grouped_from k b slot [] ≡ []
grouped_from-nil zero b slot = refl
grouped_from-nil (suc k) b slot = grouped_from-nil k (suc b) slot

grouped_from_below :
    (k b slot c : ℕ) (buckets : List ℕ)
    → c < b
    → grouped_from k b slot (c ∷ buckets) ≡ grouped_from k b (suc slot) buckets
grouped_from_below zero b slot c buckets h = refl
grouped_from_below (suc k) b slot c buckets h = rw (==_ne c b (omega arith)) (
    ap (◌++◌ (slots_in b (suc slot) buckets))
      (grouped_from_below k (suc b) slot c buckets (omega arith)))

-- What is known of each slot of a list of buckets, by its bucket.
abbrev Agree : (f : ℕ → ℕ) (slot : ℕ) → List ℕ → Type 0
Agree f slot [] = Unit
Agree f slot (c ∷ buckets) = (f slot ≡ c) × Agree f (suc slot) buckets

Agree-get_or :
    (front buckets : List ℕ) → Agree (λ s. get_or (front ++ buckets) s 0) (length front) buckets
Agree-get_or front [] = tt
Agree-get_or front (c ∷ buckets) =
    let more = front ++ c ∷ [] in
    let next : length more ≡ suc (length front) = omega (arith, length-append front (c ∷ [])) in
    (
      at_front front,
      subst (λ n. Agree (λ s. get_or (front ++ c ∷ buckets) s 0) n buckets) next
          (subst (λ xs. Agree (λ s. get_or xs s 0) (length more) buckets)
            (append_assoc front (c ∷ []) buckets) (Agree-get_or more buckets)),
    )
  where
    at_front : (front : List ℕ) → get_or (front ++ c ∷ buckets) (length front) 0 ≡ c
    at_front [] = refl
    at_front (x ∷ front) = at_front front

slots_in-All :
    (f : ℕ → ℕ) (b slot n : ℕ) (buckets : List ℕ)
    → Agree f slot buckets
    → slot + length buckets ≤ n
    → All (λ s. (s < n) × (f s ≡ b)) (slots_in b slot buckets)
slots_in-All f b slot n [] h le = tt
slots_in-All f b slot n (c ∷ buckets) h le = elim (Bool-cases (c == b)) [
  | inl e ↦ rw e (
    (omega arith, h.0 ∙ (==_iff c b).0 e),
    slots_in-All f b (suc slot) n buckets h.1 (omega arith),
  )
  | inr e ↦ rw e (slots_in-All f b (suc slot) n buckets h.1 (omega arith))
]

pub All-map : {P Q : ℕ → Type 0} → ((x : ℕ) → P x → Q x) → (xs : List ℕ) → All P xs → All Q xs
All-map f [] h = tt
All-map f (x ∷ xs) h = (f x h.0, All-map f xs h.1)

grouped-All :
    (f : ℕ → ℕ) (k b n : ℕ) (buckets : List ℕ)
    → Agree f 0 buckets
    → length buckets ≤ n
    → All (λ s. (s < n) × (b ≤ f s)) (grouped k b buckets)
grouped-All f zero b n buckets h le = tt
grouped-All f (suc k) b n buckets h le =
    All-append (λ s. (s < n) × (b ≤ f s)) (slots_in b 0 buckets) (grouped k (suc b) buckets)
      (All-map (λ s p. (p.0, omega arith)) (slots_in b 0 buckets)
        (slots_in-All f b 0 n buckets h (omega arith)))
      (All-map (λ s p. (p.0, omega arith)) (grouped k (suc b) buckets)
        (grouped-All f k (suc b) n buckets h le))

module _ (less : ℕ → ℕ → Bool) where
  abbrev pub sorted_slots : List ℕ → List ℕ
  sorted_slots = stable_sort less

  -- A block for each bucket from b, which sorts as the slots of that bucket do.
  abbrev pub AreSlots : (b : ℕ) → List (List ℕ) → List ℕ → Type 0
  AreSlots b [] buckets = Unit
  AreSlots b (p ∷ ps) buckets =
      (sorted_slots p ≡ sorted_slots (slots_in b 0 buckets)) × AreSlots (suc b) ps buckets

  -- Slots of later buckets are not below slots of earlier ones.
  abbrev pub InOrder : List ℕ → Type 0
  InOrder buckets =
      (s t : ℕ)
      → s < length buckets
      → t < length buckets
      → get_or buckets s 0 < get_or buckets t 0
      → less t s ≡ false

  sorted-congr :
      (xs ys zs : List ℕ)
      → sorted_slots ys ≡ sorted_slots zs
      → sorted_slots (xs ++ ys) ≡ sorted_slots (xs ++ zs)
  unfolding stable_sort
  sorted-congr [] ys zs h = h
  sorted-congr (x ∷ xs) ys zs h = ap (insert less x) (sorted-congr xs ys zs h)

  module _ (weak : IsStrictWeak less) where
    -- Blocks sorted one by one are the grouped slots, sorted as a whole.
    blocks-grouped :
        (b : ℕ) (blocks : List (List ℕ)) (buckets : List ℕ)
        → AreSlots b blocks buckets
        → InOrder buckets
        → concat (map sorted_slots blocks) ≡ sorted_slots (grouped (length blocks) b buckets)
    blocks-grouped b [] buckets h o = unfold stable_sort in refl
    blocks-grouped b (p ∷ ps) buckets h o =
        let f = λ (s : ℕ). get_or buckets s 0 in
        let n = length buckets in
        let here = slots_in-All f b 0 n buckets (Agree-get_or [] buckets) (omega arith) in
        let there =
          grouped-All f (length ps) (suc b) n buckets (Agree-get_or [] buckets) (omega arith) in
        let apart : All (λ s. IsFloor less s (grouped (length ps) (suc b) buckets))
            (slots_in b 0 buckets) =
          All-map
            (λ s p.
              All-map (λ t q. o s t p.0 q.0 (omega arith)) (grouped (length ps) (suc b) buckets)
                there)
            (slots_in b 0 buckets) here in
        ap₂ ◌++◌ h.0 (blocks-grouped (suc b) ps buckets h.1 o)
        ∙ sym (
            stable_sort-append_floor less weak (slots_in b 0 buckets)
              (grouped (length ps) (suc b) buckets) apart)

    module _ (total : IsTotal less) where
      grouped_from-cons :
          (k b slot c : ℕ) (buckets : List ℕ)
          → b ≤ c
          → c < b + k
          → sorted_slots (grouped_from k b slot (c ∷ buckets))
            ≡ insert less slot (sorted_slots (grouped_from k b (suc slot) buckets))
      grouped_from-cons zero b slot c buckets p h = absurd (omega arith)
      grouped_from-cons (suc k) b slot c buckets p h = elim (Bool-cases (c == b)) [
        | inl e ↦
            let below =
              grouped_from_below k (suc b) slot c buckets
                (let same = (==_iff c b).0 e in omega arith) in
            rw e (
              ap (λ l. sorted_slots (slot ∷ (slots_in b (suc slot) buckets ++ l))) below
              ∙ unfold stable_sort in refl)
        | inr e ↦
            let z = slots_in b (suc slot) buckets in
            let g' = grouped_from k (suc b) (suc slot) buckets in
            let rest = grouped_from-cons k (suc b) slot c buckets (ground arith) (omega arith) in
            rw e (
              sorted-congr z (grouped_from k (suc b) slot (c ∷ buckets)) (slot ∷ g')
                (rest ∙ unfold stable_sort in refl)
              ∙ stable_sort-middle less weak total z g' slot)
      ]

      grouped_from-indices :
          (k slot : ℕ) (buckets : List ℕ)
          → All (λ b. b < k) buckets
          → sorted_slots (grouped_from k 0 slot buckets)
            ≡ sorted_slots (indices_from slot (length buckets))
      unfolding indices_from
      grouped_from-indices k slot [] h = ap sorted_slots (grouped_from-nil k 0 slot)
      grouped_from-indices k slot (c ∷ buckets) h =
          grouped_from-cons k 0 slot c buckets (omega arith) (omega arith)
          ∙ ap (insert less slot) (grouped_from-indices k (suc slot) buckets h.1)
          ∙ unfold stable_sort in refl

      -- For a total order that follows the buckets, all of them in range: the blocks, each sorted, are
      -- together the stable sort of all slots.
      pub blocks-indices :
          (blocks : List (List ℕ)) (buckets : List ℕ)
          → AreSlots 0 blocks buckets
          → InOrder buckets
          → All (λ b. b < length blocks) buckets
          → concat (map sorted_slots blocks) ≡ sorted_slots (indices_from 0 (length buckets))
      blocks-indices blocks buckets h o range =
          blocks-grouped 0 blocks buckets h o
          ∙ ap sorted_slots (sym (grouped_from-grouped (length blocks) 0 buckets))
          ∙ grouped_from-indices (length blocks) 0 buckets range
