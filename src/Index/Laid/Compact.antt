-- ===== src/Index/Laid/Compact.antt =====
-- `compact` of bucket_index.hpp, the round of `remove_if` for one sort key, leaves the buckets of the
-- items that are kept as the layouts give them.
use mathlib.Core.Path.{subst}
use mathlib.Core.List.{append_assoc, append-nil}
use speed_up.Common.{
  ℕ, suc, ◌+◌, ◌^◌, ◌<◌, ◌≤◌, ◌≡◌, refl, sym, ap, ◌∙◌, Bool, true, Option, none, some, List, [],
  ◌∷◌, ◌++◌, ◌⊎◌, length, get_or, take, map, length-append, length-map, All, if◌then◌else◌,
  Bool-cases, inl, inr, ok, ok_injective, arith,
}
use speed_up.Common.Doubles.{Doubles}
use speed_up.Plan.{BucketPlan}
use speed_up.Plan.Valid.{IsValid}
use speed_up.SortKey.{SortKey, key_of, has_key}
use speed_up.Index.{KeyState, bucket_total, decrement, max_slots}
use speed_up.Index.Changes.{
  compact, Compacted, compact_slots, compact_members, compact_order, remap_splitters,
}
use speed_up.Index.Grouping.Counting.{tallies}
use speed_up.Index.Grouping.Tallies.{tallies-taken}
use speed_up.Index.Relayout.Counts.{Counted}
use speed_up.Index.Values.{kept_keys}
use speed_up.Index.Laid.{PlacedIn, IsLaid, base}
use speed_up.Index.Laid.Base.{frame-IsLaid, IsLaid-base}
use speed_up.Index.Laid.Relaid.{relayout-IsLaid}
use speed_up.Index.Laid.Keepers.{
  keepers, keepers-map, length-keepers, length-keepers_same, All-keepers, Shape, Shape-skip,
  Shape-written, Shape-read, Shape-taken,
}

-- The keys are filtered in place.
compact_slots-keys :
    (remap : List (Option ℕ)) (front junk rest : List ℕ) (slot : ℕ) (c : Compacted)
    → slot ≡ length front + length junk
    → c.write ≡ length front
    → length remap ≡ length rest
    → Shape front junk rest c.keys
    → (junk' : List ℕ) × Shape
        (front ++ keepers remap rest)
        junk'
        []
        (compact_slots true remap slot c).keys
unfolding compact_slots
compact_slots-keys [] front junk [] slot c e w n h =
    (junk, h ∙ ap (λ l. l ++ (junk ++ [])) (sym (append-nil front)))
compact_slots-keys (none ∷ remap) front junk (x ∷ rest) slot c e w n h =
    compact_slots-keys remap front (junk ++ x ∷ []) rest (suc slot) _
      (omega (arith, length-append junk (x ∷ []))) w (omega arith)
      (Shape-skip front junk x rest c.keys h)
compact_slots-keys (some r ∷ remap) front junk (x ∷ rest) slot c e w n h =
    let (junk', e', w', shape) = Shape-written 0 front junk x rest c.keys slot c.write e w h in
    let (left, done) =
      compact_slots-keys remap (front ++ x ∷ []) junk' rest (suc slot) _ e' w' (omega arith)
        shape in
    (left, done ∙ ap (λ l. l ++ (left ++ [])) (append_assoc front (x ∷ []) (keepers remap rest)))
compact_slots-keys [] front junk (x ∷ rest) slot c e w n h = absurd (omega arith)
compact_slots-keys (r ∷ remap) front junk [] slot c e w n h = absurd (omega arith)

-- So are the buckets, and the counts follow.
pub compact_slots-buckets :
    (keyed : Bool) (k : ℕ) (remap : List (Option ℕ)) (front junk rest : List ℕ) (slot : ℕ)
    (c : Compacted)
    → slot ≡ length front + length junk
    → c.write ≡ length front
    → length remap ≡ length rest
    → length (front ++ rest) < 2 ^ 32
    → All (λ b. b < k) rest
    → c.counts ≡ tallies k 0 (front ++ rest)
    → Shape front junk rest c.buckets
    → (junk' : List ℕ) × Shape
        (front ++ keepers remap rest)
        junk'
        []
        (compact_slots keyed remap slot c).buckets
      × ((compact_slots keyed remap slot c).counts ≡ tallies k 0 (front ++ keepers remap rest))
unfolding compact_slots
compact_slots-buckets keyed k [] front junk [] slot c e w n few below counts h =
    (junk, h ∙ ap (λ l. l ++ (junk ++ [])) (sym (append-nil front)), counts)
compact_slots-buckets keyed k (none ∷ remap) front junk (x ∷ rest) slot c e w n few below counts h =
    let fewer : length (front ++ rest) < 2 ^ 32 =
      omega (arith, few, length-append front (x ∷ rest), length-append front rest) in
    let counts' : decrement c.counts (get_or c.buckets slot 0) ≡ tallies k 0 (front ++ rest) =
      ap (decrement c.counts) (Shape-read 0 front junk x rest c.buckets slot e h)
      ∙ ap (λ l. decrement l x) counts
      ∙ tallies-taken k x front rest below.0 fewer in
    compact_slots-buckets keyed k remap front (junk ++ x ∷ []) rest (suc slot) _
      (omega (arith, length-append junk (x ∷ []))) w (omega arith) fewer below.1 counts'
      (Shape-skip front junk x rest c.buckets h)
compact_slots-buckets keyed k (some r ∷ remap) front junk (x ∷ rest) slot c e w n few below counts
      h =
    let again : (front ++ x ∷ []) ++ rest ≡ front ++ x ∷ rest = append_assoc front (x ∷ []) rest in
    let (junk', e', w', shape) = Shape-written 0 front junk x rest c.buckets slot c.write e w h in
    let (left, done, counts') =
      compact_slots-buckets keyed k remap (front ++ x ∷ []) junk' rest (suc slot) _ e' w'
        (omega arith) (omega (arith, few, ap length again)) below.1
        (counts ∙ ap (tallies k 0) (sym again)) shape in
    let whole = append_assoc front (x ∷ []) (keepers remap rest) in
    (left, done ∙ ap (λ l. l ++ (left ++ [])) whole, counts' ∙ ap (tallies k 0) whole)
compact_slots-buckets keyed k [] front junk (x ∷ rest) slot c e w n few below counts h =
    absurd (omega arith)
compact_slots-buckets keyed k (r ∷ remap) front junk [] slot c e w n few below counts h =
    absurd (omega arith)

module _ {T : Type 0} where
  PlacedIn-keepers :
      (state : KeyState T) (remap : List (Option ℕ)) (items : List T) (buckets : List ℕ)
      → PlacedIn state items buckets
      → PlacedIn state (keepers remap items) (keepers remap buckets)
  PlacedIn-keepers state [] items buckets h = tt
  PlacedIn-keepers state (r ∷ remap) [] [] h = tt
  PlacedIn-keepers state (none ∷ remap) (x ∷ items) (b ∷ buckets) h =
      PlacedIn-keepers state remap items buckets h.1
  PlacedIn-keepers state (some r ∷ remap) (x ∷ items) (b ∷ buckets) h =
      (h.0, PlacedIn-keepers state remap items buckets h.1)
  PlacedIn-keepers state (r ∷ remap) [] (b ∷ buckets) h = elim h [ ]
  PlacedIn-keepers state (r ∷ remap) (x ∷ items) [] h = elim h [ ]

  filtered_keys :
      (key : SortKey T) (remap : List (Option ℕ)) (items : List T) (kept : ℕ)
      (keys buckets counts : List ℕ)
      → length remap ≡ length items
      → kept ≡ length (keepers remap items)
      → keys ≡ kept_keys key items
      → take
          (if has_key key then kept else 0)
          (compact_slots
            (has_key key)
            remap
            0
            (record { keys = keys; buckets = buckets; counts = counts; write = 0 })).keys
        ≡ kept_keys key (keepers remap items)
  filtered_keys key remap items kept keys buckets counts n e h = elim (Bool-cases (has_key key)) [
    | inr k ↦ rw k refl
    | inl k ↦
        let f = key_of key in
        let keyed : keys ≡ map f items = rw k at h in
        let c : Compacted = record { keys = keys; buckets = buckets; counts = counts; write = 0 } in
        let (left, done) =
          compact_slots-keys remap [] [] (map f items) 0 c (omega arith) refl
            (n ∙ sym (length-map items f)) keyed in
        let total : kept ≡ length (keepers remap (map f items)) =
          e ∙ sym (length-map (keepers remap items) f) ∙ ap length (keepers-map f remap items) in
        rw k (
          Shape-taken (keepers remap (map f items)) left (compact_slots true remap 0 c).keys kept
            total done
          ∙ sym (keepers-map f remap items))
  ]

  -- The vectors that the first loop of `compact` filters.
  pub compact_members-IsLaid :
      (remap : List (Option ℕ)) (items : List T) (kept : ℕ) (state : KeyState T)
      → length remap ≡ length items
      → length items ≤ max_slots
      → kept ≡ length (keepers remap items)
      → IsLaid items state
      → IsLaid (keepers remap items) (compact_members remap kept state)
  unfolding compact_members
  compact_members-IsLaid remap items kept state n few e laid =
      let k = bucket_total state in
      let bs = state.buckets in
      let c : Compacted = record {
        keys = state.keys;
        buckets = bs;
        counts = state.counts;
        write = 0;
      } in
      let long = laid.counted.long in
      let (left, done, counts) =
        compact_slots-buckets (has_key state.key) k remap [] [] bs 0 c (omega arith) refl
          (n ∙ sym long) (omega (arith, long)) laid.counted.below laid.counted.right refl in
      let kept_buckets = keepers remap bs in
      let total : length kept_buckets ≡ length (keepers remap items) =
        length-keepers_same remap bs items long in
      let taken : take kept (compact_slots (has_key state.key) remap 0 c).buckets ≡ kept_buckets =
        Shape-taken kept_buckets left (compact_slots (has_key state.key) remap 0 c).buckets kept
          (e ∙ sym total) done in
      let counted : Counted k (length (keepers remap items)) kept_buckets
          (compact_slots (has_key state.key) remap 0 c).counts =
        record {
          long = total;
          below = All-keepers (λ b. b < k) remap bs laid.counted.below;
          right = counts;
        } in
      frame-IsLaid (keepers remap items) state _ refl
        (filtered_keys state.key remap items kept state.keys bs state.counts n e laid.keyed)
        (subst (PlacedIn state (keepers remap items)) (sym taken)
          (PlacedIn-keepers state remap items bs laid.placed))
        (subst
          (λ l.
            Counted k (length (keepers remap items)) l
              (compact_slots (has_key state.key) remap 0 c).counts)
          (sym taken) counted)
        laid.ranged

  base-compact_order :
      (remap : List (Option ℕ)) (kept : ℕ) (state : KeyState T)
      → base (compact_order remap kept state) ≡ base state
  unfolding compact_order
  base-compact_order remap kept state = elim (Bool-cases state.has_order) [
    | inl e ↦ rw e refl
    | inr e ↦ rw e refl
  ]

module _ {F : Type 0} ⦃d : Doubles F⦄ {T : Type 0} where
  -- `compact` keeps the key, and lays it out anew where a splitter is removed.
  pub compact-IsLaid :
      (plan : BucketPlan F) (remap : List (Option ℕ)) (items : List T) (kept : ℕ)
      (state : KeyState T) {state' : KeyState T}
      → IsValid plan
      → 0 < state.key.groups
      → length remap ≡ length items
      → length items ≤ max_slots
      → kept ≡ length (keepers remap items)
      → compact plan (keepers remap items) remap kept state ≡ ok state'
      → IsLaid items state
      → IsLaid (keepers remap items) state' × (state'.key ≡ state.key)
  unfolding compact
  compact-IsLaid plan remap items kept state {state'} valid some_group n few e h laid =
      let s = compact_members remap kept state in
      let laid' = compact_members-IsLaid remap items kept state n few e laid in
      let same : s.key ≡ state.key = key-compact_members remap kept state in
      let fewer : length (keepers remap items) ≤ max_slots =
        omega (arith, length-keepers remap items) in
      elim (splitters-cases (remap_splitters remap s.splitter_slots)) [
        | inl none_left ↦
            let (good, key) =
              relayout-IsLaid plan (keepers remap items) s valid
                (omega (arith, ap (λ k. k.groups) same)) fewer laid'.keyed
                (rw (compact, none_left) at h) in
            (good, key ∙ same)
        | inr (slots, all_left) ↦
            let s' = record s { splitter_slots = slots } in
            let made = ok_injective (rw (compact, all_left) at h) in
            let keeps : base state' ≡ base s =
              ap base (sym made) ∙ base-compact_order remap kept s' in
            (IsLaid-base (keepers remap items) s state' keeps laid', ap (λ x. x.key) keeps ∙ same)
      ]
    where
      splitters-cases : (o : Option (List ℕ)) → (o ≡ none) ⊎ (slots : List ℕ) × (o ≡ some slots)
      splitters-cases none = inl refl
      splitters-cases (some slots) = inr (slots, refl)

      key-compact_members :
          (remap : List (Option ℕ)) (kept : ℕ) (state : KeyState T)
          → (compact_members remap kept state).key ≡ state.key
      key-compact_members remap kept state = unfold compact_members in refl
