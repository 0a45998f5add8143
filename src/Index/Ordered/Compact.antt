-- ===== src/Index/Ordered/Compact.antt =====
-- `compact` of bucket_index.hpp keeps a cached order that is up to date.
use mathlib.Core.Path.{subst}
use speed_up.Common.{
  ℕ, suc, ◌+◌, ◌-◌, ◌<◌, ◌≤◌, ◌≡◌, refl, sym, ap, ◌∙◌, inl, inr, Bool, false, Option, some, List,
  [], ◌∷◌, length, map, get_or, get_elem?, take, drop, take-append-drop, replicate, ltb, Bool-cases,
  All, arith,
}
use speed_up.SortKey.{has_key}
use speed_up.Std.Sort.{IsSorted}
use speed_up.Layout.{indices_from}
use speed_up.Index.{KeyState, bucket_total, max_slots}
use speed_up.Index.Changes.{Compacted, compact_slots, compact_members, filter_buckets}
use speed_up.Index.Sorting.{slot_less}
use speed_up.Index.Sorting.Blocks.{take_left}
use speed_up.Index.Grouping.Counting.{tally}
use speed_up.Index.Grouping.Slots.{picked}
use speed_up.Index.Grouping.Passes.{has_moved}
use speed_up.Index.Grouping.Kept.{AreOf}
use speed_up.Index.Laid.{IsLaid}
use speed_up.Index.Laid.Keepers.{keepers, Numbered, length-keepers_same, Shape-taken}
use speed_up.Index.Laid.Compact.{compact_slots-buckets, compact_members-IsLaid}
use speed_up.Index.Ordered.{StillSorted}
use speed_up.Index.Ordered.Ready.{stayers-all}
use speed_up.Index.Ordered.Slots.{slot_less-agree, All-take}
use speed_up.Index.Ordered.Renumber.{
  new_slot, renumber, renumber-append, renumber-Same, renumber-IsSorted, renumber-picked,
  keepers-held, new_slot_mono,
}
use speed_up.Index.Ordered.Filter.{prefixes_left}

-- New numbers compare as the old ones.
ltb-new_slot :
    (remap : List (Option ℕ)) (s t r q : ℕ)
    → Numbered 0 remap
    → new_slot remap s ≡ some r
    → new_slot remap t ≡ some q
    → ltb r q ≡ ltb s t
ltb-new_slot remap s t r q h e f = elim (Bool-cases (ltb s t)) [
  | inl l ↦ let (above, less) = new_slot_mono remap 0 s t r q h e f (ground arith) in ground arith
  | inr l ↦ elim (Bool-cases (ltb t s)) [
    | inl g ↦ let (above, less) = new_slot_mono remap 0 t s q r h f e (ground arith) in ground arith
    | inr g ↦
        let same : s ≡ t = ground arith in
        let both : r ≡ q = some_injective (sym e ∙ ap (new_slot remap) same ∙ f) in ground arith
  ]
]
  where
    some_injective : {a b : ℕ} → some a ≡ some b → a ≡ b
    some_injective e = cc

pub AreOf-renumber :
    (remap : List (Option ℕ)) (was : List ℕ) (b : ℕ) (blocks : List (List ℕ))
    → length remap ≡ length was
    → Numbered 0 remap
    → AreOf was b blocks
    → AreOf (keepers remap was) b (map (renumber remap) blocks)
AreOf-renumber remap was b [] n h a = tt
AreOf-renumber remap was b (q ∷ qs) n h a =
    let old = picked was b (indices_from 0 (length was)) in
    let new =
      renumber-picked remap was (keepers remap was) b [] remap [] was [] refl refl refl refl n h in
    (
      λ s. renumber-Same remap q old a.0 s ∙ ap (λ l. tally s l) new,
      AreOf-renumber remap was (suc b) qs n h a.1,
    )

module _ {T : Type 0} (items : List T) (remap : List (Option ℕ)) (state : KeyState T) where
  -- The prefixes that are left are sorted.
  pub prefixes_left-StillSorted :
      (less less' : ℕ → ℕ → Bool) (state' : KeyState T) (m : ℕ)
      → ((s t r q : ℕ)
          → s < m
          → t < m
          → new_slot remap s ≡ some r
          → new_slot remap t ≡ some q
          → less' r q ≡ less s t)
      → ((s : ℕ) → has_moved state s ≡ false)
      → ((s : ℕ) → has_moved state' s ≡ false)
      → (b : ℕ) (lens : List ℕ) (qs : List (List ℕ))
      → ((i : ℕ) → get_or lens i 0 ≡ get_or state.sorted_len (b + i) 0)
      → All (λ q. All (λ s. s < m) q) qs
      → StillSorted less state lens qs
      → StillSorted less' state' (prefixes_left remap state b qs) (map (renumber remap) qs)
  prefixes_left-StillSorted less less' state' m agree unmoved unmoved' b [] [] at_b below h = tt
  prefixes_left-StillSorted less less' state' m agree unmoved unmoved' b [] (q ∷ qs) at_b below h =
      elim h [ ]
  prefixes_left-StillSorted less less' state' m agree unmoved unmoved' b (l ∷ lens) [] at_b below
        h =
      elim h [ ]
  prefixes_left-StillSorted less less' state' m agree unmoved unmoved' b (l ∷ lens) (q ∷ qs) at_b
        below h =
      let k = get_or state.sorted_len b 0 in
      let len : l ≡ k = at_b 0 ∙ ap (λ i. get_or state.sorted_len i 0) (omega arith) in
      let old : IsSorted less (take k q) =
        subst (λ i. IsSorted less (take i q)) len
          (subst (IsSorted less) (stayers-all state unmoved (take l q)) h.0) in
      let new : IsSorted less' (renumber remap (take k q)) =
        renumber-IsSorted remap (λ s. s < m) less less' agree (take k q)
          (All-take (λ s. s < m) k q below.0) old in
      let front : take (length (renumber remap (take k q))) (renumber remap q)
          ≡ renumber remap (take k q) =
        ap (λ xs. take (length (renumber remap (take k q))) (renumber remap xs))
          (sym (take-append-drop k q))
        ∙ ap (take (length (renumber remap (take k q))))
            (renumber-append remap (take k q) (drop k q))
        ∙ take_left (renumber remap (take k q)) (renumber remap (drop k q)) in
      (
        subst (IsSorted less') (sym (stayers-all state' unmoved' _ ∙ front)) new,
        prefixes_left-StillSorted less less' state' m agree unmoved unmoved' (suc b) lens qs
            (λ i. at_b (suc i) ∙ ap (λ j. get_or state.sorted_len j 0) (omega arith)) below.1 h.1,
      )

pub StillSorted-length :
    {T : Type 0} (less : ℕ → ℕ → Bool) (state : KeyState T) (l : List ℕ) (qs : List (List ℕ))
    → StillSorted less state l qs
    → length l ≡ length qs
StillSorted-length less state [] [] h = refl
StillSorted-length less state [] (q ∷ qs) h = elim h [ ]
StillSorted-length less state (x ∷ l) [] h = elim h [ ]
StillSorted-length less state (x ∷ l) (q ∷ qs) h = ap suc (StillSorted-length less state l qs h.1)

module _ {T : Type 0} (items : List T) (remap : List (Option ℕ)) (kept : ℕ) (state : KeyState T)
    (slots : List ℕ) (n : length remap ≡ length items) (numbered : Numbered 0 remap)
    (few : length items ≤ max_slots) (all_kept : kept ≡ length (keepers remap items))
    (laid : IsLaid items state) where
  pub compacted_buckets : (compact_members remap kept state).buckets ≡ keepers remap state.buckets
  unfolding compact_members
  compacted_buckets =
      let bs = state.buckets in
      let c : Compacted = record {
        keys = state.keys;
        buckets = bs;
        counts = state.counts;
        write = 0;
      } in
      let long = laid.counted.long in
      let (left, done, counts) =
        compact_slots-buckets (has_key state.key) (bucket_total state) remap [] [] bs 0 c
          (omega arith) refl (n ∙ sym long) (omega (arith, long)) laid.counted.below
          laid.counted.right refl in
      Shape-taken (keepers remap bs) left (compact_slots (has_key state.key) remap 0 c).buckets kept
        (all_kept ∙ sym (length-keepers_same remap bs items long)) done

  -- the state after the first loop, with the splitters' new numbers
  abbrev pub first_loop : KeyState T
  first_loop = record (compact_members remap kept state) { splitter_slots = slots }

  -- and with the grouping filtered
  abbrev pub filtered : KeyState T
  filtered =
      let f =
        filter_buckets remap first_loop (bucket_total state) 0 state.order 0 state.sorted_len
          (0 ∷ []) in
      record first_loop {
        order = take kept f.order;
        sorted_len = f.sorted_len;
        start = f.start;
        moved = replicate kept false;
        ordered_slots = kept;
      }

  pub agree :
      (s t r q : ℕ)
      → s < length items
      → t < length items
      → new_slot remap s ≡ some r
      → new_slot remap t ≡ some q
      → slot_less state.key (keepers remap items) (compact_members remap kept state).keys r q
        ≡ slot_less state.key items state.keys s t
  unfolding compact_members
  agree s t r q p p' e f =
      let (_, at_r) = keepers-held remap 0 items s r n numbered e in
      let (_, at_q) = keepers-held remap 0 items t q n numbered f in
      let same_r : r - 0 ≡ r = omega arith in
      let same_q : q - 0 ≡ q = omega arith in
      slot_less-agree state.key items (keepers remap items) state.keys _ s t r q laid.keyed
        (compact_members-IsLaid remap items kept state n few all_kept laid).keyed p p'
        (ap (get_elem? (keepers remap items)) (sym same_r) ∙ at_r)
        (ap (get_elem? (keepers remap items)) (sym same_q) ∙ at_q)
        (ltb-new_slot remap s t r q numbered e f)
