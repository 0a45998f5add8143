-- ===== src/Index/Reads/Range.antt =====
-- `range` of bucket_index.hpp on a key without groups: the refinement of a lazily sorted list by
-- `std::stable_sort`.
use mathlib.Core.Path.{ap₂, subst}
use mathlib.Core.List.{append_assoc, reverse-append}
use native.Mathlib.Nat.{zero-add}
use speed_up.Common.{
  ℕ, zero, suc, ◌+◌, ◌-◌, ◌<◌, ◌≤◌, ◌≡◌, refl, sym, ap, ◌∙◌, List, [], ◌∷◌, ◌++◌, length, map,
  reverse, get_or, take, drop, take-append-drop, length-take, length-drop, length-reverse,
  length-append, length-map, All, ok, ◌>>=◌, arith, dec_le,
}
use speed_up.SortKey.{tie_break}
use speed_up.SortKey.Order.{IsThreeWay}
use speed_up.Layout.{indices_from}
use speed_up.Std.Sort.{length-stable_sort}
use speed_up.Index.{KeyState, ascending, descending, bucket_at}
use speed_up.Index.Sorting.{slot_less, sort_buckets}
use speed_up.Index.Sorting.Blocks.{concat, concat-append, starts, get_or-starts, laid}
use speed_up.Index.Values.{values-sorted, sorted-in_range}
use speed_up.Index.Reads.{range_plain, items_up, items_down}
use speed_up.Index.Reads.Locate.{bucket_at-starts, starts_mono}
use speed_up.Index.Reads.Slices.{
  slice_middle, All-slice, map-slice, items_up-slice, items_down-slice,
}
use speed_up.Index.Reads.Window.{
  IsReady, sorted_items, all_slots, ps, ms, qs, window, length-ps, length-ms, new_blocks,
  new_lengths, window_sorted, window_final, window-IsReady, sorted_blocks, length-concat_sorted,
  keyed,
}

length-indices : (from count : ℕ) → length (indices_from from count) ≡ count
unfolding indices_from
length-indices from zero = refl
length-indices from (suc count) = ap suc (length-indices (suc from) count)

module _ {T : Type 0} (x₀ : T) (rest : List T) (state : KeyState T)
    (c : IsThreeWay (tie_break state.key)) (ready : IsReady (x₀ ∷ rest) state c) where
  length-all_slots : length (all_slots x₀ rest state c ready) ≡ length (x₀ ∷ rest)
  length-all_slots =
      length-stable_sort (slot_less state.key (x₀ ∷ rest) state.keys)
        (indices_from 0 (length (x₀ ∷ rest)))
      ∙ length-indices 0 (length (x₀ ∷ rest))

  length-order : length (concat ready.blocks) ≡ length (x₀ ∷ rest)
  length-order =
      sym (length-concat_sorted (x₀ ∷ rest) state c ready.blocks)
      ∙ ap length (sorted_blocks x₀ rest state c ready)
      ∙ length-all_slots

  -- The buckets of a range of positions are a window around it.
  module _ (from to : ℕ) (some : from < to) (inside : to ≤ length (x₀ ∷ rest)) where
    first : ℕ
    first = bucket_at state from

    last : ℕ
    last = bucket_at state (to - 1)

    at_from :
        (first < length ready.blocks)
        × (get_or state.start first 0 ≤ from)
        × (from < get_or state.start (suc first) 0)
    unfolding first
    at_from =
        bucket_at-starts state ready.blocks from ready.holds.begins ready.few
          (omega (arith, length-order))

    at_to :
        (last < length ready.blocks)
        × (get_or state.start last 0 ≤ to - 1)
        × (to - 1 < get_or state.start (suc last) 0)
    unfolding last
    at_to =
        bucket_at-starts state ready.blocks (to - 1) ready.holds.begins ready.few
          (omega (arith, length-order))

    first_le_last : first ≤ last
    first_le_last = elim (dec_le first last) [
      | yes p ↦ p
      | no p ↦
          let mono =
            starts_mono 0 ready.blocks (suc last) first (omega arith) (omega (arith, at_from.0)) in
          let same = λ (i : ℕ). ap (λ l. get_or l i 0) ready.holds.begins in
          absurd (omega (arith, mono, same (suc last), same first, at_from.1, at_to.2))
    ]

    fits : first + (last + 1 - first) ≤ length ready.blocks
    fits = omega (arith, first_le_last, at_to.0)

    -- the state after the loop over the buckets from `first` to `last`
    new_order : List ℕ
    new_order = concat (new_blocks x₀ rest state c ready first (last + 1 - first) fits)

    lengths : List ℕ
    lengths = new_lengths x₀ rest state c ready first (last + 1 - first) fits

    loop : sort_buckets (x₀ ∷ rest) (last + 1 - first) first state ≡ laid state new_order lengths
    unfolding new_order lengths
    loop = window_sorted x₀ rest state c ready first (last + 1 - first) fits

    loop-IsReady : IsReady (x₀ ∷ rest) (laid state new_order lengths) c
    unfolding new_order lengths
    loop-IsReady = window-IsReady x₀ rest state c ready first (last + 1 - first) fits

    window_start :
        get_or state.start first 0
        ≡ length (concat (ps x₀ rest state c ready first (last + 1 - first) fits))
    window_start =
        let m = last + 1 - first in
        let p = ps x₀ rest state c ready first m fits in
        let tail = ms x₀ rest state c ready first m fits ++ qs x₀ rest state c ready first m fits in
        ap (λ l. get_or l first 0)
          (ready.holds.begins ∙ ap (starts 0) (window x₀ rest state c ready first m fits))
        ∙ ap (λ i. get_or (starts 0 (p ++ tail)) i 0)
            (sym (length-ps x₀ rest state c ready first m fits))
        ∙ get_or-starts 0 p tail
        ∙ zero-add _

    window_end :
        get_or state.start (suc last) 0
        ≡ length (concat (ps x₀ rest state c ready first (last + 1 - first) fits))
          + length (concat (ms x₀ rest state c ready first (last + 1 - first) fits))
    window_end =
        let m = last + 1 - first in
        let p = ps x₀ rest state c ready first m fits in
        let w = ms x₀ rest state c ready first m fits in
        let q = qs x₀ rest state c ready first m fits in
        let index : suc last ≡ length (p ++ w) = omega (
          arith,
          length-append p w,
          length-ps x₀ rest state c ready first m fits,
          length-ms x₀ rest state c ready first m fits,
          first_le_last,
        ) in
        ap (λ l. get_or l (suc last) 0)
          (ready.holds.begins
            ∙ ap (starts 0) (window x₀ rest state c ready first m fits ∙ sym (append_assoc p w q)))
        ∙ ap (λ i. get_or (starts 0 ((p ++ w) ++ q)) i 0) index
        ∙ get_or-starts 0 (p ++ w) q
        ∙ zero-add _
        ∙ ap length (concat-append p w)
        ∙ length-append (concat p) (concat w)

    -- In the range the order is that of all slots.
    range_final :
        take (to - from) (drop from new_order)
        ≡ take (to - from) (drop from (all_slots x₀ rest state c ready))
    unfolding new_order
    range_final =
        window_final x₀ rest state c ready first (last + 1 - first) fits from (to - from)
          (omega (arith, window_start, at_from.1)) (omega (arith, window_end, at_to.2, some))

    range_slots : All (λ t. t < length (x₀ ∷ rest)) (take (to - from) (drop from new_order))
    range_slots = subst (All (λ t. t < length (x₀ ∷ rest))) (sym range_final) (
        All-slice (λ t. t < length (x₀ ∷ rest)) from (to - from) (all_slots x₀ rest state c ready)
          (sorted-in_range state.key ready.ungrouped c x₀ rest state.keys
            (keyed x₀ rest state c ready)))

    range_values :
        map (λ s. get_or (x₀ ∷ rest) s x₀) (take (to - from) (drop from new_order))
        ≡ take (to - from) (drop from (sorted_items state.key (x₀ ∷ rest)))
    range_values =
        let value = λ (s : ℕ). get_or (x₀ ∷ rest) s x₀ in
        ap (map value) range_final
        ∙ map-slice value from (to - from) (all_slots x₀ rest state c ready)
        ∙ ap (λ l. take (to - from) (drop from l))
            (values-sorted state.key ready.ungrouped c x₀ rest state.keys
              (keyed x₀ rest state c ready))

module _ {T : Type 0} (x₀ : T) (rest : List T) (state : KeyState T)
    (c : IsThreeWay (tie_break state.key)) (ready : IsReady (x₀ ∷ rest) state c) (from to : ℕ)
    (some : from < to) (inside : to ≤ length (x₀ ∷ rest)) where
  -- The key state that a read of the range leaves.
  read_state : KeyState T
  read_state =
      laid state (new_order x₀ rest state c ready from to some inside)
        (lengths x₀ rest state c ready from to some inside)

  length-read_state : length read_state.order ≡ length (x₀ ∷ rest)
  unfolding read_state
  length-read_state =
      let r = loop-IsReady x₀ rest state c ready from to some inside in
      ap length r.made ∙ length-order x₀ rest read_state c r

  read_up :
      items_up (x₀ ∷ rest) read_state (to - from) from
      ≡ ok (take (to - from) (drop from (sorted_items state.key (x₀ ∷ rest))))
  unfolding read_state
  read_up =
      items_up-slice x₀ (x₀ ∷ rest) read_state (to - from) from (omega (arith, length-read_state))
        (range_slots x₀ rest state c ready from to some inside)
      ∙ ap ok (range_values x₀ rest state c ready from to some inside)

  read_down :
      items_down (x₀ ∷ rest) read_state (to - from) from
      ≡ ok (reverse (take (to - from) (drop from (sorted_items state.key (x₀ ∷ rest)))))
  unfolding read_state
  read_down =
      items_down-slice x₀ (x₀ ∷ rest) read_state (to - from) from (omega (arith, length-read_state))
        (range_slots x₀ rest state c ready from to some inside)
      ∙ ap (λ l. ok (reverse l)) (range_values x₀ rest state c ready from to some inside)

  -- For a ready key state and a range of positions: `range` in ascending order, which sorts only the
  -- buckets that it touches, returns what stands at these positions of the items sorted as a whole by
  -- `std::stable_sort`, and leaves a ready key state.
  pub range_plain-ascending :
      (new_order : List ℕ) × (lengths : List ℕ) × IsReady
        (x₀ ∷ rest)
        (laid state new_order lengths)
        c
      × (range_plain ascending (x₀ ∷ rest) from to state
          ≡ ok (
            laid state new_order lengths,
            take (to - from) (drop from (sorted_items state.key (x₀ ∷ rest))),
          ))
  unfolding range_plain first last read_state
  range_plain-ascending = (
    new_order x₀ rest state c ready from to some inside,
    lengths x₀ rest state c ready from to some inside,
    loop-IsReady x₀ rest state c ready from to some inside,
    ap (λ s. items_up (x₀ ∷ rest) s (to - from) from >>= λ xs. ok (s, xs))
          (loop x₀ rest state c ready from to some inside)
        ∙ ap (λ r. r >>= λ xs. ok (read_state, xs)) read_up,
  )

take-length : {A : Type 0} (n : ℕ) (xs : List A) → n ≡ length xs → take n xs ≡ xs
take-length n [] h = rw h refl
take-length zero (x ∷ xs) h = absurd (omega arith)
take-length (suc n) (x ∷ xs) h = ap (◌∷◌ x) (take-length n xs (omega arith))

-- The slice of a reversed list is the slice, reversed, that stands as far from the end.
reverse-slice :
    {A : Type 0} (xs : List A) (from to : ℕ)
    → from ≤ to
    → to ≤ length xs
    → reverse (take (to - from) (drop (length xs - to) xs))
      ≡ take (to - from) (drop from (reverse xs))
reverse-slice xs from to p q =
    let r = to - from in
    let front = take (length xs - to) xs in
    let behind = drop (length xs - to) xs in
    let mid = take r behind in
    let back = drop r behind in
    let split : xs ≡ front ++ (mid ++ back) =
      sym (ap (◌++◌ front) (take-append-drop r behind) ∙ take-append-drop (length xs - to) xs) in
    let mirrored : reverse xs ≡ reverse back ++ (reverse mid ++ reverse front) =
      ap reverse split
      ∙ reverse-append front (mid ++ back)
      ∙ ap (λ l. l ++ reverse front) (reverse-append mid back)
      ∙ append_assoc (reverse back) (reverse mid) (reverse front) in
    let behind_long = length-drop (length xs - to) xs in
    let back_long : length (reverse back) ≡ from =
      omega (arith, length-reverse back, length-drop r behind, behind_long) in
    let mid_long : r ≡ length (reverse mid) =
      omega (arith, length-reverse mid, length-take r behind, behind_long) in
    let at_start : from - length (reverse back) ≡ 0 = omega (arith, back_long) in
    sym (
      ap (λ l. take r (drop from l)) mirrored
      ∙ slice_middle (reverse back) (reverse mid) (reverse front) from r (omega (arith, back_long))
          (omega (arith, back_long, mid_long))
      ∙ ap (λ i. take r (drop i (reverse mid))) at_start
      ∙ take-length r (reverse mid) mid_long)

module _ {T : Type 0} (x₀ : T) (rest : List T) (state : KeyState T)
    (c : IsThreeWay (tie_break state.key)) (ready : IsReady (x₀ ∷ rest) state c) (from to : ℕ)
    (some : from < to) (inside : to ≤ length (x₀ ∷ rest)) where
  length-sorted_items : length (sorted_items state.key (x₀ ∷ rest)) ≡ length (x₀ ∷ rest)
  length-sorted_items =
      ap length (
        sym (
          values-sorted state.key ready.ungrouped c x₀ rest state.keys
            (keyed x₀ rest state c ready)))
      ∙ length-map (all_slots x₀ rest state c ready) (λ s. get_or (x₀ ∷ rest) s x₀)
      ∙ length-all_slots x₀ rest state c ready

  -- For a ready key state and a range of positions: `range` in descending order returns what stands at
  -- these positions of the reverse of the items sorted as a whole by `std::stable_sort`, and leaves a
  -- ready key state.
  pub range_plain-descending :
      (new_order : List ℕ) × (lengths : List ℕ) × IsReady
        (x₀ ∷ rest)
        (laid state new_order lengths)
        c
      × (range_plain descending (x₀ ∷ rest) from to state
          ≡ ok (
            laid state new_order lengths,
            take (to - from) (drop from (reverse (sorted_items state.key (x₀ ∷ rest)))),
          ))
  unfolding range_plain first last read_state
  range_plain-descending =
      let n = length (x₀ ∷ rest) in
      let lo = n - to in
      let hi = n - from in
      let some' : lo < hi = omega arith in
      let inside' : hi ≤ n = omega arith in
      let width : hi - lo ≡ to - from = omega arith in
      let all = sorted_items state.key (x₀ ∷ rest) in
      let mirrored : reverse (take (hi - lo) (drop lo all))
          ≡ take (to - from) (drop from (reverse all)) =
        ap₂ (λ w i. reverse (take w (drop (i - to) all))) width (sym length-sorted_items)
        ∙ reverse-slice all from to (omega arith) (omega (arith, length-sorted_items)) in
      (
        new_order x₀ rest state c ready lo hi some' inside',
        lengths x₀ rest state c ready lo hi some' inside',
        loop-IsReady x₀ rest state c ready lo hi some' inside',
        ap (λ s. items_down (x₀ ∷ rest) s (hi - lo) lo >>= λ xs. ok (s, xs))
              (loop x₀ rest state c ready lo hi some' inside')
            ∙ ap (λ r. r >>= λ xs. ok (read_state x₀ rest state c ready lo hi some' inside', xs))
                (read_down x₀ rest state c ready lo hi some' inside' ∙ ap ok mirrored),
      )
