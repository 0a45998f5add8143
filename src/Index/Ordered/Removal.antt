-- ===== src/Index/Ordered/Removal.antt =====
-- The cached order after `compact` of bucket_index.hpp.
use mathlib.Core.Path.{subst}
use speed_up.Common.{
  ℕ, ◌<◌, ◌≤◌, ◌≡◌, refl, sym, ap, ◌∙◌, Bool, true, false, Option, List, [], ◌∷◌, length,
  length-map, length-replicate, map, get_or, All, arith,
}
use speed_up.Layout.{indices_from}
use speed_up.Index.{KeyState, bucket_total, max_slots}
use speed_up.Index.Changes.{compact_members, compact_order, filter_buckets}
use speed_up.Index.Sorting.{slot_less}
use speed_up.Index.Sorting.Blocks.{concat}
use speed_up.Index.Grouping.Same.{Same-length, length-indices}
use speed_up.Index.Grouping.Kept.{AreOf, concat-Same}
use speed_up.Index.Laid.{IsLaid}
use speed_up.Index.Laid.Keepers.{keepers, Numbered, All-keepers, length-keepers_same, Shape-taken}
use speed_up.Index.Ordered.{StillSorted, IsOrdered}
use speed_up.Index.Ordered.Ready.{was-buckets}
use speed_up.Index.Ordered.Slots.{AreOf-below}
use speed_up.Index.Ordered.Renewal.{get_or-replicate}
use speed_up.Index.Ordered.Renumber.{renumber}
use speed_up.Index.Ordered.Filter.{AllDone, filter_buckets-AllDone, starts-ends}
use speed_up.Index.Ordered.Compact.{
  AreOf-renumber, prefixes_left-StillSorted, StillSorted-length, compacted_buckets, first_loop,
  filtered, agree,
}

module _ {T : Type 0} (items : List T) (remap : List (Option ℕ)) (kept : ℕ) (state : KeyState T)
    (slots : List ℕ) (n : length remap ≡ length items) (numbered : Numbered 0 remap)
    (few : length items ≤ max_slots) (all_kept : kept ≡ length (keepers remap items))
    (laid : IsLaid items state) where
  loop_state : KeyState T
  loop_state = first_loop items remap kept state slots n numbered few all_kept laid

  pub result : KeyState T
  result = filtered items remap kept state slots n numbered few all_kept laid

  module _ (o : IsOrdered items state) (current : state.order_stale ≡ false) where
    abbrev blocks : List (List ℕ)
    blocks = map (renumber remap) o.blocks

    filtered_all :
        let f =
          filter_buckets remap loop_state
            (bucket_total state)
            0
            state.order
            0
            state.sorted_len
            (0 ∷ []) in
        AllDone remap loop_state [] 0 o.blocks [] (0 ∷ []) f.order f.sorted_len f.start
    unfolding loop_state compact_members
    filtered_all =
        subst
          (λ k.
            let f = filter_buckets remap loop_state k 0 state.order 0 state.sorted_len (0 ∷ []) in
            AllDone remap loop_state [] 0 o.blocks [] (0 ∷ []) f.order f.sorted_len f.start)
          o.grouped.many
          (filter_buckets-AllDone remap loop_state [] o.blocks [] [] 0 state.order 0 []
            state.sorted_len state.sorted_len (0 ∷ []) o.grouped.made o.grouped.begins refl refl
            refl refl refl
            (StillSorted-length (slot_less state.key items state.keys) state state.sorted_len
              o.blocks o.sorted))

    same_buckets : keepers remap o.was ≡ keepers remap state.buckets
    same_buckets = ap (keepers remap) (was-buckets items state o current)

    now : AreOf (keepers remap o.was) 0 blocks
    now =
        AreOf-renumber remap o.was 0 o.blocks
          (n ∙ sym laid.counted.long ∙ ap length (sym (was-buckets items state o current))) numbered
          o.grouped.slots

    kept_long : length (keepers remap o.was) ≡ kept
    kept_long =
        ap length same_buckets
        ∙ length-keepers_same remap state.buckets items laid.counted.long
        ∙ sym all_kept

    now_below : All (λ b. b < length blocks) (keepers remap o.was)
    now_below =
        subst (λ k. All (λ b. b < k) (keepers remap o.was))
          (sym (length-map o.blocks (renumber remap)))
          (All-keepers (λ b. b < length o.blocks) remap o.was o.grouped.below)

    -- The grouping that is left is up to date.
    pub filtered-IsOrdered : IsOrdered (keepers remap items) result
    unfolding result compact_members bucket_total loop_state
    filtered-IsOrdered =
        let f =
          filter_buckets remap loop_state (bucket_total state) 0 state.order 0 state.sorted_len
            (0 ∷ []) in
        let done = filtered_all in
        let total : kept ≡ length (concat blocks) = sym (
          Same-length (concat blocks) (indices_from 0 (length (keepers remap o.was)))
            (concat-Same (keepers remap o.was) blocks now now_below)
          ∙ length-indices 0 (length (keepers remap o.was))
          ∙ kept_long) in
        let buckets_now : keepers remap o.was ≡ (compact_members remap kept state).buckets =
          same_buckets
          ∙ sym (compacted_buckets items remap kept state slots n numbered few all_kept laid) in
        let sorted =
          prefixes_left-StillSorted items remap state (slot_less state.key items state.keys)
            (slot_less state.key (keepers remap items) (compact_members remap kept state).keys)
            result (length items)
            (λ s t r q. agree items remap kept state slots n numbered few all_kept laid s t r q)
            (o.fresh current).1 (get_or-replicate kept) 0 state.sorted_len o.blocks
            (λ i. ap (λ j. get_or state.sorted_len j 0) (omega arith))
            (subst (λ m. All (λ q. All (λ s. s < m) q) o.blocks)
              (ap length (was-buckets items state o current) ∙ laid.counted.long)
              (AreOf-below o.was 0 o.blocks o.grouped.slots))
            o.sorted in
        record {
          was = keepers remap o.was;
          blocks = blocks;
          grouped = record {
            many = length-map o.blocks (renumber remap) ∙ o.grouped.many;
            made = Shape-taken (concat blocks) done.junk f.order kept total done.shape;
            begins = done.begins ∙ sym (starts-ends 0 blocks);
            slots = now;
            below = now_below;
            old = kept_long;
            known = omega (arith, kept_long, ap length buckets_now);
            homes = λ s lt stays. ap (λ l. get_or l s 0) buckets_now;
          };
          sorted =
              subst
                (λ l.
                  StillSorted
                    (slot_less state.key (keepers remap items)
                      (compact_members remap kept state).keys)
                    result l blocks)
                (sym done.counts) sorted;
          marks = length-replicate {A = Bool} kept false;
          fresh = λ e. (sym kept_long ∙ ap length buckets_now, get_or-replicate kept);
        }

  -- With an order, `compact_order` filters it.
  pub compact_order-result :
      state.has_order ≡ true
      → compact_order remap kept
          (first_loop items remap kept state slots n numbered few all_kept laid)
        ≡ result
  unfolding compact_order result compact_members bucket_total
  compact_order-result cached = rw cached refl

  pub compact_order-none :
      state.has_order ≡ false
      → (compact_order remap kept
          (first_loop items remap kept state slots n numbered few all_kept laid)).has_order
        ≡ false
  unfolding compact_order compact_members
  compact_order-none unordered = rw unordered refl
