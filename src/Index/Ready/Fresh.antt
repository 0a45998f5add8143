-- ===== src/Index/Ready/Fresh.antt =====
-- `relayout` of bucket_index.hpp on a key without groups, and `build_order` on what it returns.
use mathlib.Core.Path.{ap₂, subst}
use mathlib.Core.List.{append_assoc, append-nil}
use native.Mathlib.Nat.{add-zero, zero-add}
use speed_up.Common.{
  ℕ, suc, ◌+◌, ◌*◌, ◌%◌, ◌^◌, ◌<◌, ◌≤◌, ◌≡◌, refl, sym, ap, ◌∙◌, false, none, List, [], ◌∷◌, ◌++◌,
  length, map, get_or, replicate, All, ok, ◌>>=◌, Bool-cases, inl, inr, length-append, length-map,
  arith,
}
use speed_up.Common.Doubles.{Doubles}
use speed_up.Plan.{BucketPlan}
use speed_up.Plan.Valid.{IsValid}
use speed_up.SortKey.{SortKey, has_key, key_of, tie_break}
use speed_up.SortKey.Order.{IsThreeWay}
use speed_up.Layout.{BucketLayout, bucket_of, bucket_of_keyed, bucket_count, estimate}
use speed_up.Layout.Sample.{mul_mono}
use speed_up.Layout.Buckets.{IsLayout, bucket_of-lt}
use speed_up.Layout.Estimate.{estimate-IsLayout}
use speed_up.Index.{KeyState, bucket_for, local_bucket, bucket_total, increment, max_slots}
use speed_up.Index.Relayout.{
  assign_loop, offsets, with_layouts, without_order, relayout, estimate_layouts,
}
use speed_up.Index.Relayout.Counts.{Counted, Counted-snoc, empty-Counted}
use speed_up.Index.Grouping.{build_order, start_loop}
use speed_up.Index.Grouping.Counting.{tallies, grouped}
use speed_up.Index.Grouping.Placing.{build_order-order, sum-tallies}
use speed_up.Index.Sorting.{slot_less}
use speed_up.Index.Sorting.Blocks.{Prefixes}
use speed_up.Index.Values.{kept_keys, get_or-kept_keys}
use speed_up.Index.Reads.Window.{IsReady}
use speed_up.Index.Ready.Blocks.{
  blocks_of, length-blocks_of, concat-blocks_of, length-concat_blocks, start_loop-starts,
  blocks_of-AreSlots, blocks_of-Prefixes,
}

module _ {T : Type 0} (state : KeyState T) (layout : BucketLayout T) (n : ℕ) where
  -- the state in which the slots of a key without groups are assigned to buckets
  abbrev pub laid_out : KeyState T
  laid_out = with_layouts state n (layout ∷ [])

  abbrev pub place : T → ℕ
  place = bucket_of state.key layout

  bucket_for-place :
      (x : T) (k : ℕ) → k ≡ key_of state.key x → bucket_for laid_out x k ≡ ok (place x)
  unfolding bucket_for local_bucket with_layouts offsets bucket_of
  bucket_for-place x k e = elim (Bool-cases (has_key state.key)) [
    | inl h ↦ rw (h, zero-add) (ap (λ i. ok (bucket_of_keyed state.key layout x i)) e)
    | inr h ↦ rw (h, zero-add) refl
  ]

  pub bucket_total-laid_out : bucket_total laid_out ≡ bucket_count layout
  unfolding bucket_total with_layouts offsets
  bucket_total-laid_out = zero-add (bucket_count layout)

  module _ (v : IsLayout state.key layout) (small : bucket_count layout ≤ 2 ^ 16) where
    get_or-at :
        (d : T) (front : List T) (x : T) (items : List T)
        → get_or (front ++ x ∷ items) (length front) d ≡ x
    get_or-at d [] x items = refl
    get_or-at d (y ∷ front) x items = get_or-at d front x items

    -- The loop over the slots gives each of them its item's bucket, and counts them.
    assign_loop-place :
        (front items : List T) (m : ℕ) (buckets counts : List ℕ)
        → laid_out.keys ≡ kept_keys state.key (front ++ items)
        → Counted (bucket_count layout) m buckets counts
        → (counts' : List ℕ) × (assign_loop laid_out items (length front) buckets counts
            ≡ ok (buckets ++ map place items, counts'))
          × Counted (bucket_count layout) (m + length items) (buckets ++ map place items) counts'
    unfolding assign_loop
    assign_loop-place front [] m buckets counts e c =
        (counts, rw (append-nil buckets) refl, rw (append-nil buckets, add-zero) c)
    assign_loop-place front (x ∷ items) m buckets counts e c =
        let more = front ++ x ∷ [] in
        let next : length more ≡ suc (length front) = omega (arith, length-append front (x ∷ [])) in
        let b = place x in
        let inside = bucket_of-lt state.key layout x v in
        let fits : b % 2 ^ 16 ≡ b = omega (arith, inside, small) in
        let known : get_or laid_out.keys (length front) 0 ≡ key_of state.key x =
          ap (λ l. get_or l (length front) 0) e
          ∙ get_or-kept_keys state.key x (front ++ x ∷ items) (length front)
              (omega (arith, length-append front (x ∷ items)))
          ∙ ap (key_of state.key) (get_or-at x front x items) in
        let (counts', returned, counted) =
          assign_loop-place more items (suc m) (buckets ++ b ∷ []) (increment counts b)
            (e ∙ ap (kept_keys state.key) (sym (append_assoc front (x ∷ []) items)))
            (rw fits at (Counted-snoc (bucket_count layout) m b buckets counts inside small c)) in
        let regroup = append_assoc buckets (b ∷ []) (map place items) in
        let longer : suc m + length items ≡ m + suc (length items) = omega arith in
        (
          counts',
          ap
                (λ r. r >>= λ b'.
                  assign_loop laid_out items (suc (length front)) (buckets ++ b' % 2 ^ 16 ∷ [])
                    (increment counts b'))
                (bucket_for-place x (get_or laid_out.keys (length front) 0) known)
              ∙ ap₂ (λ i w. assign_loop laid_out items i (buckets ++ w ∷ []) (increment counts b))
                  (sym next) fits
              ∙ returned
              ∙ ap (λ l. ok (l, counts')) regroup,
          subst (λ l. Counted (bucket_count layout) (m + suc (length items)) l counts') regroup
              (rw longer at counted),
        )

    pub assigned :
        (items : List T)
        → laid_out.keys ≡ kept_keys state.key items
        → (counts : List ℕ) × (assign_loop laid_out items 0 [] (replicate (bucket_total laid_out) 0)
            ≡ ok (map place items, counts))
          × Counted (bucket_count layout) (length items) (map place items) counts
    assigned items e =
        let (counts, returned, counted) =
          assign_loop-place [] items 0 [] (replicate (bucket_count layout) 0) e
            (empty-Counted (bucket_count layout)) in
        (
          counts,
          ap (λ k. assign_loop laid_out items 0 [] (replicate k 0)) bucket_total-laid_out
              ∙ returned,
          rw zero-add at counted,
        )

    -- what `relayout` makes of it, and `build_order` then
    abbrev pub fresh : List T → List ℕ → KeyState T
    fresh items counts = without_order laid_out (map place items) counts

    All-place : (items : List T) → All (λ b. b < bucket_count layout) (map place items)
    All-place [] = tt
    All-place (x ∷ items) = (bucket_of-lt state.key layout x v, All-place items)

    pub fresh-IsReady :
        (items : List T) (counts : List ℕ) (c : IsThreeWay (tie_break state.key))
        → state.key.group_function ≡ none
        → state.keys ≡ kept_keys state.key items
        → length items < 2 ^ 63
        → Counted (bucket_count layout) (length items) (map place items) counts
        → (c' : IsThreeWay (tie_break (build_order (length items) (fresh items counts)).key))
          × IsReady items (build_order (length items) (fresh items counts)) c'
    unfolding build_order without_order with_layouts bucket_total
    fresh-IsReady items counts c ungrouped e few counted =
        let k = bucket_count layout in
        let slots = map place items in
        let blocks = blocks_of k 0 slots in
        let total = bucket_total-laid_out in
        let in_range = All-place items in
        let long : length (blocks_of k 0 slots) ≡ k = length-blocks_of k 0 slots in
        (
          c,
          record {
            layout = layout;
            blocks = blocks;
            ungrouped = ungrouped;
            assigned = record { keyed = e; placed = refl };
            in_range = subst (λ m. All (λ b. b < m) slots) (sym long) in_range;
            few = omega (arith, long, small);
            made =
                build_order-order (length items) (fresh items counts) (length-map items place)
                  (subst (λ m. All (λ b. b < m) slots) (sym total) in_range)
                  (counted.right ∙ ap (λ m. tallies m 0 slots) (sym total))
                ∙ ap (λ m. grouped m 0 slots) total
                ∙ sym (concat-blocks_of k 0 slots);
            slots = blocks_of-AreSlots (slot_less state.key items state.keys) k 0 slots;
            holds = record {
              begins =
                  ap₂ (λ l m. start_loop l 0 0 m) counted.right total
                  ∙ start_loop-starts k 0 0 k slots (omega arith);
              small = omega (
                arith,
                length-concat_blocks k 0 slots,
                sum-tallies k slots in_range,
                length-map items place,
              );
              prefixes =
                  let less = slot_less state.key items state.keys in
                  subst (λ m. Prefixes less (replicate m 0) blocks) (sym total)
                    (blocks_of-Prefixes less k 0 slots);
            };
          },
        )

sample_fits : (s n : ℕ) → s ≤ 2 ^ 20 → n < 2 ^ 32 → s * n < 2 ^ 64
sample_fits s n p q = omega (arith, mul_mono s (2 ^ 20) n p)

module _ {F : Type 0} ⦃d : Doubles F⦄ {T : Type 0} where
  estimate_one :
      (plan : BucketPlan F) (items : List T) (key : SortKey T) (keys : List ℕ)
      {layout : BucketLayout T}
      → key.groups ≡ 1
      → estimate key items keys plan none ≡ ok layout
      → estimate_layouts key items keys plan ≡ ok (layout ∷ [])
  unfolding estimate_layouts
  estimate_one plan items key keys one e = rw one (ap (λ r. r >>= λ layout. ok (layout ∷ [])) e)

  -- For a valid plan, a key without groups whose comparator is consistent, and at most 2^32 - 1
  -- items whose keys the state has: relayout succeeds, and build_order on the state that it
  -- returns gives a ready one for the same key, with one layout, no change counted and no order
  -- cached before.
  pub relayout-IsReady :
      (plan : BucketPlan F) (items : List T) (state : KeyState T)
      (c : IsThreeWay (tie_break state.key))
      → IsValid plan
      → state.key.group_function ≡ none
      → state.key.groups ≡ 1
      → state.keys ≡ kept_keys state.key items
      → length items ≤ max_slots
      → (state' : KeyState T) × (relayout plan items state ≡ ok state')
        × ((build_order (length items) state').key ≡ state.key)
        × (length state'.layouts ≡ 1)
        × (state'.churn ≡ 0)
        × (state'.has_order ≡ false)
        × (c' : IsThreeWay (tie_break (build_order (length items) state').key)) × IsReady items
            (build_order (length items) state')
            c'
  unfolding relayout estimate_layouts without_order with_layouts build_order
  relayout-IsReady plan items state c valid ungrouped one e few =
      let (layout, estimated, v, le, up) =
        estimate-IsLayout state.key items state.keys plan none c valid.sample_pos
          (sample_fits plan.sample_size (length items) valid.sample_le (omega arith)) tt
          valid.buckets_pos in
      let small : bucket_count layout ≤ 2 ^ 16 = omega (arith, le, valid.buckets_le) in
      let (counts, returned, counted) = assigned state layout (length items) v small items e in
      (
        fresh state layout (length items) v small items counts,
        ap
              (λ r. r >>= λ layouts.
                let s = with_layouts state (length items) layouts in
                assign_loop s items 0 [] (replicate (bucket_total s) 0) >>= λ (b, k).
                ok (without_order s b k))
              (estimate_one plan items state.key state.keys one estimated)
            ∙ ap
                (λ r. r >>= λ (b, k). ok (without_order (laid_out state layout (length items)) b k))
                returned,
        refl,
        refl,
        refl,
        refl,
        (fresh-IsReady state layout (length items) v small items counts c ungrouped e (omega arith)
            counted).0,
        (fresh-IsReady state layout (length items) v small items counts c ungrouped e (omega arith)
            counted).1,
      )
