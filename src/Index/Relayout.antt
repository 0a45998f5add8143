-- ===== src/Index/Relayout.antt =====
-- bucket_index.hpp: estimate_layouts, relayout and maybe_auto_rebalance.
use speed_up.Common.{
  ℕ, suc, ◌+◌, ◌/◌, ◌%◌, ◌^◌, min, max, Bool, false, not, ◌&&◌, ◌||◌, List, [], ◌∷◌, ◌++◌, length,
  get_or, set, replicate, none, some, ltb, leb, ◌==◌, if◌then◌else◌, Result, ok, ◌>>=◌, map_result,
}
use speed_up.Common.Doubles.{Doubles}
use speed_up.Plan.{BucketPlan, with_max_buckets, max_bucket_limit}
use speed_up.SortKey.{SortKey, group}
use speed_up.Layout.{BucketLayout, estimate, bucket_count}
use speed_up.Std.{stable_sort}
use speed_up.Index.{KeyState, bucket_for, bucket_total, increment, is_stale}
pub mod Counts

module _ {T : Type 0} where
  -- the loop over the slots: `members[group(items[slot])].push_back(slot)`
  unfoldable pub group_members :
      SortKey T → List T → (slot : ℕ) → List (List ℕ) → Result (List (List ℕ))
  unfolding group
  group_members key [] slot members = ok members
  group_members key (item ∷ items) slot members = group key item >>= λ g.
      group_members key items (suc slot) (set members g (get_or members g [] ++ slot ∷ []))

  -- the loop over the layouts: the first bucket of each group, and the total
  unfoldable pub offsets : (first : ℕ) → List (BucketLayout T) → List ℕ
  unfolding bucket_count
  offsets first [] = first ∷ []
  offsets first (layout ∷ layouts) = first ∷ offsets (first + bucket_count layout) layouts

  abbrev pub all_expected : List (BucketLayout T) → List ℕ
  all_expected [] = []
  all_expected (layout ∷ layouts) = layout.expected ++ all_expected layouts

  abbrev pub all_splitter_positions : List (BucketLayout T) → List ℕ
  all_splitter_positions [] = []
  all_splitter_positions (layout ∷ layouts) =
      layout.splitter_positions ++ all_splitter_positions layouts

  -- the loop over the slots: bucket ids, which are 16-bit, and counts
  unfoldable pub assign_loop :
      KeyState T → List T → (slot : ℕ) → (buckets counts : List ℕ) → Result (List ℕ × List ℕ)
  unfolding bucket_for
  assign_loop state [] slot buckets counts = ok (buckets, counts)
  assign_loop state (item ∷ items) slot buckets counts =
      bucket_for state item (get_or state.keys slot 0) >>= λ b.
      assign_loop state items (suc slot) (buckets ++ b % 2 ^ 16 ∷ []) (increment counts b)

  -- the members that `relayout` sets from the new layouts
  unfoldable pub with_layouts : KeyState T → (n : ℕ) → List (BucketLayout T) → KeyState T
  unfolding offsets stable_sort
  with_layouts state n layouts = record state {
    layouts = layouts;
    group_offset = offsets 0 layouts;
    expected = all_expected layouts;
    splitter_slots = stable_sort ltb (all_splitter_positions layouts);
    splitter_changed = false;
    estimated_from = n;
  }

  -- the members that `relayout` resets at its end
  unfoldable pub without_order : KeyState T → List ℕ → List ℕ → KeyState T
  without_order state buckets counts = record state {
    buckets = buckets;
    counts = counts;
    churn = 0;
    stale_checked_at = none;
    has_order = false;
    order_stale = false;
    order = [];
    start = [];
    sorted_len = [];
    moved = [];
    ordered_slots = 0;
  }

  -- `state.churn == state.stale_checked_at`
  abbrev pub checked_now : KeyState T → Bool
  checked_now state = elim state.stale_checked_at [
    | none ↦ false
    | some churn ↦ state.churn == churn
  ]

module _ {F : Type 0} ⦃d : Doubles F⦄ {T : Type 0} where
  unfoldable pub estimate_layouts :
      SortKey T → List T → List ℕ → BucketPlan F → Result (List (BucketLayout T))
  unfolding estimate group_members with_max_buckets map_result
  estimate_layouts key items keys plan =
      if key.groups == 1
      then (estimate key items keys plan none >>= λ layout. ok (layout ∷ []))
      else (group_members key items 0 (replicate key.groups []) >>= λ members.
          with_max_buckets plan (min plan.max_buckets (max_bucket_limit / key.groups))
          >>= λ per_group.
              map_result (λ members. estimate key items keys per_group (some members)) members)

  unfoldable pub relayout : BucketPlan F → List T → KeyState T → Result (KeyState T)
  unfolding estimate_layouts with_layouts assign_loop bucket_total without_order
  relayout plan items state = estimate_layouts state.key items state.keys plan >>= λ layouts.
      let state' = with_layouts state (length items) layouts in
      assign_loop state' items 0 [] (replicate (bucket_total state') 0) >>= λ (buckets, counts).
      ok (without_order state' buckets counts)

  unfoldable pub maybe_auto_rebalance : BucketPlan F → List T → KeyState T → Result (KeyState T)
  unfolding relayout is_stale
  maybe_auto_rebalance plan items state =
      if not plan.auto_rebalance || checked_now state
      then ok state
      else (let state' = record state { stale_checked_at = some state.churn } in
          if leb (max plan.page_size (state.estimated_from / 8)) state.churn
            && is_stale plan (length items) state'
          then relayout plan items state'
          else ok state')
