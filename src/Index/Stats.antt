-- ===== src/Index/Stats.antt =====
-- bucket_index.hpp: what an index tells of its buckets: bucket_of, bucket_count, bucket_sizes, layout,
-- stats, estimate_bucket_sizes and needs_rebalance; and the conveniences of bucketed_list.hpp.
use Prim.Native.String.{String}
use speed_up.Common.{
  ℕ, zero, suc, ◌+◌, ◌-◌, min, Bool, not, ◌&&◌, List, [], ◌∷◌, length, get_or, ltb, leb, ◌==◌,
  if◌then◌else◌, Result, ok, err, out_of_range, ◌>>=◌,
}
use speed_up.Common.Doubles.{Doubles}
use speed_up.Plan.{BucketPlan}
use speed_up.SortKey.{key_of}
use speed_up.Layout.{BucketLayout}
use speed_up.Index.{
  KeyState, BucketIndex, bucket_total, bucket_for, require_state, skew_floor, is_stale, read,
}
use speed_up.Index.Relayout.{estimate_layouts, all_expected}

pub record BucketStats (F : Type 0) : Type 0 where
  pub key_name : String
  pub size : ℕ
  pub bucket_count : ℕ
  pub actual_sizes : List ℕ
  pub expected_sizes : List ℕ
  pub empty_buckets : ℕ
  pub sorted_buckets : ℕ
  pub max_skew : F
  pub first_page_cost_ascending : ℕ
  pub first_page_cost_descending : ℕ
  pub needs_rebalance : Bool

-- `for (b = from; …; ++b) cost += counts[b]` while the cost is below a page
unfoldable pub cost_up : (page : ℕ) (counts : List ℕ) (cost : ℕ) → ℕ
cost_up page [] cost = cost
cost_up page (count ∷ counts) cost =
    let more = cost_up page counts (cost + count) in if ltb cost page then more else cost

-- the buckets of one group from the last down, `rounds` of them
unfoldable pub cost_down_group : (page : ℕ) (counts : List ℕ) (rounds from cost : ℕ) → ℕ
cost_down_group page counts zero from cost = cost
cost_down_group page counts (suc rounds) from cost =
    let more = cost_down_group page counts rounds from (cost + get_or counts (from + rounds) 0) in
    if ltb cost page then more else cost

-- the groups from g, `rounds` of them
unfoldable pub cost_down : (page : ℕ) (counts offsets : List ℕ) (rounds g cost : ℕ) → ℕ
unfolding cost_down_group
cost_down page counts offsets zero g cost = cost
cost_down page counts offsets (suc rounds) g cost =
    let first = get_or offsets g 0 in
    let end = get_or offsets (suc g) 0 in
    let more =
      cost_down page counts offsets rounds (suc g)
        (cost_down_group page counts (end - first) first cost) in
    if ltb cost page then more else cost

module _ {T : Type 0} where
  -- the counters of the loop of `stats` over the buckets from b, `rounds` of them
  unfoldable pub count_buckets : KeyState T → (rounds b : ℕ) → record { empty : ℕ; sorted : ℕ }
  count_buckets state zero b = record { empty = 0; sorted = 0 }
  count_buckets state (suc rounds) b =
      let rest = count_buckets state rounds (suc b) in
      let count = get_or state.counts b 0 in
      let is_sorted =
        state.has_order && not state.order_stale && (get_or state.sorted_len b 0 == count) in
      record {
        empty = if count == 0 then suc rest.empty else rest.empty;
        sorted = if is_sorted then suc rest.sorted else rest.sorted;
      }

module _ {F : Type 0} ⦃d : Doubles F⦄ {T : Type 0} where
  unfoldable pub state_named : String → BucketIndex F T → Result (KeyState T)
  unfolding require_state
  state_named key index = require_state index.states key >>= λ i. read index.states i

  unfoldable pub bucket_of : T → String → BucketIndex F T → Result ℕ
  unfolding state_named bucket_for key_of
  bucket_of value key index =
      state_named key index >>= λ state. bucket_for state value (key_of state.key value)

  unfoldable pub bucket_count : String → BucketIndex F T → Result ℕ
  unfolding state_named bucket_total
  bucket_count key index = state_named key index >>= λ state. ok (bucket_total state)

  unfoldable pub bucket_sizes : String → BucketIndex F T → Result (List ℕ)
  unfolding state_named
  bucket_sizes key index = state_named key index >>= λ state. ok state.counts

  unfoldable pub layout : String → (group : ℕ) → BucketIndex F T → Result (BucketLayout T)
  unfolding state_named
  layout key group index = state_named key index >>= λ state.
      if leb (length state.layouts) group then err out_of_range else read state.layouts group

  -- the loop of `stats` for `max_skew`
  unfoldable pub skew_loop : BucketPlan F → KeyState T → List ℕ → (b : ℕ) → F → F
  unfolding skew_floor
  skew_loop plan state [] b skew = skew
  skew_loop plan state (count ∷ counts) b skew =
      let here = d.div (d.of_size count) (d.of_size (skew_floor plan state b)) in
      skew_loop plan state counts (suc b) (if d.lt skew here then here else skew)

  unfoldable pub stats : String → BucketIndex F T → Result (BucketStats F)
  unfolding state_named bucket_total count_buckets skew_loop cost_up cost_down is_stale
  stats key index = state_named key index >>= λ state.
      let k = bucket_total state in
      let counted = count_buckets state k 0 in
      let page = min index.plan.page_size (length index.items) in
      ok (record {
        key_name = state.key.name;
        size = length index.items;
        bucket_count = k;
        actual_sizes = state.counts;
        expected_sizes = state.expected;
        empty_buckets = counted.empty;
        sorted_buckets = counted.sorted;
        max_skew = skew_loop index.plan state state.counts 0 (d.of_size 0);
        first_page_cost_ascending = cost_up page state.counts 0;
        first_page_cost_descending =
            cost_down page state.counts state.group_offset (length state.layouts) 0 0;
        needs_rebalance = is_stale index.plan (length index.items) state;
      })

  unfoldable pub estimate_bucket_sizes : String → BucketPlan F → BucketIndex F T → Result (List ℕ)
  unfolding state_named estimate_layouts
  estimate_bucket_sizes key plan index = state_named key index >>= λ state.
      estimate_layouts state.key index.items state.keys plan >>= λ layouts.
      ok (all_expected layouts)

  unfoldable pub needs_rebalance : String → BucketIndex F T → Result Bool
  unfolding state_named is_stale
  needs_rebalance key index =
      state_named key index >>= λ state. ok (is_stale index.plan (length index.items) state)
