-- ===== src/Index/Grouping.antt =====
-- bucket_index.hpp: build_order and regroup, the cached grouping of the slots by bucket.
use speed_up.Common.{
  ℕ, zero, suc, ◌+◌, ◌-◌, Bool, true, false, List, [], ◌∷◌, ◌++◌, length, get_or, set, take, drop,
  replicate, ltb, if◌then◌else◌,
}
use speed_up.Index.{KeyState, bucket_total, increment}
pub mod Counting
pub mod Placing
pub mod Tallies
pub mod Same
pub mod Renewal
pub mod Kept
pub mod Passes
pub mod Slots

-- `start[b + 1] = start[b] + counts[b]` for the buckets from b, `rounds` of them
unfoldable pub start_loop : (counts : List ℕ) (b acc rounds : ℕ) → List ℕ
start_loop counts b acc zero = acc ∷ []
start_loop counts b acc (suc rounds) =
    acc ∷ start_loop counts (suc b) (acc + get_or counts b 0) rounds

-- the vectors that the placing loops write
pub record Placed : Type 0 where
  pub order : List ℕ
  pub fill : List ℕ

-- `order[fill[bucket]++] = slot`
unfoldable pub place : (bucket slot : ℕ) → Placed → Placed
place bucket slot p = record {
  order = set p.order (get_or p.fill bucket 0) slot;
  fill = increment p.fill bucket;
}

-- the slots from `slot` on, whose buckets are given
unfoldable pub place_slots : (buckets : List ℕ) (slot : ℕ) → Placed → Placed
unfolding place
place_slots [] slot p = p
place_slots (bucket ∷ buckets) slot p = place_slots buckets (suc slot) (place bucket slot p)

-- the deferred slots
unfoldable pub place_deferred : (buckets deferred : List ℕ) → Placed → Placed
unfolding place
place_deferred buckets [] p = p
place_deferred buckets (slot ∷ deferred) p =
    place_deferred buckets deferred (place (get_or buckets slot 0) slot p)

-- the state of the first pass of `regroup`
pub record Regrouped : Type 0 where
  pub placed : Placed
  pub sorted_len : List ℕ
  pub deferred : List ℕ

module _ {T : Type 0} where
  unfoldable pub build_order : (n : ℕ) → KeyState T → KeyState T
  unfolding start_loop place_slots bucket_total
  build_order n state =
      let k = bucket_total state in
      let start = start_loop state.counts 0 0 k in
      let placed =
        place_slots state.buckets 0
          (record { order = replicate n 0; fill = take (length start - 1) start }) in
      record state {
        start = start;
        order = placed.order;
        sorted_len = replicate k 0;
        moved = replicate n false;
        ordered_slots = n;
        has_order = true;
        order_stale = false;
      }

  -- one slot of bucket b, at position i of the old grouping
  unfoldable pub regroup_step : KeyState T → (b prefix_end i : ℕ) → Regrouped → Regrouped
  unfolding place
  regroup_step state b prefix_end i r =
      let slot = get_or state.order i 0 in
      if get_or state.moved slot false
      then record r { deferred = r.deferred ++ slot ∷ [] }
      else record r {
        placed = place b slot r.placed;
        sorted_len = if ltb i prefix_end then increment r.sorted_len b else r.sorted_len;
      }

  -- the positions of bucket b from i, `rounds` of them
  unfoldable pub regroup_bucket : KeyState T → (b prefix_end rounds i : ℕ) → Regrouped → Regrouped
  unfolding regroup_step
  regroup_bucket state b prefix_end zero i r = r
  regroup_bucket state b prefix_end (suc rounds) i r =
      regroup_bucket state b prefix_end rounds (suc i) (regroup_step state b prefix_end i r)

  -- the buckets from b, `rounds` of them
  unfoldable pub regroup_buckets : KeyState T → (rounds b : ℕ) → Regrouped → Regrouped
  unfolding regroup_bucket
  regroup_buckets state zero b r = r
  regroup_buckets state (suc rounds) b r =
      let first = get_or state.start b 0 in
      let end = get_or state.start (suc b) 0 in
      regroup_buckets state rounds (suc b)
        (regroup_bucket state b (first + get_or state.sorted_len b 0) (end - first) first r)

  unfoldable pub regroup : (n : ℕ) → KeyState T → KeyState T
  unfolding start_loop regroup_buckets place_deferred place_slots bucket_total
  regroup n state =
      let k = bucket_total state in
      let start = start_loop state.counts 0 0 k in
      let kept = regroup_buckets state k 0 (record {
        placed = record { order = replicate n 0; fill = take (length start - 1) start };
        sorted_len = replicate k 0;
        deferred = [];
      }) in
      let placed =
        place_slots (drop state.ordered_slots state.buckets) state.ordered_slots
          (place_deferred state.buckets kept.deferred kept.placed) in
      record state {
        order = placed.order;
        start = start;
        sorted_len = kept.sorted_len;
        moved = replicate n false;
        ordered_slots = n;
        order_stale = false;
      }
