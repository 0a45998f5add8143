-- ===== src/Index/Sorting.antt =====
-- bucket_index.hpp: prepare and sort_bucket.
use Prim.Native.Nat.{Ordering}
use speed_up.Common.{
  ℕ, zero, suc, ◌+◌, ◌-◌, ◌^◌, Bool, true, false, List, [], ◌∷◌, ◌++◌, length, get_or, set, take,
  drop, replicate, ltb, ◌==◌, if◌then◌else◌, Result, ok, ◌>>=◌,
}
use speed_up.Common.Doubles.{Doubles}
use speed_up.Plan.{BucketPlan, sub64}
use speed_up.SortKey.{SortKey}
use speed_up.Layout.{compare_at}
use speed_up.Std.{finish}
use speed_up.Index.{KeyState, bucket_total}
use speed_up.Index.Relayout.{maybe_auto_rebalance}
use speed_up.Index.Grouping.{build_order, regroup}
pub mod Bucket
pub mod Segments
pub mod Blocks
pub mod Loop
pub mod Whole

module _ {T : Type 0} where
  -- the comparator of `sort_bucket`: key, tie-breaker, insertion order
  unfoldable pub slot_order : SortKey T → T → List T → List ℕ → ℕ → ℕ → Bool
  unfolding compare_at
  slot_order key default items keys a b = elim (compare_at key default items keys a b) [
    | Ordering.lt ↦ true
    | Ordering.gt ↦ false
    | Ordering.eq ↦ ltb a b
  ]

  unfoldable pub slot_less : SortKey T → List T → List ℕ → ℕ → ℕ → Bool
  unfolding slot_order
  slot_less key [] keys a b = ltb a b
  slot_less key (default ∷ rest) keys a b = slot_order key default (default ∷ rest) keys a b

  -- the slots of a bucket, and those before and after them in `order`
  abbrev pub before : KeyState T → ℕ → List ℕ
  before state bucket = take (get_or state.start bucket 0) state.order

  abbrev pub segment : KeyState T → ℕ → List ℕ
  segment state bucket =
      take (sub64 (get_or state.start (suc bucket) 0) (get_or state.start bucket 0))
        (drop (get_or state.start bucket 0) state.order)

  abbrev pub behind : KeyState T → ℕ → List ℕ
  behind state bucket =
      drop (sub64 (get_or state.start (suc bucket) 0) (get_or state.start bucket 0))
        (drop (get_or state.start bucket 0) state.order)

  unfoldable pub sort_bucket : List T → KeyState T → ℕ → KeyState T
  unfolding slot_less finish
  sort_bucket items state bucket =
      let len = sub64 (get_or state.start (suc bucket) 0) (get_or state.start bucket 0) in
      let sorted = get_or state.sorted_len bucket 0 in
      let slots = segment state bucket in
      if sorted == len then state else record state {
        order =
            before state bucket
            ++ (finish (slot_less state.key items state.keys) (take sorted slots)
                  (drop sorted slots)
                ++ behind state bucket);
        sorted_len = set state.sorted_len bucket len;
      }

  -- `for (b = from; b < from + rounds; ++b) sort_bucket(state, b)`
  unfoldable pub sort_buckets : List T → (rounds from : ℕ) → KeyState T → KeyState T
  unfolding sort_bucket
  sort_buckets items zero from state = state
  sort_buckets items (suc rounds) from state =
      sort_buckets items rounds (suc from) (sort_bucket items state from)

module _ {F : Type 0} ⦃d : Doubles F⦄ {T : Type 0} where
  unfoldable pub prepare : BucketPlan F → List T → KeyState T → Result (KeyState T)
  unfolding maybe_auto_rebalance build_order regroup
  prepare plan items state = maybe_auto_rebalance plan items state >>= λ state'.
      if state'.has_order
      then (if state'.order_stale then ok (regroup (length items) state') else ok state')
      else ok (build_order (length items) state')
