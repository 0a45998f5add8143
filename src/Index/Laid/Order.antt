-- ===== src/Index/Laid/Order.antt =====
-- The operations of bucket_index.hpp that group and sort the slots leave the buckets of the items
-- alone: build_order, regroup, sort_bucket, and the reads.
use speed_up.Common.{
  ℕ, zero, suc, ◌+◌, ◌-◌, ◌<◌, ◌≤◌, ◌≡◌, refl, sym, ap, ◌∙◌, Bool, true, false, Option, none, some,
  List, length, get_or, ◌==◌, if◌then◌else◌, Bool-cases, inl, inr, Result, ok, >>=-ok, ok_injective,
}
use speed_up.Common.Doubles.{Doubles}
use speed_up.Plan.{BucketPlan, sub64}
use speed_up.Plan.Valid.{IsValid}
use speed_up.Index.{KeyState, Direction, ascending, descending, bucket_at, to_ascending, max_slots}
use speed_up.Index.Relayout.{maybe_auto_rebalance}
use speed_up.Index.Grouping.{build_order, regroup}
use speed_up.Index.Sorting.{sort_bucket, sort_buckets, prepare}
use speed_up.Index.Reads.{
  item_at, items_up, items_down, range_groups, range_plain, visit_up, visit_down, visit_groups,
}
use speed_up.Index.Laid.{IsLaid, base}
use speed_up.Index.Laid.Base.{IsLaid-base}
use speed_up.Index.Laid.Relaid.{maybe_auto_rebalance-IsLaid}

module _ {T : Type 0} where
  pub base-build_order : (n : ℕ) (state : KeyState T) → base (build_order n state) ≡ base state
  unfolding build_order
  base-build_order n state = refl

  pub base-regroup : (n : ℕ) (state : KeyState T) → base (regroup n state) ≡ base state
  unfolding regroup
  base-regroup n state = refl

  module _ (items : List T) where
    pub base-sort_bucket :
        (state : KeyState T) (b : ℕ) → base (sort_bucket items state b) ≡ base state
    unfolding sort_bucket
    base-sort_bucket state b =
        let len = sub64 (get_or state.start (suc b) 0) (get_or state.start b 0) in
        elim (Bool-cases (get_or state.sorted_len b 0 == len)) [
          | inl e ↦ rw e refl
          | inr e ↦ rw e refl
        ]

    pub base-sort_buckets :
        (rounds from : ℕ) (state : KeyState T)
        → base (sort_buckets items rounds from state) ≡ base state
    unfolding sort_buckets
    base-sort_buckets zero from state = refl
    base-sort_buckets (suc rounds) from state =
        base-sort_buckets rounds (suc from) (sort_bucket items state from)
        ∙ base-sort_bucket state from

    pub base-range_plain :
        (direction : Direction) (from to : ℕ) (state : KeyState T) {result : KeyState T × List T}
        → range_plain direction items from to state ≡ ok result
        → base result.0 ≡ base state
    unfolding range_plain
    base-range_plain ascending from to state h =
        let first = bucket_at state from in
        let rounds = bucket_at state (to - 1) + 1 - first in
        let state' = sort_buckets items rounds first state in
        let (xs, read, k) = >>=-ok _ (items_up items state' (to - from) from) h in
        ap (λ r. base r.0) (sym (ok_injective k)) ∙ base-sort_buckets rounds first state
    base-range_plain descending from to state h =
        let lo = length items - to in
        let hi = length items - from in
        let first = bucket_at state lo in
        let rounds = bucket_at state (hi - 1) + 1 - first in
        let state' = sort_buckets items rounds first state in
        let (xs, read, k) = >>=-ok _ (items_down items state' (hi - lo) lo) h in
        ap (λ r. base r.0) (sym (ok_injective k)) ∙ base-sort_buckets rounds first state

    pub base-range_groups :
        (rounds p : ℕ) (sorted_bucket : Option ℕ) (state : KeyState T)
        {result : KeyState T × List T}
        → range_groups items rounds p sorted_bucket state ≡ ok result
        → base result.0 ≡ base state
    unfolding range_groups
    base-range_groups zero p sorted_bucket state h = ap (λ r. base r.0) (sym (ok_injective h))
    base-range_groups (suc rounds) p sorted_bucket state h =
        let position = to_ascending descending (length items) state p in
        let b = bucket_at state position in
        let same : Bool = elim sorted_bucket [ none ↦ false | some s ↦ b == s ] in
        let state' = if same then state else sort_bucket items state b in
        let (x, read, k) = >>=-ok _ (item_at items state' position) h in
        let (result', more, k') = >>=-ok _ (range_groups items rounds (suc p) (some b) state') k in
        ap (λ r. base r.0) (sym (ok_injective k'))
        ∙ base-range_groups rounds (suc p) (some b) state' more
        ∙ either same (sort_bucket items state b) state (base-sort_bucket state b)
      where
        either :
            (same : Bool) (s' s : KeyState T)
            → base s' ≡ base s
            → base (if same then s else s') ≡ base s
        either true s' s e = refl
        either false s' s e = e

    pub base-visit_up :
        (rounds b : ℕ) (state : KeyState T) {result : KeyState T × List T}
        → visit_up items rounds b state ≡ ok result
        → base result.0 ≡ base state
    unfolding visit_up
    base-visit_up zero b state h = ap (λ r. base r.0) (sym (ok_injective h))
    base-visit_up (suc rounds) b state h =
        let state' = sort_bucket items state b in
        let first = get_or state'.start b 0 in
        let end = get_or state'.start (suc b) 0 in
        let (xs, read, k) = >>=-ok _ (items_up items state' (end - first) first) h in
        let (result', more, k') = >>=-ok _ (visit_up items rounds (suc b) state') k in
        ap (λ r. base r.0) (sym (ok_injective k'))
        ∙ base-visit_up rounds (suc b) state' more
        ∙ base-sort_bucket state b

    base-visit_down :
        (rounds from : ℕ) (state : KeyState T) {result : KeyState T × List T}
        → visit_down items rounds from state ≡ ok result
        → base result.0 ≡ base state
    unfolding visit_down
    base-visit_down zero from state h = ap (λ r. base r.0) (sym (ok_injective h))
    base-visit_down (suc rounds) from state h =
        let b = from + rounds in
        let state' = sort_bucket items state b in
        let first = get_or state'.start b 0 in
        let end = get_or state'.start (suc b) 0 in
        let (xs, read, k) = >>=-ok _ (items_down items state' (end - first) first) h in
        let (result', more, k') = >>=-ok _ (visit_down items rounds from state') k in
        ap (λ r. base r.0) (sym (ok_injective k'))
        ∙ base-visit_down rounds from state' more
        ∙ base-sort_bucket state b

    pub base-visit_groups :
        (rounds g : ℕ) (state : KeyState T) {result : KeyState T × List T}
        → visit_groups items rounds g state ≡ ok result
        → base result.0 ≡ base state
    unfolding visit_groups
    base-visit_groups zero g state h = ap (λ r. base r.0) (sym (ok_injective h))
    base-visit_groups (suc rounds) g state h =
        let first = get_or state.group_offset g 0 in
        let end = get_or state.group_offset (suc g) 0 in
        let (result', visited, k) = >>=-ok _ (visit_down items (end - first) first state) h in
        let (result'', more, k') = >>=-ok _ (visit_groups items rounds (suc g) result'.0) k in
        ap (λ r. base r.0) (sym (ok_injective k'))
        ∙ base-visit_groups rounds (suc g) result'.0 more
        ∙ base-visit_down (end - first) first state visited

module _ {T : Type 0} where
  -- what `prepare` does to the grouping, if the slots' grouping is `made` anew or `renewed`
  abbrev grouping : (s renewed made : KeyState T) → Result (KeyState T)
  grouping s renewed made =
      if s.has_order then (if s.order_stale then ok renewed else ok s) else ok made

  base-grouping :
      (s renewed made : KeyState T) {state' : KeyState T}
      → base renewed ≡ base s
      → base made ≡ base s
      → grouping s renewed made ≡ ok state'
      → base state' ≡ base s
  base-grouping s renewed made e f h = elim (Bool-cases s.has_order) [
    | inr new ↦ ap base (sym (ok_injective (rw new at h))) ∙ f
    | inl old ↦ elim (Bool-cases s.order_stale) [
      | inl stale ↦ ap base (sym (ok_injective (rw (old, stale) at h))) ∙ e
      | inr fresh ↦ ap base (sym (ok_injective (rw (old, fresh) at h)))
    ]
  ]

module _ {F : Type 0} ⦃d : Doubles F⦄ {T : Type 0} where
  -- `prepare` may lay the key out anew.
  pub prepare-IsLaid :
      (plan : BucketPlan F) (items : List T) (state : KeyState T) {state' : KeyState T}
      → IsValid plan
      → 0 < state.key.groups
      → length items ≤ max_slots
      → prepare plan items state ≡ ok state'
      → IsLaid items state
      → IsLaid items state' × (state'.key ≡ state.key)
  unfolding prepare
  prepare-IsLaid plan items state {state'} valid some_group few h laid =
      let n = length items in
      let (s, balanced, k) = >>=-ok _ (maybe_auto_rebalance plan items state) h in
      let (laid', same) =
        maybe_auto_rebalance-IsLaid plan items state valid some_group few balanced laid in
      let keeps : base state' ≡ base s =
        base-grouping s (regroup n s) (build_order n s) (base-regroup n s) (base-build_order n s)
          k in
      (IsLaid-base items s state' keeps laid', ap (λ x. x.key) keeps ∙ same)
