-- ===== src/Index/Ordered/Prepared.antt =====
-- `prepare` of bucket_index.hpp makes a key state ready to be read, whatever happened to it before.
use mathlib.Core.Path.{subst}
use speed_up.Common.{
  ℕ, ◌/◌, ◌≤◌, ◌≡◌, refl, sym, ap, ◌∙◌, Bool, true, false, not, ◌&&◌, ◌||◌, none, some, List, [],
  ◌∷◌, length, max, leb, if◌then◌else◌, Bool-cases, inl, inr, Result, ok, ◌>>=◌, arith,
}
use speed_up.Common.Doubles.{Doubles}
use speed_up.Plan.{BucketPlan}
use speed_up.Plan.Valid.{IsValid}
use speed_up.SortKey.{tie_break}
use speed_up.SortKey.Order.{IsThreeWay}
use speed_up.Layout.{BucketLayout}
use speed_up.Index.{KeyState, bucket_total, is_stale, max_slots}
use speed_up.Index.Relayout.{maybe_auto_rebalance, checked_now}
use speed_up.Index.Grouping.{regroup, build_order}
use speed_up.Index.Sorting.{prepare}
use speed_up.Index.Reads.Window.{IsReady}
use speed_up.Index.Ready.Fresh.{relayout-IsReady}
use speed_up.Index.Laid.{IsLaid, base}
use speed_up.Index.Laid.Base.{IsLaid-base}
use speed_up.Index.Laid.Relaid.{relayout-IsLaid}
use speed_up.Index.Laid.Order.{base-regroup, base-build_order}
use speed_up.Index.Ordered.{IsOrdered}
use speed_up.Index.Ordered.Ready.{IsSingle, IsOrdered-IsReady}
use speed_up.Index.Ordered.Renewal.{regroup-IsOrdered, build_order-IsOrdered}

module _ {T : Type 0} where
  -- A key without groups has one layout.
  pub IsLaid-IsSingle :
      (items : List T) (state : KeyState T)
      → state.key.group_function ≡ none
      → state.key.groups ≡ 1
      → IsLaid items state
      → IsSingle state
  IsLaid-IsSingle items state ungrouped one laid =
      let (layout, same) = only state.layouts (laid.ranged.formed.each_group ∙ one) in
      record { ungrouped = ungrouped; layout = layout; one = same }
    where
      only :
          (layouts : List (BucketLayout T))
          → length layouts ≡ 1
          → (layout : BucketLayout T) × (layouts ≡ layout ∷ [])
      only [] e = absurd (omega arith)
      only (layout ∷ []) e = (layout, refl)
      only (layout ∷ next ∷ layouts) e = absurd (omega arith)

  -- The mark of the last check does not matter to the order.
  IsOrdered-checked :
      (items : List T) (state : KeyState T)
      → IsOrdered items state
      → IsOrdered items (record state { stale_checked_at = some state.churn })
  unfolding bucket_total
  IsOrdered-checked items state o = record {
    was = o.was;
    blocks = o.blocks;
    grouped = record {
      many = o.grouped.many;
      made = o.grouped.made;
      begins = o.grouped.begins;
      slots = o.grouped.slots;
      below = o.grouped.below;
      old = o.grouped.old;
      known = o.grouped.known;
      homes = o.grouped.homes;
    };
    sorted = o.sorted;
    marks = o.marks;
    fresh = o.fresh;
  }

  -- What holds of a key state without groups between operations.
  pub record IsKept (items : List T) (state : KeyState T) : Type 0 where
    pub laid : IsLaid items state
    pub ungrouped : state.key.group_function ≡ none
    pub one_group : state.key.groups ≡ 1
    pub consistent : IsThreeWay (tie_break state.key)
    pub ordered : state.has_order ≡ true → IsOrdered items state

  fresh_order : (n : ℕ) (state : KeyState T) → (build_order n state).order_stale ≡ false
  unfolding build_order
  fresh_order n state = refl

  fresh_regroup : (n : ℕ) (state : KeyState T) → (regroup n state).order_stale ≡ false
  unfolding regroup
  fresh_regroup n state = refl

  -- A grouping that is up to date is ready to be read.
  IsKept-IsReady :
      (items : List T) (s s' : KeyState T)
      → length items ≤ max_slots
      → IsKept items s
      → base s' ≡ base s
      → IsOrdered items s'
      → s'.order_stale ≡ false
      → (c : IsThreeWay (tie_break s'.key)) × IsReady items s' c
  IsKept-IsReady items s s' few kept same o current =
      let laid = IsLaid-base items s s' same kept.laid in
      let key : s.key ≡ s'.key = ap (λ x. x.key) (sym same) in
      let c = subst (λ k. IsThreeWay (tie_break k)) key kept.consistent in
      let single =
        IsLaid-IsSingle items s' (ap (λ k. k.group_function) (sym key) ∙ kept.ungrouped)
          (ap (λ k. k.groups) (sym key) ∙ kept.one_group) laid in
      (c, IsOrdered-IsReady items s' o c single laid few current)

module _ {F : Type 0} ⦃d : Doubles F⦄ {T : Type 0} where
  rebalanced :
      (plan : BucketPlan F) (items : List T) (state : KeyState T)
      → IsValid plan
      → length items ≤ max_slots
      → IsKept items state
      → (s : KeyState T) × (maybe_auto_rebalance plan items state ≡ ok s)
        × (s.key ≡ state.key)
        × IsKept items s
  unfolding maybe_auto_rebalance
  rebalanced plan items state valid few kept =
      let s₁ = record state { stale_checked_at = some state.churn } in
      let kept₁ : IsKept items s₁ = record {
        laid = IsLaid-base items state s₁ refl kept.laid;
        ungrouped = kept.ungrouped;
        one_group = kept.one_group;
        consistent = kept.consistent;
        ordered = λ has. IsOrdered-checked items state (kept.ordered has);
      } in
      elim (Bool-cases (not plan.auto_rebalance || checked_now state)) [
        | inl off ↦ (state, rw off refl, refl, kept)
        | inr on ↦
            elim (Bool-cases (
              leb (max plan.page_size (state.estimated_from / 8)) state.churn
              && is_stale plan (length items) s₁)) [
                | inr fresh ↦ (s₁, rw (on, fresh) refl, refl, kept₁)
                | inl stale ↦
                    let (s, done, _, _, _, unordered, _, _) =
                      relayout-IsReady plan items s₁ kept.consistent valid kept.ungrouped
                        kept.one_group kept.laid.keyed few in
                    let (laid, same) =
                      relayout-IsLaid plan items s₁ valid (omega (arith, kept.one_group)) few
                        kept.laid.keyed done in
                    (
                      s,
                      rw (on, stale) done,
                      same,
                      record {
                        laid = laid;
                        ungrouped = ap (λ k. k.group_function) same ∙ kept.ungrouped;
                        one_group = ap (λ k. k.groups) same ∙ kept.one_group;
                        consistent =
                            subst (λ k. IsThreeWay (tie_break k)) (sym same) kept.consistent;
                        ordered = λ has. cc (has, unordered);
                      },
                    )
              ]
      ]

  -- For a valid plan, at most 2^32 - 1 items, and a key state without groups and with a consistent
  -- comparator, whose buckets, keys and counts are those of the items, and whose cached order, if it has
  -- one, knows where each slot was, marks those that moved, and has sorted prefixes but for them:
  -- `prepare` succeeds, keeps the key, and gives a state that is ready to be read.
  pub prepare-IsReady :
      (plan : BucketPlan F) (items : List T) (state : KeyState T)
      → IsValid plan
      → length items ≤ max_slots
      → IsKept items state
      → (state' : KeyState T) × (prepare plan items state ≡ ok state')
        × (state'.key ≡ state.key)
        × (c : IsThreeWay (tie_break state'.key)) × IsReady items state' c
  unfolding prepare
  prepare-IsReady plan items state valid few kept =
      let n = length items in
      let (s, done, same, kept') = rebalanced plan items state valid few kept in
      let next : Result (KeyState T) → Result (KeyState T) = λ r. r >>= λ s.
      if s.has_order
      then (if s.order_stale then ok (regroup n s) else ok s)
      else ok (build_order n s) in
      let built = build_order n s in
      let renewed = regroup n s in
      let counted = kept'.laid.counted in
      elim (Bool-cases s.has_order) [
        | inr new ↦
            let ready_built =
              IsKept-IsReady items s built few kept' (base-build_order n s)
                (build_order-IsOrdered items s counted) (fresh_order n s) in
            (
              built,
              ap next done ∙ choice_new s renewed built new,
              ap (λ x. x.key) (base-build_order n s) ∙ same,
              ready_built.0,
              ready_built.1,
            )
        | inl old ↦ elim (Bool-cases s.order_stale) [
          | inl stale ↦
              let ready_renewed =
                IsKept-IsReady items s renewed few kept' (base-regroup n s)
                  (regroup-IsOrdered items s n (sym counted.long) counted (kept'.ordered old))
                  (fresh_regroup n s) in
              (
                renewed,
                ap next done ∙ choice_stale s renewed built old stale,
                ap (λ x. x.key) (base-regroup n s) ∙ same,
                ready_renewed.0,
                ready_renewed.1,
              )
          | inr current ↦
              let ready_s = IsKept-IsReady items s s few kept' refl (kept'.ordered old) current in
              (
                s,
                ap next done ∙ choice_current s renewed built old current,
                same,
                ready_s.0,
                ready_s.1,
              )
        ]
      ]
    where
      choice_new :
          (s renewed built : KeyState T)
          → s.has_order ≡ false
          → (if s.has_order then (if s.order_stale then ok renewed else ok s) else ok built)
            ≡ ok built
      choice_new s renewed built e = rw e refl

      choice_stale :
          (s renewed built : KeyState T)
          → s.has_order ≡ true
          → s.order_stale ≡ true
          → (if s.has_order then (if s.order_stale then ok renewed else ok s) else ok built)
            ≡ ok renewed
      choice_stale s renewed built e f = rw (e, f) refl

      choice_current :
          (s renewed built : KeyState T)
          → s.has_order ≡ true
          → s.order_stale ≡ false
          → (if s.has_order then (if s.order_stale then ok renewed else ok s) else ok built) ≡ ok s
      choice_current s renewed built e f = as_chosen s.has_order s.order_stale e f
        where
          as_chosen :
              (h o : Bool)
              → h ≡ true
              → o ≡ false
              → (if h then (if o then ok renewed else ok s) else ok built) ≡ ok s
          as_chosen true false e f = refl
          as_chosen true true e f = cc
          as_chosen false o e f = cc
