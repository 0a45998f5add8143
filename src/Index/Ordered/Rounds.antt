-- ===== src/Index/Ordered/Rounds.antt =====
-- The rounds of append, update_if and remove_if of bucket_index.hpp for one sort key without groups keep
-- what a read relies on.
use mathlib.Core.Path.{subst}
use speed_up.Common.{
  ℕ, ◌<◌, ◌≤◌, ◌≡◌, refl, sym, ap, ◌∙◌, ◌⊎◌, inl, inr, true, false, Option, none, some, List, [],
  ◌∷◌, ◌++◌, length, set, Bool-cases, ok, >>=-ok, ok_injective, arith,
}
use speed_up.Common.Doubles.{Doubles}
use speed_up.Plan.{BucketPlan}
use speed_up.Plan.Valid.{IsValid}
use speed_up.SortKey.{tie_break}
use speed_up.SortKey.Order.{IsThreeWay}
use speed_up.Index.{KeyState, bucket_for, max_slots}
use speed_up.Index.Changes.{
  append_state, rekey, compact, compact_members, compact_order, remap_splitters,
}
use speed_up.Index.Relayout.{relayout}
use speed_up.Index.Ready.Fresh.{relayout-IsReady}
use speed_up.Index.Laid.{IsLaid}
use speed_up.Index.Laid.Changes.{append_state-IsLaid, rekey-IsLaid}
use speed_up.Index.Laid.Keepers.{keepers, Numbered, length-keepers}
use speed_up.Index.Laid.Compact.{compact_members-IsLaid, compact-IsLaid}
use speed_up.Index.Ordered.{IsOrdered}
use speed_up.Index.Ordered.Prepared.{IsKept}
use speed_up.Index.Ordered.Changes.{append_state-IsOrdered, rekey-IsOrdered}
use speed_up.Index.Ordered.Removal.{filtered-IsOrdered, compact_order-result, compact_order-none}

module _ {T : Type 0} where
  -- The same key, and what else was shown.
  IsKept-key :
      (items items' : List T) (s s' : KeyState T)
      → IsKept items s
      → IsLaid items' s' × (s'.key ≡ s.key)
      → (s'.has_order ≡ true → IsOrdered items' s')
      → IsKept items' s'
  IsKept-key items items' s s' kept h ordered = record {
    laid = h.0;
    ungrouped = ap (λ k. k.group_function) h.1 ∙ kept.ungrouped;
    one_group = ap (λ k. k.groups) h.1 ∙ kept.one_group;
    consistent = subst (λ k. IsThreeWay (tie_break k)) (sym h.1) kept.consistent;
    ordered = ordered;
  }

  same_has_order-append :
      (x : T) (state : KeyState T) {state' : KeyState T}
      → append_state x state ≡ ok state'
      → state'.has_order ≡ state.has_order
  unfolding append_state
  same_has_order-append x state h =
      let (b, given, k) = >>=-ok _ (bucket_for state x _) h in
      ap (λ s. s.has_order) (sym (ok_injective k))

  same_has_order-rekey :
      (x : T) (slot : ℕ) (state : KeyState T) {state' : KeyState T}
      → rekey x slot state ≡ ok state'
      → state'.has_order ≡ state.has_order
  unfolding rekey
  same_has_order-rekey x slot state h =
      let (b, given, k) = >>=-ok _ (bucket_for state x _) h in
      ap (λ s. s.has_order) (sym (ok_injective k))

  pub append_state-IsKept :
      (items : List T) (x : T) (state : KeyState T) {state' : KeyState T}
      → append_state x state ≡ ok state'
      → IsKept items state
      → IsKept (items ++ x ∷ []) state'
  append_state-IsKept items x state {state'} h kept =
      let both = append_state-IsLaid items x state h kept.laid in
      IsKept-key items (items ++ x ∷ []) state state' kept both (λ has.
        let had = sym (same_has_order-append x state h) ∙ has in
        append_state-IsOrdered items x state h kept.laid both.0 had (kept.ordered had))

  pub rekey-IsKept :
      (items : List T) (x : T) (slot : ℕ) (state : KeyState T) {state' : KeyState T}
      → slot < length items
      → length items ≤ max_slots
      → rekey x slot state ≡ ok state'
      → IsKept items state
      → IsKept (set items slot x) state'
  rekey-IsKept items x slot state {state'} inside few h kept =
      let both = rekey-IsLaid items x slot state inside few h kept.laid in
      IsKept-key items (set items slot x) state state' kept both (λ has.
        let had = sym (same_has_order-rekey x slot state h) ∙ has in
        rekey-IsOrdered items x slot state inside h kept.laid both.0 had (kept.ordered had))

module _ {F : Type 0} ⦃d : Doubles F⦄ {T : Type 0} where
  module _ (plan : BucketPlan F) (items : List T) (remap : List (Option ℕ)) (kept : ℕ)
      (state : KeyState T) where
    compact-relayout :
        remap_splitters remap (compact_members remap kept state).splitter_slots ≡ none
        → compact plan items remap kept state
          ≡ relayout plan items (compact_members remap kept state)
    unfolding compact
    compact-relayout e = rw (compact, e) refl

    compact-filter :
        {slots : List ℕ}
        → remap_splitters remap (compact_members remap kept state).splitter_slots ≡ some slots
        → compact plan items remap kept state
          ≡ ok (
              compact_order remap kept
                (record (compact_members remap kept state) { splitter_slots = slots }))
    unfolding compact
    compact-filter e = rw (compact, e) refl

  -- For a valid plan, at most 2^32 - 1 items, new numbers for the slots that are kept, in their order,
  -- and a key state without groups and with a consistent comparator, whose buckets, keys and counts are
  -- those of the items, and whose cached order, if it has one, is up to date: `compact` succeeds, and
  -- gives a state of which the same holds for the items that are kept; its cached order, if it has one,
  -- knows where each slot was, marks those that moved, and has sorted prefixes but for them.
  pub compact-IsKept :
      (plan : BucketPlan F) (remap : List (Option ℕ)) (items : List T) (kept : ℕ)
      (state : KeyState T)
      → IsValid plan
      → length remap ≡ length items
      → length items ≤ max_slots
      → Numbered 0 remap
      → kept ≡ length (keepers remap items)
      → IsKept items state
      → (state.has_order ≡ true → state.order_stale ≡ false)
      → (state' : KeyState T) × (compact plan (keepers remap items) remap kept state ≡ ok state')
        × IsKept (keepers remap items) state'
  compact-IsKept plan remap items kept state valid n few numbered all_kept good current =
      let s = compact_members remap kept state in
      let laid = compact_members-IsLaid remap items kept state n few all_kept good.laid in
      let fewer : length (keepers remap items) ≤ max_slots =
        omega (arith, length-keepers remap items) in
      let some_group : 0 < state.key.groups = omega (arith, good.one_group) in
      elim (splitters-cases (remap_splitters remap s.splitter_slots)) [
        | inl none_left ↦
            let (s', done, _, _, _, unordered, _, _) =
              relayout-IsReady plan (keepers remap items) s
                (consistent remap kept state good.consistent) valid
                (ungrouped remap kept state good.ungrouped)
                (one_group remap kept state good.one_group) laid.keyed fewer in
            let returned : compact plan (keepers remap items) remap kept state ≡ ok s' =
              compact-relayout plan (keepers remap items) remap kept state none_left ∙ done in
            (
              s',
              returned,
              IsKept-key items (keepers remap items) state s' good
                  (compact-IsLaid plan remap items kept state valid some_group n few all_kept
                    returned good.laid)
                  (λ has. cc (has, unordered)),
            )
        | inr (slots, all_left) ↦
            let s' = compact_order remap kept (record s { splitter_slots = slots }) in
            let returned : compact plan (keepers remap items) remap kept state ≡ ok s' =
              compact-filter plan (keepers remap items) remap kept state all_left in
            (
              s',
              returned,
              IsKept-key items (keepers remap items) state s' good
                  (compact-IsLaid plan remap items kept state valid some_group n few all_kept
                    returned good.laid)
                  (λ has. elim (Bool-cases state.has_order) [
                    | inl cached ↦
                        subst (IsOrdered (keepers remap items))
                          (sym (
                            compact_order-result items remap kept state slots n numbered few
                              all_kept good.laid cached))
                          (filtered-IsOrdered items remap kept state slots n numbered few all_kept
                            good.laid (good.ordered cached) (current cached))
                    | inr never ↦ cc (
                      has,
                      compact_order-none items remap kept state slots n numbered few all_kept
                          good.laid never,
                    )
                  ]),
            )
      ]
    where
      splitters-cases : (o : Option (List ℕ)) → (o ≡ none) ⊎ (slots : List ℕ) × (o ≡ some slots)
      splitters-cases none = inl refl
      splitters-cases (some slots) = inr (slots, refl)

      consistent :
          (remap : List (Option ℕ)) (kept : ℕ) (state : KeyState T)
          → IsThreeWay (tie_break state.key)
          → IsThreeWay (tie_break (compact_members remap kept state).key)
      consistent remap kept state c = unfold compact_members in c

      ungrouped :
          (remap : List (Option ℕ)) (kept : ℕ) (state : KeyState T)
          → state.key.group_function ≡ none
          → (compact_members remap kept state).key.group_function ≡ none
      ungrouped remap kept state e = unfold compact_members in e

      one_group :
          (remap : List (Option ℕ)) (kept : ℕ) (state : KeyState T)
          → state.key.groups ≡ 1
          → (compact_members remap kept state).key.groups ≡ 1
      one_group remap kept state e = unfold compact_members in e
