-- ===== src/Index/Laid/Relaid.antt =====
-- `relayout` and `maybe_auto_rebalance` of bucket_index.hpp leave the buckets of all items as the
-- layouts give them.
use mathlib.Core.Path.{subst}
use mathlib.Core.List.{append_assoc, append-nil}
use native.Mathlib.Nat.{add-zero, zero-add}
use speed_up.Common.{
  ℕ, suc, ◌+◌, ◌%◌, ◌/◌, ◌^◌, ◌<◌, ◌≤◌, ◌≡◌, refl, sym, ap, ◌∙◌, some, List, [], ◌∷◌, ◌++◌, length,
  get_or, get_or-append_at, replicate, length-append, Bool-cases, inl, inr, ok, >>=-ok,
  ok_injective, max, leb, not, ◌&&◌, ◌||◌, arith,
}
use speed_up.Common.Doubles.{Doubles}
use speed_up.Plan.{BucketPlan}
use speed_up.Plan.Valid.{IsValid}
use speed_up.SortKey.{key_of}
use speed_up.Index.{KeyState, bucket_for, bucket_total, increment, max_slots, is_stale}
use speed_up.Index.Relayout.{
  assign_loop, with_layouts, without_order, relayout, estimate_layouts, maybe_auto_rebalance,
  checked_now,
}
use speed_up.Index.Relayout.Counts.{Counted, Counted-snoc, empty-Counted}
use speed_up.Index.Values.{kept_keys, get_or-kept_keys}
use speed_up.Index.Laid.{PlacedIn, IsRanged, IsLaid}
use speed_up.Index.Laid.Base.{IsLaid-base}
use speed_up.Index.Laid.Layouts.{estimate_layouts-AreLayouts}
use speed_up.Index.Laid.Ranges.{laid-IsRanged}

module _ {T : Type 0} (state : KeyState T) (ranged : IsRanged state) where
  -- The loop over the slots gives each of them its item's bucket, and counts them.
  assign_loop-PlacedIn :
      (front items : List T) (m : ℕ) (buckets counts : List ℕ) {result : List ℕ × List ℕ}
      → state.keys ≡ kept_keys state.key (front ++ items)
      → Counted (bucket_total state) m buckets counts
      → assign_loop state items (length front) buckets counts ≡ ok result
      → (added : List ℕ) × (result.0 ≡ buckets ++ added)
        × PlacedIn state items added
        × Counted (bucket_total state) (m + length items) result.0 result.1
  unfolding assign_loop
  assign_loop-PlacedIn front [] m buckets counts e c h = (
    [],
    rw (← (ok_injective h), append-nil buckets) refl,
    tt,
    rw (← (ok_injective h), add-zero) c,
  )
  assign_loop-PlacedIn front (x ∷ items) m buckets counts e c h =
      let more = front ++ x ∷ [] in
      let next : suc (length front) ≡ length more = omega (arith, length-append front (x ∷ [])) in
      let known : get_or state.keys (length front) 0 ≡ key_of state.key x =
        ap (λ l. get_or l (length front) 0) e
        ∙ get_or-kept_keys state.key x (front ++ x ∷ items) (length front)
            (omega (arith, length-append front (x ∷ items)))
        ∙ ap (key_of state.key) (get_or-append_at x front x items) in
      let (b, given, k) = >>=-ok _ (bucket_for state x (get_or state.keys (length front) 0)) h in
      let given' = ap (bucket_for state x) (sym known) ∙ given in
      let inside = ranged.below x b given' in
      let fits : b % 2 ^ 16 ≡ b = omega (arith, inside, ranged.small) in
      let counted = Counted-snoc (bucket_total state) m b buckets counts inside ranged.small c in
      let (added, same, placed, counted') =
        assign_loop-PlacedIn more items (suc m) (buckets ++ b % 2 ^ 16 ∷ []) (increment counts b)
          (e ∙ ap (kept_keys state.key) (sym (append_assoc front (x ∷ []) items))) counted
          (ap (λ i. assign_loop state items i (buckets ++ b % 2 ^ 16 ∷ []) (increment counts b))
              (sym next)
            ∙ k) in
      let longer : suc m + length items ≡ m + suc (length items) = omega arith in
      (
        b ∷ added,
        same ∙ ap (λ w. (buckets ++ w ∷ []) ++ added) fits ∙ append_assoc buckets (b ∷ []) added,
        (given', placed),
        rw longer at counted',
      )

module _ {T : Type 0} where
  PlacedIn-without_order :
      (state : KeyState T) (buckets counts : List ℕ) (items : List T) (added : List ℕ)
      → PlacedIn state items added
      → PlacedIn (without_order state buckets counts) items added
  unfolding without_order bucket_for
  PlacedIn-without_order state buckets counts [] [] h = h
  PlacedIn-without_order state buckets counts (x ∷ items) (b ∷ added) h =
      (h.0, PlacedIn-without_order state buckets counts items added h.1)
  PlacedIn-without_order state buckets counts [] (b ∷ added) h = elim h [ ]
  PlacedIn-without_order state buckets counts (x ∷ items) [] h = elim h [ ]

  without_order-IsLaid :
      (items : List T) (state : KeyState T) (buckets counts : List ℕ)
      → state.keys ≡ kept_keys state.key items
      → IsRanged state
      → PlacedIn state items buckets
      → Counted (bucket_total state) (length items) buckets counts
      → IsLaid items (without_order state buckets counts)
  unfolding without_order bucket_for bucket_total
  without_order-IsLaid items state buckets counts keyed ranged placed counted = record {
    keyed = keyed;
    placed = PlacedIn-without_order state buckets counts items buckets placed;
    counted = counted;
    ranged = record {
      small = ranged.small;
      limit = ranged.limit;
      formed = ranged.formed;
      offset = ranged.offset;
      below = ranged.below;
    };
  }

module _ {F : Type 0} ⦃d : Doubles F⦄ {T : Type 0} where
  -- `relayout` keeps the key.
  pub relayout-IsLaid :
      (plan : BucketPlan F) (items : List T) (state : KeyState T) {state' : KeyState T}
      → IsValid plan
      → 0 < state.key.groups
      → length items ≤ max_slots
      → state.keys ≡ kept_keys state.key items
      → relayout plan items state ≡ ok state'
      → IsLaid items state' × (state'.key ≡ state.key)
  unfolding relayout with_layouts without_order
  relayout-IsLaid plan items state {state'} valid some_group few keyed h =
      let (layouts, estimated, k) = >>=-ok _ (estimate_layouts state.key items state.keys plan) h in
      let (m, are) =
        estimate_layouts-AreLayouts state.key items state.keys plan valid some_group few
          estimated in
      let laid = with_layouts state (length items) layouts in
      let ranged = laid-IsRanged state (length items) m layouts are some_group in
      let (result, assigned, k') =
        >>=-ok _ (assign_loop laid items 0 [] (replicate (bucket_total laid) 0)) k in
      let (added, same, placed, counted) =
        assign_loop-PlacedIn laid ranged [] items 0 [] (replicate (bucket_total laid) 0) keyed
          (empty-Counted (bucket_total laid)) assigned in
      let made : without_order laid result.0 result.1 ≡ state' = ok_injective k' in
      let good =
        without_order-IsLaid items laid result.0 result.1 keyed ranged
          (subst (PlacedIn laid items) (sym same) placed) (rw zero-add at counted) in
      (subst (IsLaid items) made good, ap (λ s. s.key) (sym made))

  -- So does `maybe_auto_rebalance`.
  pub maybe_auto_rebalance-IsLaid :
      (plan : BucketPlan F) (items : List T) (state : KeyState T) {state' : KeyState T}
      → IsValid plan
      → 0 < state.key.groups
      → length items ≤ max_slots
      → maybe_auto_rebalance plan items state ≡ ok state'
      → IsLaid items state
      → IsLaid items state' × (state'.key ≡ state.key)
  unfolding maybe_auto_rebalance
  maybe_auto_rebalance-IsLaid plan items state {state'} valid some_group few h laid =
      let state₁ = record state { stale_checked_at = some state.churn } in
      let laid₁ = IsLaid-base items state state₁ refl laid in
      elim (Bool-cases (not plan.auto_rebalance || checked_now state)) [
        | inl off ↦
            let same : state ≡ state' = ok_injective (rw off at h) in
            (subst (IsLaid items) same laid, ap (λ s. s.key) (sym same))
        | inr on ↦
            elim (Bool-cases (
              leb (max plan.page_size (state.estimated_from / 8)) state.churn
              && is_stale plan (length items) state₁)) [
                | inl stale ↦
                    relayout-IsLaid plan items state₁ valid some_group few laid.keyed
                      (rw (on, stale) at h)
                | inr fresh ↦
                    let same : state₁ ≡ state' = ok_injective (rw (on, fresh) at h) in
                    (subst (IsLaid items) same laid₁, ap (λ s. s.key) (sym same))
              ]
      ]
