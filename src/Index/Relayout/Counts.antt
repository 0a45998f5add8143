-- ===== src/Index/Relayout/Counts.antt =====
-- What `relayout` of bucket_index.hpp leaves behind: bucket numbers in range and right counts, from
-- which `build_order` groups the slots.
use native.Mathlib.Nat.{zero-add, add-zero}
use mathlib.Core.Path.{subst}
use speed_up.Common.{
  ℕ, suc, ◌+◌, ◌%◌, ◌^◌, ◌<◌, ◌≤◌, ◌≡◌, refl, sym, ap, ◌∙◌, List, [], ◌∷◌, ◌++◌, length, replicate,
  get_or, All, All-append, length-append, ok, >>=-ok, ok_injective, arith,
}
use speed_up.Common.Doubles.{Doubles}
use speed_up.Plan.{BucketPlan}
use speed_up.Index.{KeyState, bucket_for, bucket_total, increment}
use speed_up.Index.Relayout.{assign_loop, relayout, with_layouts, without_order, estimate_layouts}
use speed_up.Index.Grouping.{build_order}
use speed_up.Index.Grouping.Counting.{tallies, tallies-nil, tallies-snoc, grouped}
use speed_up.Index.Grouping.Placing.{build_order-order}

-- The buckets and counts that the loop over the slots has so far.
pub record Counted (k n : ℕ) (buckets counts : List ℕ) : Type 0 where
  pub long : length buckets ≡ n
  pub below : All (λ b. b < k) buckets
  pub right : counts ≡ tallies k 0 buckets

pub Counted-snoc :
    (k n b : ℕ) (buckets counts : List ℕ)
    → b < k
    → k ≤ 2 ^ 16
    → Counted k n buckets counts
    → Counted k (suc n) (buckets ++ b % 2 ^ 16 ∷ []) (increment counts b)
Counted-snoc k n b buckets counts h small c =
    let same : b % 2 ^ 16 ≡ b = omega arith in
    rw same (record {
      long = omega (arith, length-append buckets (b ∷ []), c.long);
      below = All-append (λ b. b < k) buckets (b ∷ []) c.below (h, tt);
      right =
          ap (λ l. increment l b) c.right
          ∙ sym (tallies-snoc k 0 b buckets)
          ∙ ap (λ x. tallies k 0 (buckets ++ x ∷ [])) (zero-add b);
    })

pub empty-Counted : (k : ℕ) → Counted k 0 [] (replicate k 0)
empty-Counted k = record { long = refl; below = tt; right = sym (tallies-nil k 0) }

module _ {T : Type 0} where
  -- Every bucket that the layouts give is one of the state's, and bucket numbers have 16 bits.
  pub record InRange (state : KeyState T) : Type 0 where
    pub small : bucket_total state ≤ 2 ^ 16
    pub below : (item : T) (key b : ℕ) → bucket_for state item key ≡ ok b → b < bucket_total state

  assign_loop-Counted :
      (state : KeyState T) (items : List T) (slot n : ℕ) (buckets counts : List ℕ)
      {result : List ℕ × List ℕ}
      → InRange state
      → Counted (bucket_total state) n buckets counts
      → assign_loop state items slot buckets counts ≡ ok result
      → Counted (bucket_total state) (n + length items) result.0 result.1
  unfolding assign_loop
  assign_loop-Counted state [] slot n buckets counts r c h = rw (← (ok_injective h), add-zero) c
  assign_loop-Counted state (item ∷ items) slot n buckets counts r c h =
      let (b, e, k) = >>=-ok _ (bucket_for state item (get_or state.keys slot 0)) h in
      let next =
        Counted-snoc (bucket_total state) n b buckets counts (r.below item _ b e) r.small c in
      let longer : suc n + length items ≡ n + suc (length items) = omega arith in
      rw longer at (assign_loop-Counted state items (suc slot) (suc n) _ _ r next k)

module _ {T : Type 0} where
  without_order-InRange :
      (state : KeyState T) (buckets counts : List ℕ)
      → InRange (without_order state buckets counts)
      → InRange state
  unfolding without_order bucket_total bucket_for
  without_order-InRange state buckets counts r = record { small = r.small; below = r.below }

  abbrev IsCounted : ℕ → KeyState T → Type 0
  IsCounted n state = Counted (bucket_total state) n state.buckets state.counts

  -- the state that the loop over the slots is run in, and what is made of its result
  assigned-Counted :
      (state : KeyState T) (items : List T) {result : List ℕ × List ℕ}
      → assign_loop state items 0 [] (replicate (bucket_total state) 0) ≡ ok result
      → InRange (without_order state result.0 result.1)
      → IsCounted (length items) (without_order state result.0 result.1)
  unfolding without_order bucket_total
  assigned-Counted state items {result} h r =
      let range = without_order-InRange state result.0 result.1 r in
      rw (zero-add (length items)) at (
        assign_loop-Counted state items 0 0 [] (replicate (bucket_total state) 0) range
          (empty-Counted (bucket_total state)) h)

module _ {F : Type 0} ⦃d : Doubles F⦄ {T : Type 0} where
  relayout-Counted :
      (plan : BucketPlan F) (items : List T) (state : KeyState T) {state' : KeyState T}
      → relayout plan items state ≡ ok state'
      → InRange state'
      → IsCounted (length items) state'
  unfolding relayout
  relayout-Counted plan items state {state'} h r =
      let (layouts, e, k) = >>=-ok _ (estimate_layouts state.key items state.keys plan) h in
      let fresh = with_layouts state (length items) layouts in
      let ((buckets, counts), f, g) =
        >>=-ok _ (assign_loop fresh items 0 [] (replicate (bucket_total fresh) 0)) k in
      let same : without_order fresh buckets counts ≡ state' = ok_injective g in
      subst (IsCounted (length items)) same
        (assigned-Counted fresh items f (subst InRange (sym same) r))

  -- If `relayout` returns a state in which every bucket that the layouts give exists and there are at
  -- most 2^16 buckets, then `build_order` on it gives the slots of bucket 0 in insertion order, then
  -- those of bucket 1, and so on, where the slots are as many as the items.
  pub build_order-relayout :
      (plan : BucketPlan F) (items : List T) (state : KeyState T) {state' : KeyState T}
      → relayout plan items state ≡ ok state'
      → InRange state'
      → (length state'.buckets ≡ length items)
        × ((build_order (length items) state').order
            ≡ grouped (bucket_total state') 0 state'.buckets)
  build_order-relayout plan items state {state'} h r =
      let c = relayout-Counted plan items state h r in
      (c.long, build_order-order (length items) state' c.long c.below c.right)
