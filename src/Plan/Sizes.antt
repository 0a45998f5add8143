-- ===== src/Plan/Sizes.antt =====
-- The target sizes of bucket_plan.hpp add up to the number of elements.
use speed_up.Common.{
  ℕ, ◌+◌, ◌-◌, ◌/◌, ◌%◌, ◌^◌, ◌<◌, ◌≤◌, zero, suc, min, ◌≡◌, refl, List, [], ◌∷◌, ◌++◌, reverse,
  length, replicate, sum, sum-append, sum-replicate, length-replicate, sum-reverse, arith,
}
use speed_up.Common.Doubles.{Doubles}
use speed_up.Plan.{
  BucketPlan, bump_first, explicit_loop, push_remaining, grow, uniform_sizes, explicit_sizes,
  first_page_sizes, geometric_loop, geometric_sizes, target_sizes,
}
use native.Mathlib.Nat.{div-add-mod}

sum-bump_first : (r : ℕ) (out : List ℕ) → r ≤ length out → sum (bump_first r out) ≡ r + sum out
unfolding bump_first
sum-bump_first zero out h = omega arith
sum-bump_first (suc r) [] h = absurd (omega arith)
sum-bump_first (suc r) (x ∷ out) h = omega (arith, sum-bump_first r out (omega arith))

sum-push_remaining : (out : List ℕ) (r : ℕ) → sum (push_remaining out r) ≡ sum out + r
sum-push_remaining out r = ground (arith, sum-append out (r ∷ []))

explicit_loop-sum :
    (m : ℕ) (sizes : List ℕ) (remaining : ℕ) (out : List ℕ)
    → sum (explicit_loop m sizes remaining out).0 + (explicit_loop m sizes remaining out).1
      ≡ sum out + remaining
unfolding explicit_loop
explicit_loop-sum m [] remaining out = refl
explicit_loop-sum m (size ∷ rest) remaining out = ground (
  arith,
  sum-append out (min size remaining ∷ []),
  explicit_loop-sum m rest (remaining - min size remaining) (out ++ min size remaining ∷ []),
)

module _ {F : Type 0} ⦃d : Doubles F⦄ where
  uniform_sizes-sum :
      (plan : BucketPlan F) (n : ℕ) → 0 < n → 0 < plan.max_buckets → sum (uniform_sizes plan n) ≡ n
  unfolding uniform_sizes
  uniform_sizes-sum plan n h k =
      let count = min plan.max_buckets n in
      let bump = sum-bump_first (n % count) (replicate count (n / count)) in
      omega (
        arith,
        div-add-mod n count,
        length-replicate count (n / count),
        sum-replicate count (n / count),
        bump (omega (arith, length-replicate count (n / count))),
      )

  explicit_sizes-sum : (plan : BucketPlan F) (n : ℕ) → sum (explicit_sizes plan n) ≡ n
  unfolding explicit_sizes
  explicit_sizes-sum plan n = omega (
    arith,
    explicit_loop-sum plan.max_buckets plan.sizes n [],
    sum-push_remaining (explicit_loop plan.max_buckets plan.sizes n []).0
        (explicit_loop plan.max_buckets plan.sizes n []).1,
  )

  first_page_sizes-sum :
      (plan : BucketPlan F) (n : ℕ) → n < 2 ^ 63 → sum (first_page_sizes plan n) ≡ n
  unfolding first_page_sizes
  first_page_sizes-sum plan n h = ground arith

  geometric_loop-sum :
      (plan : BucketPlan F) (n budget remaining : ℕ) (front back : List ℕ) (size : F)
      → sum (geometric_loop plan n budget remaining front back size).front
          + sum (geometric_loop plan n budget remaining front back size).back
          + (geometric_loop plan n budget remaining front back size).remaining
        ≡ sum front + sum back + remaining
  unfolding geometric_loop
  geometric_loop-sum plan n zero remaining front back size = refl
  geometric_loop-sum plan n (suc zero) remaining front back size = refl
  geometric_loop-sum plan n (suc (suc b)) remaining front back size =
      let step = d.ceil_to_size size in
      let taken = min step remaining in
      let left = remaining - taken in
      let taken' = min step left in
      let size' = grow plan.growth size n in
      ground (
        arith,
        sum-append front (taken ∷ []),
        sum-append back (taken' ∷ []),
        geometric_loop-sum plan n (suc b) left (front ++ taken ∷ []) back size',
        geometric_loop-sum plan n b (left - taken') (front ++ taken ∷ []) (back ++ taken' ∷ [])
            size',
      )

  geometric_sizes-sum : (plan : BucketPlan F) (n : ℕ) → sum (geometric_sizes plan n) ≡ n
  unfolding geometric_sizes
  geometric_sizes-sum plan n =
      let cut = geometric_loop plan n plan.max_buckets n [] [] (d.of_size plan.page_size) in
      omega (
        arith,
        sum-append (push_remaining cut.front cut.remaining) (reverse cut.back),
        sum-push_remaining cut.front cut.remaining,
        sum-reverse cut.back,
        geometric_loop-sum plan n plan.max_buckets n [] [] (d.of_size plan.page_size),
      )

  -- For n below 2^63 and a plan with at least one bucket, the target sizes add up to n.
  pub target_sizes-sum :
      (plan : BucketPlan F) (n : ℕ)
      → 0 < plan.max_buckets
      → n < 2 ^ 63
      → sum (target_sizes plan n) ≡ n
  unfolding target_sizes
  target_sizes-sum plan zero k h = refl
  target_sizes-sum plan (suc n) k h = ground (
    arith,
    uniform_sizes-sum plan (suc n) (omega arith) k,
    explicit_sizes-sum plan (suc n),
    first_page_sizes-sum plan (suc n) h,
    geometric_sizes-sum plan (suc n),
  )
