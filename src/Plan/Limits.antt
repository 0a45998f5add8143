-- ===== src/Plan/Limits.antt =====
-- How many buckets the plans of bucket_plan.hpp ask for.
use speed_up.Common.{
  ℕ, ◌+◌, ◌-◌, ◌/◌, ◌%◌, ◌<◌, ◌≤◌, zero, suc, min, ◌≡◌, refl, List, [], ◌∷◌, ◌++◌, reverse, length,
  replicate, length-append, length-replicate, length-reverse, arith,
}
use speed_up.Common.Doubles.{Doubles}
use speed_up.Plan.{
  BucketPlan, bump_first, explicit_loop, push_remaining, grow, uniform_sizes, explicit_sizes,
  first_page_sizes, geometric_loop, geometric_sizes, target_sizes,
}

length-bump_first : (r : ℕ) (out : List ℕ) → length (bump_first r out) ≡ length out
unfolding bump_first
length-bump_first zero out = refl
length-bump_first (suc r) [] = refl
length-bump_first (suc r) (x ∷ out) = omega (arith, length-bump_first r out)

length-push_remaining :
    (out : List ℕ) (r : ℕ) → length (push_remaining out r) ≤ length out + min r 1
length-push_remaining out r = ground (arith, length-append out (r ∷ []))

explicit_loop-length :
    (m : ℕ) (sizes : List ℕ) (remaining : ℕ) (out : List ℕ)
    → length out < m
    → length (explicit_loop m sizes remaining out).0 < m
unfolding explicit_loop
explicit_loop-length m [] remaining out h = h
explicit_loop-length m (size ∷ rest) remaining out h = ground (
  arith,
  length-append out (min size remaining ∷ []),
  explicit_loop-length m rest (remaining - min size remaining) (out ++ min size remaining ∷ []),
)

module _ {F : Type 0} ⦃d : Doubles F⦄ where
  geometric_loop-length :
      (plan : BucketPlan F) (n budget remaining : ℕ) (front back : List ℕ) (size : F)
      → 0 < budget
      → suc (
          length (geometric_loop plan n budget remaining front back size).front
          + length (geometric_loop plan n budget remaining front back size).back)
        ≤ length front + length back + budget
  unfolding geometric_loop
  geometric_loop-length plan n zero remaining front back size h = absurd (omega arith)
  geometric_loop-length plan n (suc zero) remaining front back size h = omega arith
  geometric_loop-length plan n (suc (suc zero)) remaining front back size h =
      let taken = min (d.ceil_to_size size) remaining in
      ground (
        arith,
        length-append front (taken ∷ []),
        geometric_loop-length plan n (suc zero) (remaining - taken) (front ++ taken ∷ []) back
            (grow plan.growth size n),
      )
  geometric_loop-length plan n (suc (suc (suc b))) remaining front back size h =
      let step = d.ceil_to_size size in
      let taken = min step remaining in
      let left = remaining - taken in
      let taken' = min step left in
      let size' = grow plan.growth size n in
      ground (
        arith,
        length-append front (taken ∷ []),
        length-append back (taken' ∷ []),
        geometric_loop-length plan n (suc (suc b)) left (front ++ taken ∷ []) back size',
        geometric_loop-length plan n (suc b) (left - taken') (front ++ taken ∷ [])
            (back ++ taken' ∷ []) size',
      )

  module _ (plan : BucketPlan F) (n : ℕ) (pos : 0 < plan.max_buckets) where
    uniform_sizes-length : length (uniform_sizes plan n) ≤ plan.max_buckets
    unfolding uniform_sizes
    uniform_sizes-length =
        let count = min plan.max_buckets n in
        omega (
          arith,
          length-bump_first (n % count) (replicate count (n / count)),
          length-replicate count (n / count),
        )

    explicit_sizes-length : length (explicit_sizes plan n) ≤ plan.max_buckets
    unfolding explicit_sizes
    explicit_sizes-length = omega (
      arith,
      explicit_loop-length plan.max_buckets plan.sizes n [] pos,
      length-push_remaining (explicit_loop plan.max_buckets plan.sizes n []).0
          (explicit_loop plan.max_buckets plan.sizes n []).1,
    )

    first_page_sizes-length : length (first_page_sizes plan n) ≤ plan.max_buckets
    unfolding first_page_sizes
    first_page_sizes-length = ground arith

    geometric_sizes-length : length (geometric_sizes plan n) ≤ plan.max_buckets
    unfolding geometric_sizes
    geometric_sizes-length =
        let cut = geometric_loop plan n plan.max_buckets n [] [] (d.of_size plan.page_size) in
        omega (
          arith,
          length-append (push_remaining cut.front cut.remaining) (reverse cut.back),
          length-push_remaining cut.front cut.remaining,
          length-reverse cut.back,
          geometric_loop-length plan n plan.max_buckets n [] [] (d.of_size plan.page_size) pos,
        )

  -- A plan with at least one bucket never asks for more than `max_buckets` of them.
  pub target_sizes-le :
      (plan : BucketPlan F) (n : ℕ)
      → 0 < plan.max_buckets
      → length (target_sizes plan n) ≤ plan.max_buckets
  unfolding target_sizes
  target_sizes-le plan zero k = k
  target_sizes-le plan (suc n) k = ground (
    arith,
    uniform_sizes-length plan (suc n) k,
    explicit_sizes-length plan (suc n) k,
    first_page_sizes-length plan (suc n) k,
    geometric_sizes-length plan (suc n) k,
  )
