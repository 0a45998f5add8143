-- ===== src/Plan.antt =====
-- include/speedup/bucketization/bucket_plan.hpp: class BucketPlan. A plan is a value; the factories
-- and `with_*` either return a plan or throw. `double` is the parameter `F`.
use speed_up.Common.{
  ℕ, ◌+◌, ◌-◌, ◌*◌, ◌/◌, ◌%◌, ◌^◌, ◌<◌, zero, suc, min, Bool, true, false, ◌&&◌, ◌||◌, not, List,
  [], ◌∷◌, ◌++◌, reverse, length, replicate, ltb, leb, ◌==◌, if◌then◌else◌, Result, ok, err, Error,
  invalid_argument, ◌>>=◌, ◌≡◌, ◌≤◌, All, IsPos,
}
use speed_up.Common.Doubles.{Doubles}
pub mod Sizes
pub mod Limits
pub mod Positive
pub mod Valid

pub data Kind : Type 0 where
  geometric first_page uniform explicit : Kind

-- `static constexpr` members
abbrev pub max_bucket_limit : ℕ
max_bucket_limit = 65535

abbrev pub max_sample_size : ℕ
max_sample_size = 2 ^ 20

abbrev pub default_page_size : ℕ
default_page_size = 64

pub record BucketPlan (F : Type 0) : Type 0 where
  pub kind : Kind
  pub page_size : ℕ
  pub growth : F
  pub max_buckets : ℕ
  pub symmetric : Bool
  pub sample_size : ℕ
  pub seed : ℕ
  pub rebalance_skew : F
  pub auto_rebalance : Bool
  pub sizes : List ℕ

unfoldable pub require_positive : ℕ → Result ℕ
require_positive value = if value == 0 then err invalid_argument else ok value

-- the loop of `of_sizes` over the caller's sizes
require_all_positive : List ℕ → Result (List ℕ)
require_all_positive [] = ok []
require_all_positive (size ∷ rest) =
    require_positive size >>= λ s. require_all_positive rest >>= λ r. ok (s ∷ r)

module _ {F : Type 0} ⦃d : Doubles F⦄ where
  -- the private constructor: every member but `kind_` has its default
  unfoldable pub of_kind : Kind → BucketPlan F
  of_kind kind = record {
    kind = kind;
    page_size = default_page_size;
    growth = d.of_size 2;
    max_buckets = 64;
    symmetric = true;
    sample_size = 2048;
    seed = 0x5EEDB0C4E7;
    rebalance_skew = d.of_size 4;
    auto_rebalance = true;
    sizes = [];
  }

  unfoldable pub of_first_page : ℕ → Result (BucketPlan F)
  unfolding of_kind require_positive
  of_first_page page_size =
      require_positive page_size >>= λ p. ok (record (of_kind first_page) { page_size = p })

  unfoldable pub of_geometric : ℕ → F → Result (BucketPlan F)
  unfolding of_kind require_positive
  of_geometric page_size growth =
      if not (d.le (d.of_size 1) growth) || not (d.is_finite growth)
      then err invalid_argument
      else (require_positive page_size >>= λ p.
          ok (record (of_kind geometric) { page_size = p; growth = growth }))

  unfoldable pub defaults : Result (BucketPlan F)
  unfolding of_geometric
  defaults = of_geometric default_page_size (d.of_size 2)

  unfoldable pub of_uniform : ℕ → Result (BucketPlan F)
  unfolding of_kind require_positive
  of_uniform buckets = require_positive buckets >>= λ b.
      ok (record (of_kind uniform) { max_buckets = min b max_bucket_limit })

  unfoldable pub of_sizes : List ℕ → Result (BucketPlan F)
  unfolding of_kind require_positive require_all_positive
  of_sizes [] = err invalid_argument
  of_sizes (size ∷ rest) = require_all_positive (size ∷ rest) >>= λ all.
      ok (record (of_kind explicit) { page_size = size; sizes = all })

  unfoldable pub with_page_size : BucketPlan F → ℕ → Result (BucketPlan F)
  unfolding require_positive
  with_page_size plan page_size =
      require_positive page_size >>= λ p. ok (record plan { page_size = p })

  unfoldable pub with_max_buckets : BucketPlan F → ℕ → Result (BucketPlan F)
  unfolding require_positive
  with_max_buckets plan max_buckets = require_positive max_buckets >>= λ b.
      ok (record plan { max_buckets = min b max_bucket_limit })

  unfoldable pub with_symmetric : BucketPlan F → Bool → BucketPlan F
  with_symmetric plan symmetric = record plan { symmetric = symmetric }

  unfoldable pub with_sample_size : BucketPlan F → ℕ → Result (BucketPlan F)
  unfolding require_positive
  with_sample_size plan sample_size =
      require_positive sample_size >>= λ s. ok (record plan { sample_size = min s max_sample_size })

  unfoldable pub with_seed : BucketPlan F → ℕ → BucketPlan F
  with_seed plan seed = record plan { seed = seed }

  unfoldable pub with_rebalance_skew : BucketPlan F → F → Result (BucketPlan F)
  with_rebalance_skew plan skew =
      if not (d.lt (d.of_size 1) skew)
      then err invalid_argument
      else ok (record plan { rebalance_skew = skew })

  unfoldable pub with_auto_rebalance : BucketPlan F → Bool → BucketPlan F
  with_auto_rebalance plan enabled = record plan { auto_rebalance = enabled }

-- `for (i = 0; i < r; ++i) ++out[i]`
bump_first : ℕ → List ℕ → List ℕ
bump_first zero out = out
bump_first (suc r) [] = []
bump_first (suc r) (x ∷ out) = suc x ∷ bump_first r out

-- the loop of `explicit_sizes`: the sizes pushed, and what remains
explicit_loop : (max_buckets : ℕ) → List ℕ → ℕ → List ℕ → List ℕ × ℕ
explicit_loop max_buckets [] remaining out = (out, remaining)
explicit_loop max_buckets (size ∷ rest) remaining out =
    if remaining == 0 || length out + 1 == max_buckets
    then (out, remaining)
    else explicit_loop max_buckets rest (remaining - min size remaining)
        (out ++ min size remaining ∷ [])

-- `if (remaining > 0) out.push_back(remaining)`
abbrev push_remaining : List ℕ → ℕ → List ℕ
push_remaining out remaining = if ltb 0 remaining then out ++ remaining ∷ [] else out

-- `2 * page` on size_t
abbrev pub twice64 : ℕ → ℕ
twice64 page = 2 * page % 2 ^ 64

-- `a - b` on size_t
abbrev pub sub64 : ℕ → ℕ → ℕ
sub64 a b = (a + 2 ^ 64 - b) % 2 ^ 64

module _ {F : Type 0} ⦃d : Doubles F⦄ where
  uniform_sizes : BucketPlan F → ℕ → List ℕ
  unfolding bump_first
  uniform_sizes plan n =
      let count = min plan.max_buckets n in bump_first (n % count) (replicate count (n / count))

  explicit_sizes : BucketPlan F → ℕ → List ℕ
  unfolding explicit_loop
  explicit_sizes plan n =
      let (out, remaining) = explicit_loop plan.max_buckets plan.sizes n [] in
      push_remaining out remaining

  first_page_sizes : BucketPlan F → ℕ → List ℕ
  first_page_sizes plan n =
      let page = min plan.page_size n in
      if plan.max_buckets == 1 || page == n
      then n ∷ []
      else if plan.symmetric && leb 3 plan.max_buckets && ltb (twice64 page) n
      then page ∷ sub64 n (twice64 page) ∷ page ∷ []
      else page ∷ (n - page) ∷ []

  -- `std::min(size * growth_, static_cast<double>(n))`
  abbrev grow : F → F → ℕ → F
  grow growth size n =
      let grown = d.mul size growth in
      let whole = d.of_size n in if d.lt whole grown then whole else grown

  -- The `while` of `geometric_sizes`; the budget falls in every round. It returns the buckets cut
  -- from the front, those from the back, and what remains.
  geometric_loop :
      (plan : BucketPlan F) (n budget remaining : ℕ) (front back : List ℕ) (size : F)
      → record { front : List ℕ; back : List ℕ; remaining : ℕ }
  geometric_loop plan n zero remaining front back size = record {
    front = front;
    back = back;
    remaining = remaining;
  }
  geometric_loop plan n (suc zero) remaining front back size = record {
    front = front;
    back = back;
    remaining = remaining;
  }
  geometric_loop plan n (suc (suc b)) remaining front back size =
      let step = d.ceil_to_size size in
      let taken = min step remaining in
      let left = remaining - taken in
      let taken' = min step left in
      let size' = grow plan.growth size n in
      let one_sided = geometric_loop plan n (suc b) left (front ++ taken ∷ []) back size' in
      let both_sides =
        geometric_loop plan n b (left - taken') (front ++ taken ∷ []) (back ++ taken' ∷ []) size' in
      if ltb 0 remaining
      then (if plan.symmetric
          then (if left == 0 || leb (suc b) 1
              then record { front = front ++ taken ∷ []; back = back; remaining = left }
              else both_sides)
          else one_sided)
      else record { front = front; back = back; remaining = remaining }

  geometric_sizes : BucketPlan F → ℕ → List ℕ
  unfolding geometric_loop
  geometric_sizes plan n =
      let cut = geometric_loop plan n plan.max_buckets n [] [] (d.of_size plan.page_size) in
      push_remaining cut.front cut.remaining ++ reverse cut.back

  unfoldable pub target_sizes : BucketPlan F → ℕ → List ℕ
  unfolding uniform_sizes explicit_sizes first_page_sizes geometric_sizes
  target_sizes plan n = if n == 0 then 0 ∷ [] else elim plan.kind [
    | uniform ↦ uniform_sizes plan n
    | explicit ↦ explicit_sizes plan n
    | first_page ↦ first_page_sizes plan n
    | geometric ↦ geometric_sizes plan n
  ]
