-- ===== src/Plan/Valid.antt =====
-- What the factories and the `with_*` methods of BucketPlan promise of every plan that they return.
use speed_up.Common.{
  ℕ, zero, suc, ◌<◌, ◌≤◌, ◌≡◌, refl, Bool, true, List, [], ◌∷◌, All, IsPos, ok, ok_injective,
  suc-==_zero, >>=-ok, arith,
}
use speed_up.Common.Doubles.{Doubles, IsIeee}
use speed_up.Plan.{
  Kind, BucketPlan, max_bucket_limit, max_sample_size, require_positive, require_all_positive,
  of_kind, of_first_page, of_geometric, of_uniform, of_sizes, with_page_size, with_max_buckets,
  with_symmetric, with_sample_size, with_seed, with_rebalance_skew, with_auto_rebalance,
}

-- The loop of `of_sizes` lets a list through as it is, and only if all of it is positive.
require_all_positive-All :
    (l : List ℕ) {r : List ℕ} → require_all_positive l ≡ ok r → (r ≡ l) × All IsPos r
unfolding require_all_positive require_positive
require_all_positive-All [] h = rw (← (ok_injective h)) (refl, tt)
require_all_positive-All (zero ∷ l) h = cc
require_all_positive-All (suc x ∷ l) h =
    let (rest, e, k) = >>=-ok _ (require_all_positive l) (rw (suc-==_zero x) at h) in
    let (same, pos) = require_all_positive-All l e in
    rw (← (ok_injective k), same) (refl, (omega arith, rw same at pos))

module _ {F : Type 0} ⦃d : Doubles F⦄ where
  pub record IsValid (plan : BucketPlan F) : Type 0 where
    pub page_pos : 0 < plan.page_size
    pub buckets_pos : 0 < plan.max_buckets
    pub buckets_le : plan.max_buckets ≤ max_bucket_limit
    pub sample_pos : 0 < plan.sample_size
    pub sample_le : plan.sample_size ≤ max_sample_size
    pub growth_ge : d.le (d.of_size 1) plan.growth ≡ true
    pub sizes_pos : All IsPos plan.sizes

  -- The plans that a caller can hold: a factory's result, or a `with_*` copy of such a plan.
  pub data Made : BucketPlan F → Type 0 where
    by_first_page : {p : BucketPlan F} (n : ℕ) → of_first_page n ≡ ok p → Made p
    by_geometric : {p : BucketPlan F} (n : ℕ) (g : F) → of_geometric n g ≡ ok p → Made p
    by_uniform : {p : BucketPlan F} (n : ℕ) → of_uniform n ≡ ok p → Made p
    by_sizes : {p : BucketPlan F} (l : List ℕ) → of_sizes l ≡ ok p → Made p
    page_size : {p q : BucketPlan F} (n : ℕ) → Made p → with_page_size p n ≡ ok q → Made q
    max_buckets : {p q : BucketPlan F} (n : ℕ) → Made p → with_max_buckets p n ≡ ok q → Made q
    sample_size : {p q : BucketPlan F} (n : ℕ) → Made p → with_sample_size p n ≡ ok q → Made q
    skew : {p q : BucketPlan F} (s : F) → Made p → with_rebalance_skew p s ≡ ok q → Made q
    symmetric : {p : BucketPlan F} (b : Bool) → Made p → Made (with_symmetric p b)
    seed : {p : BucketPlan F} (n : ℕ) → Made p → Made (with_seed p n)
    auto : {p : BucketPlan F} (b : Bool) → Made p → Made (with_auto_rebalance p b)

  module _ (ieee : IsIeee d) where
    of_kind-IsValid : (kind : Kind) → IsValid (of_kind kind)
    unfolding of_kind
    of_kind-IsValid kind = record {
      page_pos = omega arith;
      buckets_pos = omega arith;
      buckets_le = omega arith;
      sample_pos = omega arith;
      sample_le = omega arith;
      growth_ge = ieee.of_size_mono 1 2 (omega arith);
      sizes_pos = tt;
    }

    pub Made-IsValid : {p : BucketPlan F} → Made p → IsValid p
    unfolding of_first_page of_geometric of_uniform of_sizes with_page_size with_max_buckets
        with_sample_size with_rebalance_skew with_symmetric with_seed with_auto_rebalance
    Made-IsValid (by_first_page n h) = ground (arith, ieee.of_size_mono 1 2)
    Made-IsValid (by_geometric n g h) = ground arith
    Made-IsValid (by_uniform n h) = ground (arith, ieee.of_size_mono 1 2)
    Made-IsValid (by_sizes [] h) = absurd (cc)
    Made-IsValid (by_sizes (zero ∷ l) h) = absurd (ground arith)
    Made-IsValid (by_sizes (suc x ∷ l) h) =
        let (all, e, k) = >>=-ok _ (require_all_positive (suc x ∷ l)) h in
        let (same, pos) = require_all_positive-All (suc x ∷ l) e in
        rw (← (ok_injective k)) (record {
          page_pos = omega arith;
          buckets_pos = omega arith;
          buckets_le = omega arith;
          sample_pos = omega arith;
          sample_le = omega arith;
          growth_ge = ieee.of_size_mono 1 2 (omega arith);
          sizes_pos = pos;
        })
    Made-IsValid (page_size n m h) = let v = Made-IsValid m in ground arith
    Made-IsValid (max_buckets n m h) = let v = Made-IsValid m in ground arith
    Made-IsValid (sample_size n m h) = let v = Made-IsValid m in ground arith
    Made-IsValid (skew s m h) = let v = Made-IsValid m in ground arith
    Made-IsValid (symmetric b m) = let v = Made-IsValid m in ground arith
    Made-IsValid (seed n m) = let v = Made-IsValid m in ground arith
    Made-IsValid (auto b m) = let v = Made-IsValid m in ground arith
