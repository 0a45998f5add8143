-- ===== src/Plan/Positive.antt =====
-- No target bucket of bucket_plan.hpp is empty.
use speed_up.Common.{
  ℕ, ◌-◌, ◌/◌, ◌%◌, ◌^◌, ◌<◌, ◌≤◌, zero, suc, min, ◌≡◌, true, List, [], ◌∷◌, ◌++◌, replicate, All,
  IsPos, All-append, All-reverse, Bool-cases, inl, inr, suc-==_zero, arith,
}
use speed_up.Common.Doubles.{Doubles, IsIeee}
use native.Mathlib.Nat.{le-div_iff_mul-le}
use speed_up.Plan.Valid.{IsValid}
use speed_up.Plan.{
  Kind, uniform, explicit, first_page, geometric, BucketPlan, bump_first, explicit_loop,
  push_remaining, grow, uniform_sizes, explicit_sizes, first_page_sizes, geometric_loop,
  geometric_sizes, target_sizes,
}

bump_first-IsPos : (r : ℕ) (out : List ℕ) → All IsPos out → All IsPos (bump_first r out)
unfolding bump_first
bump_first-IsPos zero out h = h
bump_first-IsPos (suc r) [] h = h
bump_first-IsPos (suc r) (x ∷ out) h = (omega arith, bump_first-IsPos r out h.1)

replicate-IsPos : (n v : ℕ) → 0 < v → All IsPos (replicate n v)
replicate-IsPos zero v h = tt
replicate-IsPos (suc n) v h = (h, replicate-IsPos n v h)

snoc-IsPos : (out : List ℕ) (v : ℕ) → All IsPos out → 0 < v → All IsPos (out ++ v ∷ [])
snoc-IsPos out v h p = All-append IsPos out (v ∷ []) h (p, tt)

push_remaining-IsPos : (out : List ℕ) (r : ℕ) → All IsPos out → All IsPos (push_remaining out r)
push_remaining-IsPos out r h = ground (arith, snoc-IsPos out r h)

explicit_loop-IsPos :
    (m : ℕ) (sizes : List ℕ) (remaining : ℕ) (out : List ℕ)
    → All IsPos sizes
    → All IsPos out
    → All IsPos (explicit_loop m sizes remaining out).0
unfolding explicit_loop
explicit_loop-IsPos m [] remaining out s h = h
explicit_loop-IsPos m (size ∷ rest) remaining out s h = ground (
  arith,
  snoc-IsPos out (min size remaining) h,
  explicit_loop-IsPos m rest (remaining - min size remaining) (out ++ min size remaining ∷ []) s.1,
)

module _ {F : Type 0} ⦃d : Doubles F⦄ where
  -- What the loop knows of `size`: a number from 1 up to 2^63.
  record IsStep (size : F) : Type 0 where
    at_least : d.le (d.of_size 1) size ≡ true
    at_most : d.le size (d.of_size (2 ^ 63)) ≡ true

  module _ (ieee : IsIeee d) (plan : BucketPlan F) (n : ℕ) (n_pos : 0 < n) (n_small : n ≤ 2 ^ 63)
      (grows : d.le (d.of_size 1) plan.growth ≡ true) where
    grow-IsStep : (size : F) → IsStep size → IsStep (grow plan.growth size n)
    grow-IsStep size s = elim (Bool-cases (d.lt (d.of_size n) (d.mul size plan.growth))) [
      | inl cap ↦ rw cap (record {
        at_least = ieee.of_size_mono 1 n n_pos;
        at_most = ieee.of_size_mono n (2 ^ 63) n_small;
      })
      | inr fits ↦
          let big = ieee.mul-ge_one size plan.growth s.at_least grows in
          rw fits (record {
            at_least = big;
            at_most =
                ieee.le_trans _ _ _
                  (ieee.le_of_not_lt _ _ (ieee.le_self _ _ big).1
                    (ieee.of_size_mono n n (omega arith)) fits)
                  (ieee.of_size_mono n (2 ^ 63) n_small);
          })
    ]

    geometric_loop-IsPos :
        (budget remaining : ℕ) (front back : List ℕ) (size : F)
        → All IsPos front
        → All IsPos back
        → IsStep size
        → All IsPos (geometric_loop plan n budget remaining front back size).front
          × All IsPos (geometric_loop plan n budget remaining front back size).back
    unfolding geometric_loop
    geometric_loop-IsPos zero remaining front back size f b s = (f, b)
    geometric_loop-IsPos (suc zero) remaining front back size f b s = (f, b)
    geometric_loop-IsPos (suc (suc k)) remaining front back size f b s =
        let step = d.ceil_to_size size in
        let taken = min step remaining in
        let left = remaining - taken in
        let taken' = min step left in
        let s' = grow-IsStep size s in
        ground (
          arith,
          ieee.ceil-pos size s.at_least s.at_most,
          snoc-IsPos front taken f,
          snoc-IsPos back taken' b,
          λ (p : All IsPos (front ++ taken ∷ [])).
              geometric_loop-IsPos (suc k) left (front ++ taken ∷ []) back (grow plan.growth size n)
                p b s',
          λ (p : All IsPos (front ++ taken ∷ [])) (q : All IsPos (back ++ taken' ∷ [])).
              geometric_loop-IsPos k (left - taken') (front ++ taken ∷ []) (back ++ taken' ∷ [])
                (grow plan.growth size n) p q s',
        )

  module _ (plan : BucketPlan F) (n : ℕ) (v : IsValid plan) (n_pos : 0 < n)
      (n_small : n < 2 ^ 63) where
    uniform_sizes-IsPos : All IsPos (uniform_sizes plan n)
    unfolding uniform_sizes
    uniform_sizes-IsPos =
        let count = min plan.max_buckets n in
        bump_first-IsPos (n % count) _ (
          replicate-IsPos count (n / count)
            ((le-div_iff_mul-le {k = count} {x = 1} (omega arith)).1 (omega arith)))

    explicit_sizes-IsPos : All IsPos (explicit_sizes plan n)
    unfolding explicit_sizes
    explicit_sizes-IsPos =
        push_remaining-IsPos _ _
          (explicit_loop-IsPos plan.max_buckets plan.sizes n [] v.sizes_pos tt)

    first_page_sizes-IsPos : All IsPos (first_page_sizes plan n)
    unfolding first_page_sizes
    first_page_sizes-IsPos = ground arith

    geometric_sizes-IsPos :
        (ieee : IsIeee d) → plan.page_size ≤ 2 ^ 63 → All IsPos (geometric_sizes plan n)
    unfolding geometric_sizes
    geometric_sizes-IsPos ieee small =
        let start : IsStep (d.of_size plan.page_size) = record {
          at_least = ieee.of_size_mono 1 plan.page_size v.page_pos;
          at_most = ieee.of_size_mono plan.page_size (2 ^ 63) small;
        } in
        let (front, back) =
          geometric_loop-IsPos ieee plan n n_pos (omega arith) v.growth_ge plan.max_buckets n [] []
            (d.of_size plan.page_size) tt tt start in
        All-append IsPos _ _ (push_remaining-IsPos _ _ front) (All-reverse IsPos _ back)

  -- For n from 1 below 2^63, a valid plan, and a page size of at most 2^63, every target size is
  -- positive; `double` behaves as IEEE-754 says.
  pub target_sizes-IsPos :
      (ieee : IsIeee d) (plan : BucketPlan F) (n : ℕ)
      → IsValid plan
      → plan.page_size ≤ 2 ^ 63
      → 0 < n
      → n < 2 ^ 63
      → All IsPos (target_sizes plan n)
  unfolding target_sizes
  target_sizes-IsPos ieee plan zero v small p h = absurd (omega arith)
  target_sizes-IsPos ieee plan (suc n) v small p h = rw (suc-==_zero n) (by_kind plan.kind)
    where
      by_kind :
          (kind : Kind)
          → All IsPos (elim kind [
            | uniform ↦ uniform_sizes plan (suc n)
            | explicit ↦ explicit_sizes plan (suc n)
            | first_page ↦ first_page_sizes plan (suc n)
            | geometric ↦ geometric_sizes plan (suc n)
          ])
      by_kind uniform = uniform_sizes-IsPos plan (suc n) v p h
      by_kind explicit = explicit_sizes-IsPos plan (suc n) v p h
      by_kind first_page = first_page_sizes-IsPos plan (suc n) v p h
      by_kind geometric = geometric_sizes-IsPos plan (suc n) v p h ieee small
