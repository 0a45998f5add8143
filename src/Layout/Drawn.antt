-- ===== src/Layout/Drawn.antt =====
-- The positions that a layout's sample is drawn from.
use speed_up.Common.{
  ℕ, zero, suc, ◌≡◌, ◌∙◌, min, length-map, ◌*◌, ◌^◌, ◌<◌, Option, none, some, List, [], ◌∷◌, length,
  map, get_or, All, arith,
}
use speed_up.Common.Doubles.{Doubles}
use speed_up.Plan.{BucketPlan}
use speed_up.SortKey.{SortKey}
use speed_up.Std.Sort.{stable_sort-All, length-stable_sort}
use speed_up.Layout.{sample_of, laid_out, sample_indices, sorted_sample, less_at}
use speed_up.Layout.Splits.{Ascends-All}
use speed_up.Layout.Sample.{sample_indices-Ascends}

get_or-All : (n : ℕ) (xs : List ℕ) (i : ℕ) → 0 < n → All (λ x. x < n) xs → get_or xs i 0 < n
get_or-All n [] i p h = p
get_or-All n (x ∷ xs) zero p h = h.0
get_or-All n (x ∷ xs) (suc i) p h = get_or-All n xs i p h.1

-- The positions of a subset are positions of items.
abbrev pub AreIn : (n : ℕ) → Option (List ℕ) → Type 0
AreIn n none = Unit
AreIn n (some positions) = All (λ x. x < n) positions

All-drawn :
    (n : ℕ) (positions drawn : List ℕ)
    → All (λ x. x < n) positions
    → All (λ i. i < length positions) drawn
    → All (λ x. x < n) (map (λ i. get_or positions i 0) drawn)
All-drawn n positions [] h k = tt
All-drawn n positions (i ∷ drawn) h k = (
  get_or-All n positions i (some_below n positions h (omega (arith, k.0))) h,
  All-drawn n positions drawn h k.1,
)
  where
    some_below : (n : ℕ) (xs : List ℕ) → All (λ x. x < n) xs → 0 < length xs → 0 < n
    some_below n [] h p = absurd (omega arith)
    some_below n (x ∷ xs) h p = omega (arith, h.0)

module _ {F : Type 0} {T : Type 0} where
  All-sample :
      (items : List T) (plan : BucketPlan F) (subset : Option (List ℕ))
      → 0 < plan.sample_size
      → plan.sample_size * laid_out items subset < 2 ^ 64
      → AreIn (length items) subset
      → All (λ x. x < length items) (sample_of plan (laid_out items subset) subset)
  unfolding sample_of
  All-sample items plan none pos small inside =
      Ascends-All 0 (length items) (sample_indices (length items) plan.sample_size plan.seed)
        (sample_indices-Ascends (length items) plan.sample_size plan.seed pos small).0
  All-sample items plan (some positions) pos small inside =
      let n = length positions in
      let drawn = sample_indices n plan.sample_size plan.seed in
      All-drawn (length items) positions drawn inside
        (Ascends-All 0 n drawn (sample_indices-Ascends n plan.sample_size plan.seed pos small).0)

module _ {F : Type 0} {T : Type 0} where
  length-sample :
      (plan : BucketPlan F) (items : List T) (subset : Option (List ℕ))
      → 0 < plan.sample_size
      → plan.sample_size * laid_out items subset < 2 ^ 64
      → length (sample_of plan (laid_out items subset) subset)
        ≡ min (laid_out items subset) plan.sample_size
  unfolding sample_of
  length-sample plan items none pos small =
      (sample_indices-Ascends (length items) plan.sample_size plan.seed pos small).1
  length-sample plan items (some positions) pos small =
      length-map (sample_indices (length positions) plan.sample_size plan.seed)
        (λ i. get_or positions i 0)
      ∙ (sample_indices-Ascends (length positions) plan.sample_size plan.seed pos small).1

module _ {F : Type 0} ⦃d : Doubles F⦄ {T : Type 0} (key : SortKey T) (items : List T)
    (keys : List ℕ) (plan : BucketPlan F) (subset : Option (List ℕ)) where
  pub in_sample :
      0 < plan.sample_size
      → plan.sample_size * laid_out items subset < 2 ^ 64
      → AreIn (length items) subset
      → All
          (λ x. x < length items)
          (sorted_sample key items keys plan (laid_out items subset) subset)
  unfolding sorted_sample
  in_sample pos small inside =
      stable_sort-All (less_at key items keys) (λ x. x < length items)
        (sample_of plan (laid_out items subset) subset)
        (All-sample items plan subset pos small inside)

  -- A sample of some element has one.
  pub some_sample :
      0 < plan.sample_size
      → plan.sample_size * laid_out items subset < 2 ^ 64
      → 0 < laid_out items subset
      → 0 < length (sorted_sample key items keys plan (laid_out items subset) subset)
  unfolding sorted_sample
  some_sample pos small some_item = omega (
    arith,
    length-stable_sort (less_at key items keys) (sample_of plan (laid_out items subset) subset),
    length-sample plan items subset pos small,
  )
