-- ===== src/Layout/Desired.antt =====
-- The split positions that `estimate` of bucket_layout.hpp wants stand in its sample, where no target
-- bucket is empty.
use speed_up.Common.{
  ℕ, suc, ◌+◌, ◌*◌, ◌/◌, ◌%◌, ◌^◌, ◌<◌, ◌≡◌, List, [], ◌∷◌, All, IsPos, sum, arith,
}
use native.Mathlib.Nat.{div-lt_iff_lt-mul, mul_comm}
use speed_up.Layout.Sample.{mul_mono}
use speed_up.Layout.{desired_positions}

times-lt : (x s n : ℕ) → x < n → 0 < s → x * s < n * s
times-lt x s n lt pos = grind (arith, mul_mono (suc x) n s lt)

scaled-lt : (x s n : ℕ) → x < n → 0 < s → n * s < 2 ^ 64 → x * s % 2 ^ 64 / n < s
scaled-lt x s n lt pos small =
    let below : x * s < n * s = times-lt x s n lt pos in
    (div-lt_iff_lt-mul (omega arith)).1 (omega (arith, below, mul_comm n s))

-- Running sums of positive targets, scaled to a sample, are below its size.
desired_positions-lt :
    (n s cumulative : ℕ) (targets : List ℕ)
    → All IsPos targets
    → cumulative + sum targets ≡ n
    → 0 < s
    → n * s < 2 ^ 64
    → All (λ q. q < s) (desired_positions n s cumulative targets)
unfolding desired_positions
desired_positions-lt n s cumulative [] h e pos small = tt
desired_positions-lt n s cumulative (t ∷ []) h e pos small = tt
desired_positions-lt n s cumulative (t ∷ u ∷ targets) h e pos small = (
  scaled-lt (cumulative + t) s n (omega (arith, h.1.0)) pos small,
  desired_positions-lt n s (cumulative + t) (u ∷ targets) h.1 (omega arith) pos small,
)
