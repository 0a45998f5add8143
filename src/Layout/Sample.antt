-- ===== src/Layout/Sample.antt =====
-- The sampler draws distinct positions of the collection, in order.
use native.Mathlib.Nat.{zero-add, le_refl, le_trans, le-div_iff_mul-le, mod-eq_of_lt}
use speed_up.Common.{
  ℕ, zero, suc, ◌+◌, ◌-◌, ◌*◌, ◌/◌, ◌%◌, ◌^◌, ◌<◌, ◌≤◌, min, ◌≡◌, refl, List, ◌∷◌, length,
  Bool-cases, ◌==◌, inl, inr, dec_le, arith, ==_iff,
}
use speed_up.Layout.{mul64, next, indices_from, sample_loop, sample_indices}
use native.Mathlib.Numerals.{add-one}
use speed_up.Layout.Splits.{Ascends, Ascends-weaken}

indices_from-Ascends :
    (from count : ℕ)
    → Ascends from (from + count) (indices_from from count)
      × (length (indices_from from count) ≡ count)
unfolding indices_from
indices_from-Ascends from zero = (tt, refl)
indices_from-Ascends from (suc count) =
    let (asc, len) = indices_from-Ascends (suc from) count in
    let shift : suc from + count ≡ from + suc count = omega arith in
    ((omega arith, omega arith, rw shift at asc), omega arith)

pub mul_mono : (a b c : ℕ) → a ≤ b → a * c ≤ b * c
mul_mono a b c h = grind arith

le_lt : {a b c : ℕ} → a ≤ b → b < c → a < c
le_lt p q = omega arith

-- A stride is not empty: s strides over n ≥ s elements.
stride : (n s j : ℕ) → 0 < s → s ≤ n → j * n / s < suc j * n / s
stride n s j p h =
    let below : j * n / s * s ≤ j * n = (le-div_iff_mul-le p).0 (le_refl _) in
    (le-div_iff_mul-le p).1 (omega arith)

-- The last stride ends at n.
stride_end : (n s j : ℕ) → 0 < s → j ≤ s → j * n / s ≤ n
stride_end n s j p h = elim (dec_le (j * n / s) n) [
  | yes fits ↦ fits
  | no over ↦
      let below : j * n / s * s ≤ j * n = (le-div_iff_mul-le p).0 (le_refl _) in
      absurd (omega (arith, below, mul_mono j s n h, mul_mono (suc n) (j * n / s) s (omega arith)))
]

module _ (n s : ℕ) (s_pos : 0 < s) (fits : s ≤ n) (small : s * n < 2 ^ 64) where
  scaled : (j : ℕ) → j ≤ s → mul64 j n ≡ j * n
  scaled j h = mod-eq_of_lt (le_lt (mul_mono j s n h) small)

  -- one stride: what is drawn lies in it, so the later strides come after it
  draw :
      (j z : ℕ) (xs : List ℕ)
      → j < s
      → Ascends (suc j * n / s) n xs
      → Ascends (j * n / s) n ((j * n / s + z % (suc j * n / s - j * n / s)) ∷ xs)
  draw j z xs h asc =
      let lo = j * n / s in
      let hi = suc j * n / s in
      let in_stride : lo + z % (hi - lo) < hi = omega (arith, stride n s j s_pos fits) in
      (
        omega arith,
        le_trans in_stride (stride_end n s (suc j) s_pos h),
        Ascends-weaken _ _ n xs in_stride asc,
      )

  sample_loop-Ascends :
      (rounds j state : ℕ)
      → j + rounds ≡ s
      → Ascends (j * n / s) n (sample_loop n s rounds j state)
        × (length (sample_loop n s rounds j state) ≡ rounds)
  unfolding sample_loop
  sample_loop-Ascends zero j state e = (tt, refl)
  sample_loop-Ascends (suc rounds) j state e =
      let (asc, len) = sample_loop-Ascends rounds (suc j) (next state).0 (omega arith) in
      rw (scaled j (omega arith), scaled (j + 1) (omega arith), add-one j)
        (draw j (next state).1 _ (omega arith) asc, omega arith)

-- Where sample_size is positive and sample_size * n does not overflow: the sample has
-- min(n, sample_size) positions below n, strictly increasing, for every seed.
pub sample_indices-Ascends :
    (n sample_size seed : ℕ)
    → 0 < sample_size
    → sample_size * n < 2 ^ 64
    → Ascends 0 n (sample_indices n sample_size seed)
      × (length (sample_indices n sample_size seed) ≡ min n sample_size)
unfolding sample_indices
sample_indices-Ascends zero sample_size seed p small =
    let none_drawn : min 0 sample_size ≡ 0 = omega arith in rw none_drawn (tt, refl)
sample_indices-Ascends (suc n) sample_size seed p small =
    elim (Bool-cases (min (suc n) sample_size == suc n)) [
      | inl e ↦
          let same : min (suc n) sample_size ≡ suc n = (==_iff _ _).0 e in
          let (asc, len) = indices_from-Ascends 0 (suc n) in rw e (rw zero-add at asc, omega arith)
      | inr e ↦
          let s = min (suc n) sample_size in
          let (asc, len) =
            sample_loop-Ascends (suc n) s (omega arith) (omega arith)
              (omega (arith, mul_mono s sample_size (suc n) (omega arith))) s 0 seed
              (omega arith) in
          rw e (Ascends-weaken _ 0 (suc n) _ (omega arith) asc, len)
    ]
