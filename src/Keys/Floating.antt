-- ===== src/Keys/Floating.antt =====
-- `from_double` keeps the order of IEEE-754 doubles, given by their bits.
use speed_up.Common.{ℕ, ◌+◌, ◌-◌, ◌^◌, ◌<◌, ◌≡◌, ◌↔◌, true, false, ltb, if◌then◌else◌, arith}
use speed_up.Common.Int.{ℤ, pos, negsuc, ◌<ℤ◌}
use speed_up.Common.Bits.{bit_and_top, bit_or_top}
use speed_up.Keys.{from_double, is_nan, canonical_nan}

-- The value that a pattern which is no NaN stands for, up to an order isomorphism: sign and
-- magnitude, with -0.0 just below +0.0.
abbrev pub rank : ℕ → ℤ
rank bits = if ltb bits (2 ^ 63) then pos bits else negsuc (bits - 2 ^ 63)

from_double-rank :
    (x : ℕ)
    → x < 2 ^ 64
    → is_nan x ≡ false
    → from_double x ≡ (if ltb x (2 ^ 63) then x + 2 ^ 63 else 2 ^ 64 - 1 - x)
unfolding from_double
from_double-rank x h n = rw n (ground (arith, bit_and_top 63 x, bit_or_top 63 x))

-- On 64-bit patterns that are no NaN, keys are ordered exactly as the values: -inf, negative numbers,
-- -0.0, +0.0, positive numbers, +inf.
pub from_double-lt_iff :
    (x y : ℕ)
    → x < 2 ^ 64
    → y < 2 ^ 64
    → is_nan x ≡ false
    → is_nan y ≡ false
    → (from_double x < from_double y) ↔ (rank x <ℤ rank y)
from_double-lt_iff x y p q m n = ground (arith, from_double-rank x p m, from_double-rank y q n)

from_double_nan : (y : ℕ) → is_nan y ≡ true → from_double y ≡ canonical_nan
unfolding from_double
from_double_nan y n = rw n

from_double_below : (x : ℕ) → x < 2 ^ 64 → is_nan x ≡ false → from_double x < canonical_nan
unfolding is_nan
from_double_below x p m = ground (arith, from_double-rank x p m)

-- Every NaN gets the same key, and every other 64-bit pattern gets a smaller one.
pub from_double-nan_last :
    (x y : ℕ)
    → x < 2 ^ 64
    → is_nan x ≡ false
    → is_nan y ≡ true
    → (from_double x < from_double y) × (from_double y ≡ canonical_nan)
from_double-nan_last x y p m n =
    (rw (from_double_nan y n) (from_double_below x p m), from_double_nan y n)
