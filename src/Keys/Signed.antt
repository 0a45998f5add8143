-- ===== src/Keys/Signed.antt =====
-- `from_signed` keeps the order of std::int64_t.
use speed_up.Common.{ℕ, ◌+◌, ◌-◌, ◌%◌, ◌^◌, ◌<◌, suc, ◌≡◌, ◌↔◌, arith}
use speed_up.Common.Int.{ℤ, pos, negsuc, ◌<ℤ◌, IsInt64}
use speed_up.Common.Bits.{bit_xor_top}
use speed_up.Keys.{from_signed}

-- `from_signed` adds 2^63.
from_signed-pos : (n : ℕ) → n < 2 ^ 63 → from_signed (pos n) ≡ n + 2 ^ 63
unfolding from_signed
from_signed-pos n h = ground (arith, bit_xor_top 63 n, bit_xor_top 63 (n % 2 ^ 64))

from_signed-negsuc : (n : ℕ) → n < 2 ^ 63 → from_signed (negsuc n) ≡ 2 ^ 63 - suc n
unfolding from_signed
from_signed-negsuc n h = ground (arith, bit_xor_top 63 (2 ^ 64 - 1 - n % 2 ^ 64))

-- On std::int64_t values a key is below another exactly when its value is below the other's.
pub from_signed-lt_iff :
    (a b : ℤ) → IsInt64 a → IsInt64 b → (from_signed a < from_signed b) ↔ (a <ℤ b)
from_signed-lt_iff (pos m) (pos n) p q = ground (arith, from_signed-pos m, from_signed-pos n)
from_signed-lt_iff (pos m) (negsuc n) p q = ground (arith, from_signed-pos m, from_signed-negsuc n)
from_signed-lt_iff (negsuc m) (pos n) p q = ground (arith, from_signed-negsuc m, from_signed-pos n)
from_signed-lt_iff (negsuc m) (negsuc n) p q =
    ground (arith, from_signed-negsuc m, from_signed-negsuc n)
