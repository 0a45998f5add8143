-- ===== src/Keys.antt =====
-- include/speedup/bucketization/keys.hpp: order-preserving 64-bit keys. A std::uint64_t is a number
-- below 2^64, a std::int64_t an integer, a double its 64 bits, a string the list of its bytes.
use Prim.Native.Nat.{bit_and, bit_or, bit_xor}
use speed_up.Common.{
  ℕ, zero, suc, ◌+◌, ◌-◌, ◌*◌, ◌%◌, ◌^◌, Bool, true, false, List, [], ◌∷◌, ltb, ◌==◌, if◌then◌else◌,
}
use speed_up.Common.Int.{ℤ, pos, negsuc}
pub mod Signed
pub mod Floating
pub mod Bytes

abbrev pub sign_bit : ℕ
sign_bit = 0x8000000000000000

abbrev pub canonical_nan : ℕ
canonical_nan = 0xFFF8000000000000

unfoldable pub from_unsigned : ℕ → ℕ
from_unsigned value = value

-- `static_cast<std::uint64_t>(value)`
unfoldable pub to_uint64 : ℤ → ℕ
to_uint64 (pos n) = n % 2 ^ 64
to_uint64 (negsuc n) = 2 ^ 64 - 1 - n % 2 ^ 64

unfoldable pub from_signed : ℤ → ℕ
unfolding to_uint64
from_signed value = bit_xor (to_uint64 value) sign_bit

-- `~key` on std::uint64_t
abbrev pub complement : ℕ → ℕ
complement key = 2 ^ 64 - 1 - key

-- `std::isnan`, on the bits: the exponent is all ones and the fraction is not zero
unfoldable pub is_nan : ℕ → Bool
is_nan bits = ltb 0x7FF0000000000000 (bits % 2 ^ 63)

unfoldable pub from_double : ℕ → ℕ
unfolding is_nan
from_double bits =
    if is_nan bits
    then canonical_nan
    else if bit_and bits sign_bit == 0
    then bit_or bits sign_bit
    else complement bits

-- the loop of `from_bytes` over the rounds that are left, on the bytes that are left
from_bytes_loop : (rounds key : ℕ) → List ℕ → ℕ
from_bytes_loop zero key rest = key
from_bytes_loop (suc rounds) key [] = from_bytes_loop rounds (key * 256 % 2 ^ 64) []
from_bytes_loop (suc rounds) key (byte ∷ rest) =
    from_bytes_loop rounds (bit_or (key * 256 % 2 ^ 64) byte) rest

unfoldable pub from_bytes : List ℕ → ℕ
unfolding from_bytes_loop
from_bytes bytes = from_bytes_loop 8 0 bytes

unfoldable pub from_string : List ℕ → ℕ
unfolding from_bytes
from_string text = from_bytes text

unfoldable pub reverse : ℕ → ℕ
reverse key = complement key

-- The types that `normalize` accepts; an enum carries the value of its underlying type.
pub data Value : Type 0 where
  boolean : Bool → Value
  enumerator : Value → Value
  signed : ℤ → Value
  unsigned : ℕ → Value
  floating : ℕ → Value
  characters : List ℕ → Value

unfoldable pub normalize : Value → ℕ
unfolding from_signed from_unsigned from_double from_string
normalize (boolean b) = if b then 1 else 0
normalize (enumerator v) = normalize v
normalize (signed z) = from_signed z
normalize (unsigned n) = from_unsigned n
normalize (floating bits) = from_double bits
normalize (characters bytes) = from_string bytes

-- `is_string_like_v` and `is_exact_v`: no tie-breaker is needed
unfoldable pub is_string_like : Value → Bool
is_string_like (characters bytes) = true
is_string_like v = false

unfoldable pub is_exact : Value → Bool
is_exact (characters bytes) = false
is_exact v = true
