-- ===== src/Common/Bits.antt =====
-- The bit operations on std::uint64_t at variables: their lowest digit, what `^`, `&` and `|` do to
-- the highest bit, and `|` of a byte into a shifted word.
use Prim.Native.Nat.{
  min, max, differ, digits, bitwise, bit_and, bit_or, bit_xor, bit_and-bitwise, bit_or-bitwise,
  bit_xor-bitwise,
}
use native.Mathlib.Nat.{pow-suc}
use mathlib.Core.Path.{◌≡◌, refl, ap}
use Prim.Native.Nat.{ℕ, zero, suc, ◌+◌, ◌-◌, ◌*◌, ◌/◌, ◌%◌, ◌^◌, ◌≤◌, ◌<◌}
use native.Mathlib.Omega.{arith}
use speed_up.Common.Tests.{ltb, if◌then◌else◌}

module _ (rest : ℕ → ℕ) (op : ℕ → ℕ → ℕ) where
  -- any two fuels that cover the first operand give the same digits
  same_digits : (x y f g : ℕ) → x ≤ f → x ≤ g → digits rest op f x y ≡ digits rest op g x y
  same_digits zero y zero zero p q = refl
  same_digits zero y zero (suc g) p q = refl
  same_digits zero y (suc f) zero p q = refl
  same_digits zero y (suc f) (suc g) p q = refl
  same_digits (suc x) y zero g p q = absurd (omega arith)
  same_digits (suc x) y (suc f) zero p q = absurd (omega arith)
  same_digits (suc x) y (suc f) (suc g) p q =
      omega (arith, same_digits (suc x / 2) (y / 2) f g (omega arith) (omega arith))

  -- the lowest digit of a bitwise operation whose first operand is not zero
  lowest_digit :
      (x y : ℕ)
      → bitwise rest op (suc x) y ≡ bitwise rest op (suc x / 2) (y / 2) * 2 + op (suc x % 2) (y % 2)
  lowest_digit x y =
      omega (arith, same_digits (suc x / 2) (y / 2) x (suc x / 2) (omega arith) (omega arith))

pub bit_xor_digit : (x y : ℕ) → bit_xor x y ≡ bit_xor (x / 2) (y / 2) * 2 + differ (x % 2) (y % 2)
bit_xor_digit zero y = simp bit_xor-bitwise (omega arith)
bit_xor_digit (suc x) y = simp bit_xor-bitwise (lowest_digit (λ b. b) differ x y)

pub bit_or_digit : (x y : ℕ) → bit_or x y ≡ bit_or (x / 2) (y / 2) * 2 + max (x % 2) (y % 2)
bit_or_digit zero y = simp bit_or-bitwise (omega arith)
bit_or_digit (suc x) y = simp bit_or-bitwise (lowest_digit (λ b. b) max x y)

pub bit_and_digit : (x y : ℕ) → bit_and x y ≡ bit_and (x / 2) (y / 2) * 2 + min (x % 2) (y % 2)
bit_and_digit zero y = simp bit_and-bitwise (omega arith)
bit_and_digit (suc x) y = simp bit_and-bitwise (lowest_digit (λ b. 0) min x y)

differ-zero : (x : ℕ) → differ x 0 ≡ x
differ-zero zero = refl
differ-zero (suc x) = refl

half_pow : (k : ℕ) → 2 ^ suc k / 2 ≡ 2 ^ k
half_pow k = omega (arith, pow-suc 2 k)

-- Flipping the top bit of a word of k + 1 bits.
pub bit_xor_top :
    (k x : ℕ) → x < 2 ^ suc k → bit_xor x (2 ^ k) ≡ (if ltb x (2 ^ k) then x + 2 ^ k else x - 2 ^ k)
bit_xor_top zero zero h = refl
bit_xor_top zero (suc zero) h = refl
bit_xor_top zero (suc (suc x)) h = absurd (omega arith)
bit_xor_top (suc k) x h = ground (
  arith,
  pow-suc 2 k,
  pow-suc 2 (suc k),
  bit_xor_digit x (2 ^ suc k),
  differ-zero (x % 2),
  ap (bit_xor (x / 2)) (half_pow k),
  bit_xor_top k (x / 2),
)

-- Testing the top bit of a word of k + 1 bits.
pub bit_and_top :
    (k x : ℕ) → x < 2 ^ suc k → bit_and x (2 ^ k) ≡ (if ltb x (2 ^ k) then 0 else 2 ^ k)
bit_and_top zero zero h = refl
bit_and_top zero (suc zero) h = refl
bit_and_top zero (suc (suc x)) h = absurd (omega arith)
bit_and_top (suc k) x h = ground (
  arith,
  pow-suc 2 k,
  pow-suc 2 (suc k),
  bit_and_digit x (2 ^ suc k),
  ap (bit_and (x / 2)) (half_pow k),
  bit_and_top k (x / 2),
)

-- Setting the top bit of a word of k + 1 bits in which it is clear.
pub bit_or_top : (k x : ℕ) → x < 2 ^ k → bit_or x (2 ^ k) ≡ x + 2 ^ k
bit_or_top zero zero h = refl
bit_or_top zero (suc x) h = absurd (omega arith)
bit_or_top (suc k) x h = ground (
  arith,
  pow-suc 2 k,
  bit_or_digit x (2 ^ suc k),
  ap (bit_or (x / 2)) (half_pow k),
  bit_or_top k (x / 2),
)

bit_or_nothing : (n x : ℕ) → x ≤ n → bit_or x 0 ≡ x
bit_or_nothing n zero h = refl
bit_or_nothing zero (suc x) h = absurd (omega arith)
bit_or_nothing (suc n) (suc x) h =
    omega (arith, bit_or_digit (suc x) 0, bit_or_nothing n (suc x / 2) (omega arith))

-- `(q << k) | r` where r has at most k bits.
pub bit_or_low : (k q r : ℕ) → r < 2 ^ k → bit_or (q * 2 ^ k) r ≡ q * 2 ^ k + r
bit_or_low zero q r h = ground (arith, bit_or_nothing q q)
bit_or_low (suc k) q r h =
    let twice : q * 2 ^ suc k ≡ 2 * (q * 2 ^ k) =
      omega (arith, ap (λ (t : ℕ). q * t) (pow-suc 2 k)) in
    let halved : q * 2 ^ suc k / 2 ≡ q * 2 ^ k = omega arith in
    ground (
      arith,
      bit_or_digit (q * 2 ^ suc k) r,
      ap (λ (t : ℕ). bit_or t (r / 2)) halved,
      pow-suc 2 k,
      bit_or_low k q (r / 2),
    )
