-- ===== src/Keys/Bytes.antt =====
-- `from_bytes` is a prefix of the byte-lexicographic order.
use native.Mathlib.Nat.{add-zero, pow-suc, one-le-pow}
use speed_up.Common.{
  ℕ, zero, suc, ◌+◌, ◌*◌, ◌%◌, ◌^◌, ◌<◌, ◌≤◌, ◌≡◌, refl, ap, ◌∙◌, ◌⊎◌, inl, inr, List, [], ◌∷◌, All,
  take, arith,
}
use speed_up.Common.Bits.{bit_or_low}
use speed_up.Keys.{from_bytes, from_bytes_loop}

abbrev pub IsByte : ℕ → Type 0
IsByte b = b < 256

-- `a < b` of std::string, which compares unsigned bytes: at the first difference, or by length.
abbrev pub LexLt : List ℕ → List ℕ → Type 0
LexLt xs [] = ⊥
LexLt [] (y ∷ ys) = Unit
LexLt (x ∷ xs) (y ∷ ys) = (x < y) ⊎ ((x ≡ y) × LexLt xs ys)

-- The first r bytes as a big-endian number, with zeros behind a shorter input.
big_endian : ℕ → List ℕ → ℕ
big_endian zero bytes = 0
big_endian (suc r) [] = 0
big_endian (suc r) (b ∷ bytes) = b * 256 ^ r + big_endian r bytes

mul-mono_right : (m n k : ℕ) → m ≤ n → m * k ≤ n * k
mul-mono_right m n k h = grind arith

le-mul_pow : (m r : ℕ) → m ≤ m * 256 ^ r
le-mul_pow m r = omega (arith, mul-mono_right 1 (256 ^ r) m (one-le-pow r 256 (omega arith)))

big_endian-lt : (r : ℕ) (bytes : List ℕ) → All IsByte bytes → big_endian r bytes < 256 ^ r
unfolding big_endian
big_endian-lt zero bytes h = omega arith
big_endian-lt (suc r) [] h = omega (arith, one-le-pow (suc r) 256 (omega arith))
big_endian-lt (suc r) (b ∷ bytes) h =
    omega (
      arith,
      pow-suc 256 r,
      big_endian-lt r bytes h.1,
      mul-mono_right b 255 (256 ^ r) (omega arith),
    )

big_endian-nil : (r : ℕ) → big_endian r [] ≡ 0
unfolding big_endian
big_endian-nil zero = refl
big_endian-nil (suc r) = refl

-- one round on numbers: what is left of the word is enough for the next byte
round_room : (key b p m : ℕ) → b < 256 → (key + 1) * (p * 256) ≤ m → (key * 256 + b + 1) * p ≤ m
round_room key b p m h k = omega (arith, mul-mono_right b 255 p (omega arith), k)

round_fits : (key p m : ℕ) → 1 ≤ p → (key + 1) * (p * 256) ≤ m → key * 256 < m
round_fits key p m h k = omega (arith, mul-mono_right 1 p key h, k)

round_value : (key b p : ℕ) → (key * 256 + b) * p ≡ key * (p * 256) + b * p
round_value key b p = omega arith

module _ (key r : ℕ) (room : (key + 1) * 256 ^ suc r ≤ 2 ^ 64) where
  fits : key * 256 < 2 ^ 64
  fits =
      round_fits key (256 ^ r) (2 ^ 64) (one-le-pow r 256 (omega arith))
        (rw (pow-suc 256 r) at room)

  next_room : (b : ℕ) → IsByte b → (key * 256 + b + 1) * 256 ^ r ≤ 2 ^ 64
  next_room b h = round_room key b (256 ^ r) (2 ^ 64) h (rw (pow-suc 256 r) at room)

from_bytes_loop-big_endian :
    (r key : ℕ) (rest : List ℕ)
    → (key + 1) * 256 ^ r ≤ 2 ^ 64
    → All IsByte rest
    → from_bytes_loop r key rest ≡ key * 256 ^ r + big_endian r rest
unfolding from_bytes_loop big_endian
from_bytes_loop-big_endian zero key rest room h = omega arith
from_bytes_loop-big_endian (suc r) key [] room h =
    let same : key * 256 % 2 ^ 64 ≡ key * 256 = omega (arith, fits key r room) in
    let room' = rw add-zero at (next_room key r room 0 (omega arith)) in
    rw (same, pow-suc 256 r)
      (from_bytes_loop-big_endian r (key * 256) [] room' tt
        ∙ omega (arith, big_endian-nil r, round_value key 0 (256 ^ r)))
from_bytes_loop-big_endian (suc r) key (b ∷ rest) room h =
    let same : key * 256 % 2 ^ 64 ≡ key * 256 = omega (arith, fits key r room) in
    rw (same, bit_or_low 8 key b h.0, pow-suc 256 r)
      (from_bytes_loop-big_endian r (key * 256 + b) rest (next_room key r room b h.0) h.1
        ∙ omega (arith, round_value key b (256 ^ r)))

from_bytes-big_endian : (bytes : List ℕ) → All IsByte bytes → from_bytes bytes ≡ big_endian 8 bytes
unfolding from_bytes
from_bytes-big_endian bytes h = omega (arith, from_bytes_loop-big_endian 8 0 bytes (omega arith) h)

lt_cases : (x y : ℕ) → (x < y) ⊎ ((x ≡ y) ⊎ (y < x))
lt_cases x y = grind arith

big_endian-LexLt :
    (r : ℕ) (xs ys : List ℕ)
    → All IsByte xs
    → All IsByte ys
    → big_endian r xs < big_endian r ys
    → LexLt xs ys
unfolding big_endian
big_endian-LexLt zero xs ys p q h = absurd (omega arith)
big_endian-LexLt (suc r) xs [] p q h = absurd (omega arith)
big_endian-LexLt (suc r) [] (y ∷ ys) p q h = tt
big_endian-LexLt (suc r) (x ∷ xs) (y ∷ ys) p q h = elim (lt_cases x y) [
  | inl less ↦ inl less
  | inr (inl same) ↦
      inr (same, big_endian-LexLt r xs ys p.1 q.1 (omega (arith, ap (λ (t : ℕ). t * 256 ^ r) same)))
  | inr (inr more) ↦
      absurd (omega (arith, big_endian-lt r ys q.1, mul-mono_right (suc y) x (256 ^ r) more))
]

-- For byte strings: if the key of one is below the key of another, the string is below the other.
pub from_bytes-LexLt :
    (xs ys : List ℕ) → All IsByte xs → All IsByte ys → from_bytes xs < from_bytes ys → LexLt xs ys
from_bytes-LexLt xs ys p q h =
    big_endian-LexLt 8 xs ys p q
      (omega (arith, from_bytes-big_endian xs p, from_bytes-big_endian ys q))

big_endian-take : (r : ℕ) (bytes : List ℕ) → big_endian r (take r bytes) ≡ big_endian r bytes
unfolding big_endian
big_endian-take zero bytes = refl
big_endian-take (suc r) [] = refl
big_endian-take (suc r) (b ∷ bytes) = ap (λ (t : ℕ). b * 256 ^ r + t) (big_endian-take r bytes)

-- Byte strings that share their first 8 bytes (or end within them alike) get the same key.
pub from_bytes-shared_prefix :
    (xs ys : List ℕ)
    → All IsByte xs
    → All IsByte ys
    → take 8 xs ≡ take 8 ys
    → from_bytes xs ≡ from_bytes ys
from_bytes-shared_prefix xs ys p q h = omega (
  arith,
  from_bytes-big_endian xs p,
  from_bytes-big_endian ys q,
  big_endian-take 8 xs,
  big_endian-take 8 ys,
  ap (big_endian 8) h,
)
