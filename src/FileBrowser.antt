-- ===== src/FileBrowser.antt =====
-- examples/bucketization/file_browser.cpp: natural_compare, the order of its "natural" column. A
-- name is the list of its bytes, and a position in it the list from there on. std::isdigit and
-- std::tolower are those of the "C" locale, which the program runs in.
use Prim.Native.Nat.{Ordering}
use speed_up.Common.{
  ℕ, zero, suc, ◌+◌, Bool, true, false, ◌&&◌, List, [], ◌∷◌, length, Option, none, some, ltb, leb,
  ◌==◌, if◌then◌else◌,
}
use speed_up.SortKey.{compare_bytes, three_way}
pub mod Total
pub mod Keys

-- std::isdigit
abbrev pub is_digit_byte : ℕ → Bool
is_digit_byte c = leb 48 c && leb c 57

-- std::tolower
abbrev pub to_lower : ℕ → ℕ
to_lower c = if leb 65 c && leb c 90 then c + 32 else c

-- `while (si < a.size() && a[si] == '0') ++si`
unfoldable pub skip_zeros_of : List ℕ → List ℕ
skip_zeros_of [] = []
skip_zeros_of (c ∷ cs) = let rest = skip_zeros_of cs in if c == 48 then rest else c ∷ cs

-- `while (ei < a.size() && digit(a[ei])) ++ei`: the digits, and what is behind them
unfoldable pub digits_of : List ℕ → List ℕ
digits_of [] = []
digits_of (c ∷ cs) = let rest = digits_of cs in if is_digit_byte c then c ∷ rest else []

unfoldable pub behind_digits : List ℕ → List ℕ
behind_digits [] = []
behind_digits (c ∷ cs) = let rest = behind_digits cs in if is_digit_byte c then rest else c ∷ cs

-- a decided comparison, or what follows a tie
abbrev pub unless_tied : Ordering → Option Ordering → Option Ordering
unless_tied Ordering.lt rest = some Ordering.lt
unless_tied Ordering.gt rest = some Ordering.gt
unless_tied Ordering.eq rest = rest

-- The loop and what follows it; `whole` is the sign of `a.compare(b)`. Each round consumes a byte of
-- both names, so the fuel lasts; `none` would mean that it does not.
unfoldable pub natural_rounds : (fuel : ℕ) (a b : List ℕ) (whole : Ordering) → Option Ordering
unfolding skip_zeros_of digits_of behind_digits
natural_rounds zero a b whole = none
natural_rounds (suc fuel) [] b whole = unless_tied (three_way 0 (length b)) (some whole)
natural_rounds (suc fuel) (x ∷ a) [] whole = unless_tied (three_way (suc (length a)) 0) (some whole)
natural_rounds (suc fuel) (x ∷ a) (y ∷ b) whole =
    let numbers = is_digit_byte x && is_digit_byte y in
    let si = skip_zeros_of (x ∷ a) in
    let sj = skip_zeros_of (y ∷ b) in
    let rest =
      natural_rounds fuel (if numbers then behind_digits si else a)
        (if numbers then behind_digits sj else b) whole in
    if numbers
    then unless_tied (three_way (length (digits_of si)) (length (digits_of sj)))
        (unless_tied (compare_bytes (digits_of si) (digits_of sj)) rest)
    else unless_tied (three_way (to_lower x) (to_lower y)) rest

unfoldable pub natural_compare : List ℕ → List ℕ → Option Ordering
unfolding natural_rounds compare_bytes
natural_compare a b = natural_rounds (suc (length a + length b)) a b (compare_bytes a b)
