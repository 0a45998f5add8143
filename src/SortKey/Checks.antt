-- ===== src/SortKey/Checks.antt =====
-- Sort keys made from projections, and the order of the values that they project to.
use Prim.Native.Nat.{Ordering}
use Prim.Native.String.{String}
use speed_up.Common.{ℕ, ◌<◌, ◌≡◌, refl, inl, inr, false, List, [], ◌∷◌, ok, All, arith}
use speed_up.Keys.{characters, normalize}
use speed_up.Keys.Bytes.{IsByte, LexLt, from_bytes-LexLt}
use speed_up.SortKey.{SortKey, is_negative, order, compare_bytes, of_text}
use speed_up.SortKey.Order.{IsThreeWay, flip}

LexLt-compare_bytes : (xs ys : List ℕ) → LexLt xs ys → compare_bytes xs ys ≡ Ordering.lt
unfolding compare_bytes
LexLt-compare_bytes [] [] h = elim h [ ]
LexLt-compare_bytes [] (y ∷ ys) h = refl
LexLt-compare_bytes (x ∷ xs) [] h = elim h [ ]
LexLt-compare_bytes (x ∷ xs) (y ∷ ys) (inl p) = ground arith
LexLt-compare_bytes (x ∷ xs) (y ∷ ys) (inr (p, q)) = ground (arith, LexLt-compare_bytes xs ys q)

compare_bytes-flip : (xs ys : List ℕ) → compare_bytes ys xs ≡ flip (compare_bytes xs ys)
unfolding compare_bytes
compare_bytes-flip [] [] = refl
compare_bytes-flip [] (y ∷ ys) = refl
compare_bytes-flip (x ∷ xs) [] = refl
compare_bytes-flip (x ∷ xs) (y ∷ ys) = ground (arith, compare_bytes-flip xs ys)

compare_bytes-neg_trans :
    (xs ys zs : List ℕ)
    → is_negative (compare_bytes xs ys) ≡ false
    → is_negative (compare_bytes ys zs) ≡ false
    → is_negative (compare_bytes xs zs) ≡ false
unfolding compare_bytes
compare_bytes-neg_trans [] [] [] p q = refl
compare_bytes-neg_trans [] [] (z ∷ zs) p q = q
compare_bytes-neg_trans [] (y ∷ ys) zs p q = absurd (ground arith)
compare_bytes-neg_trans (x ∷ xs) [] [] p q = refl
compare_bytes-neg_trans (x ∷ xs) (y ∷ ys) [] p q = refl
compare_bytes-neg_trans (x ∷ xs) [] (z ∷ zs) p q = absurd (ground arith)
compare_bytes-neg_trans (x ∷ xs) (y ∷ ys) (z ∷ zs) p q = ground (
  arith,
  compare_bytes-flip xs ys,
  compare_bytes-flip ys zs,
  compare_bytes-flip xs zs,
  compare_bytes-neg_trans xs ys zs,
)

-- The comparison of byte strings is a consistent three-way comparator.
pub compare_bytes-IsThreeWay : IsThreeWay compare_bytes
compare_bytes-IsThreeWay = record {
  flips = compare_bytes-flip;
  neg_trans = compare_bytes-neg_trans;
}

-- a smaller key is a smaller string
key-compare_bytes :
    (xs ys : List ℕ)
    → All IsByte xs
    → All IsByte ys
    → normalize (characters xs) < normalize (characters ys)
    → compare_bytes xs ys ≡ Ordering.lt
unfolding normalize
key-compare_bytes xs ys p q h = LexLt-compare_bytes xs ys (from_bytes-LexLt xs ys p q h)

-- A sort key made by `of` from a projection to byte strings orders elements as the strings: the
-- 8-byte prefix key never contradicts the full comparison.
pub of_text-order :
    {T : Type 0} (name : String) (projection : T → List ℕ) {k : SortKey T}
    → of_text name projection ≡ ok k
    → (a b : T) → All IsByte (projection a)
    → All IsByte (projection b)
    → order k a b ≡ compare_bytes (projection a) (projection b)
unfolding of_text order
of_text-order name projection {k} h a b p q = ground (
  arith,
  key-compare_bytes (projection a) (projection b) p q,
  key-compare_bytes (projection b) (projection a) q p,
  compare_bytes-flip (projection a) (projection b),
)
