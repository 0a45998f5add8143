-- ===== src/FileBrowser/Total.antt =====
-- The natural order of names is total: natural_compare answers, swapping the names flips its answer,
-- and only equal names tie.
use Prim.Native.Nat.{Ordering}
use mathlib.Core.Path.{ap₂}
use speed_up.Common.{
  ℕ, zero, suc, ◌+◌, ◌<◌, ◌≤◌, ◌≡◌, refl, sym, ◌∙◌, true, List, [], ◌∷◌, length, Option, some, ltb,
  ◌==◌, if◌then◌else◌, Bool-cases, inl, inr, arith,
}
use speed_up.SortKey.{compare_bytes, three_way}
use speed_up.SortKey.Order.{flip}
use speed_up.SortKey.Checks.{compare_bytes-IsThreeWay}
use speed_up.FileBrowser.{
  is_digit_byte, to_lower, skip_zeros_of, digits_of, behind_digits, unless_tied, natural_rounds,
  natural_compare,
}

three_way-flip : (x y : ℕ) → three_way y x ≡ flip (three_way x y)
three_way-flip x y = ground arith

-- only the answer of the whole comparison is a tie
module _ (whole : Ordering) where
  -- Two answers, of a comparison and of the swapped one.
  record Answers (here there : Option Ordering) : Type 0 where
    answer : Ordering
    is_here : here ≡ some answer
    is_there : there ≡ some (flip answer)
    tie : answer ≡ Ordering.eq → whole ≡ Ordering.eq

  unless_tied-Answers :
      (first back : Ordering) (here there : Option Ordering)
      → back ≡ flip first
      → Answers here there
      → Answers (unless_tied first here) (unless_tied back there)
  unless_tied-Answers Ordering.lt back here there e r = record {
    answer = Ordering.lt;
    is_here = refl;
    is_there = rw e refl;
    tie = λ t. cc;
  }
  unless_tied-Answers Ordering.gt back here there e r = record {
    answer = Ordering.gt;
    is_here = refl;
    is_there = rw e refl;
    tie = λ t. cc;
  }
  unless_tied-Answers Ordering.eq back here there e r = rw e r

  last-Answers : Answers (some whole) (some (flip whole))
  last-Answers = record { answer = whole; is_here = refl; is_there = refl; tie = λ t. t }

length-skip_zeros : (cs : List ℕ) → length (skip_zeros_of cs) ≤ length cs
unfolding skip_zeros_of
length-skip_zeros [] = omega arith
length-skip_zeros (c ∷ cs) = elim (Bool-cases (c == 48)) [
  | inl e ↦ rw e (omega (arith, length-skip_zeros cs))
  | inr e ↦ rw e (omega arith)
]

length-behind_digits : (cs : List ℕ) → length (behind_digits cs) ≤ length cs
unfolding behind_digits
length-behind_digits [] = omega arith
length-behind_digits (c ∷ cs) = elim (Bool-cases (is_digit_byte c)) [
  | inl e ↦ rw e (omega (arith, length-behind_digits cs))
  | inr e ↦ rw e (omega arith)
]

-- A run of digits takes a byte at least.
number_shrinks :
    (c : ℕ) (cs : List ℕ)
    → is_digit_byte c ≡ true
    → length (behind_digits (skip_zeros_of (c ∷ cs))) ≤ length cs
unfolding skip_zeros_of behind_digits
number_shrinks c cs d = elim (Bool-cases (c == 48)) [
  | inl e ↦ rw e (omega (arith, length-behind_digits (skip_zeros_of cs), length-skip_zeros cs))
  | inr e ↦ rw (e, d) (length-behind_digits cs)
]

natural_rounds-Answers :
    (fuel : ℕ) (a b : List ℕ) (whole : Ordering)
    → length a + length b < fuel
    → Answers whole (natural_rounds fuel a b whole) (natural_rounds fuel b a (flip whole))
unfolding natural_rounds
natural_rounds-Answers zero a b whole h = absurd (omega arith)
natural_rounds-Answers (suc fuel) [] [] whole h = last-Answers whole
natural_rounds-Answers (suc fuel) [] (y ∷ b) whole h =
    unless_tied-Answers whole (three_way 0 (suc (length b))) (three_way (suc (length b)) 0)
      (some whole) (some (flip whole)) (three_way-flip 0 (suc (length b))) (last-Answers whole)
natural_rounds-Answers (suc fuel) (x ∷ a) [] whole h =
    unless_tied-Answers whole (three_way (suc (length a)) 0) (three_way 0 (suc (length a)))
      (some whole) (some (flip whole)) (three_way-flip (suc (length a)) 0) (last-Answers whole)
natural_rounds-Answers (suc fuel) (x ∷ a) (y ∷ b) whole h =
    let si = skip_zeros_of (x ∷ a) in
    let sj = skip_zeros_of (y ∷ b) in
    let one_byte =
      unless_tied-Answers whole (three_way (to_lower x) (to_lower y))
        (three_way (to_lower y) (to_lower x)) (natural_rounds fuel a b whole)
        (natural_rounds fuel b a (flip whole)) (three_way-flip (to_lower x) (to_lower y))
        (natural_rounds-Answers fuel a b whole (omega arith)) in
    elim (Bool-cases (is_digit_byte x)) [
      | inl dx ↦ elim (Bool-cases (is_digit_byte y)) [
        | inl dy ↦
            rw (dx, dy)
              (unless_tied-Answers whole _ _ _ _
                (three_way-flip (length (digits_of si)) (length (digits_of sj)))
                (unless_tied-Answers whole _ _ _ _
                  (compare_bytes-IsThreeWay.flips (digits_of si) (digits_of sj))
                  (natural_rounds-Answers fuel (behind_digits si) (behind_digits sj) whole
                    (omega (arith, number_shrinks x a dx, number_shrinks y b dy)))))
        | inr dy ↦ rw (dx, dy) one_byte
      ]
      | inr dx ↦ elim (Bool-cases (is_digit_byte y)) [
        | inl dy ↦ rw (dx, dy) one_byte
        | inr dy ↦ rw (dx, dy) one_byte
      ]
    ]

compare_bytes-same : (a b : List ℕ) → compare_bytes a b ≡ Ordering.eq → a ≡ b
unfolding compare_bytes
compare_bytes-same [] [] e = refl
compare_bytes-same [] (y ∷ b) e = absurd (cc)
compare_bytes-same (x ∷ a) [] e = absurd (cc)
compare_bytes-same (x ∷ a) (y ∷ b) e =
    let (heads, tails) = parts x y (compare_bytes a b) e in
    ap₂ ◌∷◌ heads (compare_bytes-same a b tails)
  where
    parts :
        (x y : ℕ) (rest : Ordering)
        → (if ltb x y then Ordering.lt else if ltb y x then Ordering.gt else rest) ≡ Ordering.eq
        → (x ≡ y) × (rest ≡ Ordering.eq)
    parts x y rest e = ground arith

-- For any two names natural_compare answers, answers the opposite when they are swapped, and says that
-- they tie only if they are equal.
pub natural_compare_total :
    (a b : List ℕ)
    → (r : Ordering) × (natural_compare a b ≡ some r)
      × (natural_compare b a ≡ some (flip r))
      × (r ≡ Ordering.eq → a ≡ b)
unfolding natural_compare
natural_compare_total a b =
    let r =
      natural_rounds-Answers (suc (length a + length b)) a b (compare_bytes a b) (omega arith) in
    let fuel : suc (length a + length b) ≡ suc (length b + length a) = omega arith in
    (
      r.answer,
      r.is_here,
      ap₂ (λ f w. natural_rounds f b a w) (sym fuel) (compare_bytes-IsThreeWay.flips a b)
          ∙ r.is_there,
      λ e. compare_bytes-same a b (r.tie e),
    )
