-- ===== src/Godot/Names.antt =====
-- A file name never comes before itself: the comparators of godot_sort.h are irreflexive.
use Prim.Native.Nat.{Ordering}
use speed_up.Common.{
  ℕ, zero, suc, ◌≤◌, ◌-◌, ◌≡◌, refl, sym, ap, ◌∙◌, inl, inr, Bool, true, false, List, [], ◌∷◌,
  length, ltb, ◌==◌, Bool-cases, arith,
}
use speed_up.Godot.{
  first, is_digit, compare_run, natural_cmp_common, skip_zeros, skip_digits, Scan, returned, at,
  skip_dots, natural_loop, naturalnocasecmp_to_base, file_cmp_common, filenocasecmp_to, file_less,
  find_upper,
}

compare_run_self : (n : ℕ) (s : List ℕ) → compare_run n s s ≡ Ordering.eq
unfolding compare_run
compare_run_self zero s = refl
compare_run_self (suc n) [] = refl
compare_run_self (suc n) (c ∷ s) = ground (arith, compare_run_self n s)

natural_cmp_common_self : (s : List ℕ) → natural_cmp_common s s ≡ Ordering.eq
unfolding natural_cmp_common
natural_cmp_common_self s =
    ground (arith, compare_run_self (length (skip_zeros s) - length (skip_digits s)) (skip_zeros s))

length-skip_digits : (s : List ℕ) → length (skip_digits s) ≤ length s
unfolding skip_digits
length-skip_digits [] = omega arith
length-skip_digits (c ∷ s) = ground (arith, length-skip_digits s)

skip_digits_cons : (c : ℕ) (s : List ℕ) → is_digit c ≡ true → skip_digits (c ∷ s) ≡ skip_digits s
unfolding skip_digits
skip_digits_cons c s e = rw e refl

natural_loop_self :
    (table : List (ℕ × ℕ)) (fuel : ℕ) (s : List ℕ)
    → length s ≤ fuel
    → natural_loop table fuel s s ≡ Ordering.eq
unfolding natural_loop
natural_loop_self table zero [] h = refl
natural_loop_self table zero (c ∷ s) h = absurd (omega arith)
natural_loop_self table (suc fuel) [] h = refl
natural_loop_self table (suc fuel) (c ∷ s) h = elim (Bool-cases (is_digit c)) [
  | inl e ↦
      let shorter =
        natural_loop_self table fuel (skip_digits (c ∷ s))
          (rw (skip_digits_cons c s e) (omega (arith, length-skip_digits s))) in
      ground (arith, natural_cmp_common_self (c ∷ s), shorter)
  | inr e ↦
      let next = natural_loop_self table fuel s (omega arith) in
      let same : ltb (find_upper table c) (find_upper table c) ≡ false = ground arith in
      rw (e, same) next
]

-- What the scans of a string and itself give: the same rest twice, or "greater" for all dots.
abbrev IsSelf : Scan → Type 0
IsSelf (returned o) = o ≡ Ordering.gt
IsSelf (at this that) = this ≡ that

skip_dots-IsSelf : (s : List ℕ) → IsSelf (skip_dots s s)
unfolding skip_dots
skip_dots-IsSelf [] = refl
skip_dots-IsSelf (c ∷ s) = elim (Bool-cases (c == 46)) [
  | inr e ↦ rw e refl
  | inl e ↦ elim (Bool-cases (first s == 0)) [
    | inl last ↦ rw (e, last) refl
    | inr more ↦ rw (e, more) (skip_dots-IsSelf s)
  ]
]

file_cmp_common-IsSelf : (s : List ℕ) → IsSelf (file_cmp_common s s)
unfolding file_cmp_common
file_cmp_common-IsSelf [] = refl
file_cmp_common-IsSelf (c ∷ s) = elim (Bool-cases (c == 95)) [
  | inl e ↦ rw e (file_cmp_common-IsSelf s)
  | inr e ↦ rw e refl
]

abbrev is_less : Ordering → Bool
is_less Ordering.lt = true
is_less Ordering.eq = false
is_less Ordering.gt = false

naturalnocasecmp_to_base_self :
    (table : List (ℕ × ℕ)) (s : List ℕ) → is_less (naturalnocasecmp_to_base table s s) ≡ false
unfolding naturalnocasecmp_to_base
naturalnocasecmp_to_base_self table s = by_scan (skip_dots s s) (skip_dots-IsSelf s)
  where
    by_scan :
        (scan : Scan)
        → IsSelf scan
        → is_less (elim scan [
          | returned o ↦ o
          | at this that ↦ natural_loop table (length this) this that
        ])
          ≡ false
    by_scan (returned o) e = ap is_less e
    by_scan (at this that) e =
        ap (λ t. is_less (natural_loop table (length this) this t)) (sym e)
        ∙ ap is_less (natural_loop_self table (length this) this (omega arith))

-- No file name comes before itself, whatever the table of upper-case letters.
pub file_less_irreflexive :
    (table : List (ℕ × ℕ)) (name : List ℕ) → file_less table name name ≡ false
unfolding file_less filenocasecmp_to
file_less_irreflexive table name = by_scan (file_cmp_common name name) (file_cmp_common-IsSelf name)
  where
    by_scan :
        (scan : Scan)
        → IsSelf scan
        → is_less
            (elim scan [ returned o ↦ o | at this that ↦ naturalnocasecmp_to_base table this that ])
          ≡ false
    by_scan (returned o) e = ap is_less e
    by_scan (at this that) e =
        ap (λ t. is_less (naturalnocasecmp_to_base table this t)) (sym e)
        ∙ naturalnocasecmp_to_base_self table this
