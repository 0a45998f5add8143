-- ===== src/Index/Grouping/Same.antt =====
-- Lists of slots that are the same up to order, and that a total order sorts them alike.
use speed_up.Common.{
  ℕ, zero, suc, ◌+◌, ◌<◌, ◌≤◌, ◌≡◌, ◌≢◌, refl, sym, ap, ◌∙◌, Bool, List, [], ◌∷◌, ◌++◌, length,
  length-append, All, ◌==◌, if◌then◌else◌, Bool-cases, inl, inr, not, ==_refl, ==_iff, arith,
}
use speed_up.Layout.{indices_from}
use speed_up.Std.{insert, stable_sort}
use speed_up.Std.Sort.{IsStrictWeak}
use speed_up.Std.Commute.{IsTotal, stable_sort-middle}
use speed_up.Index.Grouping.Counting.{tally}
use speed_up.Index.Grouping.Tallies.{tally_self, tally_other}

-- Each slot is as often in the one list as in the other.
abbrev pub Same : List ℕ → List ℕ → Type 0
Same xs ys = (s : ℕ) → tally s xs ≡ tally s ys

pub tally-append : (s : ℕ) (xs ys : List ℕ) → tally s (xs ++ ys) ≡ tally s xs + tally s ys
tally-append s [] ys = omega arith
tally-append s (x ∷ xs) ys = omega (arith, tally-append s xs ys)

-- A slot that is in a list stands somewhere in it.
pub found_at :
    (s : ℕ) (xs : List ℕ)
    → 0 < tally s xs
    → (front : List ℕ) × (back : List ℕ) × (xs ≡ front ++ s ∷ back)
found_at s [] h = absurd (omega arith)
found_at s (x ∷ xs) h = elim (Bool-cases (x == s)) [
  | inl e ↦ ([], xs, ap (λ y. y ∷ xs) ((==_iff x s).0 e))
  | inr e ↦
      let (front, back, same) = found_at s xs (omega (arith, rw e at h)) in
      (x ∷ front, back, ap (◌∷◌ x) same)
]

pub Same-tail :
    (x : ℕ) (xs front back : List ℕ) → Same (x ∷ xs) (front ++ x ∷ back) → Same xs (front ++ back)
Same-tail x xs front back h s = elim (Bool-cases (x == s)) [
  | inl e ↦
      let here : x ≡ s = (==_iff x s).0 e in
      let left = tally_self x [] xs in
      let right = tally_self x front back in
      let both = h x in
      ap (λ i. tally i xs) (sym here)
      ∙ omega (arith, left, right, both)
      ∙ ap (λ i. tally i (front ++ back)) here
  | inr e ↦
      let other : x ≢ s = ground arith in
      sym (tally_other s x [] xs other) ∙ h s ∙ tally_other s x front back other
]

pub empty_of : (xs : List ℕ) → ((s : ℕ) → tally s xs ≡ 0) → xs ≡ []
empty_of [] h = refl
empty_of (x ∷ xs) h = absurd (omega (arith, tally_self x [] xs, h x))

pub Same-length : (xs ys : List ℕ) → Same xs ys → length xs ≡ length ys
Same-length [] ys h = ap length (sym (empty_of ys (λ s. sym (h s))))
Same-length (x ∷ xs) ys h =
    let (front, back, same) = found_at x ys (omega (arith, h x, tally_self x [] xs)) in
    let split : Same (x ∷ xs) (front ++ x ∷ back) = λ s. h s ∙ ap (tally s) same in
    omega (
      arith,
      Same-length xs (front ++ back) (Same-tail x xs front back split),
      ap length same,
      length-append front (x ∷ back),
      length-append front back,
    )

pub All-of_tally : (P : ℕ → Type 0) (xs : List ℕ) → ((s : ℕ) → 0 < tally s xs → P s) → All P xs
All-of_tally P [] h = tt
All-of_tally P (x ∷ xs) h = (
  h x (omega (arith, tally_self x [] xs)),
  All-of_tally P xs (λ s p. h s (omega (arith, cons_le s x xs))),
)
  where
    cons_le : (s x : ℕ) (xs : List ℕ) → tally s xs ≤ tally s (x ∷ xs)
    cons_le s x xs = omega arith

module _ (less : ℕ → ℕ → Bool) (weak : IsStrictWeak less) (total : IsTotal less) where
  pub Same-sorted : (xs ys : List ℕ) → Same xs ys → stable_sort less xs ≡ stable_sort less ys
  unfolding stable_sort
  Same-sorted [] ys h = ap (stable_sort less) (sym (empty_of ys (λ s. sym (h s))))
  Same-sorted (x ∷ xs) ys h =
      let (front, back, same) = found_at x ys (omega (arith, h x, tally_self x [] xs)) in
      let split : Same (x ∷ xs) (front ++ x ∷ back) = λ s. h s ∙ ap (tally s) same in
      ap (insert less x) (Same-sorted xs (front ++ back) (Same-tail x xs front back split))
      ∙ sym (stable_sort-middle less weak total front back x)
      ∙ ap (stable_sort less) (sym same)

-- The slots that pass a test.
abbrev pub passing : (ℕ → Bool) → List ℕ → List ℕ
passing test [] = []
passing test (s ∷ slots) = let rest = passing test slots in if test s then s ∷ rest else rest

pub tally-passing :
    (test : ℕ → Bool) (s : ℕ) (xs : List ℕ)
    → tally s (passing test xs) ≡ (if test s then tally s xs else 0)
tally-passing test s [] = elim (Bool-cases (test s)) [ inl e ↦ rw e refl | inr e ↦ rw e refl ]
tally-passing test s (x ∷ xs) = elim (Bool-cases (x == s)) [
  | inl e ↦
      let here : x ≡ s = (==_iff x s).0 e in
      elim (Bool-cases (test s)) [
        | inl t ↦ rw (here, t, ==_refl) (ap suc' (rw t at (tally-passing test s xs)))
        | inr t ↦ rw (here, t) (rw t at (tally-passing test s xs))
      ]
  | inr e ↦ elim (Bool-cases (test x)) [
    | inl t ↦
        rw (t, e) (skip (test s) (tally s (passing test xs)) (tally s xs) (tally-passing test s xs))
    | inr t ↦
        rw (t, e)
          (skip' (test s) (tally s (passing test xs)) (tally s xs) (tally-passing test s xs))
  ]
]
  where
    suc' : ℕ → ℕ
    suc' n = 1 + n

    skip : (b : Bool) (m n : ℕ) → m ≡ (if b then n else 0) → 0 + m ≡ (if b then 0 + n else 0)
    skip b m n h = ground arith

    skip' : (b : Bool) (m n : ℕ) → m ≡ (if b then n else 0) → m ≡ (if b then 0 + n else 0)
    skip' b m n h = ground arith

-- What passes and what does not.
pub tally-parts :
    (test : ℕ → Bool) (s : ℕ) (xs : List ℕ)
    → tally s (passing test xs) + tally s (passing (λ t. not (test t)) xs) ≡ tally s xs
tally-parts test s xs = elim (Bool-cases (test s)) [
  | inl t ↦
      omega
        (arith, rw t at (tally-passing test s xs), rw t at (tally-passing (λ t. not (test t)) s xs))
  | inr t ↦
      omega
        (arith, rw t at (tally-passing test s xs), rw t at (tally-passing (λ t. not (test t)) s xs))
]

-- How often a slot is among the numbers from `first` on.
pub tally-indices :
    (s first m : ℕ)
    → tally s (indices_from first m) ≤ 1
      × ((first ≤ s) × (s < first + m) → tally s (indices_from first m) ≡ 1)
      × ((s < first) → tally s (indices_from first m) ≡ 0)
      × ((first + m ≤ s) → tally s (indices_from first m) ≡ 0)
unfolding indices_from
tally-indices s first zero =
    (omega arith, λ h. absurd (omega (arith, h.0, h.1)), λ h. refl, λ h. refl)
tally-indices s first (suc m) =
    let (few, one, before, behind) = tally-indices s (suc first) m in
    elim (Bool-cases (first == s)) [
      | inl e ↦
          let here : first ≡ s = (==_iff first s).0 e in
          let none_left = before (omega arith) in
          rw e (
            omega (arith, none_left),
            λ h. omega (arith, none_left),
            λ h. absurd (omega arith),
            λ h. absurd (omega arith),
          )
      | inr e ↦
          let other : first ≢ s = ground arith in
          rw e (
            omega (arith, few),
            λ h. omega (arith, one (omega (arith, h.0, other), omega (arith, h.1))),
            λ h. omega (arith, before (omega arith)),
            λ h. omega (arith, behind (omega arith)),
          )
    ]

pub indices-append :
    (first m j : ℕ)
    → indices_from first (m + j) ≡ indices_from first m ++ indices_from (first + m) j
unfolding indices_from
indices-append first zero j =
    let from_here : first + 0 ≡ first = omega arith in
    let none_before : 0 + j ≡ j = omega arith in rw (from_here, none_before) refl
indices-append first (suc m) j =
    let shift : suc first + m ≡ first + suc m = omega arith in
    let longer : suc m + j ≡ suc (m + j) = omega arith in
    ap (indices_from first) longer
    ∙ ap (◌∷◌ first) (
        indices-append (suc first) m j
        ∙ ap (λ f. indices_from (suc first) m ++ indices_from f j) shift)

pub length-indices : (first m : ℕ) → length (indices_from first m) ≡ m
unfolding indices_from
length-indices first zero = refl
length-indices first (suc m) = ap suc (length-indices (suc first) m)
