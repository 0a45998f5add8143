-- ===== src/Std/Sort.antt =====
-- std::stable_sort returns a sorted permutation, and std::is_sorted decides sortedness.
use mathlib.Core.List.{Perm}
use mathlib.Core.List.Perm
use speed_up.Common.{
  length, suc, ap, ◌∙◌, ◌≡◌, refl, Bool, true, false, List, [], ◌∷◌, All, Bool-cases, inl, inr,
  arith,
}
use speed_up.Std.{insert, stable_sort, is_sorted}

-- A strict weak order, which the standard asks of a comparator.
pub record IsStrictWeak {A : Type 0} (less : A → A → Bool) : Type 0 where
  pub asymm : (a b : A) → less a b ≡ true → less b a ≡ false
  pub neg_trans : (a b c : A) → less a b ≡ false → less b c ≡ false → less a c ≡ false

module _ {A : Type 0} (less : A → A → Bool) where
  -- Nothing in the list is below `x`.
  abbrev pub IsFloor : A → List A → Type 0
  IsFloor x ys = All (λ y. less y x ≡ false) ys

  -- No element stands after one that it is below.
  abbrev pub IsSorted : List A → Type 0
  IsSorted [] = Unit
  IsSorted (x ∷ xs) = IsFloor x xs × IsSorted xs

  pub insert-All :
      (P : A → Type 0) (x : A) (ys : List A) → P x → All P ys → All P (insert less x ys)
  unfolding insert
  insert-All P x [] p h = (p, h)
  insert-All P x (y ∷ ys) p h = elim (Bool-cases (less y x)) [
    | inl e ↦ rw e (h.0, insert-All P x ys p h.1)
    | inr e ↦ rw e (p, h)
  ]

  pub insert-perm : (x : A) (ys : List A) → Perm (insert less x ys) (x ∷ ys)
  unfolding insert
  insert-perm x [] = Perm.refl _
  insert-perm x (y ∷ ys) = elim (Bool-cases (less y x)) [
    | inl e ↦ rw e (Perm.trans (Perm.cons y (insert-perm x ys)) (Perm.swap x y ys))
    | inr e ↦ rw e (Perm.refl _)
  ]

  length-insert : (x : A) (xs : List A) → length (insert less x xs) ≡ suc (length xs)
  unfolding insert
  length-insert x [] = refl
  length-insert x (y ∷ xs) = elim (Bool-cases (less y x)) [
    | inl e ↦ rw e (ap suc (length-insert x xs))
    | inr e ↦ rw e refl
  ]

  pub length-stable_sort : (xs : List A) → length (stable_sort less xs) ≡ length xs
  unfolding stable_sort
  length-stable_sort [] = refl
  length-stable_sort (x ∷ xs) =
      length-insert x (stable_sort less xs) ∙ ap suc (length-stable_sort xs)

  -- `std::stable_sort` keeps every element, whatever the comparator.
  pub stable_sort-perm : (xs : List A) → Perm (stable_sort less xs) xs
  unfolding stable_sort
  stable_sort-perm [] = Perm.refl _
  stable_sort-perm (x ∷ xs) =
      Perm.trans (insert-perm x (stable_sort less xs)) (Perm.cons x (stable_sort-perm xs))

  pub stable_sort-All : (P : A → Type 0) (xs : List A) → All P xs → All P (stable_sort less xs)
  unfolding stable_sort
  stable_sort-All P [] h = h
  stable_sort-All P (x ∷ xs) h = insert-All P x (stable_sort less xs) h.0 (stable_sort-All P xs h.1)

  -- A list that passes `std::is_sorted` is not changed by `std::stable_sort`.
  pub stable_sort-of_is_sorted : (xs : List A) → is_sorted less xs ≡ true → stable_sort less xs ≡ xs
  unfolding stable_sort is_sorted
  stable_sort-of_is_sorted [] h = refl
  stable_sort-of_is_sorted (x ∷ []) h = refl
  stable_sort-of_is_sorted (x ∷ y ∷ xs) h = elim (Bool-cases (less y x)) [
    | inl e ↦ absurd (ground arith)
    | inr e ↦ rw (stable_sort-of_is_sorted (y ∷ xs) (rw e at h)) (ground arith)
  ]

  module _ (weak : IsStrictWeak less) where
    -- a floor of the whole list lies under whatever an element of it is not below
    pub IsFloor-trans : (x y : A) (ys : List A) → less y x ≡ false → IsFloor y ys → IsFloor x ys
    IsFloor-trans x y [] p h = tt
    IsFloor-trans x y (z ∷ ys) p h = (weak.neg_trans z y x h.0 p, IsFloor-trans x y ys p h.1)

    pub insert-IsSorted : (x : A) (ys : List A) → IsSorted ys → IsSorted (insert less x ys)
    unfolding insert
    insert-IsSorted x [] h = (tt, tt)
    insert-IsSorted x (y ∷ ys) h = elim (Bool-cases (less y x)) [
      | inl e ↦
          rw e (
            insert-All (λ z. less z y ≡ false) x ys (weak.asymm y x e) h.0,
            insert-IsSorted x ys h.1,
          )
      | inr e ↦ rw e ((e, IsFloor-trans x y ys e h.0), h)
    ]

    -- Under a strict weak order `std::stable_sort` returns a sorted list.
    pub stable_sort-IsSorted : (xs : List A) → IsSorted (stable_sort less xs)
    unfolding stable_sort
    stable_sort-IsSorted [] = tt
    stable_sort-IsSorted (x ∷ xs) =
        insert-IsSorted x (stable_sort less xs) (stable_sort-IsSorted xs)

  -- A sorted list is not changed by `std::stable_sort`.
  pub stable_sort-of_IsSorted : (xs : List A) → IsSorted xs → stable_sort less xs ≡ xs
  unfolding stable_sort insert
  stable_sort-of_IsSorted [] h = refl
  stable_sort-of_IsSorted (x ∷ []) h = refl
  stable_sort-of_IsSorted (x ∷ y ∷ xs) h = rw (stable_sort-of_IsSorted (y ∷ xs) h.1, h.0.0)
