-- ===== src/Std/Merge.antt =====
-- Sorting a tail and merging it into a sorted prefix is sorting the whole.
use speed_up.Common.{
  ◌≡◌, refl, sym, ap, ◌∙◌, Bool, true, false, List, [], ◌∷◌, ◌++◌, Bool-cases, inl, inr, arith,
}
use mathlib.Core.List.{append-nil}
use speed_up.Std.{insert, stable_sort, is_sorted, merge, sort_tail, starts_below, finish}
use speed_up.Std.Sort.{
  IsStrictWeak, IsFloor, IsSorted, IsFloor-trans, stable_sort-of_is_sorted, stable_sort-IsSorted,
}

module _ {A : Type 0} (less : A → A → Bool) where
  sort_tail-stable_sort : (tail : List A) → sort_tail less tail ≡ stable_sort less tail
  unfolding sort_tail
  sort_tail-stable_sort tail = elim (Bool-cases (is_sorted less tail)) [
    | inl e ↦ rw e (sym (stable_sort-of_is_sorted less tail e))
    | inr e ↦ rw e
  ]

  merge_below :
      (x y : A) (xs ys : List A)
      → less y x ≡ true
      → merge less (x ∷ xs) (y ∷ ys) ≡ y ∷ merge less (x ∷ xs) ys
  unfolding merge
  merge_below x y xs ys e = ground arith

  merge_above :
      (x y : A) (xs ys : List A)
      → less y x ≡ false
      → merge less (x ∷ xs) (y ∷ ys) ≡ x ∷ merge less xs (y ∷ ys)
  unfolding merge
  merge_above x y xs ys e = ground arith

  merge-nil : (xs : List A) → merge less xs [] ≡ xs
  unfolding merge
  merge-nil [] = refl
  merge-nil (x ∷ xs) = refl

  pub insert_above :
      (x y : A) (ys : List A) → less y x ≡ false → insert less x (y ∷ ys) ≡ x ∷ y ∷ ys
  unfolding insert
  insert_above x y ys e = rw e

  pub insert_below :
      (x y : A) (ys : List A) → less y x ≡ true → insert less x (y ∷ ys) ≡ y ∷ insert less x ys
  unfolding insert
  insert_below x y ys e = rw e

  -- an element that nothing of either list is below goes in front of their merge
  insert-merge_floor :
      (x : A) (xs ys : List A)
      → IsFloor less x xs
      → IsFloor less x ys
      → insert less x (merge less xs ys) ≡ x ∷ merge less xs ys
  insert-merge_floor x [] [] f g = unfold insert merge in refl
  insert-merge_floor x [] (y ∷ ys) f g = unfold insert merge in (rw g.0)
  insert-merge_floor x (z ∷ xs) [] f g = unfold insert merge in (rw f.0)
  insert-merge_floor x (z ∷ xs) (y ∷ ys) f g = elim (Bool-cases (less y z)) [
    | inl e ↦ rw (merge_below z y xs ys e) (insert_above x y _ g.0)
    | inr e ↦ rw (merge_above z y xs ys e) (insert_above x z _ f.0)
  ]

  module _ (weak : IsStrictWeak less) where
    pub merge-cons :
        (x : A) (xs ys : List A)
        → IsSorted less (x ∷ xs)
        → IsSorted less ys
        → merge less (x ∷ xs) ys ≡ insert less x (merge less xs ys)
    unfolding merge
    merge-cons x xs [] h k =
        merge-nil (x ∷ xs)
        ∙ ap (◌∷◌ x) (sym (merge-nil xs))
        ∙ sym (insert-merge_floor x xs [] h.0 tt)
    merge-cons x xs (y ∷ ys) h k = elim (Bool-cases (less y x)) [
      | inl e ↦ merge_below x y xs ys e ∙ sym (below xs h e (merge-cons x xs ys h k.1))
      | inr e ↦
          merge_above x y xs ys e
          ∙ sym (insert-merge_floor x xs (y ∷ ys) h.0 (e, IsFloor-trans less weak x y ys e k.0))
    ]
      where
        below :
            (xs : List A)
            → IsSorted less (x ∷ xs)
            → less y x ≡ true
            → merge less (x ∷ xs) ys ≡ insert less x (merge less xs ys)
            → insert less x (merge less xs (y ∷ ys)) ≡ y ∷ merge less (x ∷ xs) ys
        below [] h e ih = insert_below x y ys e ∙ ap (◌∷◌ y) (sym ih)
        below (z ∷ xs) h e ih = elim (Bool-cases (less y z)) [
          | inl p ↦ rw (merge_below z y xs ys p) (insert_below x y _ e ∙ ap (◌∷◌ y) (sym ih))
          | inr p ↦ absurd (cc (weak.neg_trans y z x p h.0.0))
        ]

    -- Merging a sorted list into a sorted prefix is inserting the prefix one by one from its end.
    pub merge-stable_sort :
        (prefix tail : List A)
        → IsSorted less prefix
        → merge less prefix (stable_sort less tail) ≡ stable_sort less (prefix ++ tail)
    merge-stable_sort [] tail h = unfold merge in refl
    merge-stable_sort (x ∷ prefix) tail h =
        merge-cons x prefix _ h (stable_sort-IsSorted less weak tail)
        ∙ ap (insert less x) (merge-stable_sort prefix tail h.1)
        ∙ unfold stable_sort in refl

    -- Where the tail does not start below the last element of the prefix, merging appends.
    merge-append :
        (x : A) (prefix : List A) (y : A) (tail : List A)
        → IsSorted less (x ∷ prefix)
        → starts_below less (x ∷ prefix) (y ∷ tail) ≡ false
        → (less y x ≡ false) × (merge less (x ∷ prefix) (y ∷ tail) ≡ x ∷ prefix ++ y ∷ tail)
    unfolding starts_below
    merge-append x [] y tail h e = (e, merge_above x y [] tail e ∙ unfold merge in refl)
    merge-append x (z ∷ prefix) y tail h e =
        let (low, rest) = merge-append z prefix y tail h.1 e in
        let first = weak.neg_trans y z x low h.0.0 in
        (first, merge_above x y (z ∷ prefix) tail first ∙ ap (◌∷◌ x) rest)

    skip_merge :
        (prefix tail : List A)
        → IsSorted less prefix
        → starts_below less prefix tail ≡ false
        → prefix ++ tail ≡ merge less prefix tail
    skip_merge [] tail h e = unfold merge in refl
    skip_merge (x ∷ prefix) [] h e = append-nil _ ∙ sym (merge-nil (x ∷ prefix))
    skip_merge (x ∷ prefix) (y ∷ tail) h e = sym ((merge-append x prefix y tail h e).1)

    -- Under a strict weak order and a sorted prefix, the lazy steps of `sort_bucket` (leave a tail
    -- that is in order, skip the merge where it would append) give the stable sort of the whole.
    pub finish-stable_sort :
        (prefix tail : List A)
        → IsSorted less prefix
        → finish less prefix tail ≡ stable_sort less (prefix ++ tail)
    unfolding finish
    finish-stable_sort prefix tail h =
        rw (sort_tail-stable_sort tail)
          (elim (Bool-cases (starts_below less prefix (stable_sort less tail))) [
            | inl e ↦ rw e (merge-stable_sort prefix tail h)
            | inr e ↦ rw e (skip_merge prefix _ h e ∙ merge-stable_sort prefix tail h)
          ])
