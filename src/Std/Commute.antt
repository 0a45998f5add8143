-- ===== src/Std/Commute.antt =====
-- Insertions commute: merging sorted lists is sorting their concatenation, and under a total order the
-- stable sort does not depend on the order of its input.
use speed_up.Common.{
  ◌≡◌, refl, sym, ap, ◌∙◌, Bool, true, false, List, [], ◌∷◌, ◌++◌, Bool-cases, inl, inr, All,
}
use speed_up.Std.{insert, stable_sort, merge}
use speed_up.Std.Sort.{
  IsStrictWeak, IsFloor, IsSorted, IsFloor-trans, insert-IsSorted, stable_sort-IsSorted,
  stable_sort-All,
}
use speed_up.Std.Merge.{insert_above, insert_below, merge-cons}

-- No two elements tie.
abbrev pub IsTotal : {A : Type 0} → (A → A → Bool) → Type 0
IsTotal {A} less = (a b : A) → less a b ≡ false → less b a ≡ false → a ≡ b

module _ {A : Type 0} (less : A → A → Bool) where
  module _ (weak : IsStrictWeak less) where
    pub insert-nil : (x : A) → insert less x [] ≡ x ∷ []
    unfolding insert
    insert-nil x = refl

    -- Where y goes before x, the two can be inserted in either order.
    pub insert-insert :
        (x y : A) (l : List A)
        → less y x ≡ true
        → insert less y (insert less x l) ≡ insert less x (insert less y l)
    insert-insert x y [] e =
        ap (insert less y) (insert-nil x)
        ∙ insert_above less y x [] (weak.asymm y x e)
        ∙ sym (
            ap (insert less x) (insert-nil y)
            ∙ insert_below less x y [] e
            ∙ ap (◌∷◌ y) (insert-nil x))
    insert-insert x y (z ∷ l) e = elim (Bool-cases (less z x)) [
      | inl zx ↦
          let left = insert_below less x z l zx in
          elim (Bool-cases (less z y)) [
            | inl zy ↦
                ap (insert less y) left
                ∙ insert_below less y z (insert less x l) zy
                ∙ ap (◌∷◌ z) (insert-insert x y l e)
                ∙ sym (
                    ap (insert less x) (insert_below less y z l zy)
                    ∙ insert_below less x z (insert less y l) zx)
            | inr zy ↦
                ap (insert less y) left
                ∙ insert_above less y z (insert less x l) zy
                ∙ sym (
                    ap (insert less x) (insert_above less y z l zy)
                    ∙ insert_below less x y (z ∷ l) e
                    ∙ ap (◌∷◌ y) left)
          ]
      | inr zx ↦
          let zy = weak.neg_trans z x y zx (weak.asymm y x e) in
          let left = insert_above less x z l zx in
          ap (insert less y) left
          ∙ insert_above less y x (z ∷ l) (weak.asymm y x e)
          ∙ sym (
              ap (insert less x) (insert_above less y z l zy)
              ∙ insert_below less x y (z ∷ l) e
              ∙ ap (◌∷◌ y) left)
    ]

    merge-insert :
        (x : A) (l m : List A)
        → IsSorted less l
        → IsSorted less m
        → merge less (insert less x l) m ≡ insert less x (merge less l m)
    merge-insert x [] m h k =
        ap (λ l. merge less l m) (insert-nil x) ∙ merge-cons less weak x [] m (tt, tt) k
    merge-insert x (y ∷ l) m h k = elim (Bool-cases (less y x)) [
      | inl e ↦
          let sorted = rw (insert_below less x y l e) at (insert-IsSorted less weak x (y ∷ l) h) in
          ap (λ l. merge less l m) (insert_below less x y l e)
          ∙ merge-cons less weak y (insert less x l) m sorted k
          ∙ ap (insert less y) (merge-insert x l m h.1 k)
          ∙ insert-insert x y (merge less l m) e
          ∙ ap (insert less x) (sym (merge-cons less weak y l m h k))
      | inr e ↦
          ap (λ l. merge less l m) (insert_above less x y l e)
          ∙ merge-cons less weak x (y ∷ l) m ((e, IsFloor-trans less weak x y l e h.0), h) k
    ]

    -- Merging two sorted lists is sorting their concatenation.
    pub merge-stable_sort-append :
        (xs ys : List A)
        → merge less (stable_sort less xs) (stable_sort less ys) ≡ stable_sort less (xs ++ ys)
    unfolding stable_sort
    merge-stable_sort-append [] ys = unfold merge in refl
    merge-stable_sort-append (x ∷ xs) ys =
        merge-insert x (stable_sort less xs) (stable_sort less ys)
          (stable_sort-IsSorted less weak xs) (stable_sort-IsSorted less weak ys)
        ∙ ap (insert less x) (merge-stable_sort-append xs ys)

    -- An element that is a floor of what follows can be inserted before the concatenation.
    insert-append :
        (x : A) (xs ys : List A)
        → IsFloor less x ys
        → insert less x (xs ++ ys) ≡ insert less x xs ++ ys
    insert-append x [] [] f = insert-nil x ∙ ap (λ l. l ++ []) (sym (insert-nil x))
    insert-append x [] (y ∷ ys) f =
        insert_above less x y ys f.0 ∙ ap (λ l. l ++ y ∷ ys) (sym (insert-nil x))
    insert-append x (z ∷ xs) ys f = elim (Bool-cases (less z x)) [
      | inl e ↦
          insert_below less x z (xs ++ ys) e
          ∙ ap (◌∷◌ z) (insert-append x xs ys f)
          ∙ ap (λ l. l ++ ys) (sym (insert_below less x z xs e))
      | inr e ↦
          insert_above less x z (xs ++ ys) e ∙ ap (λ l. l ++ ys) (sym (insert_above less x z xs e))
    ]

    -- Where no element of the second list is below one of the first, the lists are sorted apart.
    pub stable_sort-append_floor :
        (xs ys : List A)
        → All (λ x. IsFloor less x ys) xs
        → stable_sort less (xs ++ ys) ≡ stable_sort less xs ++ stable_sort less ys
    unfolding stable_sort
    stable_sort-append_floor [] ys h = refl
    stable_sort-append_floor (x ∷ xs) ys h =
        ap (insert less x) (stable_sort-append_floor xs ys h.1)
        ∙ insert-append x (stable_sort less xs) (stable_sort less ys)
            (stable_sort-All less (λ y. less y x ≡ false) ys h.0)

    module _ (total : IsTotal less) where
      insert_comm :
          (x y : A) (l : List A) → insert less y (insert less x l) ≡ insert less x (insert less y l)
      insert_comm x y l = elim (Bool-cases (less y x)) [
        | inl e ↦ insert-insert x y l e
        | inr e ↦ elim (Bool-cases (less x y)) [
          | inl f ↦ sym (insert-insert y x l f)
          | inr f ↦ let same = total x y f e in rw same refl
        ]
      ]

      -- An element of the input may stand anywhere.
      pub stable_sort-middle :
          (xs ys : List A) (x : A)
          → stable_sort less (xs ++ x ∷ ys) ≡ insert less x (stable_sort less (xs ++ ys))
      unfolding stable_sort
      stable_sort-middle [] ys x = refl
      stable_sort-middle (z ∷ xs) ys x =
          ap (insert less z) (stable_sort-middle xs ys x)
          ∙ insert_comm x z (stable_sort less (xs ++ ys))
