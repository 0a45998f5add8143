-- ===== src/Godot/Sorting.antt =====
-- SortList of godot_sort.h sorts: its merge sort is the stable sort of the standard library.
use mathlib.Core.Path.{ap₂}
use speed_up.Common.{
  ℕ, zero, suc, ◌≤◌, ◌≡◌, refl, sym, ap, ◌∙◌, Bool, List, [], ◌∷◌, length, take, drop, ◌==◌,
  Bool-cases, inl, inr, ==_iff, take-append-drop, length-take, length-drop, arith,
}
use speed_up.Std.{stable_sort, merge}
use speed_up.Std.Sort.{IsStrictWeak, IsSorted, IsFloor-trans, stable_sort-of_IsSorted}
use speed_up.Std.Merge.{merge-stable_sort}
use speed_up.Std.Commute.{merge-stable_sort-append}
use speed_up.Godot.Files.{run_length, merge_runs, get_mid, merge_sort, sort_custom}

module _ {A : Type 0} (less : A → A → Bool) where
  merge_runs-merge : (xs ys : List A) → merge_runs less xs ys ≡ merge less xs ys
  unfolding merge_runs merge
  merge_runs-merge [] ys = refl
  merge_runs-merge (x ∷ xs) [] = refl
  merge_runs-merge (x ∷ xs) (y ∷ ys) =
      ground (arith, merge_runs-merge (x ∷ xs) ys, merge_runs-merge xs (y ∷ ys))

  -- Both halves of two or more elements are shorter than the whole.
  get_mid-bounds :
      (x y : A) (xs : List A)
      → (1 ≤ get_mid less (x ∷ y ∷ xs)) × (get_mid less (x ∷ y ∷ xs) ≤ suc (length xs))
  unfolding get_mid
  get_mid-bounds x y [] = (omega arith, omega arith)
  get_mid-bounds x y (z ∷ []) = (omega arith, omega arith)
  get_mid-bounds x y (z ∷ w ∷ xs) =
      let (low, high) = get_mid-bounds z w xs in (omega arith, omega arith)

  module _ (weak : IsStrictWeak less) where
    -- With fuel for all elements but one, the merge sort is the stable sort.
    merge_sort-stable_sort :
        (fuel : ℕ) (xs : List A)
        → length xs ≤ suc fuel
        → merge_sort less fuel xs ≡ stable_sort less xs
    unfolding merge_sort
    merge_sort-stable_sort fuel [] h = unfold stable_sort in refl
    merge_sort-stable_sort fuel (x ∷ []) h = sym (stable_sort-of_IsSorted less (x ∷ []) (tt, tt))
    merge_sort-stable_sort zero (x ∷ y ∷ xs) h = absurd (omega arith)
    merge_sort-stable_sort (suc fuel) (x ∷ y ∷ xs) h =
        let l = x ∷ y ∷ xs in
        let mid = get_mid less l in
        let (low, high) = get_mid-bounds x y xs in
        let left = merge_sort-stable_sort fuel (take mid l) (omega (arith, length-take mid l)) in
        let right = merge_sort-stable_sort fuel (drop mid l) (omega (arith, length-drop mid l)) in
        merge_runs-merge _ _
        ∙ ap₂ (merge less) left right
        ∙ merge-stable_sort-append less weak (take mid l) (drop mid l)
        ∙ ap (stable_sort less) (take-append-drop mid l)

    -- The first run is sorted.
    run_length-IsSorted : (x : A) (xs : List A) → IsSorted less (x ∷ take (run_length less x xs) xs)
    unfolding run_length
    run_length-IsSorted x [] = (tt, tt)
    run_length-IsSorted x (y ∷ xs) = elim (Bool-cases (less y x)) [
      | inl e ↦ rw e (tt, tt)
      | inr e ↦
          let sorted = run_length-IsSorted y xs in
          rw e
            ((e, IsFloor-trans less weak x y (take (run_length less y xs) xs) e sorted.0), sorted)
    ]

    take-length : {B : Type 0} (xs : List B) → take (length xs) xs ≡ xs
    take-length [] = refl
    take-length (x ∷ xs) = ap (◌∷◌ x) (take-length xs)

    -- Under a strict weak order, `sort_custom` (keep the first run, merge sort the rest, merge the two)
    -- gives the stable sort of the list.
    pub sort_custom-stable_sort : (xs : List A) → sort_custom less xs ≡ stable_sort less xs
    unfolding sort_custom
    sort_custom-stable_sort [] = unfold stable_sort in refl
    sort_custom-stable_sort (x ∷ xs) =
        let run = run_length less x xs in
        let sorted = run_length-IsSorted x xs in
        elim (Bool-cases (run == length xs)) [
          | inl e ↦
              let all : take run xs ≡ xs =
                ap (λ n. take n xs) ((==_iff run (length xs)).0 e) ∙ take-length xs in
              rw e (sym (stable_sort-of_IsSorted less (x ∷ xs) (rw all at sorted)))
          | inr e ↦ rw e (
              merge_runs-merge _ _
              ∙ ap (merge less (x ∷ take run xs)) (
                  merge_sort-stable_sort (length xs) (drop run xs)
                    (omega (arith, length-drop run xs)))
              ∙ merge-stable_sort less weak (x ∷ take run xs) (drop run xs) sorted
              ∙ ap (λ l. stable_sort less (x ∷ l)) (take-append-drop run xs))
        ]
