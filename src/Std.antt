-- ===== src/Std.antt =====
-- The algorithms of the C++ standard library that bucketization calls, as the standard describes
-- them: the binary searches, std::stable_sort, std::inplace_merge, std::is_sorted, std::find.
-- Comparators are Boolean (`less`). The binary searches halve a range of indexes.
pub mod Bisect
pub mod Sort
pub mod Merge
pub mod Commute
use speed_up.Common.{
  ℕ, zero, suc, ◌+◌, ◌-◌, ◌/◌, Bool, true, false, not, List, [], ◌∷◌, ◌++◌, length, get_or, ltb,
  ◌==◌, if◌then◌else◌,
}

-- `while (lo < hi) { mid = lo + (hi - lo) / 2; if (right(mid)) lo = mid + 1; else hi = mid; }`
unfoldable pub bisect_loop : (right : ℕ → Bool) → (fuel lo hi : ℕ) → ℕ
bisect_loop right zero lo hi = lo
bisect_loop right (suc fuel) lo hi =
    let mid = lo + (hi - lo) / 2 in
    let above = bisect_loop right fuel (mid + 1) hi in
    let below = bisect_loop right fuel lo mid in
    if ltb lo hi then (if right mid then above else below) else lo

-- From [0, n) a range of n halves at most n times.
unfoldable pub bisect : (right : ℕ → Bool) → (n : ℕ) → ℕ
unfolding bisect_loop
bisect right n = bisect_loop right n 0 n

module _ {A : Type 0} (less : A → A → Bool) where
  -- The position of the first element that `value` is less than.
  unfoldable pub upper_bound : A → List A → A → ℕ
  unfolding bisect
  upper_bound default xs value = bisect (λ i. not (less value (get_or xs i default))) (length xs)

  -- The position of the first element that is not less than `value`.
  unfoldable pub lower_bound : A → List A → A → ℕ
  unfolding bisect
  lower_bound default xs value = bisect (λ i. less (get_or xs i default) value) (length xs)

  -- An element goes before the first one that is not less than it.
  unfoldable pub insert : A → List A → List A
  insert x [] = x ∷ []
  insert x (y ∷ ys) = if less y x then y ∷ insert x ys else x ∷ y ∷ ys

  unfoldable pub stable_sort : List A → List A
  unfolding insert
  stable_sort [] = []
  stable_sort (x ∷ xs) = insert x (stable_sort xs)

  unfoldable pub is_sorted : List A → Bool
  is_sorted [] = true
  is_sorted (x ∷ []) = true
  is_sorted (x ∷ y ∷ xs) = if less y x then false else is_sorted (y ∷ xs)

  -- Ties are taken from the first range.
  unfoldable pub merge : List A → List A → List A
  merge [] ys = ys
  merge (x ∷ xs) [] = x ∷ xs
  merge (x ∷ xs) (y ∷ ys) = elim (less y x) [
    | true ↦ y ∷ merge (x ∷ xs) ys
    | false ↦ x ∷ merge xs (y ∷ ys)
  ]

  -- `std::inplace_merge` after `std::stable_sort` of the tail, as `BucketIndex::sort_bucket` does it:
  -- a tail already in order is left, and no merge is made when the tail does not start below.
  unfoldable pub sort_tail : List A → List A
  unfolding is_sorted stable_sort
  sort_tail tail = if is_sorted tail then tail else stable_sort tail

  unfoldable pub starts_below : List A → List A → Bool
  starts_below [] tail = false
  starts_below (x ∷ []) [] = false
  starts_below (x ∷ []) (y ∷ tail) = less y x
  starts_below (x ∷ x' ∷ prefix) tail = starts_below (x' ∷ prefix) tail

  unfoldable pub finish : List A → List A → List A
  unfolding sort_tail starts_below merge
  finish prefix tail =
      let tail' = sort_tail tail in
      if starts_below prefix tail' then merge prefix tail' else prefix ++ tail'

-- `std::find` of a number: its position, or the length
unfoldable pub find_index : List ℕ → ℕ → ℕ
find_index [] v = 0
find_index (x ∷ xs) v = if x == v then 0 else suc (find_index xs v)

-- `std::binary_search` on ascending numbers
unfoldable pub binary_search : List ℕ → ℕ → Bool
unfolding lower_bound
binary_search xs v =
    let p = lower_bound ltb 0 xs v in
    if ltb p (length xs) then not (ltb v (get_or xs p 0)) else false
