-- ===== src/Godot/Files.antt =====
-- The rest of benchmarks/godot_stack/godot_sort.h: file infos, their comparators, and FileList, a
-- linked list with its merge sort. A list of elements stands for the linked nodes from `first_` to
-- `last_`.
use speed_up.Common.{
  ℕ, zero, suc, ◌+◌, ◌-◌, ◌/◌, Bool, true, false, ◌||◌, List, [], ◌∷◌, ◌++◌, length, take, drop,
  get_elem?, set, Option, none, some, ltb, ◌==◌, if◌then◌else◌,
}
use speed_up.Godot.{file_less}

-- `rfind` and `find_last_of`: the last position of a character that passes the test
unfoldable pub find_last : (ℕ → Bool) → List ℕ → Option ℕ
find_last test [] = none
find_last test (c ∷ s) = elim (find_last test s) [
  | some i ↦ some (suc i)
  | none ↦ if test c then some 0 else none
]

-- The position of the dot before the extension, if there is one behind the last slash.
unfoldable pub extension_dot : List ℕ → Option ℕ
unfolding find_last
extension_dot s = elim (find_last (λ c. c == 46) s) [
  | none ↦ none
  | some pos ↦ elim (find_last (λ c. c == 47 || c == 92) s) [
    | none ↦ some pos
    | some slash ↦ if ltb pos slash then none else some pos
  ]
]

unfoldable pub get_extension : List ℕ → List ℕ
unfolding extension_dot
get_extension s = elim (extension_dot s) [ none ↦ [] | some pos ↦ drop (pos + 1) s ]

unfoldable pub get_basename : List ℕ → List ℕ
unfolding extension_dot
get_basename s = elim (extension_dot s) [ none ↦ s | some pos ↦ take pos s ]

-- `base.back()`
abbrev last : List ℕ → ℕ
last [] = 0
last (c ∷ []) = c
last (c ∷ d ∷ s) = last (d ∷ s)

unfoldable pub path_join : (base file : List ℕ) → List ℕ
path_join [] file = file
path_join (c ∷ base) [] = if last (c ∷ base) == 47 then (c ∷ base) ++ [] else (c ∷ base) ++ 47 ∷ []
path_join (c ∷ base) (d ∷ file) =
    if last (c ∷ base) == 47 || d == 47 then (c ∷ base) ++ d ∷ file else (c ∷ base) ++ 47 ∷ d ∷ file

pub data FileSortOption : Type 0 where
  file_sort_name file_sort_name_reverse file_sort_type file_sort_type_reverse : FileSortOption
  file_sort_modified_time file_sort_modified_time_reverse : FileSortOption

-- `source` is the benchmark's own pointer.
pub record FileInfo : Type 0 where
  pub name : List ℕ
  pub path : List ℕ
  pub icon_path : List ℕ
  pub kind : List ℕ
  pub sources : List (List ℕ)
  pub import_broken : Bool
  pub modified_time : ℕ
  pub source : ℕ

module _ (table : List (ℕ × ℕ)) where
  unfoldable pub name_less : FileInfo → FileInfo → Bool
  unfolding file_less
  name_less a b = file_less table a.name b.name

  unfoldable pub type_less : FileInfo → FileInfo → Bool
  unfolding file_less get_extension get_basename
  type_less a b =
      file_less table (get_extension a.name ++ (a.kind ++ get_basename a.name))
        (get_extension b.name ++ (b.kind ++ get_basename b.name))

unfoldable pub time_less : FileInfo → FileInfo → Bool
time_less a b = ltb b.modified_time a.modified_time

module _ {A : Type 0} (less : A → A → Bool) where
  -- `_is_sorted`: how many elements the first ascending run has behind x
  unfoldable pub run_length : A → List A → ℕ
  run_length x [] = 0
  run_length x (y ∷ xs) = let more = run_length y xs in if less y x then 0 else suc more

  unfoldable pub merge_runs : List A → List A → List A
  merge_runs [] ys = ys
  merge_runs (x ∷ xs) [] = x ∷ xs
  merge_runs (x ∷ xs) (y ∷ ys) = elim (less y x) [
    | true ↦ y ∷ merge_runs (x ∷ xs) ys
    | false ↦ x ∷ merge_runs xs (y ∷ ys)
  ]

  -- `_get_mid`: how many elements there are up to the middle one
  unfoldable pub get_mid : List A → ℕ
  get_mid [] = 0
  get_mid (x ∷ []) = 1
  get_mid (x ∷ y ∷ []) = 1
  get_mid (x ∷ y ∷ z ∷ xs) = suc (get_mid (z ∷ xs))

  -- The halves are sorted on fuel, the length of the list.
  unfoldable pub merge_sort : (fuel : ℕ) → List A → List A
  unfolding merge_runs get_mid
  merge_sort fuel [] = []
  merge_sort fuel (x ∷ []) = x ∷ []
  merge_sort zero (x ∷ y ∷ xs) = x ∷ y ∷ xs
  merge_sort (suc fuel) (x ∷ y ∷ xs) =
      let mid = get_mid (x ∷ y ∷ xs) in
      merge_runs (merge_sort fuel (take mid (x ∷ y ∷ xs))) (merge_sort fuel (drop mid (x ∷ y ∷ xs)))

  -- `sort_custom`: the first run is kept, the rest is sorted and merged into it
  unfoldable pub sort_custom : List A → List A
  unfolding run_length merge_sort merge_runs
  sort_custom [] = []
  sort_custom (x ∷ xs) =
      let run = run_length x xs in
      if run == length xs
      then x ∷ xs
      else merge_runs (x ∷ take run xs) (merge_sort (length xs) (drop run xs))

-- `std::swap` of the values of two elements
unfoldable pub swap_at {ℓ} : {A : Type ℓ} → (i j : ℕ) → List A → List A
swap_at i j xs = elim (get_elem? xs i) [
  | none ↦ xs
  | some x ↦ elim (get_elem? xs j) [ none ↦ xs | some y ↦ set (set xs i y) j x ]
]

-- the loop of `reverse`: `rounds` swaps from the two ends inwards
unfoldable pub reverse_loop {ℓ} : {A : Type ℓ} → (rounds i : ℕ) → List A → List A
unfolding swap_at
reverse_loop zero i xs = xs
reverse_loop (suc rounds) i xs = reverse_loop rounds (suc i) (swap_at i (length xs - 1 - i) xs)

unfoldable pub reverse_list {ℓ} : {A : Type ℓ} → List A → List A
unfolding reverse_loop
reverse_list xs = reverse_loop (length xs / 2) 0 xs

unfoldable pub sort_file_info_list :
    (table : List (ℕ × ℕ)) → List FileInfo → FileSortOption → List FileInfo
unfolding sort_custom reverse_list name_less type_less time_less
sort_file_info_list table files option = elim option [
  | file_sort_type ↦ sort_custom (type_less table) files
  | file_sort_type_reverse ↦ reverse_list (sort_custom (type_less table) files)
  | file_sort_modified_time ↦ sort_custom time_less files
  | file_sort_modified_time_reverse ↦ reverse_list (sort_custom time_less files)
  | file_sort_name_reverse ↦ reverse_list (sort_custom (name_less table) files)
  | file_sort_name ↦ sort_custom (name_less table) files
]
