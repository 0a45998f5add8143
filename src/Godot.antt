-- ===== src/Godot.antt =====
-- The file list of the Godot editor, as benchmarks/godot_stack/godot_sort.h holds it: the order of
-- file names, and the linked list with its merge sort. A string is its code points, none of them
-- zero; `towupper` of the C library is a parameter.
use Prim.Native.Nat.{Ordering}
use speed_up.Common.{
  ℕ, zero, suc, ◌+◌, ◌-◌, ◌/◌, Bool, true, false, ◌&&◌, ◌||◌, List, [], ◌∷◌, ◌++◌, length, take,
  drop, get_elem?, set, Option, none, some, ltb, leb, ◌==◌, if◌then◌else◌,
}
pub mod Sorting
pub mod Files
pub mod Names

-- `*p`, with the terminator at the end
abbrev pub first : List ℕ → ℕ
first [] = 0
first (c ∷ s) = c

-- the loop of `caps_table` from c, `rounds` of them
unfoldable pub caps_from : (to_upper : ℕ → ℕ) → (rounds c : ℕ) → List (ℕ × ℕ)
caps_from to_upper zero c = []
caps_from to_upper (suc rounds) c =
    let rest = caps_from to_upper rounds (suc c) in
    if to_upper c == c then rest else (c, to_upper c) ∷ rest

unfoldable pub caps_table : (to_upper : ℕ → ℕ) → List (ℕ × ℕ)
unfolding caps_from
caps_table to_upper = caps_from to_upper 0x1F000 0

-- the loop of `_find_upper`; `above` is `high + 1`
unfoldable pub find_upper_loop : (table : List (ℕ × ℕ)) (c : ℕ) (fuel low above : ℕ) → ℕ
find_upper_loop table c zero low above = c
find_upper_loop table c (suc fuel) low above =
    let middle = (low + (above - 1)) / 2 in
    let lower = find_upper_loop table c fuel low middle in
    let upper = find_upper_loop table c fuel (middle + 1) above in
    if ltb low above
    then elim (get_elem? table middle) [
      | none ↦ c
      | some (key, mapped) ↦ if ltb c key then lower else if ltb key c then upper else mapped
    ]
    else c

unfoldable pub find_upper : (table : List (ℕ × ℕ)) → ℕ → ℕ
unfolding find_upper_loop
find_upper table c = find_upper_loop table c (length table) 0 (length table)

abbrev pub is_digit : ℕ → Bool
is_digit c = leb 48 c && leb c 57

-- `while (is_digit(*p)) p++`
unfoldable pub skip_digits : List ℕ → List ℕ
skip_digits [] = []
skip_digits (c ∷ s) = if is_digit c then skip_digits s else c ∷ s

-- `while (*p == '0') p++`
unfoldable pub skip_zeros : List ℕ → List ℕ
skip_zeros [] = []
skip_zeros (c ∷ s) = if c == 48 then skip_zeros s else c ∷ s

-- the last loop of `natural_cmp_common`: `rounds` characters of both
unfoldable pub compare_run : (rounds : ℕ) → List ℕ → List ℕ → Ordering
compare_run zero s t = Ordering.eq
compare_run (suc rounds) [] t = Ordering.eq
compare_run (suc rounds) (c ∷ s) [] = Ordering.eq
compare_run (suc rounds) (c ∷ s) (d ∷ t) =
    if ltb c d then Ordering.lt else if ltb d c then Ordering.gt else compare_run rounds s t

-- What `natural_cmp_common` returns; it leaves the pointers behind the digits.
unfoldable pub natural_cmp_common : List ℕ → List ℕ → Ordering
unfolding skip_digits skip_zeros compare_run
natural_cmp_common s t =
    let this_len = length (skip_zeros s) - length (skip_digits s) in
    let that_len = length (skip_zeros t) - length (skip_digits t) in
    if ltb this_len that_len
    then Ordering.lt
    else if ltb that_len this_len
    then Ordering.gt
    else compare_run this_len (skip_zeros s) (skip_zeros t)

-- A scan of both strings returned, or stands at what is left of them.
pub data Scan : Type 0 where
  returned : Ordering → Scan
  at : (this that : List ℕ) → Scan

-- the loop of `naturalnocasecmp_to_base` over leading dots
unfoldable pub skip_dots : List ℕ → List ℕ → Scan
skip_dots [] t = if first t == 46 then returned Ordering.gt else at [] t
skip_dots (c ∷ s) [] = if c == 46 then returned Ordering.lt else at (c ∷ s) []
skip_dots (c ∷ s) (d ∷ t) =
    let rest = skip_dots s t in
    if c == 46 || d == 46
    then (if c == 46
        then (if d == 46
            then (if first t == 0
                then returned Ordering.gt
                else if first s == 0
                then returned Ordering.lt
                else rest)
            else returned Ordering.lt)
        else returned Ordering.gt)
    else at (c ∷ s) (d ∷ t)

-- the main loop of `naturalnocasecmp_to_base`; every round takes a character of the first string
unfoldable pub natural_loop : (table : List (ℕ × ℕ)) (fuel : ℕ) → List ℕ → List ℕ → Ordering
unfolding natural_cmp_common find_upper skip_digits
natural_loop table zero s [] = Ordering.eq
natural_loop table zero s (d ∷ t) = Ordering.lt
natural_loop table (suc fuel) [] [] = Ordering.eq
natural_loop table (suc fuel) [] (d ∷ t) = Ordering.lt
natural_loop table (suc fuel) (c ∷ s) [] = Ordering.gt
natural_loop table (suc fuel) (c ∷ s) (d ∷ t) =
    let behind = natural_loop table fuel (skip_digits (c ∷ s)) (skip_digits (d ∷ t)) in
    let next = natural_loop table fuel s t in
    if is_digit c
    then (if is_digit d
        then elim (natural_cmp_common (c ∷ s) (d ∷ t)) [
          | Ordering.lt ↦ Ordering.lt
          | Ordering.eq ↦ behind
          | Ordering.gt ↦ Ordering.gt
        ]
        else Ordering.lt)
    else if is_digit d
    then Ordering.gt
    else if ltb (find_upper table c) (find_upper table d)
    then Ordering.lt
    else if ltb (find_upper table d) (find_upper table c)
    then Ordering.gt
    else next

unfoldable pub naturalnocasecmp_to_base : (table : List (ℕ × ℕ)) → List ℕ → List ℕ → Ordering
unfolding skip_dots natural_loop
naturalnocasecmp_to_base table s t = elim (skip_dots s t) [
  | returned o ↦ o
  | at this that ↦ natural_loop table (length this) this that
]

-- leading `_` sequences
unfoldable pub file_cmp_common : List ℕ → List ℕ → Scan
file_cmp_common [] t = at [] t
file_cmp_common (c ∷ s) [] = at (c ∷ s) []
file_cmp_common (c ∷ s) (d ∷ t) =
    let rest = file_cmp_common s t in
    if c == 95 || d == 95
    then (if c == 95
        then (if d == 95 then rest else returned (if d == 46 then Ordering.gt else Ordering.lt))
        else returned (if c == 46 then Ordering.lt else Ordering.gt))
    else at (c ∷ s) (d ∷ t)

unfoldable pub filenocasecmp_to : (table : List (ℕ × ℕ)) → List ℕ → List ℕ → Ordering
unfolding file_cmp_common naturalnocasecmp_to_base
filenocasecmp_to table a b = elim (file_cmp_common a b) [
  | returned o ↦ o
  | at this that ↦ naturalnocasecmp_to_base table this that
]

-- `operator()` of FileNoCaseComparator
unfoldable pub file_less : (table : List (ℕ × ℕ)) → List ℕ → List ℕ → Bool
unfolding filenocasecmp_to
file_less table a b = elim (filenocasecmp_to table a b) [
  | Ordering.lt ↦ true
  | Ordering.eq ↦ false
  | Ordering.gt ↦ false
]
