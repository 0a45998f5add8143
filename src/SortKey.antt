-- ===== src/SortKey.antt =====
-- include/speedup/bucketization/sort_key.hpp: class SortKey. The std::function members are optional
-- functions; the `int` of a three-way comparator is one of three signs. An element is a `T`.
use Prim.Native.Nat.{Ordering}
use Prim.Native.String.{String}
use text.Mathlib.Text.{◌==◌ as str_eq}
use speed_up.Common.{
  ℕ, ◌≤◌, ◌^◌, Bool, true, false, not, ◌||◌, List, [], ◌∷◌, Option, none, some, ltb, ◌==◌,
  if◌then◌else◌, Result, ok, err, invalid_argument, out_of_range, ◌>>=◌,
}
use speed_up.Keys.{Value, characters, normalize}
pub mod Order
pub mod Checks
pub mod Made

abbrev pub max_groups : ℕ
max_groups = 256

pub record SortKey (T : Type 0) : Type 0 where
  pub name : String
  pub key_function : Option (T → ℕ)
  pub comparator : Option (T → T → Ordering)
  pub groups : ℕ
  pub group_function : Option (T → ℕ)

-- the sign of `(x > y) - (x < y)` on numbers
abbrev pub three_way : ℕ → ℕ → Ordering
three_way x y = if ltb x y then Ordering.lt else if ltb y x then Ordering.gt else Ordering.eq

-- `c < 0`
abbrev pub is_negative : Ordering → Bool
is_negative Ordering.lt = true
is_negative _ = false

-- the sign of `std::string_view::compare`: unsigned bytes, then the length
unfoldable pub compare_bytes : List ℕ → List ℕ → Ordering
compare_bytes [] [] = Ordering.eq
compare_bytes [] (y ∷ ys) = Ordering.lt
compare_bytes (x ∷ xs) [] = Ordering.gt
compare_bytes (x ∷ xs) (y ∷ ys) =
    let rest = compare_bytes xs ys in
    if ltb x y then Ordering.lt else if ltb y x then Ordering.gt else rest

module _ {T : Type 0} where
  -- the private constructor
  unfoldable pub construct :
      String → Option (T → ℕ) → Option (T → T → Ordering) → Result (SortKey T)
  construct name key compare =
      if str_eq name ""
      then err invalid_argument
      else ok (record {
        name = name;
        key_function = key;
        comparator = compare;
        groups = 1;
        group_function = none;
      })

  unfoldable pub of_key : String → Option (T → ℕ) → Option (T → T → Ordering) → Result (SortKey T)
  unfolding construct
  of_key name none tie_breaker = err invalid_argument
  of_key name (some key) tie_breaker = construct name (some key) tie_breaker

  unfoldable pub of_comparator : String → Option (T → T → Ordering) → Result (SortKey T)
  unfolding construct
  of_comparator name none = err invalid_argument
  of_comparator name (some compare) = construct name none (some compare)

  -- `of` with a projection to a number or an enum: the key is the whole value
  unfoldable pub of_exact : String → (T → Value) → Result (SortKey T)
  unfolding of_key
  of_exact name projection = of_key name (some (λ x. normalize (projection x))) none

  -- `of` with a projection to a string: a prefix key and the full comparison
  unfoldable pub of_text : String → (T → List ℕ) → Result (SortKey T)
  unfolding of_key
  of_text name projection =
      of_key name (some (λ x. normalize (characters (projection x))))
        (some (λ a b. compare_bytes (projection a) (projection b)))

  unfoldable pub with_groups : SortKey T → ℕ → Option (T → ℕ) → Result (SortKey T)
  with_groups k groups group =
      if groups == 0 || ltb max_groups groups then err invalid_argument else elim group [
        | none ↦ err invalid_argument
        | some f ↦ ok (record k { groups = groups; group_function = some f })
      ]

  unfoldable pub group : SortKey T → T → Result ℕ
  group k value = elim k.group_function [
    | none ↦ ok 0
    | some f ↦ if ltb (f value) k.groups then ok (f value) else err out_of_range
  ]

  unfoldable pub has_key : SortKey T → Bool
  has_key k = elim k.key_function [ none ↦ false | some f ↦ true ]

  -- the normalized key; 0, as the index passes it, for a key without a key function
  unfoldable pub key_of : SortKey T → T → ℕ
  key_of k value = elim k.key_function [ none ↦ 0 | some f ↦ f value ]

  unfoldable pub tie_break : SortKey T → T → T → Ordering
  tie_break k a b = elim k.comparator [ none ↦ Ordering.eq | some c ↦ c a b ]

  -- the second half of `compare`: the key, then the tie-breaker
  unfoldable pub compare_keys : SortKey T → T → T → Ordering
  unfolding key_of tie_break
  compare_keys k a b =
      if key_of k a == key_of k b
      then tie_break k a b
      else if ltb (key_of k a) (key_of k b)
      then Ordering.lt
      else Ordering.gt

  unfoldable pub compare : SortKey T → T → T → Result Ordering
  unfolding group compare_keys
  compare k a b = elim k.group_function [
    | none ↦ ok (compare_keys k a b)
    | some f ↦ group k a >>= λ ga. group k b >>= λ gb.
        if ga == gb
        then ok (compare_keys k a b)
        else ok (if ltb ga gb then Ordering.lt else Ordering.gt)
  ]

  -- What `compare` returns for elements whose groups are in range, as the comparator that layouts and
  -- buckets sort by. A call of `compare` that throws from within a sort or a search is not modelled.
  unfoldable pub order : SortKey T → T → T → Ordering
  unfolding compare_keys
  order k a b = elim k.group_function [
    | none ↦ compare_keys k a b
    | some f ↦
        if f a == f b
        then compare_keys k a b
        else if ltb (f a) (f b)
        then Ordering.lt
        else Ordering.gt
  ]
