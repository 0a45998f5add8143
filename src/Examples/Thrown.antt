-- ===== src/Examples/Thrown.antt =====
-- A run of the index in which add throws.
use speed_up.Common.{ℕ, [], ◌∷◌, ◌++◌, Option, none, some}
use speed_up.SortKey.{SortKey}
use speed_up.Index.{KeyState, BucketIndex}
use speed_up.Index.Consistent.Steps.{Reached}
use speed_up.Examples.{whole}
use speed_up.Examples.Reached.{new_index, no_slots}

-- two groups, of which only the numbers 0 and 1 have one
abbrev in_two : SortKey ℕ
in_two = record {
  name = "size";
  key_function = some (λ x. x);
  comparator = none;
  groups = 2;
  group_function = some (λ x. x);
}

abbrev grouped_state : KeyState ℕ
grouped_state = record no_slots {
  key = in_two;
  layouts = no_slots.layouts ++ no_slots.layouts;
  group_offset = 0 ∷ 1 ∷ 2 ∷ [];
  counts = 0 ∷ 0 ∷ [];
  expected = 0 ∷ 0 ∷ [];
}

abbrev grouped_index : BucketIndex (Option ℕ) ℕ
grouped_index = record new_index { states = grouped_state ∷ [] }
