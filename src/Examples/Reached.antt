-- ===== src/Examples/Reached.antt =====
-- An index through some operations, and what holds of it.
use speed_up.Common.{
  Option, List, zero, suc, ◌<◌, get_or, arith, ℕ, ◌≡◌, refl, [], ◌∷◌, none, some, ok, ◌==◌, true,
  false, map_result,
}
use speed_up.Plan.Valid.{by_geometric}
use speed_up.Plan.{of_geometric, target_sizes}
use speed_up.SortKey.{SortKey, of_key}
use speed_up.SortKey.Made.{by_key}
use speed_up.Index.{KeyState, BucketIndex, ascending}
use speed_up.Index.Names.{make_index, add_sort_key, sort_by}
use speed_up.Index.Changes.{compact, append, add_all, remove_if}
use speed_up.SortKey.{tie_break}
use speed_up.SortKey.Order.{IsThreeWay}
use speed_up.Index.{bucket_total}
use speed_up.Layout.{indices_from}
use speed_up.Index.Sorting.{prepare}
use speed_up.Index.Reads.Window.{IsReady}
use speed_up.Index.Grouping.Passes.{has_moved}
use speed_up.Index.Grouping.Slots.{bucket}
use speed_up.Index.Ordered.{IsOrdered}
use speed_up.Index.Ordered.Prepared.{IsKept, prepare-IsReady}
use speed_up.Index.Ordered.Rounds.{compact-IsKept}
use speed_up.Index.Consistent.{IsConsistent}
use speed_up.Index.Consistent.Steps.{
  Reached, made, stepped, adds_key, adds_all, appends, removes, sorts, Reached-IsConsistent,
}
use speed_up.Examples.{whole, whole-IsIeee, geometric_plan, geometric_plan-IsValid}

abbrev pub by_size : SortKey ℕ
by_size = record {
  name = "size";
  key_function = some (λ x. x);
  comparator = none;
  groups = 1;
  group_function = none;
}

abbrev pub no_slots : KeyState ℕ
no_slots = record {
  key = by_size;
  keys = [];
  buckets = [];
  layouts =
      record {
        boundaries = [];
        split_element = [];
        splitters = [];
        splitter_positions = [];
        expected = 0 ∷ [];
        estimated_from = 0;
      }
      ∷ [];
  group_offset = 0 ∷ 1 ∷ [];
  expected = 0 ∷ [];
  estimated_from = 0;
  counts = 0 ∷ [];
  churn = 0;
  stale_checked_at = none;
  splitter_slots = [];
  splitter_changed = false;
  has_order = false;
  order_stale = false;
  order = [];
  start = [];
  sorted_len = [];
  ordered_slots = 0;
  moved = [];
}

abbrev two_slots : KeyState ℕ
two_slots = record no_slots {
  keys = 7 ∷ 4 ∷ [];
  buckets = 0 ∷ 0 ∷ [];
  counts = 2 ∷ [];
  churn = 2;
  stale_checked_at = some 2;
}

abbrev ordered_pair : KeyState ℕ
ordered_pair = record two_slots {
  has_order = true;
  order = 0 ∷ 1 ∷ [];
  start = 0 ∷ 2 ∷ [];
  sorted_len = 0 ∷ [];
  ordered_slots = 2;
  moved = false ∷ false ∷ [];
}

abbrev one_slot : KeyState ℕ
one_slot = record ordered_pair {
  keys = 4 ∷ [];
  buckets = 0 ∷ [];
  counts = 1 ∷ [];
  churn = 3;
  order = 0 ∷ [];
  start = 0 ∷ 1 ∷ [];
  ordered_slots = 1;
  moved = false ∷ [];
}

abbrev pub new_index : BucketIndex (Option ℕ) ℕ
new_index = record {
  plan = geometric_plan;
  items = [];
  states = [];
  active = none;
  direction = ascending;
}

abbrev keyed_index : BucketIndex (Option ℕ) ℕ
keyed_index = record new_index { states = no_slots ∷ [] }

abbrev full_index : BucketIndex (Option ℕ) ℕ
full_index = record new_index { items = 7 ∷ 4 ∷ []; states = two_slots ∷ [] }

abbrev sorted_index : BucketIndex (Option ℕ) ℕ
sorted_index = record new_index { items = 7 ∷ 4 ∷ []; states = ordered_pair ∷ []; active = some 0 }

abbrev one_left : BucketIndex (Option ℕ) ℕ
one_left = record sorted_index { items = 4 ∷ []; states = one_slot ∷ [] }

pub new_index-Reached : Reached new_index
unfolding make_index of_geometric
new_index-Reached = made geometric_plan (by_geometric 2 (some 2) refl)

keyed : add_sort_key by_size new_index ≡ ok keyed_index
unfolding add_sort_key target_sizes
keyed = refl

filled : add_all (7 ∷ 4 ∷ []) keyed_index ≡ ok full_index
unfolding add_all map_result
filled = refl

sorted : sort_by "size" ascending full_index ≡ ok sorted_index
unfolding sort_by
sorted = refl

removed : remove_if (λ x. x == 7) sorted_index ≡ ok (one_left, 1)
unfolding remove_if map_result
removed = refl

sorted_index-Reached : Reached sorted_index
unfolding of_key
sorted_index-Reached =
    let i₁ : Reached keyed_index =
      stepped new_index-Reached
        (adds_key by_size (by_key "size" (some (λ x. x)) none refl) keyed) in
    let i₂ : Reached full_index = stepped i₁ (adds_all (7 ∷ 4 ∷ []) filled) in
    stepped i₂ (sorts "size" ascending sorted)

one_left-Reached : Reached one_left
one_left-Reached = stepped sorted_index-Reached (removes (λ x. x == 7) removed)

Reached-IsConsistent_example : IsConsistent one_left
Reached-IsConsistent_example = Reached-IsConsistent whole-IsIeee one_left one_left-Reached

-- The sorted index with one more item, which its grouping does not have yet.
abbrev grown_slots : KeyState ℕ
grown_slots = record ordered_pair {
  keys = 7 ∷ 4 ∷ 5 ∷ [];
  buckets = 0 ∷ 0 ∷ 0 ∷ [];
  counts = 3 ∷ [];
  churn = 3;
  order_stale = true;
}

abbrev three_left : List ℕ
three_left = 7 ∷ 4 ∷ 5 ∷ []

grown :
    append 5 sorted_index
    ≡ ok (record sorted_index { items = three_left; states = grown_slots ∷ [] })
unfolding append map_result
grown = refl

grown-Reached : Reached (record sorted_index { items = three_left; states = grown_slots ∷ [] })
grown-Reached = stepped sorted_index-Reached (appends 5 grown)

by_size-IsThreeWay : IsThreeWay (tie_break by_size)
unfolding tie_break
by_size-IsThreeWay = record { flips = λ x y. refl; neg_trans = λ x y z p q. q }

grown-IsOrdered : IsOrdered three_left grown_slots
unfolding bucket_total indices_from
grown-IsOrdered = record {
  was = 0 ∷ 0 ∷ [];
  blocks = (0 ∷ 1 ∷ []) ∷ [];
  grouped = record {
    many = refl;
    made = refl;
    begins = refl;
    slots = (λ s. refl, tt);
    below = (omega arith, (omega arith, tt));
    old = refl;
    known = omega arith;
    homes = at_home;
  };
  sorted = (tt, tt);
  marks = refl;
  fresh = λ current. cc;
}
  where
    at_home :
        (s : ℕ)
        → s < 2
        → has_moved grown_slots s ≡ false
        → get_or (0 ∷ 0 ∷ []) s 0 ≡ bucket grown_slots.buckets s
    at_home zero lt stays = refl
    at_home (suc zero) lt stays = refl
    at_home (suc (suc s)) lt stays = absurd (omega arith)

grown-IsKept : IsKept three_left grown_slots
grown-IsKept = record {
  laid =
      (Reached-IsConsistent whole-IsIeee
        (record sorted_index { items = three_left; states = grown_slots ∷ [] })
        grown-Reached).laid.0.0;
  ungrouped = refl;
  one_group = refl;
  consistent = by_size-IsThreeWay;
  ordered = λ has. grown-IsOrdered;
}

prepare-IsReady_example :
    (state : KeyState ℕ) × (prepare geometric_plan three_left grown_slots ≡ ok state)
    × (state.key ≡ by_size)
    × (c : IsThreeWay (tie_break state.key)) × IsReady three_left state c
prepare-IsReady_example =
    prepare-IsReady geometric_plan three_left grown_slots geometric_plan-IsValid (omega arith)
      grown-IsKept

-- The two sorted slots, of which the first is removed.
pair-IsOrdered : IsOrdered (7 ∷ 4 ∷ []) ordered_pair
unfolding bucket_total indices_from
pair-IsOrdered = record {
  was = 0 ∷ 0 ∷ [];
  blocks = (0 ∷ 1 ∷ []) ∷ [];
  grouped = record {
    many = refl;
    made = refl;
    begins = refl;
    slots = (λ s. refl, tt);
    below = (omega arith, (omega arith, tt));
    old = refl;
    known = omega arith;
    homes = λ s lt stays. refl;
  };
  sorted = (tt, tt);
  marks = refl;
  fresh = λ current. (refl, unmoved);
}
  where
    unmoved : (s : ℕ) → has_moved ordered_pair s ≡ false
    unmoved zero = refl
    unmoved (suc zero) = refl
    unmoved (suc (suc s)) = refl

pair-IsKept : IsKept (7 ∷ 4 ∷ []) ordered_pair
pair-IsKept = record {
  laid = (Reached-IsConsistent whole-IsIeee sorted_index sorted_index-Reached).laid.0.0;
  ungrouped = refl;
  one_group = refl;
  consistent = by_size-IsThreeWay;
  ordered = λ has. pair-IsOrdered;
}

compact-IsKept_example :
    (state : KeyState ℕ) × (compact geometric_plan (4 ∷ []) (none ∷ some 0 ∷ []) 1 ordered_pair
      ≡ ok state)
    × IsKept (4 ∷ []) state
compact-IsKept_example =
    compact-IsKept geometric_plan (none ∷ some 0 ∷ []) (7 ∷ 4 ∷ []) 1 ordered_pair
      geometric_plan-IsValid refl (omega arith) (refl, tt) refl pair-IsKept (λ has. refl)
