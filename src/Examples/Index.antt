-- ===== src/Examples/Index.antt =====
-- Runs and applications of the theorems on the state of an index.
use speed_up.Common.{
  Option, suc, ◌-◌, get_or, take, drop, sym, ◌∙◌, ℕ, ◌<◌, ◌≤◌, ◌≡◌, refl, true, false, List, [],
  ◌∷◌, ◌++◌, length, none, some, ok, ok_injective, arith, min,
}
use speed_up.Plan.{BucketPlan, uniform, target_sizes}
use speed_up.Std.{stable_sort}
use speed_up.SortKey.{key_of, SortKey, has_key, tie_break}
use speed_up.Index.Reads.Locate.{bucket_at-starts}
use speed_up.Index.Reads.Window.{IsReady, sorted_items}
use speed_up.Index.Ready.Fresh.{relayout-IsReady}
use speed_up.Index.Ready.Serving.{Serves, range-Serves, in_direction}
use speed_up.Index.Ready.Sorted.{sort_by-Serves, range-sort_by}
use speed_up.SortKey.Order.{IsThreeWay}
use speed_up.Layout.{BucketLayout, bucket_of}
use speed_up.Index.{
  KeyState, BucketIndex, bucket_total, bucket_at, ascending, descending, find_state,
}
use speed_up.Index.{bucket_for}
use speed_up.Index.Relayout.{relayout}
use speed_up.Index.Relayout.Counts.{InRange, build_order-relayout}
use speed_up.Index.Grouping.{build_order}
use speed_up.Index.Grouping.Counting.{grouped}
use speed_up.Index.Grouping.Placing.{build_order-order}
use speed_up.Index.Sorting.{sort_bucket, before, segment, behind}
use speed_up.Index.Sorting.Segments.{segment-build_order}
use speed_up.Index.Sorting.Bucket.{by_slot, sort_bucket-order}
use speed_up.Index.Names.{add_sort_key, sort_by}
use speed_up.Index.Reads.{range}
use speed_up.Examples.{
  whole, geometric_plan, geometric_plan-IsValid, tens, tens-IsThreeWay, coarse, two_buckets,
}

-- One key state of three slots in two buckets, not yet grouped, and one that is grouped with a
-- sorted prefix of length one.
abbrev three_slots : KeyState ℕ
three_slots = record {
  key = tens;
  keys = 4 ∷ 1 ∷ 4 ∷ [];
  buckets = 1 ∷ 0 ∷ 1 ∷ [];
  layouts = two_buckets ∷ [];
  group_offset = 0 ∷ 2 ∷ [];
  expected = 4 ∷ 4 ∷ [];
  estimated_from = 8;
  counts = 1 ∷ 2 ∷ [];
  churn = 3;
  stale_checked_at = none;
  splitter_slots = [];
  splitter_changed = false;
  has_order = false;
  order_stale = false;
  order = [];
  start = [];
  sorted_len = [];
  ordered_slots = 0;
  moved = [];
}

abbrev grouped_slots : KeyState ℕ
grouped_slots = record three_slots {
  has_order = true;
  order = 1 ∷ 0 ∷ 2 ∷ [];
  start = 0 ∷ 1 ∷ 3 ∷ [];
  sorted_len = 1 ∷ 1 ∷ [];
  ordered_slots = 3;
  moved = false ∷ false ∷ false ∷ [];
}

build_order-order_example : (build_order 3 three_slots).order ≡ 1 ∷ 0 ∷ 2 ∷ []
unfolding bucket_total
build_order-order_example =
    build_order-order 3 three_slots refl (omega arith, (omega arith, (omega arith, tt))) refl

segment-build_order_example : segment (build_order 3 three_slots) 1 ≡ 0 ∷ 2 ∷ []
unfolding bucket_total
segment-build_order_example =
    segment-build_order 3 three_slots 1 refl (omega arith, (omega arith, (omega arith, tt))) refl
      (omega arith) (omega arith)

abbrev three_items : List ℕ
three_items = 46 ∷ 12 ∷ 41 ∷ []

sort_bucket-order_example :
    (sort_bucket three_items grouped_slots 1).order
    ≡ before grouped_slots 1
      ++ (stable_sort (by_slot three_items grouped_slots 1) (segment grouped_slots 1)
          ++ behind grouped_slots 1)
sort_bucket-order_example = sort_bucket-order three_items grouped_slots 1 tens-IsThreeWay (tt, tt)

-- A key without groups, and a plan of one bucket, for a new layout.

abbrev plain : SortKey ℕ
plain = record coarse { groups = 1; group_function = none }

abbrev one_bucket : BucketPlan (Option ℕ)
one_bucket = record geometric_plan { kind = uniform; max_buckets = 1 }

abbrev whole_layout : BucketLayout ℕ
whole_layout = record {
  boundaries = [];
  split_element = [];
  splitters = [];
  splitter_positions = [];
  expected = 3 ∷ [];
  estimated_from = 3;
}

abbrev relaid : KeyState ℕ
relaid = record three_slots {
  key = plain;
  buckets = 0 ∷ 0 ∷ 0 ∷ [];
  layouts = whole_layout ∷ [];
  group_offset = 0 ∷ 1 ∷ [];
  expected = 3 ∷ [];
  estimated_from = 3;
  counts = 3 ∷ [];
  churn = 0;
}

relaid-bucket_for : (item key : ℕ) → bucket_for relaid item key ≡ ok 0
unfolding bucket_for
relaid-bucket_for item key = refl

relaid-InRange : InRange relaid
unfolding bucket_total
relaid-InRange = record {
  small = omega arith;
  below = λ item key b h. omega (arith, ok_injective (sym (relaid-bucket_for item key) ∙ h));
}

build_order-relayout_example :
    (length relaid.buckets ≡ length three_items)
    × ((build_order (length three_items) relaid).order ≡ grouped 1 0 relaid.buckets)
unfolding bucket_total relayout target_sizes
build_order-relayout_example =
    build_order-relayout one_bucket three_items (record three_slots { key = plain }) refl
      relaid-InRange

-- An index whose order is switched to a new key, and one that serves a key already.

plain-IsThreeWay : IsThreeWay (tie_break plain)
unfolding tie_break
plain-IsThreeWay = record { flips = λ x y. refl; neg_trans = λ x y z p q. q }

abbrev three_index : BucketIndex (Option ℕ) ℕ
three_index = record {
  plan = geometric_plan;
  items = three_items;
  states = [];
  active = none;
  direction = ascending;
}

range-sort_by_example :
    (keyed sorted read : BucketIndex (Option ℕ) ℕ) × (add_sort_key plain three_index ≡ ok keyed)
    × (sort_by "tens" descending keyed ≡ ok sorted)
    × (range 0 2 sorted
        ≡ ok (
          read,
          take (min 2 3 - 0) (drop 0 (in_direction descending (sorted_items plain three_items))),
        ))
unfolding find_state
range-sort_by_example =
    range-sort_by plain descending three_index 0 2 plain-IsThreeWay geometric_plan-IsValid refl refl
      refl (omega arith)

sort_by-Serves_example :
    (keyed sorted : BucketIndex (Option ℕ) ℕ) × (add_sort_key plain three_index ≡ ok keyed)
    × (sort_by "tens" ascending keyed ≡ ok sorted)
    × (sorted.items ≡ three_items)
    × Serves plain ascending sorted
unfolding find_state
sort_by-Serves_example =
    sort_by-Serves plain ascending three_index plain-IsThreeWay geometric_plan-IsValid refl refl
      refl (omega arith)

abbrev plain_slots : KeyState ℕ
plain_slots = record grouped_slots { key = plain; churn = 0; sorted_len = 0 ∷ 0 ∷ [] }

abbrev two_blocks : List (List ℕ)
two_blocks = (1 ∷ []) ∷ (0 ∷ 2 ∷ []) ∷ []

plain_slots-IsReady : IsReady three_items plain_slots plain-IsThreeWay
unfolding has_key key_of bucket_of
plain_slots-IsReady = record {
  layout = two_buckets;
  blocks = two_blocks;
  ungrouped = refl;
  assigned = record { keyed = refl; placed = refl };
  in_range = (omega arith, (omega arith, (omega arith, tt)));
  few = omega arith;
  made = refl;
  slots = (refl, (refl, tt));
  holds = record { begins = refl; small = omega arith; prefixes = (tt, (tt, tt)) };
}

abbrev served_index : BucketIndex (Option ℕ) ℕ
served_index = record three_index { states = plain_slots ∷ []; active = some 0 }

served_index-Serves : Serves plain ascending served_index
served_index-Serves = record {
  slot = 0;
  state = plain_slots;
  active = refl;
  directed = refl;
  held = refl;
  same_key = refl;
  quiet = record { one_layout = refl; unchanged = refl; cached = refl; current = refl };
  paged = omega arith;
  consistent = plain-IsThreeWay;
  ready = plain_slots-IsReady;
}

range-Serves_example :
    (index : BucketIndex (Option ℕ) ℕ) × (range 1 9 served_index
      ≡ ok (
        index,
        take (min 9 3 - 1) (drop 1 (in_direction ascending (sorted_items plain three_items))),
      ))
    × (index.items ≡ three_items)
    × Serves plain ascending index
range-Serves_example = range-Serves plain ascending served_index 1 9 served_index-Serves

bucket_at-starts_example :
    (bucket_at plain_slots 2 < 2)
    × (get_or plain_slots.start (bucket_at plain_slots 2) 0 ≤ 2)
    × (2 < get_or plain_slots.start (suc (bucket_at plain_slots 2)) 0)
bucket_at-starts_example =
    bucket_at-starts plain_slots two_blocks 2 refl (omega arith) (omega arith)

abbrev plain_unlaid : KeyState ℕ
plain_unlaid = record three_slots { key = plain }

relayout-IsReady_example :
    (state : KeyState ℕ) × (relayout geometric_plan three_items plain_unlaid ≡ ok state)
    × ((build_order 3 state).key ≡ plain)
    × (length state.layouts ≡ 1)
    × (state.churn ≡ 0)
    × (state.has_order ≡ false)
    × (c : IsThreeWay (tie_break (build_order 3 state).key)) × IsReady three_items
        (build_order 3 state)
        c
unfolding has_key key_of
relayout-IsReady_example =
    relayout-IsReady geometric_plan three_items plain_unlaid plain-IsThreeWay geometric_plan-IsValid
      refl refl refl (omega arith)
