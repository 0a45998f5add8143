-- ===== src/Examples.antt =====
-- Runs of the model on small inputs, and each theorem applied at an input. `double` is a whole
-- number or NaN here, and the elements are numbers.
use Prim.Native.Nat.{Ordering}
use speed_up.Common.{
  sym, ◌∙◌, ℕ, ◌+◌, ◌*◌, ◌/◌, ◌%◌, ◌<◌, ◌≤◌, ◌≡◌, refl, ◌↔◌, ◌⊎◌, true, false, List, [], ◌∷◌, ◌++◌,
  length, Option, Bool, none, some, ltb, leb, ◌==◌, if◌then◌else◌, Result, ok, err, out_of_range,
  ◌>>=◌, ok_injective, arith, All, IsPos, sum, min,
}
use speed_up.Common.Doubles.{Doubles, IsIeee}
use speed_up.Common.Int.{pos, negsuc, ◌<ℤ◌}
use speed_up.Keys.{
  from_signed, from_double, from_bytes, canonical_nan, is_nan, normalize, characters,
}
use speed_up.Keys.Signed.{from_signed-lt_iff}
use speed_up.Keys.Floating.{rank, from_double-lt_iff, from_double-nan_last}
use speed_up.Keys.Bytes.{LexLt, from_bytes-LexLt, from_bytes-shared_prefix}
use speed_up.Plan.{BucketPlan, geometric, uniform, of_uniform, target_sizes}
use speed_up.Plan.Sizes.{target_sizes-sum}
use speed_up.Plan.Limits.{target_sizes-le}
use speed_up.Plan.Valid.{IsValid}
use speed_up.Plan.Positive.{target_sizes-IsPos}
use speed_up.Std.{bisect, finish, stable_sort}
use speed_up.Std.Bisect.{bisect-partition}
use speed_up.Std.Sort.{IsStrictWeak}
use speed_up.Std.Merge.{finish-stable_sort}
use speed_up.SortKey.{
  SortKey, has_key, of_key, of_text, order, compare, compare_bytes, tie_break, group,
}
use speed_up.SortKey.Order.{
  flip, IsThreeWay, order-IsThreeWay, HasGroup, Precedes, compare-Precedes,
}
use speed_up.SortKey.Checks.{of_text-order}
use speed_up.Layout.{sample_indices, choose_split_positions, BucketLayout, bucket_of, bucket_count}
use speed_up.Layout.Splits.{Ascends, IsRunEdge, choose_split_positions-Ascends}
use speed_up.Layout.Sample.{sample_indices-Ascends}
use speed_up.Layout.Buckets.{IsLayout, bucket_of-lt, bucket_of_mono, bucket_of-eq}
use speed_up.Index.{KeyState, bucket_total, ascending, descending}
use speed_up.Index.{bucket_for}
use speed_up.Index.Relayout.{relayout}
use speed_up.Index.Relayout.Counts.{InRange, build_order-relayout}
use speed_up.Index.Grouping.{build_order}
use speed_up.Index.Grouping.Counting.{grouped}
use speed_up.Index.Grouping.Placing.{build_order-order}
use speed_up.Index.Sorting.{sort_bucket, before, segment, behind}
use speed_up.Index.Sorting.Segments.{segment-build_order}
use speed_up.Index.Sorting.Bucket.{by_slot, sort_bucket-order}
use speed_up.FileBrowser.{natural_compare}
use speed_up.FileBrowser.Total.{natural_compare_total}
use speed_up.Godot.{file_less}
use speed_up.Godot.Names.{file_less_irreflexive}
use speed_up.Godot.Files.{sort_custom}
use speed_up.Godot.Sorting.{sort_custom-stable_sort}
use speed_up.Index.Names.{make_index, add_sort_key, sort_by}
use speed_up.Index.Changes.{add_all, remove_if, update_if}
use speed_up.Index.Reads.{range, for_each}
pub mod Index
pub mod Reached
pub mod Thrown
pub mod Search

-- `none` is NaN
abbrev compared : (ℕ → ℕ → Bool) → Option ℕ → Option ℕ → Bool
compared test none y = false
compared test (some m) none = false
compared test (some m) (some n) = test m n

abbrev computed : (ℕ → ℕ → ℕ) → Option ℕ → Option ℕ → Option ℕ
computed f none y = none
computed f (some m) none = none
computed f (some m) (some n) = some (f m n)

instance abbrev pub whole : Doubles (Option ℕ)
whole = record {
  of_size = some;
  ceil_to_size = λ x. elim x [ none ↦ 0 | some n ↦ n ];
  mul = computed (λ m n. m * n);
  div = computed (λ m n. m / n);
  lt = compared ltb;
  le = compared leb;
  is_finite = λ x. elim x [ none ↦ false | some n ↦ true ];
}

mul-pos : (x y : ℕ) → 1 ≤ x → 1 ≤ y → 1 ≤ x * y
mul-pos x y p q = grind arith

le_trans :
    (x y z : Option ℕ) → compared leb x y ≡ true → compared leb y z ≡ true → compared leb x z ≡ true
le_trans none y z p q = cc
le_trans (some l) none z p q = cc
le_trans (some l) (some m) none p q = cc
le_trans (some l) (some m) (some n) p q = ground arith

le_of_not_lt :
    (x y : Option ℕ)
    → compared leb x x ≡ true
    → compared leb y y ≡ true
    → compared ltb y x ≡ false
    → compared leb x y ≡ true
le_of_not_lt none y p q h = cc
le_of_not_lt (some m) none p q h = cc
le_of_not_lt (some m) (some n) p q h = ground arith

le_self :
    (x y : Option ℕ)
    → compared leb x y ≡ true
    → (compared leb x x ≡ true) × (compared leb y y ≡ true)
le_self none y p = cc
le_self (some m) none p = cc
le_self (some m) (some n) p = (ground arith, ground arith)

mul-ge_one :
    (x y : Option ℕ)
    → compared leb (some 1) x ≡ true
    → compared leb (some 1) y ≡ true
    → compared leb (some 1) (computed (λ m n. m * n) x y) ≡ true
mul-ge_one none y p q = cc
mul-ge_one (some m) none p q = cc
mul-ge_one (some m) (some n) p q = ground (arith, mul-pos m n)

ceil-pos : (x : Option ℕ) → compared leb (some 1) x ≡ true → 0 < elim x [ none ↦ 0 | some n ↦ n ]
ceil-pos none p = cc
ceil-pos (some n) p = ground arith

pub whole-IsIeee : IsIeee whole
whole-IsIeee = record {
  of_size_mono = λ m n h. ground arith;
  le_trans = le_trans;
  le_of_not_lt = le_of_not_lt;
  le_self = le_self;
  mul-ge_one = mul-ge_one;
  ceil-pos = λ x p q. ceil-pos x p;
}

abbrev pub geometric_plan : BucketPlan (Option ℕ)
geometric_plan = record {
  kind = geometric;
  page_size = 2;
  growth = some 2;
  max_buckets = 64;
  symmetric = true;
  sample_size = 2048;
  seed = 407714710759;
  rebalance_skew = some 4;
  auto_rebalance = true;
  sizes = [];
}

-- The sizes grow from both ends.
geometric_twenty : target_sizes geometric_plan 20 ≡ 2 ∷ 4 ∷ 8 ∷ 4 ∷ 2 ∷ []
unfolding target_sizes
geometric_twenty = refl

pub geometric_plan-IsValid : IsValid geometric_plan
geometric_plan-IsValid = record {
  page_pos = omega arith;
  buckets_pos = omega arith;
  buckets_le = omega arith;
  sample_pos = omega arith;
  sample_le = omega arith;
  growth_ge = refl;
  sizes_pos = tt;
}

target_sizes-sum_example : sum (target_sizes geometric_plan 20) ≡ 20
target_sizes-sum_example = target_sizes-sum geometric_plan 20 (omega arith) (omega arith)

target_sizes-le_example : length (target_sizes geometric_plan 20) ≤ 64
target_sizes-le_example = target_sizes-le geometric_plan 20 (omega arith)

target_sizes-IsPos_example : All IsPos (target_sizes geometric_plan 20)
target_sizes-IsPos_example =
    target_sizes-IsPos whole-IsIeee geometric_plan 20 geometric_plan-IsValid (omega arith)
      (omega arith) (omega arith)

-- a run of the index: two sorts, a removal, an update and two reads
abbrev small_plan : Result (BucketPlan (Option ℕ))
small_plan = of_uniform 3

by_value : Result (SortKey ℕ)
by_value = of_key "value" (some (λ x. x)) none

run : Result (List ℕ)
run = do
  plan ← small_plan
  key ← by_value
  index ← add_sort_key key (make_index plan)
  index ← add_all (5 ∷ 3 ∷ 9 ∷ 1 ∷ 3 ∷ 7 ∷ []) index
  index ← sort_by "value" ascending index
  (index, xs) ← range 1 5 index
  (index, n) ← remove_if (λ x. x == 3) index
  (index, n) ← update_if (λ x. x == 9) (some (λ x. 4)) index
  index ← add_all (2 ∷ 8 ∷ []) index
  index ← sort_by "value" descending index
  (index, ys) ← range 0 10 index
  (index, zs) ← for_each index
  ok ys

-- Keys.

from_signed-lt_iff_example : (from_signed (negsuc 4) < from_signed (pos 3)) ↔ (negsuc 4 <ℤ pos 3)
from_signed-lt_iff_example =
    from_signed-lt_iff (negsuc 4) (pos 3) (omega arith, omega arith) (omega arith, omega arith)

-- -1.0 and 1.0
from_double-lt_iff_example :
    (from_double 0xBFF0000000000000 < from_double 0x3FF0000000000000)
    ↔ (rank 0xBFF0000000000000 <ℤ rank 0x3FF0000000000000)
unfolding is_nan
from_double-lt_iff_example =
    from_double-lt_iff 0xBFF0000000000000 0x3FF0000000000000 (omega arith) (omega arith) refl refl

-- 1.0 and a NaN
from_double-nan_last_example :
    (from_double 0x3FF0000000000000 < from_double 0x7FF8000000000001)
    × (from_double 0x7FF8000000000001 ≡ canonical_nan)
unfolding is_nan
from_double-nan_last_example =
    from_double-nan_last 0x3FF0000000000000 0x7FF8000000000001 (omega arith) refl refl

abbrev apple : List ℕ
apple = 97 ∷ 112 ∷ 112 ∷ 108 ∷ 101 ∷ []

abbrev banana : List ℕ
banana = 98 ∷ 97 ∷ 110 ∷ 97 ∷ 110 ∷ 97 ∷ []

abbrev long_a : List ℕ
long_a = 97 ∷ 97 ∷ 97 ∷ 97 ∷ 97 ∷ 97 ∷ 97 ∷ 97 ∷ 98 ∷ []

abbrev long_b : List ℕ
long_b = 97 ∷ 97 ∷ 97 ∷ 97 ∷ 97 ∷ 97 ∷ 97 ∷ 97 ∷ 99 ∷ 100 ∷ []

from_bytes-LexLt_example : LexLt apple banana
unfolding from_bytes
from_bytes-LexLt_example = from_bytes-LexLt apple banana (ground arith) (ground arith) (omega arith)

from_bytes-shared_prefix_example : from_bytes long_a ≡ from_bytes long_b
from_bytes-shared_prefix_example =
    from_bytes-shared_prefix long_a long_b (ground arith) (ground arith) refl

-- Sort keys: tens first, then the number itself.

abbrev compare_numbers : ℕ → ℕ → Ordering
compare_numbers a b = if ltb a b then Ordering.lt else if ltb b a then Ordering.gt else Ordering.eq

abbrev pub tens : SortKey ℕ
tens = record {
  name = "tens";
  key_function = some (λ x. x / 10);
  comparator = some compare_numbers;
  groups = 2;
  group_function = some (λ x. x % 2);
}

abbrev text_key : SortKey (List ℕ)
text_key = record {
  name = "text";
  key_function = some (λ x. normalize (characters x));
  comparator = some compare_bytes;
  groups = 1;
  group_function = none;
}

pub tens-IsThreeWay : IsThreeWay (tie_break tens)
unfolding tie_break
tens-IsThreeWay = record { flips = λ x y. ground arith; neg_trans = λ x y z p q. ground arith }

order-IsThreeWay_example : IsThreeWay (order tens)
order-IsThreeWay_example = order-IsThreeWay tens tens-IsThreeWay

compare-Precedes_example :
    ((compare tens 31 42 ≡ err out_of_range) ↔ (¬ (HasGroup tens 31 × HasGroup tens 42)))
    × ((compare tens 31 42 ≡ ok Ordering.lt)
        ↔ (HasGroup tens 31 × HasGroup tens 42 × Precedes tens 31 42))
    × ((compare tens 31 42 ≡ ok Ordering.gt)
        ↔ (HasGroup tens 31 × HasGroup tens 42 × Precedes tens 42 31))
compare-Precedes_example = compare-Precedes tens 31 42 tens-IsThreeWay

of_text-order_example : order text_key apple banana ≡ compare_bytes apple banana
unfolding of_text
of_text-order_example =
    of_text-order "text" (λ x. x) refl apple banana (ground arith) (ground arith)

-- The search and the lazy sort.

bisect-partition_example : ltb 1 3 ≡ ltb 1 (bisect (λ i. ltb i 3) 5)
bisect-partition_example =
    bisect-partition (λ i. ltb i 3) 5 (λ i j p h. ground arith) 1 (omega arith)

ltb-IsStrictWeak : IsStrictWeak ltb
ltb-IsStrictWeak = record { asymm = λ a b h. ground arith; neg_trans = λ a b c p q. ground arith }

finish-stable_sort_example :
    finish ltb (2 ∷ 5 ∷ []) (4 ∷ 1 ∷ []) ≡ stable_sort ltb (2 ∷ 5 ∷ 4 ∷ 1 ∷ [])
finish-stable_sort_example =
    finish-stable_sort ltb ltb-IsStrictWeak (2 ∷ 5 ∷ []) (4 ∷ 1 ∷ []) ((refl, tt), (tt, tt))

-- Layouts.

choose_split_positions-Ascends_example :
    Ascends 1 9 (choose_split_positions (3 ∷ 6 ∷ []) 9 (λ q. q) (λ q. q + 1))
    × All
        (λ p. IsRunEdge 9 (λ q. q) (λ q. q + 1) p (3 ∷ 6 ∷ []))
        (choose_split_positions (3 ∷ 6 ∷ []) 9 (λ q. q) (λ q. q + 1))
    × (length (choose_split_positions (3 ∷ 6 ∷ []) 9 (λ q. q) (λ q. q + 1)) ≤ 2)
choose_split_positions-Ascends_example =
    choose_split_positions-Ascends 9 (λ q. q) (λ q. q + 1) (3 ∷ 6 ∷ []) (ground arith)

sample_indices-Ascends_example :
    Ascends 0 100 (sample_indices 100 8 1) × (length (sample_indices 100 8 1) ≡ min 100 8)
sample_indices-Ascends_example = sample_indices-Ascends 100 8 1 (omega arith) (omega arith)

abbrev pub two_buckets : BucketLayout ℕ
two_buckets = record {
  boundaries = 3 ∷ [];
  split_element = none ∷ [];
  splitters = [];
  splitter_positions = [];
  expected = 4 ∷ 4 ∷ [];
  estimated_from = 8;
}

tens-keyed : has_key tens ≡ true
unfolding has_key
tens-keyed = refl

two_buckets-IsLayout : IsLayout tens two_buckets
two_buckets-IsLayout = record {
  keyed = λ e. refl;
  stored = λ e. refl;
  compared = λ e. absurd (ground (arith, tens-keyed));
  positions = refl;
}

bucket_of-lt_example : bucket_of tens two_buckets 42 < bucket_count two_buckets
bucket_of-lt_example = bucket_of-lt tens two_buckets 42 two_buckets-IsLayout

bucket_of_mono_example : bucket_of tens two_buckets 22 ≤ bucket_of tens two_buckets 42
unfolding order
bucket_of_mono_example = bucket_of_mono tens two_buckets tens-IsThreeWay 22 42 refl refl

-- the key alone: numbers in the same ten tie
abbrev pub coarse : SortKey ℕ
coarse = record tens { comparator = none }

pub coarse-IsThreeWay : IsThreeWay (tie_break coarse)
unfolding tie_break
coarse-IsThreeWay = record { flips = λ x y. refl; neg_trans = λ x y z p q. q }

bucket_of-eq_example : bucket_of coarse two_buckets 42 ≡ bucket_of coarse two_buckets 44
unfolding order
bucket_of-eq_example = bucket_of-eq coarse two_buckets coarse-IsThreeWay 42 44 refl refl

-- The merge sort of the Godot file list.

sort_custom-stable_sort_example :
    sort_custom ltb (2 ∷ 5 ∷ 4 ∷ 9 ∷ 1 ∷ 4 ∷ []) ≡ stable_sort ltb (2 ∷ 5 ∷ 4 ∷ 9 ∷ 1 ∷ 4 ∷ [])
sort_custom-stable_sort_example =
    sort_custom-stable_sort ltb ltb-IsStrictWeak (2 ∷ 5 ∷ 4 ∷ 9 ∷ 1 ∷ 4 ∷ [])

file_less_irreflexive_example : file_less ((97, 65) ∷ []) apple apple ≡ false
file_less_irreflexive_example = file_less_irreflexive ((97, 65) ∷ []) apple

-- file2 and file10

abbrev file2 : List ℕ
file2 = 102 ∷ 105 ∷ 108 ∷ 101 ∷ 50 ∷ []

abbrev file10 : List ℕ
file10 = 70 ∷ 105 ∷ 108 ∷ 101 ∷ 49 ∷ 48 ∷ []

natural_two_ten : natural_compare file2 file10 ≡ some Ordering.lt
unfolding natural_compare
natural_two_ten = refl

natural_compare_total_example :
    (r : Ordering) × (natural_compare file2 file10 ≡ some r)
    × (natural_compare file10 file2 ≡ some (flip r))
    × (r ≡ Ordering.eq → file2 ≡ file10)
natural_compare_total_example = natural_compare_total file2 file10
