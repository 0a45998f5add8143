-- ===== src/BucketedList.antt =====
-- include/speedup/bucketization/bucketed_list.hpp: the class BucketedList, as the record of its virtual
-- functions over the type `L` of the lists. A function that changes the list, or sorts in it while it
-- reads, returns the new list; a visitor's visits are the list of the elements in their order.
use Prim.Native.String.{String}
use speed_up.Common.{ℕ, Bool, List, length, Option, none, ltb, Result, ok, ◌>>=◌}
use speed_up.Common.Doubles.{Doubles}
use speed_up.Plan.{BucketPlan}
use speed_up.SortKey.{SortKey}
use speed_up.Layout.{BucketLayout}
use speed_up.Index.{BucketIndex, Direction}
use speed_up.Index.Names
use speed_up.Index.Changes
use speed_up.Index.Reads
use speed_up.Index.Stats
use speed_up.Index.Stats.{BucketStats}

pub record BucketedList (F T L : Type 0) : Type 0 where
  pub add_sort_key : SortKey T → L → Result L
  pub remove_sort_key : String → L → L × Bool
  pub sort_key_names : L → List String
  pub sort_by : String → Direction → L → Result L
  pub unsort : L → L
  pub active_sort_key : L → Option (SortKey T)
  pub direction : L → Direction
  pub size : L → ℕ
  pub at : ℕ → L → Result (L × T)
  pub range : (from to : ℕ) → L → Result (L × List T)
  pub first_page : L → Result (L × List T)
  pub position_if : (T → Bool) → L → Result (L × Option ℕ)
  pub for_each : L → Result (L × List T)
  pub sort_all : L → Result L
  pub bucket_of : T → String → L → Result ℕ
  pub bucket_count : String → L → Result ℕ
  pub bucket_sizes : String → L → Result (List ℕ)
  pub layout : String → (group : ℕ) → L → Result (BucketLayout T)
  pub stats : String → L → Result (BucketStats F)
  pub estimate_bucket_sizes : String → BucketPlan F → L → Result (List ℕ)
  pub needs_rebalance : String → L → Result Bool
  pub rebalance : String → L → Result L
  pub rebalance_all : L → Result L
  pub plan : L → BucketPlan F
  pub set_plan : BucketPlan F → L → Result L
  pub add : T → L → Result L
  pub add_all : List T → L → Result L
  pub remove_if : (T → Bool) → L → Result (L × ℕ)
  pub update_if : (T → Bool) → Option (T → T) → L → Result (L × ℕ)
  pub clear : L → Result L

-- the conveniences, for the element type's `==`
module _ {F T L : Type 0} (list : BucketedList F T L) where
  unfoldable pub remove : (T → T → Bool) → T → L → Result (L × Bool)
  remove eq value l = list.remove_if (λ x. eq x value) l >>= λ (l', removed). ok (l', ltb 0 removed)

  unfoldable pub update : (T → T → Bool) → T → L → Result (L × Bool)
  update eq value l =
      list.update_if (λ x. eq x value) none l >>= λ (l', updated). ok (l', ltb 0 updated)

  unfoldable pub position_of : (T → T → Bool) → T → L → Result (L × Option ℕ)
  position_of eq value l = list.position_if (λ x. eq x value) l

module _ {F : Type 0} ⦃d : Doubles F⦄ {T : Type 0} where
  -- class BucketIndex overrides them all
  abbrev pub bucket_index : BucketedList F T (BucketIndex F T)
  bucket_index = record {
    add_sort_key = Names.add_sort_key;
    remove_sort_key = Names.remove_sort_key;
    sort_key_names = Names.sort_key_names;
    sort_by = Names.sort_by;
    unsort = Names.unsort;
    active_sort_key = Names.active_sort_key;
    direction = λ index. index.direction;
    size = λ index. length index.items;
    at = Reads.at;
    range = Reads.range;
    first_page = Reads.first_page;
    position_if = Reads.position_if;
    for_each = Reads.for_each;
    sort_all = Reads.sort_all;
    bucket_of = Stats.bucket_of;
    bucket_count = Stats.bucket_count;
    bucket_sizes = Stats.bucket_sizes;
    layout = Stats.layout;
    stats = Stats.stats;
    estimate_bucket_sizes = Stats.estimate_bucket_sizes;
    needs_rebalance = Stats.needs_rebalance;
    rebalance = Names.rebalance;
    rebalance_all = Names.rebalance_all;
    plan = λ index. index.plan;
    set_plan = Names.set_plan;
    add = Changes.add;
    add_all = Changes.add_all;
    remove_if = Changes.remove_if;
    update_if = Changes.update_if;
    clear = Changes.clear;
  }
