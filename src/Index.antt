-- ===== src/Index.antt =====
-- include/speedup/bucketization/bucket_index.hpp and bucketed_list.hpp: the state of class BucketIndex
-- and what its parts read of it. A slot is a position in `items`; `npos` and `removed_slot` are `none`.
use Prim.Native.Nat.{Ordering}
use Prim.Native.String.{String}
use package.text.Mathlib.Text.{◌==◌ as str_eq}
use speed_up.Common.{
  ℕ, zero, suc, ◌+◌, ◌-◌, ◌*◌, ◌/◌, ◌%◌, ◌^◌, max, Bool, true, false, not, ◌&&◌, ◌||◌, List, [],
  ◌∷◌, length, get_or, get_elem?, set, Option, none, some, ltb, leb, ◌==◌, if◌then◌else◌, Result,
  ok, err, Error, invalid_argument, ◌>>=◌,
}
pub use speed_up.Common.{read}
use speed_up.Common.Doubles.{Doubles}
use speed_up.Plan.{BucketPlan, sub64}
use speed_up.SortKey.{SortKey, group, has_key}
use speed_up.Layout.{BucketLayout, bucket_of, bucket_of_keyed, single_bucket}
use speed_up.Std.{bisect}
pub mod Relayout
pub mod Grouping
pub mod Sorting
pub mod Names
pub mod Changes
pub mod Reads
pub mod Stats
pub mod Values
pub mod Ready
pub mod Laid
pub mod Consistent
pub mod Ordered

pub data Direction : Type 0 where
  ascending descending : Direction

-- `removed_slot`: the largest std::uint32_t
abbrev pub max_slots : ℕ
max_slots = 2 ^ 32 - 1

pub record KeyState (T : Type 0) : Type 0 where
  pub key : SortKey T
  pub keys : List ℕ
  pub buckets : List ℕ
  pub layouts : List (BucketLayout T)
  pub group_offset : List ℕ
  pub expected : List ℕ
  pub estimated_from : ℕ
  pub counts : List ℕ
  pub churn : ℕ
  pub stale_checked_at : Option ℕ
  pub splitter_slots : List ℕ
  pub splitter_changed : Bool
  pub has_order : Bool
  pub order_stale : Bool
  pub order : List ℕ
  pub start : List ℕ
  pub sorted_len : List ℕ
  pub ordered_slots : ℕ
  pub moved : List Bool

pub record BucketIndex (F T : Type 0) : Type 0 where
  pub plan : BucketPlan F
  pub items : List T
  pub states : List (KeyState T)
  pub active : Option ℕ
  pub direction : Direction

-- `++v[i]`
abbrev pub increment : List ℕ → ℕ → List ℕ
increment v i = set v i (get_or v i 0 + 1)

-- `--v[i]` on size_t
abbrev pub decrement : List ℕ → ℕ → List ℕ
decrement v i = set v i (sub64 (get_or v i 0) 1)

-- `group_offset.back()`
abbrev pub last_or : ℕ → List ℕ → ℕ
last_or d [] = d
last_or d (x ∷ xs) = last_or x xs

module _ {T : Type 0} where
  -- KeyState(SortKey<T> k): the members' initial values
  unfoldable pub new_state : SortKey T → KeyState T
  new_state k = record {
    key = k;
    keys = [];
    buckets = [];
    layouts = [];
    group_offset = [];
    expected = [];
    estimated_from = 0;
    counts = [];
    churn = 0;
    stale_checked_at = none;
    splitter_slots = [];
    splitter_changed = false;
    has_order = false;
    order_stale = false;
    order = [];
    start = [];
    sorted_len = [];
    ordered_slots = 0;
    moved = [];
  }

  -- the loop of `find_state`, from position i
  unfoldable pub find_state : List (KeyState T) → String → Option ℕ
  find_state [] name = none
  find_state (state ∷ states) name =
      let later = find_state states name in
      if str_eq state.key.name name
      then some 0
      else elim later [ none ↦ none | some i ↦ some (suc i) ]

  unfoldable pub require_state : List (KeyState T) → String → Result ℕ
  unfolding find_state
  require_state states name = elim (find_state states name) [
    | none ↦ err invalid_argument
    | some i ↦ ok i
  ]

  unfoldable pub bucket_total : KeyState T → ℕ
  bucket_total state = last_or 0 state.group_offset

  -- the bucket that starts last at or before an ascending position
  unfoldable pub bucket_at : KeyState T → ℕ → ℕ
  unfolding bisect
  bucket_at state position =
      sub64 (bisect (λ i. not (ltb position (get_or state.start i 0))) (length state.start)) 1

  -- the group whose first position is the last at or before `position`
  unfoldable pub group_at : KeyState T → ℕ → ℕ
  unfolding bisect
  group_at state position =
      sub64
        (bisect (λ mid. leb (get_or state.start (get_or state.group_offset mid 0) 0) position)
          (length state.layouts))
        1

  unfoldable pub to_ascending : Direction → (n : ℕ) → KeyState T → ℕ → ℕ
  unfolding group_at
  to_ascending ascending n state position = position
  to_ascending descending n state position =
      let g = group_at state position in
      let first = get_or state.start (get_or state.group_offset g 0) 0 in
      let end = get_or state.start (get_or state.group_offset (g + 1) 0) 0 in
      if length state.layouts == 1
      then sub64 (sub64 n 1) position
      else (first + sub64 (sub64 end 1) position) % 2 ^ 64

  -- the part of `bucket_for` below the choice of the group
  unfoldable pub local_bucket : KeyState T → T → ℕ → ℕ → ℕ
  unfolding bucket_of bucket_of_keyed has_key
  local_bucket state item item_key g =
      let layout = get_or state.layouts g single_bucket in
      if has_key state.key
      then bucket_of_keyed state.key layout item item_key
      else bucket_of state.key layout item

  unfoldable pub bucket_for : KeyState T → T → ℕ → Result ℕ
  unfolding local_bucket group
  bucket_for state item item_key =
      (if ltb 1 (length state.layouts) then group state.key item else ok 0) >>= λ g.
      ok (get_or state.group_offset g 0 + local_bucket state item item_key g)

module _ {F : Type 0} ⦃d : Doubles F⦄ {T : Type 0} where
  unfoldable pub skew_floor : BucketPlan F → KeyState T → ℕ → ℕ
  skew_floor plan state bucket = max (max (get_or state.expected bucket 0) plan.page_size) 1

  -- the loop of `is_stale` over the buckets from b
  unfoldable pub any_skewed : BucketPlan F → KeyState T → List ℕ → ℕ → Bool
  unfolding skew_floor
  any_skewed plan state [] b = false
  any_skewed plan state (count ∷ counts) b =
      d.lt (d.mul plan.rebalance_skew (d.of_size (skew_floor plan state b))) (d.of_size count)
      || any_skewed plan state counts (suc b)

  -- `n` is `items_.size()`
  unfoldable pub is_stale : BucketPlan F → (n : ℕ) → KeyState T → Bool
  unfolding any_skewed
  is_stale plan n state =
      ltb (2 * max state.estimated_from plan.page_size % 2 ^ 64) n
      || any_skewed plan state state.counts 0
