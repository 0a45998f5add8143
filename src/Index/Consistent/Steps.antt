-- ===== src/Index/Consistent/Steps.antt =====
-- What a program does with a BucketIndex of bucket_index.hpp, one operation at a time.
use Prim.Native.String.{String}
use speed_up.Common.{ℕ, ◌≡◌, Bool, Option, List, ok}
use speed_up.Common.Doubles.{Doubles, IsIeee}
use speed_up.Plan.{BucketPlan}
use speed_up.Plan.Valid.{Made, Made-IsValid}
use speed_up.SortKey.{SortKey}
use speed_up.SortKey.Made.{MadeKey, MadeKey-groups}
use speed_up.Index.{BucketIndex, Direction}
use speed_up.Index.Names.{
  make_index, add_sort_key, remove_sort_key, sort_by, unsort, rebalance, rebalance_all, set_plan,
}
use speed_up.Index.Changes.{append, add, add_all, remove_if, update_if, clear}
use speed_up.Index.Reads.{at, range, first_page, position_if, for_each, sort_all}
use speed_up.Index.Consistent.{IsConsistent}
use speed_up.Index.Consistent.Names.{
  make_index-IsConsistent, add_sort_key-IsConsistent, remove_sort_key-IsConsistent,
  sort_by-IsConsistent, unsort-IsConsistent, rebalance-IsConsistent, rebalance_all-IsConsistent,
  set_plan-IsConsistent,
}
use speed_up.Index.Consistent.Changes.{
  append-IsConsistent, add_all-IsConsistent, remove_if-IsConsistent, update_if-IsConsistent,
  clear-IsConsistent,
}
use speed_up.Index.Consistent.Reads.{
  at-IsConsistent, range-IsConsistent, first_page-IsConsistent, position_if-IsConsistent,
  for_each-IsConsistent, sort_all-IsConsistent,
}

module _ {F : Type 0} ⦃d : Doubles F⦄ {T : Type 0} where
  -- An operation that returns, and the index after it.
  pub data Step : BucketIndex F T → BucketIndex F T → Type 0 where
    adds_key :
        {i j : BucketIndex F T} (key : SortKey T)
        → MadeKey key
        → add_sort_key key i ≡ ok j
        → Step i j
    removes_key : {i : BucketIndex F T} (name : String) → Step i (remove_sort_key name i).0
    sorts :
        {i j : BucketIndex F T} (name : String) (direction : Direction)
        → sort_by name direction i ≡ ok j
        → Step i j
    unsorts : {i : BucketIndex F T} → Step i (unsort i)
    appends : {i j : BucketIndex F T} (x : T) → append x i ≡ ok j → Step i j
    adds : {i j : BucketIndex F T} (x : T) → add x i ≡ ok j → Step i j
    adds_all : {i j : BucketIndex F T} (xs : List T) → add_all xs i ≡ ok j → Step i j
    removes :
        {i j : BucketIndex F T} {count : ℕ} (match : T → Bool)
        → remove_if match i ≡ ok (j, count)
        → Step i j
    updates :
        {i j : BucketIndex F T} {count : ℕ} (match : T → Bool) (mutate : Option (T → T))
        → update_if match mutate i ≡ ok (j, count)
        → Step i j
    clears : {i j : BucketIndex F T} → clear i ≡ ok j → Step i j
    rebalances : {i j : BucketIndex F T} (name : String) → rebalance name i ≡ ok j → Step i j
    rebalances_all : {i j : BucketIndex F T} → rebalance_all i ≡ ok j → Step i j
    sets_plan :
        {i j : BucketIndex F T} (plan : BucketPlan F)
        → Made plan
        → set_plan plan i ≡ ok j
        → Step i j
    reads_at : {i j : BucketIndex F T} {x : T} (position : ℕ) → at position i ≡ ok (j, x) → Step i j
    reads_range :
        {i j : BucketIndex F T} {xs : List T} (from to : ℕ)
        → range from to i ≡ ok (j, xs)
        → Step i j
    reads_page : {i j : BucketIndex F T} {xs : List T} → first_page i ≡ ok (j, xs) → Step i j
    finds :
        {i j : BucketIndex F T} {p : Option ℕ} (match : T → Bool)
        → position_if match i ≡ ok (j, p)
        → Step i j
    visits : {i j : BucketIndex F T} {xs : List T} → for_each i ≡ ok (j, xs) → Step i j
    sorts_all : {i j : BucketIndex F T} → sort_all i ≡ ok j → Step i j

  -- The indexes that a program can have: a new one, and what operations make of it.
  pub data Reached : BucketIndex F T → Type 0 where
    made : (plan : BucketPlan F) → Made plan → Reached (make_index plan)
    stepped : {i j : BucketIndex F T} → Reached i → Step i j → Reached j

  module _ (ieee : IsIeee d) where
    Step-IsConsistent : {i j : BucketIndex F T} → Step i j → IsConsistent i → IsConsistent j
    unfolding add
    Step-IsConsistent {i} (adds_key key made_key h) c =
        add_sort_key-IsConsistent key i (MadeKey-groups key made_key).0 h c
    Step-IsConsistent {i} (removes_key name) c = remove_sort_key-IsConsistent name i c
    Step-IsConsistent {i} (sorts name direction h) c = sort_by-IsConsistent name direction i h c
    Step-IsConsistent {i} unsorts c = unsort-IsConsistent i c
    Step-IsConsistent {i} (appends x h) c = append-IsConsistent x i h c
    Step-IsConsistent {i} (adds x h) c = append-IsConsistent x i h c
    Step-IsConsistent {i} (adds_all xs h) c = add_all-IsConsistent xs i h c
    Step-IsConsistent {i} (removes match h) c = remove_if-IsConsistent match i h c
    Step-IsConsistent {i} (updates match mutate h) c = update_if-IsConsistent match mutate i h c
    Step-IsConsistent {i} (clears h) c = clear-IsConsistent i h c
    Step-IsConsistent {i} (rebalances name h) c = rebalance-IsConsistent name i h c
    Step-IsConsistent {i} (rebalances_all h) c = rebalance_all-IsConsistent i h c
    Step-IsConsistent {i} (sets_plan plan valid h) c =
        set_plan-IsConsistent plan i (Made-IsValid ieee valid) h c
    Step-IsConsistent {i} (reads_at position h) c = at-IsConsistent position i h c
    Step-IsConsistent {i} (reads_range from to h) c = range-IsConsistent from to i h c
    Step-IsConsistent {i} (reads_page h) c = first_page-IsConsistent i h c
    Step-IsConsistent {i} (finds match h) c = position_if-IsConsistent match i h c
    Step-IsConsistent {i} (visits h) c = for_each-IsConsistent i h c
    Step-IsConsistent {i} (sorts_all h) c = sort_all-IsConsistent i h c

    -- Where double behaves as IEEE-754 says: after any sequence of operations since its
    -- constructor, all of which returned, an index has at most 2^32 - 1 items and a valid plan,
    -- its active sort key is one of its own, and every sort key has the normalized key and the
    -- bucket of each item as its layouts give them, and counts that are the numbers of items in
    -- the buckets.
    pub Reached-IsConsistent : (index : BucketIndex F T) → Reached index → IsConsistent index
    Reached-IsConsistent index (made plan valid) =
        make_index-IsConsistent plan (Made-IsValid ieee valid)
    Reached-IsConsistent index (stepped before step) =
        Step-IsConsistent step (Reached-IsConsistent _ before)
