-- ===== src/Index/Reads.antt =====
-- bucket_index.hpp: reading in the current order. A read returns the index with the buckets sorted
-- that it had to sort.
use speed_up.Common.{
  ℕ, zero, suc, ◌+◌, ◌-◌, min, Bool, false, List, [], ◌∷◌, ◌++◌, length, get_or, set, take, drop,
  Option, none, some, ltb, leb, ◌==◌, if◌then◌else◌, Result, ok, err, out_of_range, ◌>>=◌,
}
use speed_up.Common.Doubles.{Doubles}
use speed_up.Std.{find_index}
use speed_up.Index.{
  KeyState, BucketIndex, Direction, ascending, descending, bucket_total, bucket_at, to_ascending,
  read,
}
use speed_up.Index.Sorting.{prepare, sort_bucket, sort_buckets}
pub mod Slices
pub mod Locate
pub mod Window
pub mod Range

module _ {T : Type 0} where
  -- `items_[state.order[i]]`
  unfoldable pub item_at : List T → KeyState T → ℕ → Result T
  item_at items state i = read state.order i >>= λ slot. read items slot

  -- `for (i = from; i < from + rounds; ++i) out.push_back(items_[order[i]])`
  unfoldable pub items_up : List T → KeyState T → (rounds from : ℕ) → Result (List T)
  unfolding item_at
  items_up items state zero from = ok []
  items_up items state (suc rounds) from =
      item_at items state from >>= λ x. items_up items state rounds (suc from) >>= λ xs. ok (x ∷ xs)

  -- `for (i = from + rounds; i-- > from;) out.push_back(items_[order[i]])`
  unfoldable pub items_down : List T → KeyState T → (rounds from : ℕ) → Result (List T)
  unfolding item_at
  items_down items state zero from = ok []
  items_down items state (suc rounds) from = item_at items state (from + rounds) >>= λ x.
      items_down items state rounds from >>= λ xs. ok (x ∷ xs)

  -- the loop of `range` in descending order with groups, from position p
  unfoldable pub range_groups :
      List T
      → (rounds p : ℕ) → (sorted_bucket : Option ℕ) → KeyState T
      → Result (KeyState T × List T)
  unfolding to_ascending bucket_at sort_bucket item_at
  range_groups items zero p sorted_bucket state = ok (state, [])
  range_groups items (suc rounds) p sorted_bucket state =
      let position = to_ascending descending (length items) state p in
      let b = bucket_at state position in
      let same : Bool = elim sorted_bucket [ none ↦ false | some s ↦ b == s ] in
      let state' = if same then state else sort_bucket items state b in
      item_at items state' position >>= λ x.
      range_groups items rounds (suc p) (some b) state' >>= λ (state'', xs). ok (state'', x ∷ xs)

  -- the rest of `range`: sort the buckets from that of lo to that of hi - 1, then read [lo, hi)
  unfoldable pub range_plain :
      Direction → List T → (from to : ℕ) → KeyState T → Result (KeyState T × List T)
  unfolding bucket_at sort_buckets items_up items_down
  range_plain ascending items from to state =
      let first = bucket_at state from in
      let last = bucket_at state (to - 1) in
      let state' = sort_buckets items (last + 1 - first) first state in
      items_up items state' (to - from) from >>= λ xs. ok (state', xs)
  range_plain descending items from to state =
      let lo = length items - to in
      let hi = length items - from in
      let first = bucket_at state lo in
      let last = bucket_at state (hi - 1) in
      let state' = sort_buckets items (last + 1 - first) first state in
      items_down items state' (hi - lo) lo >>= λ xs. ok (state', xs)

  unfoldable pub is_grouped_descending : Direction → KeyState T → Bool
  is_grouped_descending ascending state = false
  is_grouped_descending descending state = ltb 1 (length state.layouts)

  -- the first slot that matches, or the number of items
  unfoldable pub first_match : (T → Bool) → List T → ℕ
  first_match match [] = 0
  first_match match (item ∷ items) = if match item then 0 else suc (first_match match items)

  -- `for_each` in ascending order: buckets from b, `rounds` of them
  unfoldable pub visit_up : List T → (rounds b : ℕ) → KeyState T → Result (KeyState T × List T)
  unfolding sort_bucket items_up
  visit_up items zero b state = ok (state, [])
  visit_up items (suc rounds) b state =
      let state' = sort_bucket items state b in
      let first = get_or state'.start b 0 in
      let end = get_or state'.start (suc b) 0 in
      items_up items state' (end - first) first >>= λ xs.
      visit_up items rounds (suc b) state' >>= λ (state'', ys). ok (state'', xs ++ ys)

  -- `for_each` in descending order: the buckets of one group, from its last one down
  unfoldable pub visit_down : List T → (rounds from : ℕ) → KeyState T → Result (KeyState T × List T)
  unfolding sort_bucket items_down
  visit_down items zero from state = ok (state, [])
  visit_down items (suc rounds) from state =
      let b = from + rounds in
      let state' = sort_bucket items state b in
      let first = get_or state'.start b 0 in
      let end = get_or state'.start (suc b) 0 in
      items_down items state' (end - first) first >>= λ xs.
      visit_down items rounds from state' >>= λ (state'', ys). ok (state'', xs ++ ys)

  -- the groups from g, `rounds` of them
  unfoldable pub visit_groups : List T → (rounds g : ℕ) → KeyState T → Result (KeyState T × List T)
  unfolding visit_down
  visit_groups items zero g state = ok (state, [])
  visit_groups items (suc rounds) g state =
      let first = get_or state.group_offset g 0 in
      let end = get_or state.group_offset (suc g) 0 in
      visit_down items (end - first) first state >>= λ (state', xs).
      visit_groups items rounds (suc g) state' >>= λ (state'', ys). ok (state'', xs ++ ys)

module _ {F : Type 0} ⦃d : Doubles F⦄ {T : Type 0} where
  -- `KeyState& state = states_[active_]; prepare(state); … state …`
  unfoldable pub with_active :
      {A : Type 0}
      → BucketIndex F T
      → (i : ℕ) → (KeyState T → Result (KeyState T × A))
      → Result (BucketIndex F T × A)
  unfolding prepare
  with_active index i body = read index.states i >>= λ state.
      prepare index.plan index.items state >>= λ state'.
      body state' >>= λ (state'', a). ok (record index { states = set index.states i state'' }, a)

  unfoldable pub at : ℕ → BucketIndex F T → Result (BucketIndex F T × T)
  unfolding with_active to_ascending bucket_at sort_bucket item_at
  at position index =
      if leb (length index.items) position then err out_of_range else elim index.active [
        | none ↦ read index.items position >>= λ x. ok (index, x)
        | some i ↦ with_active index i λ state.
            let pos = to_ascending index.direction (length index.items) state position in
            let state' = sort_bucket index.items state (bucket_at state pos) in
            item_at index.items state' pos >>= λ x. ok (state', x)
      ]

  unfoldable pub range : (from to : ℕ) → BucketIndex F T → Result (BucketIndex F T × List T)
  unfolding with_active range_groups range_plain is_grouped_descending
  range from to index =
      let to' = min to (length index.items) in
      if leb to' from then ok (index, []) else elim index.active [
        | none ↦ ok (index, take (to' - from) (drop from index.items))
        | some i ↦ with_active index i λ state.
            if is_grouped_descending index.direction state
            then range_groups index.items (to' - from) from none state
            else range_plain index.direction index.items from to' state
      ]

  unfoldable pub first_page : BucketIndex F T → Result (BucketIndex F T × List T)
  unfolding range
  first_page index = range 0 index.plan.page_size index

  unfoldable pub position_if : (T → Bool) → BucketIndex F T → Result (BucketIndex F T × Option ℕ)
  unfolding first_match with_active sort_bucket find_index to_ascending
  position_if match index =
      let slot = first_match match index.items in
      if slot == length index.items then ok (index, none) else elim index.active [
        | none ↦ ok (index, some slot)
        | some i ↦ with_active index i λ state.
            let bucket = get_or state.buckets slot 0 in
            let state' = sort_bucket index.items state bucket in
            let first = get_or state'.start bucket 0 in
            let end = get_or state'.start (suc bucket) 0 in
            let it = first + find_index (take (end - first) (drop first state'.order)) slot in
            ok (state', some (to_ascending index.direction (length index.items) state' it))
      ]

  -- The elements in the order in which `for_each` visits them.
  unfoldable pub for_each : BucketIndex F T → Result (BucketIndex F T × List T)
  unfolding with_active visit_up visit_groups bucket_total
  for_each index = elim index.active [
    | none ↦ ok (index, index.items)
    | some i ↦ with_active index i λ state. elim index.direction [
      | ascending ↦ visit_up index.items (bucket_total state) 0 state
      | descending ↦ visit_groups index.items (length state.layouts) 0 state
    ]
  ]

  unfoldable pub sort_all : BucketIndex F T → Result (BucketIndex F T)
  unfolding with_active sort_buckets bucket_total
  sort_all index = elim index.active [
    | none ↦ ok index
    | some i ↦
        with_active {A = Unit {0}} index i
          (λ state. ok (sort_buckets index.items (bucket_total state) 0 state, tt))
        >>= λ (index', u). ok index'
  ]
