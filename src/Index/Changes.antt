-- ===== src/Index/Changes.antt =====
-- bucket_index.hpp: the operations that change the collection: append, add, add_all, remove_if with
-- compact, update_if with rekey, and clear.
use speed_up.Common.{
  ℕ, zero, suc, ◌+◌, ◌-◌, ◌^◌, ◌%◌, Bool, true, false, ◌&&◌, List, [], ◌∷◌, ◌++◌, length, get_or,
  get_elem?, set, take, replicate, Option, none, some, ltb, leb, ◌==◌, if◌then◌else◌, Result, ok,
  err, length_error, ◌>>=◌, map_result, map,
}
use speed_up.Common.Doubles.{Doubles}
use speed_up.Plan.{BucketPlan}
use speed_up.SortKey.{has_key, key_of}
use speed_up.Layout.{add64}
use speed_up.Std.{binary_search}
use speed_up.Index.{
  KeyState, BucketIndex, bucket_total, bucket_for, increment, decrement, max_slots, read,
}
use speed_up.Index.Relayout.{relayout, maybe_auto_rebalance}
use speed_up.Index.Grouping.{regroup}

module _ {T : Type 0} where
  -- the round of `append` for one sort key
  unfoldable pub append_state : T → KeyState T → Result (KeyState T)
  unfolding bucket_for key_of has_key
  append_state item state =
      let k = key_of state.key item in
      bucket_for state item k >>= λ b. ok (record state {
        keys = if has_key state.key then state.keys ++ k ∷ [] else state.keys;
        buckets = state.buckets ++ b % 2 ^ 16 ∷ [];
        counts = increment state.counts b;
        churn = add64 state.churn 1;
        order_stale = if state.has_order then true else state.order_stale;
      })

  -- the key states where the loop of `append` ends with an exception of `bucket_for`
  unfoldable pub thrown_states : T → List (KeyState T) → List (KeyState T)
  unfolding append_state key_of has_key
  thrown_states item [] = []
  thrown_states item (state ∷ states) = elim (append_state item state) [
    | ok state' ↦ state' ∷ thrown_states item states
    | err thrown ↦
        let keys =
          if has_key state.key then state.keys ++ key_of state.key item ∷ [] else state.keys in
        record state { keys = keys } ∷ states
  ]

  -- `is_splitter`
  unfoldable pub is_splitter : KeyState T → ℕ → Bool
  unfolding binary_search
  is_splitter state slot = binary_search state.splitter_slots slot

  -- `rekey` for the item that slot `slot` holds now
  unfoldable pub rekey : T → ℕ → KeyState T → Result (KeyState T)
  unfolding bucket_for key_of has_key is_splitter
  rekey item slot state =
      let k = key_of state.key item in
      bucket_for state item k >>= λ b.
      let placed = state.has_order && ltb slot state.ordered_slots in
      ok (record state {
        keys = if has_key state.key then set state.keys slot k else state.keys;
        counts = increment (decrement state.counts (get_or state.buckets slot 0)) b;
        buckets = set state.buckets slot (b % 2 ^ 16);
        churn = add64 state.churn 1;
        splitter_changed = if is_splitter state slot then true else state.splitter_changed;
        moved = if placed then set state.moved slot true else state.moved;
        order_stale = if placed then true else state.order_stale;
      })

  -- `if (mutate) mutate(item)`
  unfoldable pub mutated : Option (T → T) → T → T
  mutated none item = item
  mutated (some f) item = f item

  -- the first loop of `remove_if`: the new slot of every slot that is kept
  unfoldable pub remap_loop : (T → Bool) → List T → (kept : ℕ) → List (Option ℕ) × ℕ
  remap_loop match [] kept = ([], kept)
  remap_loop match (item ∷ items) kept =
      let (rest, total) = remap_loop match items (if match item then kept else suc kept) in
      ((if match item then none else some kept) ∷ rest, total)

  -- `items_[remap[slot]] = std::move(items_[slot])`, from `slot` on
  unfoldable pub move_items : List (Option ℕ) → (slot : ℕ) → List T → List T
  move_items [] slot items = items
  move_items (none ∷ remap) slot items = move_items remap (suc slot) items
  move_items (some r ∷ remap) slot items = move_items remap (suc slot) (
      if r == slot
      then items
      else (elim (get_elem? items slot) [ none ↦ items | some x ↦ set items r x ]))

-- the vectors that the first loop of `compact` rewrites in place
pub record Compacted : Type 0 where
  pub keys : List ℕ
  pub buckets : List ℕ
  pub counts : List ℕ
  pub write : ℕ

-- the first loop of `compact`, from `slot` on
unfoldable pub compact_slots : (keyed : Bool) → List (Option ℕ) → (slot : ℕ) → Compacted → Compacted
compact_slots keyed [] slot c = c
compact_slots keyed (none ∷ remap) slot c =
    compact_slots keyed remap (suc slot)
      (record c { counts = decrement c.counts (get_or c.buckets slot 0) })
compact_slots keyed (some r ∷ remap) slot c = compact_slots keyed remap (suc slot) (record c {
  keys = if keyed then set c.keys c.write (get_or c.keys slot 0) else c.keys;
  buckets = set c.buckets c.write (get_or c.buckets slot 0);
  write = suc c.write;
})

-- the loop over the splitters: `none` if one of them is removed
unfoldable pub remap_splitters : List (Option ℕ) → List ℕ → Option (List ℕ)
remap_splitters remap [] = some []
remap_splitters remap (slot ∷ slots) =
    let rest = remap_splitters remap slots in
    elim (get_or remap slot none) [
      | none ↦ none
      | some r ↦ elim rest [ none ↦ none | some rs ↦ some (r ∷ rs) ]
    ]

-- the grouping that the last loops of `compact` filter in place
pub record Filtered : Type 0 where
  pub order : List ℕ
  pub out : ℕ
  pub sorted : ℕ

-- the positions of one bucket from i, `rounds` of them
unfoldable pub filter_bucket : List (Option ℕ) → (prefix_end rounds i : ℕ) → Filtered → Filtered
filter_bucket remap prefix_end zero i f = f
filter_bucket remap prefix_end (suc rounds) i f =
    filter_bucket remap prefix_end rounds (suc i) (elim (get_or remap (get_or f.order i 0) none) [
      | none ↦ f
      | some mapped ↦ record {
        order = set f.order f.out mapped;
        out = suc f.out;
        sorted = if ltb i prefix_end then suc f.sorted else f.sorted;
      }
    ])

module _ {T : Type 0} where
  -- the buckets from b, `rounds` of them: the order, the sorted prefixes, and the new starts
  unfoldable pub filter_buckets :
      List (Option ℕ)
      → KeyState T
      → (rounds b : ℕ) (order : List ℕ) (out : ℕ) (sorted_len start : List ℕ)
      → record { order : List ℕ; sorted_len : List ℕ; start : List ℕ }
  unfolding filter_bucket
  filter_buckets remap state zero b order out sorted_len start = record {
    order = order;
    sorted_len = sorted_len;
    start = start;
  }
  filter_buckets remap state (suc rounds) b order out sorted_len start =
      let first = get_or state.start b 0 in
      let end = get_or state.start (suc b) 0 in
      let f =
        filter_bucket remap (first + get_or state.sorted_len b 0) (end - first) first
          (record { order = order; out = out; sorted = 0 }) in
      filter_buckets remap state rounds (suc b) f.order f.out (set sorted_len b f.sorted)
        (start ++ f.out ∷ [])

  -- the members that `compact` changes before it looks at the splitters
  unfoldable pub compact_members : List (Option ℕ) → (kept : ℕ) → KeyState T → KeyState T
  unfolding compact_slots has_key
  compact_members remap kept state =
      let keyed = has_key state.key in
      let c =
        compact_slots keyed remap 0 (record {
          keys = state.keys;
          buckets = state.buckets;
          counts = state.counts;
          write = 0;
        }) in
      record state {
        keys = take (if keyed then kept else 0) c.keys;
        buckets = take kept c.buckets;
        counts = c.counts;
        churn = add64 state.churn (length remap - kept);
      }

  -- the members that `compact` changes if a grouping is cached
  unfoldable pub compact_order : List (Option ℕ) → (kept : ℕ) → KeyState T → KeyState T
  unfolding filter_buckets bucket_total
  compact_order remap kept state =
      let f =
        filter_buckets remap state (bucket_total state) 0 state.order 0 state.sorted_len (0 ∷ []) in
      if state.has_order
      then record state {
        order = take kept f.order;
        sorted_len = f.sorted_len;
        start = f.start;
        moved = replicate kept false;
        ordered_slots = kept;
      }
      else state

module _ {F : Type 0} ⦃d : Doubles F⦄ {T : Type 0} where
  unfoldable pub compact :
      BucketPlan F → List T → List (Option ℕ) → (kept : ℕ) → KeyState T → Result (KeyState T)
  unfolding compact_members compact_order remap_splitters relayout
  compact plan items remap kept state =
      let state' = compact_members remap kept state in
      elim (remap_splitters remap state'.splitter_slots) [
        | none ↦ relayout plan items state'
        | some slots ↦ ok (compact_order remap kept (record state' { splitter_slots = slots }))
      ]

  unfoldable pub append : T → BucketIndex F T → Result (BucketIndex F T)
  unfolding append_state
  append value index =
      if leb max_slots (length index.items)
      then err length_error
      else (map_result (append_state value) index.states >>= λ states.
          ok (record index { items = index.items ++ value ∷ []; states = states }))

  -- the index that `append` leaves behind where it throws
  unfoldable pub append_thrown : T → BucketIndex F T → BucketIndex F T
  unfolding thrown_states
  append_thrown value index = if leb max_slots (length index.items) then index else record index {
    items = index.items ++ value ∷ [];
    states = thrown_states value index.states;
  }

  unfoldable pub add : T → BucketIndex F T → Result (BucketIndex F T)
  unfolding append
  add value index = append value index

  -- the loop of `add_all`
  unfoldable pub append_all : List T → BucketIndex F T → Result (BucketIndex F T)
  unfolding append
  append_all [] index = ok index
  append_all (value ∷ values) index = append value index >>= λ index'. append_all values index'

  unfoldable pub add_all : List T → BucketIndex F T → Result (BucketIndex F T)
  unfolding append_all maybe_auto_rebalance
  add_all values index = append_all values index >>= λ index'.
      map_result (maybe_auto_rebalance index'.plan index'.items) index'.states >>= λ states.
      ok (record index' { states = states })

  unfoldable pub remove_if : (T → Bool) → BucketIndex F T → Result (BucketIndex F T × ℕ)
  unfolding remap_loop move_items compact regroup
  remove_if match index =
      let n = length index.items in
      let (remap, kept) = remap_loop match index.items 0 in
      if n - kept == 0
      then ok (index, 0)
      else (let states =
            map (λ (s : KeyState T). if s.has_order && s.order_stale then regroup n s else s)
              index.states in
          let items = take kept (move_items remap 0 index.items) in
          map_result (compact index.plan items remap kept) states >>= λ states'.
          ok (record index { items = items; states = states' }, n - kept))

  -- the slots from `slot`, `rounds` of them, and how many matched so far
  unfoldable pub update_loop :
      (T → Bool)
      → Option (T → T)
      → (rounds slot updated : ℕ) → BucketIndex F T
      → Result (BucketIndex F T × ℕ)
  unfolding rekey mutated
  update_loop match mutate zero slot updated index = ok (index, updated)
  update_loop match mutate (suc rounds) slot updated index = read index.items slot >>= λ item.
      let item' = mutated mutate item in
      (if match item
        then (map_result (rekey item' slot) index.states >>= λ states.
            ok (record index { items = set index.items slot item'; states = states }, suc updated))
        else ok (index, updated))
      >>= λ (index', updated'). update_loop match mutate rounds (suc slot) updated' index'

  unfoldable pub relayout_changed : BucketPlan F → List T → KeyState T → Result (KeyState T)
  unfolding relayout
  relayout_changed plan items state =
      if state.splitter_changed then relayout plan items state else ok state

  unfoldable pub update_if :
      (T → Bool) → Option (T → T) → BucketIndex F T → Result (BucketIndex F T × ℕ)
  unfolding update_loop relayout_changed
  update_if match mutate index =
      update_loop match mutate (length index.items) 0 0 index >>= λ (index', updated).
      map_result (relayout_changed index'.plan index'.items) index'.states >>= λ states.
      ok (record index' { states = states }, updated)

  unfoldable pub clear : BucketIndex F T → Result (BucketIndex F T)
  unfolding relayout
  clear index =
      map_result (λ (s : KeyState T). relayout index.plan [] (record s { keys = []; buckets = [] }))
        index.states
      >>= λ states. ok (record index { items = []; states = states })
