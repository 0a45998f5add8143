-- ===== src/Index/Names.antt =====
-- bucket_index.hpp: the sort keys of an index and the selection of the order: the constructor,
-- add_sort_key, remove_sort_key, sort_key_names, sort_by, unsort, set_plan and rebalance.
use Prim.Native.String.{String}
use speed_up.Common.{
  ℕ, zero, suc, ◌-◌, Bool, true, false, List, [], ◌∷◌, ◌++◌, get_elem?, set, Option, none, some,
  ltb, ◌==◌, if◌then◌else◌, Result, ok, err, invalid_argument, ◌>>=◌, map_result, map,
}
use speed_up.Common.Doubles.{Doubles}
use speed_up.Plan.{BucketPlan}
use speed_up.SortKey.{SortKey, has_key, key_of}
use speed_up.Index.{
  KeyState, BucketIndex, Direction, ascending, new_state, find_state, require_state, read,
}
use speed_up.Index.Relayout.{relayout}
use speed_up.Index.Sorting.{prepare}

-- `states_.erase(states_.begin() + index)`
unfoldable pub erase_at {ℓ} : {A : Type ℓ} → List A → ℕ → List A
erase_at [] i = []
erase_at (x ∷ xs) zero = xs
erase_at (x ∷ xs) (suc i) = x ∷ erase_at xs i

-- the active sort key after the removal of the one at `index`
unfoldable pub active_after : (active : Option ℕ) (index : ℕ) → Option ℕ
active_after none index = none
active_after (some a) index =
    if a == index then none else if ltb index a then some (a - 1) else some a

module _ {F : Type 0} ⦃d : Doubles F⦄ {T : Type 0} where
  -- BucketIndex(BucketPlan plan)
  unfoldable pub make_index : BucketPlan F → BucketIndex F T
  make_index plan = record {
    plan = plan;
    items = [];
    states = [];
    active = none;
    direction = ascending;
  }

  unfoldable pub add_sort_key : SortKey T → BucketIndex F T → Result (BucketIndex F T)
  unfolding find_state new_state has_key key_of relayout
  add_sort_key key index = elim (find_state index.states key.name) [
    | some i ↦ err invalid_argument
    | none ↦
        let keys = if has_key key then map (key_of key) index.items else [] in
        relayout index.plan index.items (record (new_state key) { keys = keys }) >>= λ state.
        ok (record index { states = index.states ++ state ∷ [] })
  ]

  unfoldable pub remove_sort_key : String → BucketIndex F T → BucketIndex F T × Bool
  unfolding find_state erase_at active_after
  remove_sort_key name index = elim (find_state index.states name) [
    | none ↦ (index, false)
    | some i ↦ (
      record index { states = erase_at index.states i; active = active_after index.active i },
      true,
    )
  ]

  unfoldable pub sort_key_names : BucketIndex F T → List String
  sort_key_names index = map (λ (s : KeyState T). s.key.name) index.states

  -- `active_ = i; direction_ = direction; prepare(states_[i])`
  unfoldable pub sort_by : String → Direction → BucketIndex F T → Result (BucketIndex F T)
  unfolding require_state prepare
  sort_by name direction index = require_state index.states name >>= λ i.
      read index.states i >>= λ state. prepare index.plan index.items state >>= λ state'.
      ok (record index {
        active = some i;
        direction = direction;
        states = set index.states i state';
      })

  unfoldable pub unsort : BucketIndex F T → BucketIndex F T
  unsort index = record index { active = none }

  unfoldable pub active_sort_key : BucketIndex F T → Option (SortKey T)
  active_sort_key index = elim index.active [
    | none ↦ none
    | some i ↦ elim (get_elem? index.states i) [ none ↦ none | some s ↦ some s.key ]
  ]

  unfoldable pub rebalance : String → BucketIndex F T → Result (BucketIndex F T)
  unfolding require_state relayout
  rebalance name index = require_state index.states name >>= λ i. read index.states i >>= λ state.
      relayout index.plan index.items state >>= λ state'.
      ok (record index { states = set index.states i state' })

  unfoldable pub rebalance_all : BucketIndex F T → Result (BucketIndex F T)
  unfolding relayout
  rebalance_all index = map_result (relayout index.plan index.items) index.states >>= λ states.
      ok (record index { states = states })

  unfoldable pub set_plan : BucketPlan F → BucketIndex F T → Result (BucketIndex F T)
  unfolding rebalance_all
  set_plan plan index = rebalance_all (record index { plan = plan })
