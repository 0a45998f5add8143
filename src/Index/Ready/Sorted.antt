-- ===== src/Index/Ready/Sorted.antt =====
-- A new sort key, the order switched to it, and the first read: add_sort_key, sort_by and range of
-- bucket_index.hpp together.
use Prim.Native.String.{String}
use text.Mathlib.Text.{◌==◌ as str_eq}
use text.Mathlib.TextEquality.{eq_iff}
use speed_up.Common.{
  ◌≤◌, ℕ, suc, ◌-◌, ◌<◌, ◌≡◌, refl, ap, ◌∙◌, Bool, true, false, Option, none, some, List, [], ◌∷◌,
  ◌++◌, length, take, drop, set, get_elem?, get_elem?-set_self, length-append, min, if◌then◌else◌,
  Result, ok, err, undefined, invalid_argument, ◌>>=◌, Bool-cases, inl, inr, arith,
}
use speed_up.Common.Doubles.{Doubles}
use speed_up.Plan.{BucketPlan}
use speed_up.Plan.Valid.{IsValid}
use speed_up.SortKey.{SortKey, tie_break}
use speed_up.SortKey.Order.{IsThreeWay}
use speed_up.Index.{
  KeyState, BucketIndex, Direction, find_state, require_state, read, new_state, max_slots,
}
use speed_up.Index.Names.{add_sort_key, sort_by}
use speed_up.Index.Relayout.{relayout}
use speed_up.Index.Grouping.{build_order, regroup}
use speed_up.Index.Sorting.{prepare}
use speed_up.Index.Reads.{range}
use speed_up.Index.Reads.Window.{sorted_items}
use speed_up.Index.Values.{kept_keys}
use speed_up.Index.Ready.Fresh.{relayout-IsReady}
use speed_up.Index.Ready.Serving.{
  Serves, IsQuiet, checked, checked-IsReady, maybe_auto_rebalance-unchanged, in_direction,
  range-Serves,
}

module _ {T : Type 0} where
  -- A new name is found at the end.
  pub find_state-append :
      (states : List (KeyState T)) (state : KeyState T) (name : String)
      → find_state states name ≡ none
      → state.key.name ≡ name
      → find_state (states ++ state ∷ []) name ≡ some (length states)
  unfolding find_state
  find_state-append [] state name e same = rw ((eq_iff state.key.name name).1 same) refl
  find_state-append (s ∷ states) state name e same = elim (Bool-cases (str_eq s.key.name name)) [
    | inl h ↦ absurd (some_first _ e h)
    | inr h ↦ rw (h, find_state-append states state name (later (rw h at e)) same) refl
  ]
    where
      some_first : {b : Bool} (o : Option ℕ) → (if b then some 0 else o) ≡ none → b ≡ true → ⊥
      some_first o e h = cc

      later : {o : Option ℕ} → elim o [ none ↦ none | some i ↦ some (suc i) ] ≡ none → o ≡ none
      later {o = none} e = refl
      later {o = some i} e = cc

  get_elem?-append :
      (xs : List (KeyState T)) (x : KeyState T) → get_elem? (xs ++ x ∷ []) (length xs) ≡ some x
  get_elem?-append [] x = refl
  get_elem?-append (y ∷ xs) x = get_elem?-append xs x

  grouped-IsQuiet :
      (n : ℕ) (state : KeyState T) (v : Option ℕ)
      → length state.layouts ≡ 1
      → state.churn ≡ 0
      → IsQuiet (build_order n (checked state v))
  unfolding build_order
  grouped-IsQuiet n state v one unchanged = record {
    one_layout = one;
    unchanged = unchanged;
    cached = refl;
    current = refl;
  }

  -- the state in which a sort key is laid out first
  abbrev first_state : SortKey T → List T → KeyState T
  first_state key items = record (new_state key) { keys = kept_keys key items }

module _ {F : Type 0} ⦃d : Doubles F⦄ {T : Type 0} where
  -- The first preparation groups the slots.
  prepare-first :
      (plan : BucketPlan F) (items : List T) (state : KeyState T)
      → 0 < plan.page_size
      → state.churn ≡ 0
      → state.has_order ≡ false
      → (v : Option ℕ) × (prepare plan items state
          ≡ ok (build_order (length items) (checked state v)))
  unfolding prepare
  prepare-first plan items state page unchanged none_cached =
      let (v, same) = maybe_auto_rebalance-unchanged plan items state page unchanged in
      let again : Result (KeyState T) → Result (KeyState T) = λ r. r >>= λ s.
      if s.has_order
      then (if s.order_stale then ok (regroup (length items) s) else ok s)
      else ok (build_order (length items) s) in
      (v, ap again same ∙ rw none_cached refl)

  -- the index after `add_sort_key`
  abbrev added : BucketIndex F T → KeyState T → BucketIndex F T
  added index state = record index { states = index.states ++ state ∷ [] }

  add_sort_key-new :
      (key : SortKey T) (index : BucketIndex F T) {state : KeyState T}
      → find_state index.states key.name ≡ none
      → relayout index.plan index.items (first_state key index.items) ≡ ok state
      → add_sort_key key index ≡ ok (added index state)
  unfolding add_sort_key new_state
  add_sort_key-new key index e returned =
      let first = relayout index.plan index.items (first_state key index.items) in
      let outcome : Option ℕ → Result (BucketIndex F T) = λ o. elim o [
        | some i ↦ err invalid_argument
        | none ↦ first >>= λ state. ok (added index state)
      ] in
      ap outcome e ∙ ap (λ r. r >>= λ state. ok (added index state)) returned

  sort_by-added :
      (name : String) (direction : Direction) (index : BucketIndex F T) (state : KeyState T)
      {state' : KeyState T}
      → find_state (index.states ++ state ∷ []) name ≡ some (length index.states)
      → prepare index.plan index.items state ≡ ok state'
      → sort_by name direction (added index state)
        ≡ ok (record index {
          active = some (length index.states);
          direction = direction;
          states = set (index.states ++ state ∷ []) (length index.states) state';
        })
  unfolding sort_by require_state
  sort_by-added name direction index state {state'} e prepared =
      let states = index.states ++ state ∷ [] in
      let chosen : ℕ → KeyState T → Result (BucketIndex F T) = λ i state.
        ok (record index { active = some i; direction = direction; states = set states i state }) in
      ap
        (λ r.
          r >>= λ i. read states i >>= λ state. prepare index.plan index.items state >>= chosen i)
        (required states e)
      ∙ ap
          (λ r.
            r >>= λ state. prepare index.plan index.items state >>= chosen (length index.states))
          (found states _ (get_elem?-append index.states state))
      ∙ ap (λ r. r >>= chosen (length index.states)) prepared
    where
      required :
          (states : List (KeyState T)) {i : ℕ}
          → find_state states name ≡ some i
          → require_state states name ≡ ok i
      required states e = ap (λ o. elim o [ none ↦ err invalid_argument | some i ↦ ok i ]) e

      found :
          (states : List (KeyState T)) (i : ℕ) {x : KeyState T}
          → get_elem? states i ≡ some x
          → read states i ≡ ok x
      found states i e = ap (λ o. elim o [ none ↦ err undefined | some x ↦ ok x ]) e

  -- For an index whose plan is valid, with at most 2^32 - 1 items, and a key without groups, with
  -- a consistent comparator, whose name is new: add_sort_key and then sort_by its name succeed,
  -- leave the items alone, and make the index serve that key in that direction.
  pub sort_by-Serves :
      (key : SortKey T) (direction : Direction) (index : BucketIndex F T)
      → IsThreeWay (tie_break key)
      → IsValid index.plan
      → key.group_function ≡ none
      → key.groups ≡ 1
      → find_state index.states key.name ≡ none
      → length index.items ≤ max_slots
      → (keyed sorted : BucketIndex F T) × (add_sort_key key index ≡ ok keyed)
        × (sort_by key.name direction keyed ≡ ok sorted)
        × (sorted.items ≡ index.items)
        × Serves key direction sorted
  unfolding new_state build_order
  sort_by-Serves key direction index c valid ungrouped one new few =
      let (state, returned, same, single, unchanged, none_cached, c', ready) =
        relayout-IsReady index.plan index.items (first_state key index.items) c valid ungrouped one
          refl few in
      let (v, prepared) =
        prepare-first index.plan index.items state valid.page_pos unchanged none_cached in
      let n = length index.items in
      let state'' = build_order n (checked state v) in
      (
        added index state,
        record index {
          active = some (length index.states);
          direction = direction;
          states = set (index.states ++ state ∷ []) (length index.states) state'';
        },
        add_sort_key-new key index new returned,
        sort_by-added key.name direction index state
            (find_state-append index.states state key.name new (ap (λ k. k.name) same)) prepared,
        refl,
        record {
          slot = length index.states;
          state = state'';
          active = refl;
          directed = refl;
          held =
              get_elem?-set_self (index.states ++ state ∷ []) (length index.states) state''
                (omega (arith, length-append index.states (state ∷ [])));
          same_key = same;
          quiet = grouped-IsQuiet n state v single unchanged;
          paged = valid.page_pos;
          consistent = c';
          ready = checked-IsReady index.items (build_order n state) c' v ready;
        },
      )

  -- For an index whose plan is valid, with at most 2^32 - 1 items, and a key without groups, with
  -- a consistent comparator, whose name is new: add_sort_key, then sort_by its name and then range
  -- succeed, and the range is what stands at the positions from `from` to before `to`, as far as
  -- there are items, of the items sorted as a whole by std::stable_sort, reversed for the
  -- descending direction.
  pub range-sort_by :
      (key : SortKey T) (direction : Direction) (index : BucketIndex F T) (from to : ℕ)
      → IsThreeWay (tie_break key)
      → IsValid index.plan
      → key.group_function ≡ none
      → key.groups ≡ 1
      → find_state index.states key.name ≡ none
      → length index.items ≤ max_slots
      → (keyed sorted read : BucketIndex F T) × (add_sort_key key index ≡ ok keyed)
        × (sort_by key.name direction keyed ≡ ok sorted)
        × (range from to sorted
            ≡ ok (
              read,
              take
                  (min to (length index.items) - from)
                  (drop from (in_direction direction (sorted_items key index.items))),
            ))
  range-sort_by key direction index from to c valid ungrouped one new few =
      let (keyed, sorted, added, by_key, items, serves) =
        sort_by-Serves key direction index c valid ungrouped one new few in
      let (read, returned, same, again) = range-Serves key direction sorted from to serves in
      let slice : List T → Result (BucketIndex F T × List T) = λ l. ok (
        read,
        take (min to (length l) - from) (drop from (in_direction direction (sorted_items key l))),
      ) in
      (keyed, sorted, read, added, by_key, returned ∙ ap slice items)
