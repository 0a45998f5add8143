-- ===== src/Index/Ready/Serving.antt =====
-- An index whose active key state is ready to be read, and `range` of bucket_index.hpp on it.
use speed_up.Common.{
  ℕ, zero, suc, ◌-◌, ◌/◌, ◌<◌, ◌≤◌, ◌≡◌, refl, ap, ◌∙◌, true, false, Option, none, some, List, [],
  ◌∷◌, length, reverse, get_elem?, set, take, drop, min, max, leb, not, ◌||◌, Result, ok, err,
  undefined, ◌>>=◌, if◌then◌else◌, Bool-cases, inl, inr, arith, get_elem?-set_self,
}
use speed_up.Common.Doubles.{Doubles}
use speed_up.Plan.{BucketPlan}
use speed_up.SortKey.{SortKey, tie_break}
use speed_up.SortKey.Order.{IsThreeWay}
use speed_up.Index.{KeyState, BucketIndex, Direction, ascending, descending}
use speed_up.Index.Relayout.{maybe_auto_rebalance, checked_now}
use speed_up.Index.Grouping.{build_order, regroup}
use speed_up.Index.Sorting.{prepare}
use speed_up.Index.Sorting.Blocks.{laid}
use speed_up.Index.Reads.{range, range_groups, range_plain, with_active, is_grouped_descending}
use speed_up.Index.Reads.Window.{IsReady, sorted_items}
use speed_up.Index.Reads.Range.{range_plain-ascending, range_plain-descending}

leb-le : (a b : ℕ) → leb a b ≡ true → a ≤ b
leb-le a b e = ground arith

leb-gt : (a b : ℕ) → leb a b ≡ false → b < a
leb-gt a b e = ground arith

-- the operations' choice by the active key state
pub active_some {ℓ} :
    {A : Type ℓ} {active : Option ℕ} {i : ℕ} (unsorted : A) (sorted : ℕ → A)
    → active ≡ some i
    → elim active [ none ↦ unsorted | some i ↦ sorted i ] ≡ sorted i
active_some unsorted sorted e = rw e refl

above_zero : (m c : ℕ) → 0 < m → c ≡ 0 → leb m c ≡ false
above_zero m c p e = ground arith

module _ {T : Type 0} where
  -- The list in the direction of the order.
  abbrev pub in_direction : Direction → List T → List T
  in_direction ascending xs = xs
  in_direction descending xs = reverse xs

  abbrev pub checked : KeyState T → Option ℕ → KeyState T
  checked state v = record state { stale_checked_at = v }

  -- A key state of one layout whose cached order is up to date and that no change was counted on.
  pub record IsQuiet (state : KeyState T) : Type 0 where
    pub one_layout : length state.layouts ≡ 1
    pub unchanged : state.churn ≡ 0
    pub cached : state.has_order ≡ true
    pub current : state.order_stale ≡ false

  pub checked-IsReady :
      (items : List T) (state : KeyState T) (c : IsThreeWay (tie_break state.key)) (v : Option ℕ)
      → IsReady items state c
      → IsReady items (checked state v) c
  checked-IsReady items state c v ready = record {
    layout = ready.layout;
    blocks = ready.blocks;
    ungrouped = ready.ungrouped;
    assigned = ready.assigned;
    in_range = ready.in_range;
    few = ready.few;
    made = ready.made;
    slots = ready.slots;
    holds = record {
      begins = ready.holds.begins;
      small = ready.holds.small;
      prefixes = ready.holds.prefixes;
    };
  }

  -- `range` on a ready key state, whichever the direction.
  pub range_plain-slice :
      (direction : Direction) (items : List T) (state : KeyState T)
      (c : IsThreeWay (tie_break state.key)) (from to : ℕ)
      → IsReady items state c
      → from < to
      → to ≤ length items
      → (new_order : List ℕ) × (lengths : List ℕ) × IsReady items (laid state new_order lengths) c
        × (range_plain direction items from to state
            ≡ ok (
              laid state new_order lengths,
              take (to - from) (drop from (in_direction direction (sorted_items state.key items))),
            ))
  range_plain-slice direction [] state c from to ready wide inside = absurd (omega arith)
  range_plain-slice ascending (x₀ ∷ rest) state c from to ready wide inside =
      range_plain-ascending x₀ rest state c ready from to wide inside
  range_plain-slice descending (x₀ ∷ rest) state c from to ready wide inside =
      range_plain-descending x₀ rest state c ready from to wide inside

  held-lt :
      (xs : List (KeyState T)) (i : ℕ) {x : KeyState T} → get_elem? xs i ≡ some x → i < length xs
  held-lt [] i h = cc
  held-lt (x ∷ xs) zero h = omega arith
  held-lt (x ∷ xs) (suc i) h = omega (arith, held-lt xs i h)

  one_layout-plain :
      (direction : Direction) (state : KeyState T)
      → length state.layouts ≡ 1
      → is_grouped_descending direction state ≡ false
  unfolding is_grouped_descending
  one_layout-plain ascending state e = refl
  one_layout-plain descending state e = rw e refl

module _ {F : Type 0} ⦃d : Doubles F⦄ {T : Type 0} where
  -- Without changes there is no rebalancing.
  pub maybe_auto_rebalance-unchanged :
      (plan : BucketPlan F) (items : List T) (state : KeyState T)
      → 0 < plan.page_size
      → state.churn ≡ 0
      → (v : Option ℕ) × (maybe_auto_rebalance plan items state ≡ ok (checked state v))
  unfolding maybe_auto_rebalance
  maybe_auto_rebalance-unchanged plan items state page e =
      let below : leb (max plan.page_size (state.estimated_from / 8)) state.churn ≡ false =
        above_zero (max plan.page_size (state.estimated_from / 8)) state.churn (omega arith) e in
      elim (Bool-cases (not plan.auto_rebalance || checked_now state)) [
        | inl h ↦ (state.stale_checked_at, rw h refl)
        | inr h ↦ (some state.churn, rw (h, below) refl)
      ]

  pub prepare-quiet :
      (plan : BucketPlan F) (items : List T) (state : KeyState T)
      → 0 < plan.page_size
      → IsQuiet state
      → (v : Option ℕ) × (prepare plan items state ≡ ok (checked state v))
  unfolding prepare
  prepare-quiet plan items state page q =
      let (v, same) = maybe_auto_rebalance-unchanged plan items state page q.unchanged in
      let again : Result (KeyState T) → Result (KeyState T) = λ r. r >>= λ s.
      if s.has_order
      then (if s.order_stale then ok (regroup (length items) s) else ok s)
      else ok (build_order (length items) s) in
      (v, ap again same ∙ rw (q.cached, q.current) refl)

  -- An index that shows its items in the order of a key: the active key state has that key, is up to
  -- date, and is grouped and partly sorted as a read needs it.
  pub record Serves (key : SortKey T) (direction : Direction) (index : BucketIndex F T)
      : Type 0 where
    pub slot : ℕ
    pub state : KeyState T
    pub active : index.active ≡ some slot
    pub directed : index.direction ≡ direction
    pub held : get_elem? index.states slot ≡ some state
    pub same_key : state.key ≡ key
    pub quiet : IsQuiet state
    pub paged : 0 < index.plan.page_size
    pub consistent : IsThreeWay (tie_break state.key)
    pub ready : IsReady index.items state consistent

  -- the index after a read
  abbrev pub after_read : BucketIndex F T → ℕ → KeyState T → BucketIndex F T
  after_read index slot state = record index { states = set index.states slot state }

  -- A read of the active key state prepares it, which changes nothing that matters, and keeps what
  -- its body makes of it.
  pub with_active-Serves :
      {A : Type 0} (key : SortKey T) (direction : Direction) (index : BucketIndex F T)
      (s : Serves key direction index) (body : KeyState T → Result (KeyState T × A))
      → (v : Option ℕ) × ((state' : KeyState T) (a : A)
          → body (checked s.state v) ≡ ok (state', a)
          → with_active index s.slot body ≡ ok (after_read index s.slot state', a))
  unfolding with_active
  with_active-Serves {A} key direction index s body =
      let (v, same) = prepare-quiet index.plan index.items s.state s.paged s.quiet in
      let keep : KeyState T × A → Result (BucketIndex F T × A) =
        λ (state, a). ok (record index { states = set index.states s.slot state }, a) in
      (
        v,
        λ state' a done.
            ap
              (λ r. r >>= λ state.
                prepare index.plan index.items state >>= λ state''. body state'' >>= keep)
              (unread s.held)
            ∙ ap (λ r. r >>= λ state''. body state'' >>= keep) same
            ∙ ap (λ r. r >>= keep) done,
      )
    where
      unread :
          {o : Option (KeyState T)} {x : KeyState T}
          → o ≡ some x
          → elim o [ none ↦ err undefined | some y ↦ ok y ] ≡ ok x
      unread e = rw e refl

  -- The index after a read is as good as the one before it.
  after_read-Serves :
      (key : SortKey T) (direction : Direction) (index : BucketIndex F T)
      (s : Serves key direction index) (v : Option ℕ) (new_order lengths : List ℕ)
      → IsReady index.items (laid (checked s.state v) new_order lengths) s.consistent
      → Serves key direction (after_read index s.slot (laid (checked s.state v) new_order lengths))
  after_read-Serves key direction index s v new_order lengths ready = record {
    slot = s.slot;
    state = laid (checked s.state v) new_order lengths;
    active = s.active;
    directed = s.directed;
    held =
        get_elem?-set_self index.states s.slot (laid (checked s.state v) new_order lengths)
          (held-lt index.states s.slot s.held);
    same_key = s.same_key;
    quiet = record {
      one_layout = s.quiet.one_layout;
      unchanged = s.quiet.unchanged;
      cached = s.quiet.cached;
      current = s.quiet.current;
    };
    paged = s.paged;
    consistent = s.consistent;
    ready = ready;
  }

  -- For an index that serves a key in a direction (the key has no groups and a consistent
  -- comparator, no change is pending, and its cached order is ready to be read): range returns
  -- what stands at the positions from `from` to before `to`, as far as there are items, of the
  -- items sorted as a whole by std::stable_sort, reversed for the descending direction, and leaves
  -- the items alone and the index serving the same key in the same direction.
  pub range-Serves :
      (key : SortKey T) (direction : Direction) (index : BucketIndex F T) (from to : ℕ)
      → Serves key direction index
      → (index' : BucketIndex F T) × (range from to index
          ≡ ok (
            index',
            take
                (min to (length index.items) - from)
                (drop from (in_direction direction (sorted_items key index.items))),
          ))
        × (index'.items ≡ index.items)
        × Serves key direction index'
  unfolding range
  range-Serves key direction index from to s =
      let n = length index.items in
      let stop = min to n in
      let all = in_direction direction (sorted_items key index.items) in
      elim (Bool-cases (leb stop from)) [
        | inl e ↦
            let nothing : stop - from ≡ 0 = omega (arith, leb-le stop from e) in
            (index, rw (e, nothing) refl, refl, s)
        | inr e ↦
            let body : KeyState T → Result (KeyState T × List T) = λ state.
              if is_grouped_descending index.direction state
              then range_groups index.items (stop - from) from none state
              else range_plain index.direction index.items from stop state in
            let (v, run) = with_active-Serves key direction index s body in
            let state = checked s.state v in
            let (new_order, lengths, ready, returned) =
              range_plain-slice direction index.items state s.consistent from stop
                (checked-IsReady index.items s.state s.consistent v s.ready) (leb-gt stop from e)
                (omega arith) in
            let slice =
              take (stop - from)
                (drop from (in_direction direction (sorted_items s.state.key index.items))) in
            let done : body state ≡ ok (laid state new_order lengths, slice) =
              rw (one_layout-plain index.direction state s.quiet.one_layout)
                (ap (λ r. range_plain r index.items from stop state) s.directed ∙ returned) in
            (
              after_read index s.slot (laid state new_order lengths),
              rw e (
                  active_some (ok (index, take (stop - from) (drop from index.items)))
                    (λ i. with_active index i body) s.active
                  ∙ run (laid state new_order lengths) slice done
                  ∙ ap
                      (λ k. ok (
                        after_read index s.slot (laid state new_order lengths),
                        take (stop - from)
                            (drop from (in_direction direction (sorted_items k index.items))),
                      ))
                      s.same_key),
              refl,
              after_read-Serves key direction index s v new_order lengths ready,
            )
      ]
