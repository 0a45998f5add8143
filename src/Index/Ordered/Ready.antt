-- ===== src/Index/Ordered/Ready.antt =====
-- An order that is up to date is what a read of bucket_index.hpp relies on, for a key without groups.
use mathlib.Core.Path.{ap₂, subst}
use native.Mathlib.Nat.{zero-add}
use speed_up.Common.{
  ℕ, suc, ◌<◌, ◌≤◌, ◌≡◌, refl, sym, ap, ◌∙◌, Bool, false, none, List, [], ◌∷◌, length, map, get_or,
  take, Bool-cases, inl, inr, All, ok, ok_injective, arith,
}
use speed_up.SortKey.{key_of, has_key, tie_break}
use speed_up.SortKey.Order.{IsThreeWay}
use speed_up.Std.Sort.{IsSorted}
use speed_up.Std.{stable_sort}
use speed_up.Layout.{BucketLayout, bucket_of, indices_from}
use speed_up.Index.{KeyState, bucket_for, local_bucket, max_slots}
use speed_up.Index.Relayout.{offsets}
use speed_up.Index.Grouping.Same.{Same, Same-sorted, Same-length, length-indices}
use speed_up.Index.Grouping.Slots.{picked, slots_in-picked}
use speed_up.Index.Grouping.Passes.{has_moved, stayers}
use speed_up.Index.Grouping.Kept.{AreOf, concat-Same}
use speed_up.Index.Sorting.{slot_less}
use speed_up.Index.Sorting.Bucket.{slot_less-IsStrictWeak}
use speed_up.Index.Sorting.Blocks.{concat, Prefixes}
use speed_up.Index.Sorting.Whole.{AreSlots}
use speed_up.Index.Values.{slot_less-IsTotal}
use speed_up.Index.Reads.Window.{IsReady}
use speed_up.Index.Laid.{PlacedIn, IsLaid}
use speed_up.Index.Ordered.{StillSorted, IsOrdered}

same_lists :
    (xs ys : List ℕ)
    → length xs ≡ length ys
    → ((i : ℕ) → i < length xs → get_or xs i 0 ≡ get_or ys i 0)
    → xs ≡ ys
same_lists [] [] e h = refl
same_lists [] (y ∷ ys) e h = absurd (omega arith)
same_lists (x ∷ xs) [] e h = absurd (omega arith)
same_lists (x ∷ xs) (y ∷ ys) e h =
    ap₂ ◌∷◌ (h 0 (omega arith)) (same_lists xs ys (omega arith) (λ i lt. h (suc i) (omega arith)))

module _ {T : Type 0} (state : KeyState T) (unmoved : (s : ℕ) → has_moved state s ≡ false) where
  pub stayers-all : (xs : List ℕ) → stayers state xs ≡ xs
  stayers-all [] = refl
  stayers-all (x ∷ xs) = rw (unmoved x) (ap (◌∷◌ x) (stayers-all xs))

  -- Where no slot moved, the prefixes are sorted as they are.
  pub StillSorted-Prefixes :
      (less : ℕ → ℕ → Bool) (l : List ℕ) (blocks : List (List ℕ))
      → StillSorted less state l blocks
      → Prefixes less l blocks
  StillSorted-Prefixes less [] [] h = tt
  StillSorted-Prefixes less [] (q ∷ qs) h = elim h [ ]
  StillSorted-Prefixes less (n ∷ l) [] h = elim h [ ]
  StillSorted-Prefixes less (n ∷ l) (q ∷ qs) h =
      (subst (IsSorted less) (stayers-all (take n q)) h.0, StillSorted-Prefixes less l qs h.1)

  pub Prefixes-StillSorted :
      (less : ℕ → ℕ → Bool) (l : List ℕ) (blocks : List (List ℕ))
      → Prefixes less l blocks
      → StillSorted less state l blocks
  Prefixes-StillSorted less [] [] h = tt
  Prefixes-StillSorted less [] (q ∷ qs) h = elim h [ ]
  Prefixes-StillSorted less (n ∷ l) [] h = elim h [ ]
  Prefixes-StillSorted less (n ∷ l) (q ∷ qs) h =
      (subst (IsSorted less) (sym (stayers-all (take n q))) h.0, Prefixes-StillSorted less l qs h.1)

AreOf-AreSlots :
    (less : ℕ → ℕ → Bool)
    → ((xs ys : List ℕ) → Same xs ys → stable_sort less xs ≡ stable_sort less ys)
    → (buckets : List ℕ) (b : ℕ) (blocks : List (List ℕ)) → AreOf buckets b blocks
    → AreSlots less b blocks buckets
AreOf-AreSlots less sorts buckets b [] h = tt
AreOf-AreSlots less sorts buckets b (p ∷ ps) h = (
  sorts p (picked buckets b (indices_from 0 (length buckets))) h.0
      ∙ ap (stable_sort less) (sym (slots_in-picked buckets b [] buckets refl)),
  AreOf-AreSlots less sorts buckets (suc b) ps h.1,
)

module _ {T : Type 0} where
  -- A key state with one layout.
  pub record IsSingle (state : KeyState T) : Type 0 where
    pub ungrouped : state.key.group_function ≡ none
    pub layout : BucketLayout T
    pub one : state.layouts ≡ layout ∷ []

  bucket_for-single :
      (state : KeyState T) (layout : BucketLayout T) (x : T)
      → state.layouts ≡ layout ∷ []
      → state.group_offset ≡ offsets 0 state.layouts
      → bucket_for state x (key_of state.key x) ≡ ok (bucket_of state.key layout x)
  unfolding bucket_for local_bucket bucket_of
  bucket_for-single state layout x one offset =
      let first : state.group_offset ≡ offsets 0 (layout ∷ []) = offset ∙ ap (offsets 0) one in
      elim (Bool-cases (has_key state.key)) [
        | inl h ↦ rw (one, first, h) (unfold offsets in rw zero-add refl)
        | inr h ↦ rw (one, first, h) (unfold offsets in rw zero-add refl)
      ]

  PlacedIn-single :
      (state : KeyState T) (layout : BucketLayout T)
      → state.layouts ≡ layout ∷ []
      → state.group_offset ≡ offsets 0 state.layouts
      → (items : List T) (buckets : List ℕ) → PlacedIn state items buckets
      → buckets ≡ map (bucket_of state.key layout) items
  PlacedIn-single state layout one offset [] [] h = refl
  PlacedIn-single state layout one offset (x ∷ items) (b ∷ buckets) h =
      ap₂ ◌∷◌ (ok_injective (sym h.0 ∙ bucket_for-single state layout x one offset))
        (PlacedIn-single state layout one offset items buckets h.1)
  PlacedIn-single state layout one offset [] (b ∷ buckets) h = elim h [ ]
  PlacedIn-single state layout one offset (x ∷ items) [] h = elim h [ ]

  module _ (items : List T) (state : KeyState T) (o : IsOrdered items state) where
    -- Up to date, the slots were where they are.
    pub was-buckets : state.order_stale ≡ false → o.was ≡ state.buckets
    was-buckets current =
        let (all, unmoved) = o.fresh current in
        same_lists o.was state.buckets (o.grouped.old ∙ all)
          (λ s lt. o.grouped.homes s lt (unmoved s))

    pub IsOrdered-IsReady :
        (c : IsThreeWay (tie_break state.key))
        → IsSingle state
        → IsLaid items state
        → length items ≤ max_slots
        → state.order_stale ≡ false
        → IsReady items state c
    IsOrdered-IsReady c single laid few current =
        let less = slot_less state.key items state.keys in
        let (all, unmoved) = o.fresh current in
        let same = was-buckets current in
        let of_now : AreOf state.buckets 0 o.blocks =
          subst (λ w. AreOf w 0 o.blocks) same o.grouped.slots in
        let total : length (concat o.blocks) ≡ length o.was =
          Same-length (concat o.blocks) (indices_from 0 (length o.was))
            (concat-Same o.was o.blocks o.grouped.slots o.grouped.below)
          ∙ length-indices 0 (length o.was) in
        record {
          layout = single.layout;
          blocks = o.blocks;
          ungrouped = single.ungrouped;
          assigned = record {
            keyed = laid.keyed;
            placed =
                PlacedIn-single state single.layout single.one laid.ranged.offset items
                  state.buckets laid.placed;
          };
          in_range = subst (All (λ b. b < length o.blocks)) same o.grouped.below;
          few = omega (arith, o.grouped.many, laid.ranged.small);
          made = o.grouped.made;
          slots =
              AreOf-AreSlots less
                (Same-sorted less (slot_less-IsStrictWeak state.key items state.keys c)
                  (slot_less-IsTotal state.key c items state.keys))
                state.buckets 0 o.blocks of_now;
          holds = record {
            begins = o.grouped.begins;
            small = omega (arith, total, ap length same, laid.counted.long);
            prefixes = StillSorted-Prefixes state unmoved less state.sorted_len o.blocks o.sorted;
          };
        }
