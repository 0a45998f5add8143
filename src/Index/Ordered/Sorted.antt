-- ===== src/Index/Ordered/Sorted.antt =====
-- Sorting buckets of an order that is up to date, as the reads of bucket_index.hpp do, keeps it so.
use mathlib.Core.Path.{ap₂, subst}
use speed_up.Common.{
  ℕ, suc, ◌+◌, ◌<◌, ◌≤◌, ◌≡◌, refl, sym, ap, ◌∙◌, Bool, false, List, [], ◌∷◌, ◌++◌, length,
  length-take, length-drop, map, take, drop, take-append-drop, Bool-cases, inl, inr, All, arith,
}
use speed_up.SortKey.{tie_break}
use speed_up.SortKey.Order.{IsThreeWay}
use speed_up.Std.{insert, stable_sort}
use speed_up.Layout.{indices_from}
use speed_up.Index.{KeyState, bucket_total, max_slots}
use speed_up.Index.Grouping.Counting.{tally}
use speed_up.Index.Grouping.Same.{Same, Same-length, length-indices}
use speed_up.Index.Grouping.Kept.{AreOf, concat-Same}
use speed_up.Index.Sorting.{sort_buckets, slot_less}
use speed_up.Index.Sorting.Blocks.{concat, laid}
use speed_up.Index.Sorting.Loop.{Holds, sorted, lengths_set, sort_buckets-blocks}
use speed_up.Index.Ordered.{IsOrdered}
use speed_up.Index.Ordered.Ready.{StillSorted-Prefixes, Prefixes-StillSorted}

module _ (less : ℕ → ℕ → Bool) where
  tally-insert : (s x : ℕ) (xs : List ℕ) → tally s (insert less x xs) ≡ tally s (x ∷ xs)
  unfolding insert
  tally-insert s x [] = refl
  tally-insert s x (y ∷ xs) = elim (Bool-cases (less y x)) [
    | inl e ↦ rw e (omega (arith, tally-insert s x xs))
    | inr e ↦ rw e refl
  ]

  pub stable_sort-Same : (xs : List ℕ) → Same (stable_sort less xs) xs
  unfolding stable_sort
  stable_sort-Same [] s = refl
  stable_sort-Same (x ∷ xs) s =
      omega (arith, tally-insert s x (stable_sort less xs), stable_sort-Same xs s)

  AreOf-sorted :
      (was : List ℕ) (b : ℕ) (ps ms qs : List (List ℕ))
      → AreOf was b (ps ++ (ms ++ qs))
      → AreOf was b (ps ++ (map (stable_sort less) ms ++ qs))
  AreOf-sorted was b [] [] qs h = h
  AreOf-sorted was b [] (m ∷ ms) qs h =
      (λ s. stable_sort-Same m s ∙ h.0 s, AreOf-sorted was (suc b) [] ms qs h.1)
  AreOf-sorted was b (p ∷ ps) ms qs h = (h.0, AreOf-sorted was (suc b) ps ms qs h.1)

length_sorted :
    (f : List ℕ → List ℕ) (ps ms qs : List (List ℕ))
    → length (ps ++ (map f ms ++ qs)) ≡ length (ps ++ (ms ++ qs))
length_sorted f [] [] qs = refl
length_sorted f [] (m ∷ ms) qs = ap suc (length_sorted f [] ms qs)
length_sorted f (p ∷ ps) ms qs = ap suc (length_sorted f ps ms qs)

module _ {T : Type 0} (items : List T) (state : KeyState T) (o : IsOrdered items state)
    (current : state.order_stale ≡ false) (c : IsThreeWay (tie_break state.key))
    (few : length state.buckets ≤ max_slots) where
  -- The blocks are as a sorting loop needs them.
  pub IsOrdered-Holds : Holds items state c state.sorted_len o.blocks
  IsOrdered-Holds =
      let total : length (concat o.blocks) ≡ length o.was =
        Same-length (concat o.blocks) (indices_from 0 (length o.was))
          (concat-Same o.was o.blocks o.grouped.slots o.grouped.below)
        ∙ length-indices 0 (length o.was) in
      record {
        begins = o.grouped.begins;
        small = omega (arith, total, o.grouped.old, o.grouped.known);
        prefixes =
            StillSorted-Prefixes state (o.fresh current).1 (slot_less state.key items state.keys)
              state.sorted_len o.blocks o.sorted;
      }

  blocks-IsOrdered :
      (ps ms qs : List (List ℕ)) (l : List ℕ)
      → o.blocks ≡ ps ++ (ms ++ qs)
      → Holds items state c l (ps ++ (map (sorted items state c) ms ++ qs))
      → IsOrdered items (laid state (concat (ps ++ (map (sorted items state c) ms ++ qs))) l)
  unfolding bucket_total
  blocks-IsOrdered ps ms qs l split holds =
      let new = ps ++ (map (sorted items state c) ms ++ qs) in
      let many : length new ≡ length o.blocks =
        length_sorted (sorted items state c) ps ms qs ∙ ap length (sym split) in
      record {
        was = o.was;
        blocks = new;
        grouped = record {
          many = many ∙ o.grouped.many;
          made = refl;
          begins = holds.begins;
          slots =
              AreOf-sorted (slot_less state.key items state.keys) o.was 0 ps ms qs
                (subst (AreOf o.was 0) split o.grouped.slots);
          below = subst (λ k. All (λ b. b < k) o.was) (sym many) o.grouped.below;
          old = o.grouped.old;
          known = o.grouped.known;
          homes = o.grouped.homes;
        };
        sorted =
            Prefixes-StillSorted state (o.fresh current).1 (slot_less state.key items state.keys) l
              new holds.prefixes;
        marks = o.marks;
        fresh = o.fresh;
      }

  -- A loop over buckets that there are.
  pub sort_buckets-IsOrdered :
      (rounds from : ℕ)
      → from + rounds ≤ length o.blocks
      → (order lengths : List ℕ) × (sort_buckets items rounds from state ≡ laid state order lengths)
        × IsOrdered items (laid state order lengths)
  sort_buckets-IsOrdered rounds from inside =
      let ps = take from o.blocks in
      let ms = take rounds (drop from o.blocks) in
      let qs = drop rounds (drop from o.blocks) in
      let split : o.blocks ≡ ps ++ (ms ++ qs) = sym (
        ap (λ l. ps ++ l) (take-append-drop rounds (drop from o.blocks))
        ∙ take-append-drop from o.blocks) in
      let at_from : length ps ≡ from = omega (arith, length-take from o.blocks) in
      let at_rounds : length ms ≡ rounds =
        omega (arith, length-take rounds (drop from o.blocks), length-drop from o.blocks) in
      let (same, holds) =
        sort_buckets-blocks items state c state.sorted_len ps ms qs
          (subst (Holds items state c state.sorted_len) split IsOrdered-Holds) in
      let lengths = lengths_set items state c (length ps) ms state.sorted_len in
      let new = ps ++ (map (sorted items state c) ms ++ qs) in
      (
        concat new,
        lengths,
        ap₂ (λ r i. sort_buckets items r i state) (sym at_rounds) (sym at_from)
            ∙ ap (λ o'. sort_buckets items (length ms) (length ps) (laid state o' state.sorted_len))
                (o.grouped.made ∙ ap concat split)
            ∙ same,
        blocks-IsOrdered ps ms qs lengths split holds,
      )
