-- ===== src/Index/Ordered/Renewal.antt =====
-- `build_order` and `regroup` of bucket_index.hpp bring the order up to date.
use mathlib.Core.Path.{ap₂, subst}
use mathlib.Core.List.{append_assoc}
use speed_up.Common.{
  ℕ, zero, suc, ◌+◌, ◌-◌, ◌<◌, ◌≤◌, ◌≡◌, ◌≢◌, refl, sym, ap, ◌∙◌, Bool, true, false, not, List, [],
  ◌∷◌, ◌++◌, length, length-replicate, map, get_or, take, drop, replicate, take-append-drop, ◌==◌,
  ==_refl, ==_ne, Bool-cases, inl, inr, All, arith,
}
use speed_up.Std.Sort.{IsSorted}
use speed_up.Layout.{indices_from}
use speed_up.Index.{KeyState, bucket_total}
use speed_up.Index.Grouping.{regroup, build_order, start_loop}
use speed_up.Index.Grouping.Counting.{tallies}
use speed_up.Index.Grouping.Placing.{build_order-order}
use speed_up.Index.Ready.Blocks.{blocks_of, concat-blocks_of, start_loop-starts}
use speed_up.Index.Grouping.Same.{passing}
use speed_up.Index.Grouping.Slots.{bucket, picked, picks, length-picks}
use speed_up.Index.Grouping.Passes.{has_moved, stayers, movers, AtHome, AllHome, kept_lengths}
use speed_up.Index.Grouping.Kept.{IsGrouped-AllHome}
use speed_up.Index.Grouping.Renewal.{
  blocks_of-picks, picks-AreOf, new_blocks, new_slots, regroup-IsGrouped, regroup-sorted_len,
}
use speed_up.Index.Relayout.Counts.{Counted}
use speed_up.Index.Sorting.{slot_less}
use speed_up.Index.Sorting.Blocks.{concat, starts, take_left}
use speed_up.Index.Ordered.{StillSorted, IsOrdered}

passing-append :
    (test : ℕ → Bool) (xs ys : List ℕ)
    → passing test (xs ++ ys) ≡ passing test xs ++ passing test ys
passing-append test [] ys = refl
passing-append test (x ∷ xs) ys = elim (Bool-cases (test x)) [
  | inl e ↦ rw e (ap (◌∷◌ x) (passing-append test xs ys))
  | inr e ↦ rw e (passing-append test xs ys)
]

passing-all : (test : ℕ → Bool) (xs : List ℕ) → ((s : ℕ) → test s ≡ true) → passing test xs ≡ xs
passing-all test [] h = refl
passing-all test (x ∷ xs) h = rw (h x) (ap (◌∷◌ x) (passing-all test xs h))

module _ {T : Type 0} (state : KeyState T) where
  -- What stays in a block is in its bucket, and in no other.
  picked-home :
      (b : ℕ) (q : List ℕ)
      → AtHome state b q
      → picked state.buckets b (stayers state q) ≡ stayers state q
  picked-home b [] h = refl
  picked-home b (s ∷ q) h = elim (Bool-cases (has_moved state s)) [
    | inl m ↦ rw m (picked-home b q h.1)
    | inr m ↦ rw (m, h.0 m, ==_refl) (ap (◌∷◌ s) (picked-home b q h.1))
  ]

  picked-away :
      (b c : ℕ) (q : List ℕ)
      → AtHome state b q
      → b ≢ c
      → picked state.buckets c (stayers state q) ≡ []
  picked-away b c [] h other = refl
  picked-away b c (s ∷ q) h other = elim (Bool-cases (has_moved state s)) [
    | inl m ↦ rw m (picked-away b c q h.1 other)
    | inr m ↦ rw (m, h.0 m, ==_ne b c other) (picked-away b c q h.1 other)
  ]

  -- A new block starts with what stays of the old one.
  kept-Prefixes :
      (less : ℕ → ℕ → Bool) (state' : KeyState T) (before : List ℕ) (qs : List (List ℕ))
      (after : List ℕ) (b : ℕ) (lens : List ℕ)
      → ((s : ℕ) → has_moved state' s ≡ false)
      → ((c : ℕ) → b ≤ c → picked state.buckets c before ≡ [])
      → AllHome state b qs
      → ((i : ℕ) → get_or lens i 0 ≡ get_or state.sorted_len (b + i) 0)
      → StillSorted less state lens qs
      → StillSorted less state'
          (kept_lengths state b qs)
          (picks state.buckets (length qs) b (before ++ (concat (map (stayers state) qs) ++ after)))
  kept-Prefixes less state' before [] after b [] unmoved away home at_b h = tt
  kept-Prefixes less state' before [] after b (l ∷ lens) unmoved away home at_b h = elim h [ ]
  kept-Prefixes less state' before (q ∷ qs) after b [] unmoved away home at_b h = elim h [ ]
  kept-Prefixes less state' before (q ∷ qs) after b (l ∷ lens) unmoved away home at_b h =
      let stay = stayers state q in
      let later = concat (map (stayers state) qs) ++ after in
      let test = λ (s : ℕ). bucket state.buckets s == b in
      let len : get_or state.sorted_len b 0 ≡ l =
        sym (at_b 0 ∙ ap (λ i. get_or state.sorted_len i 0) (omega arith)) in
      let cut = length (stayers state (take (get_or state.sorted_len b 0) q)) in
      let block : picked state.buckets b
            (before ++ ((stay ++ concat (map (stayers state) qs)) ++ after))
          ≡ stay ++ picked state.buckets b later =
        ap (λ l. picked state.buckets b (before ++ l))
          (append_assoc stay (concat (map (stayers state) qs)) after)
        ∙ passing-append test before (stay ++ later)
        ∙ ap (λ l. l ++ passing test (stay ++ later)) (away b (omega arith))
        ∙ passing-append test stay later
        ∙ ap (λ l. l ++ passing test later) (picked-home b q home.0) in
      let parts : stay ≡ stayers state (take l q) ++ stayers state (drop l q) =
        ap (stayers state) (sym (take-append-drop l q))
        ∙ passing-append (λ s. not (has_moved state s)) (take l q) (drop l q) in
      let front : take cut (stay ++ picked state.buckets b later) ≡ stayers state (take l q) =
        ap₂ (λ i l'. take (length (stayers state (take i q))) (l' ++ picked state.buckets b later))
          len parts
        ∙ ap (take (length (stayers state (take l q)))) (
            append_assoc (stayers state (take l q)) (stayers state (drop l q))
              (picked state.buckets b later))
        ∙ take_left (stayers state (take l q))
            (stayers state (drop l q) ++ picked state.buckets b later) in
      let all : stayers state' (take cut (stay ++ picked state.buckets b later))
          ≡ stayers state (take l q) =
        passing-all (λ s. not (has_moved state' s))
          (take cut (stay ++ picked state.buckets b later)) (λ s. ap not (unmoved s))
        ∙ front in
      let here : IsSorted less (
          stayers state' (
            take cut (
              picked state.buckets b
                (before ++ ((stay ++ concat (map (stayers state) qs)) ++ after))))) =
        subst (λ l. IsSorted less (stayers state' (take cut l))) (sym block)
          (subst (IsSorted less) (sym all) h.0) in
      let order : before ++ ((stay ++ concat (map (stayers state) qs)) ++ after)
          ≡ (before ++ stay) ++ later =
        ap (λ l. before ++ l) (append_assoc stay (concat (map (stayers state) qs)) after)
        ∙ sym (append_assoc before stay later) in
      (
        here,
        subst
            (λ l.
              StillSorted less state' (kept_lengths state (suc b) qs)
                (picks state.buckets (length qs) (suc b) l))
            (sym order)
            (kept-Prefixes less state' (before ++ stay) qs after (suc b) lens unmoved
              (λ c p.
                passing-append (λ s. bucket state.buckets s == c) before stay
                ∙ ap₂ (λ x y. x ++ y) (away c (omega arith))
                    (picked-away b c q home.0 (omega arith)))
              home.1 (λ i. at_b (suc i) ∙ ap (λ j. get_or state.sorted_len j 0) (omega arith)) h.1),
      )

pub get_or-replicate : (n i : ℕ) → get_or (replicate n false) i false ≡ false
get_or-replicate zero i = refl
get_or-replicate (suc n) zero = refl
get_or-replicate (suc n) (suc i) = get_or-replicate n i

-- Nothing is sorted yet.
StillSorted-none :
    {T : Type 0} (less : ℕ → ℕ → Bool) (state : KeyState T) (buckets : List ℕ) (k b : ℕ)
    (slots : List ℕ)
    → StillSorted less state (replicate k 0) (picks buckets k b slots)
StillSorted-none less state buckets zero b slots = tt
StillSorted-none less state buckets (suc k) b slots =
    (tt, StillSorted-none less state buckets k (suc b) slots)

module _ {T : Type 0} (items : List T) (state : KeyState T) where
  -- So is the order that `build_order` makes.
  pub build_order-IsOrdered :
      Counted (bucket_total state) (length items) state.buckets state.counts
      → IsOrdered items (build_order (length items) state)
  unfolding build_order bucket_total
  build_order-IsOrdered counted =
      let n = length items in
      let k = bucket_total state in
      let all = indices_from 0 (length state.buckets) in
      let blocks = picks state.buckets k 0 all in
      record {
        was = state.buckets;
        blocks = blocks;
        grouped = record {
          many = length-picks state.buckets k 0 all;
          made =
              build_order-order n state counted.long counted.below counted.right
              ∙ sym (concat-blocks_of k 0 state.buckets)
              ∙ ap concat (blocks_of-picks state.buckets k 0);
          begins = begins counted.right ∙ ap (starts 0) (blocks_of-picks state.buckets k 0);
          slots = picks-AreOf state.buckets k 0 all (λ c s. refl);
          below =
              subst (λ k'. All (λ b. b < k') state.buckets)
                (sym (length-picks state.buckets k 0 all)) counted.below;
          old = counted.long;
          known = omega (arith, counted.long);
          homes = λ s lt stays. refl;
        };
        sorted =
            StillSorted-none (slot_less state.key items state.keys) (build_order n state)
              state.buckets k 0 all;
        marks = length-replicate {A = Bool} n false;
        fresh = λ current. (sym counted.long, get_or-replicate n);
      }
    where
      begins :
          state.counts ≡ tallies (bucket_total state) 0 state.buckets
          → (build_order (length items) state).start
            ≡ starts 0 (blocks_of (bucket_total state) 0 state.buckets)
      begins right =
          let k = bucket_total state in
          unfold build_order in
          ap (λ c. start_loop c 0 0 k) right ∙ start_loop-starts k 0 0 k state.buckets (omega arith)

  -- The order that `regroup` leaves is up to date.
  pub regroup-IsOrdered :
      (n : ℕ)
      → n ≡ length state.buckets
      → Counted (bucket_total state) n state.buckets state.counts
      → IsOrdered items state
      → IsOrdered items (regroup n state)
  regroup-IsOrdered n e counted o =
      subst (λ m. IsOrdered items (regroup m state)) (sym e)
        (renewed o
          (subst (λ m. Counted (bucket_total state) m state.buckets state.counts) e counted))
    where
      renewed :
          (o : IsOrdered items state)
          → Counted (bucket_total state) (length state.buckets) state.buckets state.counts
          → IsOrdered items (regroup (length state.buckets) state)
      renewed o counted =
          let n = length state.buckets in
          let state' = regroup n state in
          let less = slot_less state.key items state.keys in
          let after =
            concat (map (movers state) o.blocks)
            ++ indices_from state.ordered_slots (n - state.ordered_slots) in
          let prefixes =
            kept-Prefixes state less state' [] o.blocks after 0 state.sorted_len (unmoved state)
              (λ c p. refl) (IsGrouped-AllHome state o.was o.blocks o.grouped)
              (λ i. ap (λ j. get_or state.sorted_len j 0) (omega arith)) o.sorted in
          let sorted' : StillSorted less state' state'.sorted_len
              (new_blocks state o.was o.blocks o.grouped counted) =
            subst
              (λ l. StillSorted less state' l (new_blocks state o.was o.blocks o.grouped counted))
              (sym (regroup-sorted_len state o.was o.blocks o.grouped counted))
              (subst
                (λ k.
                  StillSorted less state' (kept_lengths state 0 o.blocks)
                    (picks state.buckets k 0 (new_slots state o.was o.blocks o.grouped counted)))
                o.grouped.many prefixes) in
          record {
            was = state.buckets;
            blocks = new_blocks state o.was o.blocks o.grouped counted;
            grouped = regroup-IsGrouped state o.was o.blocks o.grouped counted;
            sorted =
                subst
                  (λ f.
                    StillSorted f state' state'.sorted_len
                      (new_blocks state o.was o.blocks o.grouped counted))
                  (same_less state) sorted';
            marks = marked state;
            fresh = λ current. (old state, unmoved state);
          }
        where
          unmoved :
              (state : KeyState T) (s : ℕ)
              → has_moved (regroup (length state.buckets) state) s ≡ false
          unmoved state s = unfold regroup in get_or-replicate (length state.buckets) s

          marked :
              (state : KeyState T)
              → length (regroup (length state.buckets) state).moved
                ≡ (regroup (length state.buckets) state).ordered_slots
          marked state = unfold regroup in length-replicate {A = Bool} (length state.buckets) false

          old :
              (state : KeyState T)
              → (regroup (length state.buckets) state).ordered_slots
                ≡ length (regroup (length state.buckets) state).buckets
          old state = unfold regroup in refl

          same_less :
              (state : KeyState T)
              → slot_less state.key items state.keys
                ≡ slot_less
                    (regroup (length state.buckets) state).key
                    items
                    (regroup (length state.buckets) state).keys
          same_less state = unfold regroup in refl
