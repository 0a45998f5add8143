-- ===== src/Index/Reads/Window.antt =====
-- A grouped key state whose buckets may be unsorted, and what its order is after the loop over a
-- window of its buckets: inside the window it is the order of all slots.
use mathlib.Core.Path.{ap₂, subst}
use mathlib.Core.List.{map-append}
use speed_up.Common.{
  ℕ, suc, ◌+◌, ◌^◌, ◌<◌, ◌≤◌, ◌≡◌, refl, sym, ap, ◌∙◌, none, List, [], ◌∷◌, ◌++◌, length, map,
  get_or, take, drop, take-append-drop, length-take, length-drop, length-append, length-map, All,
  arith,
}
use speed_up.SortKey.{SortKey, tie_break, order, key_of}
use speed_up.SortKey.Order.{IsThreeWay, less_by}
use speed_up.Layout.{BucketLayout, bucket_of, indices_from}
use speed_up.Std.{stable_sort}
use speed_up.Index.{KeyState}
use speed_up.Index.Sorting.{slot_less, sort_buckets}
use speed_up.Index.Sorting.Bucket.{slot_less-IsStrictWeak}
use speed_up.Std.Sort.{stable_sort-IsSorted, stable_sort-of_IsSorted}
use speed_up.Index.Sorting.Blocks.{concat, concat-append, laid}
use speed_up.Std.Sort.{length-stable_sort}
use speed_up.Index.Sorting.Loop.{Holds, sorted, sort_buckets-blocks, lengths_set}
use speed_up.Index.Sorting.Whole.{AreSlots, blocks-indices}
use speed_up.Index.Values.{
  Assigned, Assigned-at, Assigned-length, slot_less-InOrder, slot_less-IsTotal,
}
use speed_up.Index.Reads.Slices.{slice_agree}

module _ {T : Type 0} where
  -- A grouped key state of a key without groups: every slot has its key and bucket, the order is made
  -- of a block for each bucket with that bucket's slots, and the recorded prefixes are sorted.
  pub record IsReady (items : List T) (state : KeyState T) (c : IsThreeWay (tie_break state.key))
      : Type 0 where
    pub layout : BucketLayout T
    pub blocks : List (List ℕ)
    pub ungrouped : state.key.group_function ≡ none
    pub assigned : Assigned state.key (bucket_of state.key layout) items state.keys state.buckets
    pub in_range : All (λ b. b < length blocks) state.buckets
    pub few : length blocks < 2 ^ 63
    pub made : state.order ≡ concat blocks
    pub slots : AreSlots (slot_less state.key items state.keys) 0 blocks state.buckets
    pub holds : Holds items state c state.sorted_len blocks

  -- What the list of items would be, sorted as a whole.
  abbrev pub sorted_items : SortKey T → List T → List T
  sorted_items key items = stable_sort (less_by (order key)) items

  pub length-concat_sorted :
      (items : List T) (state : KeyState T) (c : IsThreeWay (tie_break state.key))
      (ps : List (List ℕ))
      → length (concat (map (sorted items state c) ps)) ≡ length (concat ps)
  length-concat_sorted items state c [] = refl
  length-concat_sorted items state c (p ∷ ps) =
      let srt = sorted items state c in
      omega (
        arith,
        length-append (srt p) (concat (map srt ps)),
        length-append p (concat ps),
        length-stable_sort (slot_less state.key items state.keys) p,
        length-concat_sorted items state c ps,
      )

  module _ (x₀ : T) (rest : List T) (state : KeyState T) (c : IsThreeWay (tie_break state.key))
      (ready : IsReady (x₀ ∷ rest) state c) where
    abbrev pub all_slots : List ℕ
    all_slots =
        stable_sort (slot_less state.key (x₀ ∷ rest) state.keys)
          (indices_from 0 (length (x₀ ∷ rest)))

    pub keyed :
        (s : ℕ)
        → s < length (x₀ ∷ rest)
        → get_or state.keys s 0 ≡ key_of state.key (get_or (x₀ ∷ rest) s x₀)
    keyed s h =
        (Assigned-at state.key (bucket_of state.key ready.layout) x₀ (x₀ ∷ rest) state.keys
          state.buckets s ready.assigned h).0

    -- The blocks, each sorted, are all slots in order.
    pub sorted_blocks : concat (map (sorted (x₀ ∷ rest) state c) ready.blocks) ≡ all_slots
    sorted_blocks =
        let weak = slot_less-IsStrictWeak state.key (x₀ ∷ rest) state.keys c in
        let total = slot_less-IsTotal state.key c (x₀ ∷ rest) state.keys in
        let follows =
          slot_less-InOrder state.key ready.ungrouped c x₀ rest state.keys keyed ready.layout
            state.buckets ready.assigned in
        let count =
          Assigned-length state.key (bucket_of state.key ready.layout) (x₀ ∷ rest) state.keys
            state.buckets ready.assigned in
        blocks-indices (slot_less state.key (x₀ ∷ rest) state.keys) weak total ready.blocks
          state.buckets ready.slots follows ready.in_range
        ∙ ap (λ n. stable_sort (slot_less state.key (x₀ ∷ rest) state.keys) (indices_from 0 n))
            count

    -- The window of the buckets from `lo_b`, `m` of them: the blocks before it, in it and behind it.
    module _ (lo_b m : ℕ) (inside : lo_b + m ≤ length ready.blocks) where
      pub ps : List (List ℕ)
      ps = take lo_b ready.blocks

      pub ms : List (List ℕ)
      ms = take m (drop lo_b ready.blocks)

      pub qs : List (List ℕ)
      qs = drop m (drop lo_b ready.blocks)

      pub window : ready.blocks ≡ ps ++ (ms ++ qs)
      unfolding ps ms qs
      window = sym (
          ap (◌++◌ (take lo_b ready.blocks)) (take-append-drop m (drop lo_b ready.blocks))
          ∙ take-append-drop lo_b ready.blocks)

      pub length-ps : length ps ≡ lo_b
      unfolding ps
      length-ps = omega (arith, length-take lo_b ready.blocks)

      pub length-ms : length ms ≡ m
      unfolding ms
      length-ms =
          omega (arith, length-take m (drop lo_b ready.blocks), length-drop lo_b ready.blocks)

      window-Holds : Holds (x₀ ∷ rest) state c state.sorted_len (ps ++ (ms ++ qs))
      window-Holds = subst (Holds (x₀ ∷ rest) state c state.sorted_len) window ready.holds

      -- the window's blocks sorted, the others as they were
      pub new_blocks : List (List ℕ)
      new_blocks = ps ++ (map (sorted (x₀ ∷ rest) state c) ms ++ qs)

      pub new_lengths : List ℕ
      new_lengths = lengths_set (x₀ ∷ rest) state c (length ps) ms state.sorted_len

      -- The loop over the window's buckets.
      pub window_sorted :
          sort_buckets (x₀ ∷ rest) m lo_b state ≡ laid state (concat new_blocks) new_lengths
      unfolding new_blocks new_lengths
      window_sorted =
          ap₂ (λ r i. sort_buckets (x₀ ∷ rest) r i state) (sym length-ms) (sym length-ps)
          ∙ ap
              (λ o.
                sort_buckets (x₀ ∷ rest) (length ms) (length ps) (laid state o state.sorted_len))
              (ready.made ∙ ap concat window)
          ∙ (sort_buckets-blocks (x₀ ∷ rest) state c state.sorted_len ps ms qs window-Holds).0

      pub new-Holds : Holds (x₀ ∷ rest) state c new_lengths new_blocks
      unfolding new_blocks new_lengths
      new-Holds = (sort_buckets-blocks (x₀ ∷ rest) state c state.sorted_len ps ms qs window-Holds).1

      -- Inside the window the order is final.
      pub window_final :
          (from rounds : ℕ)
          → length (concat ps) ≤ from
          → from + rounds ≤ length (concat ps) + length (concat ms)
          → take rounds (drop from (concat new_blocks)) ≡ take rounds (drop from all_slots)
      unfolding new_blocks
      window_final from rounds p q =
          let srt = sorted (x₀ ∷ rest) state c in
          let parts : (front : List (List ℕ))
              → concat (front ++ (map srt ms ++ qs))
                ≡ concat front ++ (concat (map srt ms) ++ concat qs) =
            λ front.
              concat-append front (map srt ms ++ qs)
              ∙ ap (◌++◌ (concat front)) (concat-append (map srt ms) qs) in
          let whole : all_slots
              ≡ concat (map srt ps) ++ (concat (map srt ms) ++ concat (map srt qs)) =
            sym sorted_blocks
            ∙ ap (λ b. concat (map srt b)) window
            ∙ ap concat
                (map-append srt ps (ms ++ qs) ∙ ap (◌++◌ (map srt ps)) (map-append srt ms qs))
            ∙ concat-append (map srt ps) (map srt ms ++ map srt qs)
            ∙ ap (◌++◌ (concat (map srt ps))) (concat-append (map srt ms) (map srt qs)) in
          ap (λ l. take rounds (drop from l)) (parts ps)
          ∙ slice_agree (concat ps) (concat (map srt ps)) (concat (map srt ms)) (concat qs)
              (concat (map srt qs)) from rounds (sym (length-concat_sorted (x₀ ∷ rest) state c ps))
              p (omega (arith, q, length-concat_sorted (x₀ ∷ rest) state c ms))
          ∙ ap (λ l. take rounds (drop from l)) (sym whole)

      AreSlots-sorted_middle :
          (b : ℕ) (ns : List (List ℕ))
          → AreSlots (slot_less state.key (x₀ ∷ rest) state.keys) b (ns ++ qs) state.buckets
          → AreSlots
              (slot_less state.key (x₀ ∷ rest) state.keys)
              b
              (map (sorted (x₀ ∷ rest) state c) ns ++ qs)
              state.buckets
      AreSlots-sorted_middle b [] h = h
      AreSlots-sorted_middle b (n ∷ ns) h =
          let weak = slot_less-IsStrictWeak state.key (x₀ ∷ rest) state.keys c in
          let again =
            stable_sort-of_IsSorted (slot_less state.key (x₀ ∷ rest) state.keys)
              (sorted (x₀ ∷ rest) state c n)
              (stable_sort-IsSorted (slot_less state.key (x₀ ∷ rest) state.keys) weak n) in
          (again ∙ h.0, AreSlots-sorted_middle (suc b) ns h.1)

      AreSlots-sorted :
          (b : ℕ) (ns : List (List ℕ))
          → AreSlots (slot_less state.key (x₀ ∷ rest) state.keys) b (ns ++ (ms ++ qs)) state.buckets
          → AreSlots
              (slot_less state.key (x₀ ∷ rest) state.keys)
              b
              (ns ++ (map (sorted (x₀ ∷ rest) state c) ms ++ qs))
              state.buckets
      AreSlots-sorted b [] h = AreSlots-sorted_middle b ms h
      AreSlots-sorted b (n ∷ ns) h = (h.0, AreSlots-sorted (suc b) ns h.1)

      -- The state after the loop is as good as the one before it.
      pub window-IsReady : IsReady (x₀ ∷ rest) (laid state (concat new_blocks) new_lengths) c
      unfolding new_blocks
      window-IsReady =
          let srt = sorted (x₀ ∷ rest) state c in
          let same : length new_blocks ≡ length ready.blocks =
            length-append ps (map srt ms ++ qs)
            ∙ omega (
              arith,
              length-append (map srt ms) qs,
              length-map ms srt,
              length-append ps (ms ++ qs),
              length-append ms qs,
              ap length window,
            ) in
          record {
            layout = ready.layout;
            blocks = new_blocks;
            ungrouped = ready.ungrouped;
            assigned = ready.assigned;
            in_range = subst (λ k. All (λ b. b < k) state.buckets) (sym same) ready.in_range;
            few = omega (arith, same, ready.few);
            made = refl;
            slots = AreSlots-sorted 0 ps (
                subst (λ b. AreSlots (slot_less state.key (x₀ ∷ rest) state.keys) 0 b state.buckets)
                  window ready.slots);
            holds = record {
              begins = new-Holds.begins;
              small = new-Holds.small;
              prefixes = new-Holds.prefixes;
            };
          }
