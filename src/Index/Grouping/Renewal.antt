-- ===== src/Index/Grouping/Renewal.antt =====
-- `regroup` of bucket_index.hpp brings a cached grouping up to date.
use mathlib.Core.Path.{ap₂, subst}
use speed_up.Common.{
  ℕ, zero, suc, ◌+◌, ◌-◌, ◌<◌, ◌≡◌, refl, sym, ap, ◌∙◌, List, [], ◌∷◌, ◌++◌, length, length-drop,
  map, get_or, ltb, Bool-cases, inl, inr, drop, replicate, All, All-at, arith,
}
use speed_up.Layout.{indices_from}
use speed_up.Index.{KeyState, bucket_total}
use speed_up.Index.Grouping.{Regrouped, place_deferred, start_loop, regroup, regroup_buckets}
use speed_up.Index.Grouping.Counting.{tallies}
use speed_up.Index.Grouping.Placing.{unplaced}
use speed_up.Index.Grouping.Same.{Same, All-of_tally, tally-indices, length-indices, Same-length}
use speed_up.Index.Grouping.Slots.{
  bucket, picked, picks, place_deferred-picks, place_deferred-append, place_slots-deferred,
  map-bucket, slots_in-picked, picked-Same, tallies-Same, starts-Same, length-picks,
}
use speed_up.Index.Grouping.Passes.{
  stayers, movers, kept_lengths, AllPassed, regroup_buckets-AllPassed,
}
use speed_up.Index.Grouping.Kept.{AreOf, IsGrouped, IsGrouped-AllHome, placing, placing-Same}
use speed_up.Index.Relayout.Counts.{Counted}
use speed_up.Index.Sorting.Blocks.{concat, starts}
use speed_up.Index.Ready.Blocks.{blocks_of, start_loop-starts}

get_or-drop : (xs : List ℕ) (m i : ℕ) → get_or (drop m xs) i 0 ≡ get_or xs (m + i) 0
get_or-drop xs zero i = ap (λ j. get_or xs j 0) (omega arith)
get_or-drop [] (suc m) i = refl
get_or-drop (x ∷ xs) (suc m) i =
    let next : suc m + i ≡ suc (m + i) = omega arith in
    get_or-drop xs m i ∙ ap (λ j. get_or (x ∷ xs) j 0) (sym next)

pub blocks_of-picks :
    (buckets : List ℕ) (k b : ℕ)
    → blocks_of k b buckets ≡ picks buckets k b (indices_from 0 (length buckets))
blocks_of-picks buckets zero b = refl
blocks_of-picks buckets (suc k) b =
    ap₂ ◌∷◌ (slots_in-picked buckets b [] buckets refl) (blocks_of-picks buckets k (suc b))

pub picks-AreOf :
    (buckets : List ℕ) (k b : ℕ) (slots : List ℕ)
    → ((c : ℕ) → Same (picked buckets c slots) (picked buckets c (indices_from 0 (length buckets))))
    → AreOf buckets b (picks buckets k b slots)
picks-AreOf buckets zero b slots h = tt
picks-AreOf buckets (suc k) b slots h = (h b, picks-AreOf buckets k (suc b) slots h)

module _ {T : Type 0} (state : KeyState T) (was : List ℕ) (blocks : List (List ℕ))
    (g : IsGrouped state was blocks)
    (counted : Counted (bucket_total state) (length state.buckets) state.buckets state.counts) where
  abbrev pub new_slots : List ℕ
  new_slots = placing state blocks (length state.buckets)

  -- The blocks of the new grouping.
  abbrev pub new_blocks : List (List ℕ)
  new_blocks = picks state.buckets (bucket_total state) 0 new_slots

  all_slots : List ℕ
  all_slots = indices_from 0 (length state.buckets)

  same : Same new_slots all_slots
  unfolding all_slots
  same = placing-Same state was blocks g

  new_slots-below : All (λ s. bucket state.buckets s < bucket_total state) new_slots
  unfolding all_slots
  new_slots-below =
      let n = length state.buckets in
      All-of_tally (λ s. bucket state.buckets s < bucket_total state) new_slots
        (λ s here.
          let (few, one, before, behind) = tally-indices s 0 n in
          let lt : s < n = elim (Bool-cases (ltb s n)) [
            | inl l ↦ ground arith
            | inr l ↦ absurd (omega (arith, here, same s, behind (ground arith)))
          ] in
          All-at (λ b. b < bucket_total state) state.buckets s 0 counted.below lt)

  counts-new_slots :
      state.counts ≡ tallies (bucket_total state) 0 (map (bucket state.buckets) new_slots)
  unfolding all_slots
  counts-new_slots =
      counted.right
      ∙ ap (tallies (bucket_total state) 0) (sym (map-bucket state.buckets [] state.buckets refl))
      ∙ sym (tallies-Same state.buckets (bucket_total state) 0 new_slots all_slots same)

  -- the first pass, from vectors that are still empty
  abbrev first_pass : Regrouped
  first_pass = record {
    placed = unplaced (bucket_total state) (length state.buckets) state.counts;
    sorted_len = replicate (bucket_total state) 0;
    deferred = [];
  }

  passed :
      AllPassed state 0 [] blocks first_pass
        (regroup_buckets state (bucket_total state) 0 first_pass)
  passed =
      subst (λ k. AllPassed state 0 [] blocks first_pass (regroup_buckets state k 0 first_pass))
        g.many
        (regroup_buckets-AllPassed state [] blocks 0 [] first_pass g.made g.begins
          (IsGrouped-AllHome state was blocks g) refl refl (ap (λ k. replicate k 0) (sym g.many)))

  pub regroup-sorted_len :
      (regroup (length state.buckets) state).sorted_len ≡ kept_lengths state 0 blocks
  unfolding regroup
  regroup-sorted_len = passed.counted

  pub regroup-order : (regroup (length state.buckets) state).order ≡ concat new_blocks
  unfolding regroup
  regroup-order =
      let n = length state.buckets in
      let m = state.ordered_slots in
      let kept = regroup_buckets state (bucket_total state) 0 first_pass in
      let rest = drop m state.buckets in
      let move = concat (map (movers state) blocks) in
      let stay = concat (map (stayers state) blocks) in
      let new = indices_from m (n - m) in
      let p₀ = first_pass.placed in
      let p = place_deferred state.buckets kept.deferred kept.placed in
      ap (λ q. q.order)
        (place_slots-deferred state.buckets m rest p (λ i lt. get_or-drop state.buckets m i)
          ∙ ap (λ j. place_deferred state.buckets (indices_from m j) p)
              (length-drop m state.buckets)
          ∙ ap₂ (λ l q. place_deferred state.buckets new (place_deferred state.buckets l q))
              passed.deferred passed.placed
          ∙ sym
              (place_deferred-append state.buckets move new (place_deferred state.buckets stay p₀))
          ∙ sym (place_deferred-append state.buckets stay (move ++ new) p₀))
      ∙ place_deferred-picks state.buckets (bucket_total state) n new_slots state.counts
          (Same-length new_slots all_slots same ∙ length-all_slots) new_slots-below counts-new_slots
    where
      length-all_slots : length all_slots ≡ length state.buckets
      length-all_slots = unfold all_slots in length-indices 0 (length state.buckets)

  pub regroup-start : (regroup (length state.buckets) state).start ≡ starts 0 new_blocks
  unfolding regroup all_slots
  regroup-start =
      let k = bucket_total state in
      ap (λ c. start_loop c 0 0 k) counted.right
      ∙ start_loop-starts k 0 0 k state.buckets (omega arith)
      ∙ ap (starts 0) (blocks_of-picks state.buckets k 0)
      ∙ sym (starts-Same state.buckets k 0 0 new_slots all_slots same)

  -- Where a grouping may be out of date, and the counts are right: after `regroup` the order is made of
  -- a block for each bucket with the slots that are in it now, and no slot is marked as moved.
  pub regroup-IsGrouped : IsGrouped (regroup (length state.buckets) state) state.buckets new_blocks
  unfolding regroup all_slots bucket_total
  regroup-IsGrouped = record {
    many = length-picks state.buckets (bucket_total state) 0 new_slots;
    made = regroup-order;
    begins = regroup-start;
    slots =
        picks-AreOf state.buckets (bucket_total state) 0 new_slots
          (λ c. picked-Same state.buckets c new_slots all_slots same);
    below =
        subst (λ k. All (λ b. b < k) state.buckets)
          (sym (length-picks state.buckets (bucket_total state) 0 new_slots)) counted.below;
    old = refl;
    known = omega arith;
    homes = λ s lt stays. refl;
  }
