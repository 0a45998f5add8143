-- ===== src/Index/Grouping/Passes.antt =====
-- The first pass of `regroup` of bucket_index.hpp: over the buckets of the old grouping, block by block.
use mathlib.Core.Path.{ap₂, subst}
use mathlib.Core.List.{append_assoc, append-nil}
use native.Mathlib.Nat.{zero-add}
use speed_up.Common.{
  ℕ, zero, suc, ◌+◌, ◌-◌, ◌≡◌, refl, sym, ap, ◌∙◌, Bool, true, false, not, List, [], ◌∷◌, ◌++◌,
  length, length-append, map, get_or, get_or-append_at, replicate, set, take, ltb, if◌then◌else◌,
  Bool-cases, inl, inr, All, arith,
}
use speed_up.Index.{KeyState, increment}
use speed_up.Index.Grouping.{
  Regrouped, place, place_deferred, regroup_step, regroup_bucket, regroup_buckets,
}
use speed_up.Index.Grouping.Same.{passing}
use speed_up.Index.Grouping.Slots.{bucket, place_deferred-append}
use speed_up.Index.Sorting.Blocks.{concat, concat-append, starts, get_or-starts, get_or-starts_end}

increment_at :
    (done : List ℕ) (n : ℕ) (z : List ℕ) (b : ℕ)
    → b ≡ length done
    → increment (done ++ n ∷ z) b ≡ done ++ (n + 1) ∷ z
increment_at done n z b e =
    ap (increment (done ++ n ∷ z)) e
    ∙ ap (set (done ++ n ∷ z) (length done)) (ap (λ m. m + 1) (get_or-append_at 0 done n z))
    ∙ set_at_end done
  where
    set_at_end : (done : List ℕ) → set (done ++ n ∷ z) (length done) (n + 1) ≡ done ++ (n + 1) ∷ z
    set_at_end [] = refl
    set_at_end (x ∷ done) = ap (◌∷◌ x) (set_at_end done)

module _ {T : Type 0} (state : KeyState T) where
  abbrev pub has_moved : ℕ → Bool
  has_moved s = get_or state.moved s false

  -- the slots of a block that stay, and those that are deferred
  abbrev pub stayers : List ℕ → List ℕ
  stayers slots = passing (λ s. not (has_moved s)) slots

  abbrev pub movers : List ℕ → List ℕ
  movers slots = passing has_moved slots

  -- The slots of a block that are not marked are still in its bucket.
  abbrev pub AtHome : (b : ℕ) → List ℕ → Type 0
  AtHome b slots = All (λ s. has_moved s ≡ false → bucket state.buckets s ≡ b) slots

  -- One round, for a slot that has moved, and for one that has not.
  step_moved :
      (b prefix_end i x : ℕ) (r : Regrouped)
      → get_or state.order i 0 ≡ x
      → has_moved x ≡ true
      → regroup_step state b prefix_end i r ≡ record r { deferred = r.deferred ++ x ∷ [] }
  unfolding regroup_step
  step_moved b prefix_end i x r slot m = rw (slot, m) refl

  step_stays :
      (b prefix_end i x : ℕ) (r : Regrouped)
      → get_or state.order i 0 ≡ x
      → has_moved x ≡ false
      → regroup_step state b prefix_end i r ≡ record r {
        placed = place b x r.placed;
        sorted_len = if ltb i prefix_end then increment r.sorted_len b else r.sorted_len;
      }
  unfolding regroup_step
  step_stays b prefix_end i x r slot m = rw (slot, m) refl

  -- What one block adds.
  record Passed (b : ℕ) (done : List ℕ) (n : ℕ) (z : List ℕ) (sorted stay moves : List ℕ)
      (r r' : Regrouped) : Type 0 where
    placed : r'.placed ≡ place_deferred state.buckets stay r.placed
    counted : r'.sorted_len ≡ done ++ (n + length sorted) ∷ z
    deferred : r'.deferred ≡ r.deferred ++ moves

  regroup_bucket-Passed :
      (b prefix_end i : ℕ) (front xs back done : List ℕ) (n : ℕ) (z : List ℕ) (r : Regrouped)
      → state.order ≡ front ++ (xs ++ back)
      → i ≡ length front
      → AtHome b xs
      → b ≡ length done
      → r.sorted_len ≡ done ++ n ∷ z
      → Passed b done n z
          (stayers (take (prefix_end - i) xs))
          (stayers xs)
          (movers xs)
          r
          (regroup_bucket state b prefix_end (length xs) i r)
  unfolding regroup_bucket regroup_step place_deferred
  regroup_bucket-Passed b prefix_end i front [] back done n z r order here home at_b len = record {
    placed = refl;
    counted = len ∙ ap (λ m. done ++ m ∷ z) (cut (prefix_end - i));
    deferred = sym (append-nil r.deferred);
  }
    where
      cut : (m : ℕ) → n ≡ n + length (stayers (take m []))
      cut zero = omega arith
      cut (suc m) = omega arith
  regroup_bucket-Passed b prefix_end i front (x ∷ xs) back done n z r order here home at_b len =
      let more = front ++ x ∷ [] in
      let next : suc i ≡ length more = omega (arith, length-append front (x ∷ [])) in
      let order' : state.order ≡ more ++ (xs ++ back) =
        order ∙ sym (append_assoc front (x ∷ []) (xs ++ back)) in
      let slot : get_or state.order i 0 ≡ x =
        ap₂ (λ l j. get_or l j 0) order here ∙ get_or-append_at 0 front x (xs ++ back) in
      let as_passed =
        Passed b done n z (stayers (take (prefix_end - i) (x ∷ xs))) (stayers (x ∷ xs))
          (movers (x ∷ xs)) r in
      let run = regroup_bucket state b prefix_end (length xs) (suc i) in
      elim (Bool-cases (has_moved x)) [
        | inl m ↦
            let r₁ = record r { deferred = r.deferred ++ x ∷ [] } in
            let rest =
              regroup_bucket-Passed b prefix_end (suc i) more xs back done n z r₁ order' next home.1
                at_b len in
            subst as_passed (ap run (sym (step_moved b prefix_end i x r slot m))) (
              rw m (record {
                placed = rest.placed;
                counted =
                    rest.counted
                    ∙ ap (λ l. done ++ (n + length l) ∷ z)
                        (skipped x xs m (prefix_end - suc i) (prefix_end - i) (omega arith));
                deferred = rest.deferred ∙ append_assoc r.deferred (x ∷ []) (movers xs);
              }))
        | inr m ↦
            let early = ltb i prefix_end in
            let k = if early then n + 1 else n in
            let r₁ = record r {
              placed = place b x r.placed;
              sorted_len = if early then increment r.sorted_len b else r.sorted_len;
            } in
            let rest =
              regroup_bucket-Passed b prefix_end (suc i) more xs back done k z r₁ order' next home.1
                at_b (counts early r.sorted_len len) in
            subst as_passed (ap run (sym (step_stays b prefix_end i x r slot m))) (
              rw m (record {
                placed =
                    rest.placed
                    ∙ ap (λ c. place_deferred state.buckets (stayers xs) (place c x r.placed))
                        (sym (home.0 m));
                counted =
                    rest.counted
                    ∙ ap (λ j. done ++ j ∷ z)
                        (one_more x xs m (prefix_end - suc i) (prefix_end - i) early (ground arith)
                          (ground arith));
                deferred = rest.deferred;
              }))
      ]
    where
      skipped :
          (x : ℕ) (xs : List ℕ)
          → has_moved x ≡ true
          → (k m : ℕ) → k ≡ m - 1
          → stayers (take k xs) ≡ stayers (take m (x ∷ xs))
      skipped x xs e k zero h = rw h refl
      skipped x xs e k (suc m) h = let same : k ≡ m = omega arith in rw (same, e) refl

      counts :
          (early : Bool) (l : List ℕ)
          → l ≡ done ++ n ∷ z
          → (if early then increment l b else l) ≡ done ++ (if early then n + 1 else n) ∷ z
      counts true l e = ap (λ l. increment l b) e ∙ increment_at done n z b at_b
      counts false l e = e

      one_more :
          (x : ℕ) (xs : List ℕ)
          → has_moved x ≡ false
          → (k m : ℕ) (early : Bool) → (early ≡ true → m ≡ suc k)
          → (early ≡ false → (k ≡ 0) × (m ≡ 0))
          → (if early then n + 1 else n) + length (stayers (take k xs))
            ≡ n + length (stayers (take m (x ∷ xs)))
      one_more x xs e k m true h h' = rw (h refl, e) (omega arith)
      one_more x xs e k m false h h' = rw ((h' refl).0, (h' refl).1) refl

  -- how long the sorted prefixes are of what stays
  abbrev pub kept_lengths : (b : ℕ) → List (List ℕ) → List ℕ
  kept_lengths b [] = []
  kept_lengths b (q ∷ qs) =
      length (stayers (take (get_or state.sorted_len b 0) q)) ∷ kept_lengths (suc b) qs

  abbrev pub AllHome : (b : ℕ) → List (List ℕ) → Type 0
  AllHome b [] = Unit
  AllHome b (q ∷ qs) = AtHome b q × AllHome (suc b) qs

  -- What the blocks from b on add.
  pub record AllPassed (b : ℕ) (done : List ℕ) (qs : List (List ℕ)) (r r' : Regrouped)
      : Type 0 where
    pub placed : r'.placed ≡ place_deferred state.buckets (concat (map stayers qs)) r.placed
    pub counted : r'.sorted_len ≡ done ++ kept_lengths b qs
    pub deferred : r'.deferred ≡ r.deferred ++ concat (map movers qs)

  pub regroup_buckets-AllPassed :
      (ps qs : List (List ℕ)) (b : ℕ) (done : List ℕ) (r : Regrouped)
      → state.order ≡ concat (ps ++ qs)
      → state.start ≡ starts 0 (ps ++ qs)
      → AllHome b qs
      → b ≡ length ps
      → b ≡ length done
      → r.sorted_len ≡ done ++ replicate (length qs) 0
      → AllPassed b done qs r (regroup_buckets state (length qs) b r)
  unfolding regroup_buckets
  regroup_buckets-AllPassed ps [] b done r order start home at_b at_end len = record {
    placed = unfold place_deferred in refl;
    counted = len;
    deferred = sym (append-nil r.deferred);
  }
  regroup_buckets-AllPassed ps (q ∷ qs) b done r order start home at_b at_end len =
      let first = get_or state.start b 0 in
      let end = get_or state.start (suc b) 0 in
      let sorted = get_or state.sorted_len b 0 in
      let begins : first ≡ length (concat ps) =
        ap₂ (λ l i. get_or l i 0) start at_b
        ∙ get_or-starts 0 ps (q ∷ qs)
        ∙ zero-add (length (concat ps)) in
      let ends : end ≡ length (concat ps) + length q =
        ap₂ (λ l i. get_or l (suc i) 0) start at_b
        ∙ get_or-starts_end 0 ps q qs
        ∙ zero-add (length (concat ps) + length q) in
      let width : end - first ≡ length q = omega arith in
      let z = replicate (length qs) 0 in
      let one =
        regroup_bucket-Passed b (first + sorted) first (concat ps) q (concat qs) done 0 z r
          (order ∙ concat-append ps (q ∷ qs)) begins home.0 at_end len in
      let r₁ = regroup_bucket state b (first + sorted) (length q) first r in
      let cut : first + sorted - first ≡ sorted = omega arith in
      let n = length (stayers (take sorted q)) in
      let len₁ : r₁.sorted_len ≡ (done ++ n ∷ []) ++ z =
        one.counted
        ∙ ap (λ m. done ++ m ∷ z)
            (zero-add (length (stayers (take (first + sorted - first) q)))
              ∙ ap (λ m. length (stayers (take m q))) cut)
        ∙ sym (append_assoc done (n ∷ []) z) in
      let blocks = append_assoc ps (q ∷ []) qs in
      let rest =
        regroup_buckets-AllPassed (ps ++ q ∷ []) qs (suc b) (done ++ n ∷ []) r₁
          (order ∙ ap concat (sym blocks)) (start ∙ ap (starts 0) (sym blocks)) home.1
          (ap suc at_b ∙ sym (one_longer ps q)) (omega (arith, at_end, length-append done (n ∷ [])))
          len₁ in
      subst
        (λ m. AllPassed b done (q ∷ qs) r (
          regroup_buckets state (length qs) (suc b)
            (regroup_bucket state b (first + sorted) m first r)))
        (sym width)
        (record {
          placed =
              rest.placed
              ∙ ap (place_deferred state.buckets (concat (map stayers qs))) one.placed
              ∙ sym (
                  place_deferred-append state.buckets (stayers q) (concat (map stayers qs))
                    r.placed);
          counted = rest.counted ∙ append_assoc done (n ∷ []) (kept_lengths (suc b) qs);
          deferred =
              rest.deferred
              ∙ ap (λ l. l ++ concat (map movers qs)) one.deferred
              ∙ append_assoc r.deferred (movers q) (concat (map movers qs));
        })
    where
      one_longer : (ps : List (List ℕ)) (q : List ℕ) → length (ps ++ q ∷ []) ≡ suc (length ps)
      one_longer [] q = refl
      one_longer (p ∷ ps) q = ap suc (one_longer ps q)
