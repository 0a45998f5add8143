-- ===== src/Layout/Estimate.antt =====
-- The layout that `estimate` of bucket_layout.hpp builds.
use mathlib.Core.Path.{subst}
use native.Mathlib.Nat.{add-zero}
use speed_up.Common.{
  ℕ, zero, suc, ◌+◌, ◌-◌, ◌*◌, ◌^◌, ◌<◌, ◌≤◌, ◌≡◌, refl, sym, ap, ◌∙◌, true, false, Option, none,
  some, List, [], ◌∷◌, length, get_or, get_elem?, leb, ◌==◌, Bool-cases, inl, inr, length-append,
  arith, All, read, read-All, ltb, ok, err, undefined, ◌>>=◌, >>=-ok, ok_injective,
}
use speed_up.Common.Doubles.{Doubles}
use speed_up.Plan.{BucketPlan, target_sizes}
use speed_up.Plan.Limits.{target_sizes-le}
use speed_up.SortKey.{SortKey, has_key, tie_break}
use speed_up.SortKey.Order.{IsThreeWay}
use speed_up.Layout.{
  BucketLayout, single_bucket, bucket_count, sample_of, less_at, with_split, best_split,
  choose_loop, choose_split_positions, desired_positions, add_split, add_splits, expected_loop,
  laid_out, sorted_sample, split_positions, estimate,
}
use speed_up.Layout.Drawn.{AreIn, in_sample, some_sample}
use speed_up.Layout.Buckets.{IsLayout}
use speed_up.Layout.Splits.{Ascends-All}
use speed_up.Layout.Within.{split_positions-Ascends, less_at-IsStrictWeak}
use speed_up.Layout.Boundaries.{boundaries-IsSorted}
use speed_up.Std.Sort.{IsSorted, stable_sort-IsSorted}

leb-false : (a b : ℕ) → leb a b ≡ false → b < a
leb-false a b e = ground arith

choose_loop-length :
    (s : ℕ) (run_start run_end : ℕ → ℕ) (previous : ℕ) (desired : List ℕ)
    → length (choose_loop s run_start run_end previous desired) ≤ length desired
unfolding choose_loop
choose_loop-length s run_start run_end previous [] = omega arith
choose_loop-length s run_start run_end previous (q ∷ desired) =
    let best = best_split s previous q (run_start q) (run_end q) in
    elim (Bool-cases (best == 0)) [
      | inl e ↦ rw e (omega (arith, choose_loop-length s run_start run_end previous desired))
      | inr e ↦ rw e (omega (arith, choose_loop-length s run_start run_end best desired))
    ]

desired_positions-length :
    (n s cumulative : ℕ) (targets : List ℕ)
    → length (desired_positions n s cumulative targets) ≡ length targets - 1
unfolding desired_positions
desired_positions-length n s cumulative [] = omega arith
desired_positions-length n s cumulative (t ∷ []) = omega arith
desired_positions-length n s cumulative (t ∷ u ∷ targets) =
    omega (arith, desired_positions-length n s (cumulative + t) (u ∷ targets))

expected_loop-length :
    (n s previous : ℕ) (positions : List ℕ)
    → length (expected_loop n s previous positions) ≡ suc (length positions)
unfolding expected_loop
expected_loop-length n s previous [] = refl
expected_loop-length n s previous (p ∷ positions) = ap suc (expected_loop-length n s p positions)

get_elem?-in {ℓ} :
    {A : Type ℓ} (xs : List A) (i : ℕ) → i < length xs → (x : A) × (get_elem? xs i ≡ some x)
get_elem?-in [] i h = absurd (omega arith)
get_elem?-in (x ∷ xs) zero h = (x, refl)
get_elem?-in (x ∷ xs) (suc i) h = get_elem?-in xs i (omega arith)

module _ {T : Type 0} (key : SortKey T) where
  -- A layout under construction that has n split points.
  record Has (n : ℕ) (layout : BucketLayout T) : Type 0 where
    boundary : has_key key ≡ true → length layout.boundaries ≡ n
    element : has_key key ≡ true → length layout.split_element ≡ n
    splitter : has_key key ≡ false → length layout.splitters ≡ n
    position : length layout.splitter_positions ≡ length layout.splitters

  with_split-Has :
      (items : List T) (keys sorted : List ℕ) (layout : BucketLayout T) (p item n : ℕ)
      → item < length items
      → Has n layout
      → Has (suc n) (with_split key items keys sorted layout p item)
  unfolding with_split
  with_split-Has items keys sorted layout p item n h g =
      let (x, found) = get_elem?-in items item h in
      let tied = get_or keys (get_or sorted (p - 1) 0) 0 == get_or keys item 0 in
      let more_b = length-append layout.boundaries (get_or keys item 0 ∷ []) in
      let more_s = length-append layout.splitters (x ∷ []) in
      let more_p = length-append layout.splitter_positions (item ∷ []) in
      let more_e = length-append layout.split_element (some (length layout.splitters) ∷ []) in
      let more_n = length-append layout.split_element (none ∷ []) in
      elim (Bool-cases (has_key key)) [
        | inr e ↦
            rw (e, found)
              (record {
                boundary = λ k. absurd (cc);
                element = λ k. absurd (cc);
                splitter = λ k. omega (arith, more_s, g.splitter e);
                position = omega (arith, more_s, more_p, g.position);
              })
        | inl e ↦ elim (Bool-cases tied) [
          | inl t ↦
              rw (e, t, found)
                (record {
                  boundary = λ k. omega (arith, more_b, g.boundary e);
                  element = λ k. omega (arith, more_e, g.element e);
                  splitter = λ k. absurd (cc);
                  position = omega (arith, more_s, more_p, g.position);
                })
          | inr t ↦
              rw (e, t)
                (record {
                  boundary = λ k. omega (arith, more_b, g.boundary e);
                  element = λ k. omega (arith, more_n, g.element e);
                  splitter = λ k. absurd (cc);
                  position = g.position;
                })
        ]
      ]

  add_splits-Has :
      (items : List T) (keys sorted : List ℕ) (layout : BucketLayout T) (n : ℕ) (positions : List ℕ)
      {layout' : BucketLayout T}
      → All (λ x. x < length items) sorted
      → Has n layout
      → add_splits key items keys sorted layout positions ≡ ok layout'
      → Has (n + length positions) layout'
  unfolding add_splits add_split
  add_splits-Has items keys sorted layout n [] h g e = rw (add-zero, ← (ok_injective e)) g
  add_splits-Has items keys sorted layout n (p ∷ positions) h g e =
      let (next, added, rest) = >>=-ok _ (add_split key items keys sorted layout p) e in
      let (item, found, made) = >>=-ok _ (read sorted p) added in
      let good =
        with_split-Has items keys sorted layout p item n
          (read-All (λ x. x < length items) sorted p h found).0 g in
      let more =
        add_splits-Has items keys sorted next (suc n) positions h
          (subst (Has (suc n)) (ok_injective made) good) rest in
      let shift : suc n + length positions ≡ n + suc (length positions) = omega arith in
      rw shift at more

  add_splits-returns :
      (items : List T) (keys sorted : List ℕ) (layout : BucketLayout T) (positions : List ℕ)
      → All (λ p. p < length sorted) positions
      → (layout' : BucketLayout T) × (add_splits key items keys sorted layout positions
          ≡ ok layout')
  unfolding add_splits add_split
  add_splits-returns items keys sorted layout [] h = (layout, refl)
  add_splits-returns items keys sorted layout (p ∷ positions) h =
      let (item, found) = get_elem?-in sorted p h.0 in
      let (layout', e) =
        add_splits-returns items keys sorted (with_split key items keys sorted layout p item)
          positions h.1 in
      let added =
        ap
          (λ o. (elim o [ none ↦ err undefined | some x ↦ ok x ]) >>= λ x.
            ok (with_split key items keys sorted layout p x))
          found in
      (layout', ap (λ r. r >>= λ l. add_splits key items keys sorted l positions) added ∙ e)

  -- the layout of one bucket
  alone :
      (n : ℕ)
      → IsLayout key (record (single_bucket {T = T}) { estimated_from = n; expected = n ∷ [] })
  unfolding single_bucket
  alone n = record { keyed = λ e. refl; stored = λ e. refl; compared = λ e. refl; positions = refl }

  none_yet : (n : ℕ) → Has 0 (record (single_bucket {T = T}) { estimated_from = n })
  unfolding single_bucket
  none_yet n = record {
    boundary = λ e. refl;
    element = λ e. refl;
    splitter = λ e. refl;
    position = refl;
  }

  Has-IsLayout :
      (layout : BucketLayout T) (m : ℕ) (expected : List ℕ)
      → Has m layout
      → length expected ≡ suc m
      → IsLayout key (record layout { expected = expected })
  Has-IsLayout layout m expected h e = record {
    keyed = λ k. omega (arith, h.boundary k, e);
    stored = λ k. h.element k ∙ sym (h.boundary k);
    compared = λ k. omega (arith, h.splitter k, e);
    positions = h.position;
  }

  split_positions-length :
      (items : List T) (keys sorted targets : List ℕ) (n : ℕ)
      → length (split_positions key items keys sorted targets n) ≤ length targets - 1
  unfolding split_positions choose_split_positions
  split_positions-length items keys sorted targets n = omega (
    arith,
    desired_positions-length n (length sorted) 0 targets,
    choose_loop-length (length sorted) _ _ 0 (desired_positions n (length sorted) 0 targets),
  )

some_position :
    {T : Type 0} (items : List T) (xs : List ℕ)
    → All (λ x. x < length items) xs
    → 0 < length xs
    → 0 < length items
some_position items [] h p = absurd (omega arith)
some_position items (x ∷ xs) h p = omega (arith, h.0)

module _ {F : Type 0} ⦃d : Doubles F⦄ {T : Type 0} (key : SortKey T) where
  no_items : (plan : BucketPlan F) (n : ℕ) → leb (length (target_sizes plan n)) 1 ≡ false → 0 < n
  unfolding target_sizes
  no_items plan zero e = cc
  no_items plan (suc n) e = omega arith

  -- what `estimate` returns is well formed, and has no more buckets than the plan allows
  pub estimate-formed :
      (items : List T) (keys : List ℕ) (plan : BucketPlan F) (subset : Option (List ℕ))
      {layout : BucketLayout T}
      → 0 < plan.sample_size
      → plan.sample_size * laid_out items subset < 2 ^ 64
      → AreIn (length items) subset
      → 0 < plan.max_buckets
      → estimate key items keys plan subset ≡ ok layout
      → IsLayout key layout × (bucket_count layout ≤ plan.max_buckets)
  unfolding estimate bucket_count
  estimate-formed items keys plan subset pos small inside some_bucket made =
      let n = laid_out items subset in
      let targets = target_sizes plan n in
      let limit = target_sizes-le plan n some_bucket in
      elim (Bool-cases (leb (length targets) 1)) [
        | inl e ↦ rw (← (ok_injective (rw e at made))) (alone key n, some_bucket)
        | inr e ↦
            let sorted = sorted_sample key items keys plan n subset in
            let positions = split_positions key items keys sorted targets n in
            let count = expected_loop-length n (length sorted) 0 positions in
            let empty = record (single_bucket {T = T}) { estimated_from = n } in
            let (splits, added, last) =
              >>=-ok _ (add_splits key items keys sorted empty positions) (rw e at made) in
            let has =
              add_splits-Has key items keys sorted empty 0 positions
                (in_sample key items keys plan subset pos small inside) (none_yet key n) added in
            rw (← (ok_injective last)) (
              Has-IsLayout key _ (0 + length positions) _ has (omega (arith, count)),
              omega (
                arith,
                count,
                limit,
                split_positions-length key items keys sorted targets n,
                leb-false (length targets) 1 e,
              ),
            )
      ]

  pub estimate-IsLayout :
      (items : List T) (keys : List ℕ) (plan : BucketPlan F) (subset : Option (List ℕ))
      → IsThreeWay (tie_break key)
      → 0 < plan.sample_size
      → plan.sample_size * laid_out items subset < 2 ^ 64
      → AreIn (length items) subset
      → 0 < plan.max_buckets
      → (layout : BucketLayout T) × (estimate key items keys plan subset ≡ ok layout)
        × IsLayout key layout
        × (bucket_count layout ≤ plan.max_buckets)
        × IsSorted ltb layout.boundaries
  unfolding estimate sorted_sample single_bucket
  estimate-IsLayout items keys plan subset c pos small inside some_bucket =
      let n = laid_out items subset in
      let targets = target_sizes plan n in
      elim (Bool-cases (leb (length targets) 1)) [
        | inl e ↦
            let made : estimate key items keys plan subset
                ≡ ok (record (single_bucket {T = T}) { estimated_from = n; expected = n ∷ [] }) =
              rw e refl in
            let (formed, few) =
              estimate-formed items keys plan subset pos small inside some_bucket made in
            (_, made, formed, few, tt)
        | inr e ↦
            let sorted = sorted_sample key items keys plan n subset in
            let positions = split_positions key items keys sorted targets n in
            let empty = record (single_bucket {T = T}) { estimated_from = n } in
            let some_drawn = some_sample key items keys plan subset pos small (no_items plan n e) in
            let asc =
              split_positions-Ascends key c items keys (sample_of plan n subset) targets n
                some_drawn in
            let within = in_sample key items keys plan subset pos small inside in
            let in_order =
              stable_sort-IsSorted (less_at key items keys) (less_at-IsStrictWeak key c items keys)
                (sample_of plan n subset) in
            let (splits, added) =
              add_splits-returns key items keys sorted empty positions
                (Ascends-All 1 (length sorted) positions asc) in
            let made : estimate key items keys plan subset
                ≡ ok (record splits { expected = expected_loop n (length sorted) 0 positions }) =
              let finished : BucketLayout T → BucketLayout T =
                λ l. record l { expected = expected_loop n (length sorted) 0 positions } in
              rw e (ap (λ r. r >>= λ l. ok (finished l)) added) in
            let (formed, few) =
              estimate-formed items keys plan subset pos small inside some_bucket made in
            let up =
              boundaries-IsSorted key items keys sorted empty positions refl
                (some_position items sorted within some_drawn) in_order asc added in
            (_, made, formed, few, up)
      ]
