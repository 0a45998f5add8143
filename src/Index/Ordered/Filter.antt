-- ===== src/Index/Ordered/Filter.antt =====
-- The last loops of `compact` of bucket_index.hpp: the cached order, filtered in place block by block.
use mathlib.Core.List.{append_assoc, append-nil}
use mathlib.Core.Path.{ap₂, subst}
use native.Mathlib.Nat.{zero-add}
use speed_up.Common.{
  ℕ, zero, suc, ◌+◌, ◌-◌, ◌≡◌, refl, sym, ap, ◌∙◌, ◌⊎◌, inl, inr, Bool, true, false, Option, none,
  some, List, [], ◌∷◌, ◌++◌, length, length-append, map, get_or, set, take, ltb, if◌then◌else◌,
  arith,
}
use speed_up.Index.{KeyState}
use speed_up.Index.Changes.{Filtered, filter_bucket, filter_buckets}
use speed_up.Index.Sorting.Blocks.{concat, concat-append, starts, get_or-starts, get_or-starts_end}
use speed_up.Index.Laid.Keepers.{Shape, Shape-skip, Shape-read, Shape-put, set-append}
use speed_up.Index.Ordered.Renumber.{renumber, new_slot}

option_cases : (o : Option ℕ) → (o ≡ none) ⊎ (r : ℕ) × (o ≡ some r)
option_cases none = inl refl
option_cases (some r) = inr (r, refl)

module _ (remap : List (Option ℕ)) where
  one_removed :
      (prefix_end i x : ℕ) (f : Filtered)
      → get_or f.order i 0 ≡ x
      → new_slot remap x ≡ none
      → (rounds : ℕ)
      → filter_bucket remap prefix_end (suc rounds) i f
        ≡ filter_bucket remap prefix_end rounds (suc i) f
  unfolding filter_bucket
  one_removed prefix_end i x f at_i gone rounds = rw (at_i, gone) refl

  -- one slot that is kept
  abbrev put : (prefix_end i r : ℕ) → Filtered → Filtered
  put prefix_end i r f = record {
    order = set f.order f.out r;
    out = suc f.out;
    sorted = if ltb i prefix_end then suc f.sorted else f.sorted;
  }

  one_kept :
      (prefix_end i x r : ℕ) (f : Filtered)
      → get_or f.order i 0 ≡ x
      → new_slot remap x ≡ some r
      → (rounds : ℕ)
      → filter_bucket remap prefix_end (suc rounds) i f
        ≡ filter_bucket remap prefix_end rounds (suc i) (put prefix_end i r f)
  unfolding filter_bucket
  one_kept prefix_end i x r f at_i kept rounds = rw (at_i, kept) refl

  -- What the loop over one block makes.
  record Done (i : ℕ) (front xs back prefix : List ℕ) (f f' : Filtered) : Type 0 where
    junk : List ℕ
    shape : Shape (front ++ renumber remap xs) junk back f'.order
    at_end : f'.out ≡ length (front ++ renumber remap xs)
    reached : i + length xs ≡ length (front ++ renumber remap xs) + length junk
    count : f'.sorted ≡ f.sorted + length (renumber remap prefix)

  skipped :
      (x : ℕ) (xs : List ℕ)
      → new_slot remap x ≡ none
      → (k m : ℕ) → k ≡ m - 1
      → length (renumber remap (take k xs)) ≡ length (renumber remap (take m (x ∷ xs)))
  skipped x xs e k zero h = rw h refl
  skipped x xs e k (suc m) h = let same : k ≡ m = omega arith in rw (same, e) refl

  one_more :
      (x r : ℕ) (xs : List ℕ) (n : ℕ)
      → new_slot remap x ≡ some r
      → (k m : ℕ) (early : Bool) → (early ≡ true → m ≡ suc k)
      → (early ≡ false → (k ≡ 0) × (m ≡ 0))
      → (if early then suc n else n) + length (renumber remap (take k xs))
        ≡ n + length (renumber remap (take m (x ∷ xs)))
  one_more x r xs n e k m true h h' = rw (h refl, e) (omega arith)
  one_more x r xs n e k m false h h' = rw ((h' refl).0, (h' refl).1) refl

  nothing_left : (m : ℕ) → length (renumber remap (take m [])) ≡ 0
  nothing_left zero = refl
  nothing_left (suc m) = refl

  filter_bucket-Done :
      (prefix_end i : ℕ) (front junk xs back : List ℕ) (f : Filtered)
      → Shape front junk (xs ++ back) f.order
      → i ≡ length front + length junk
      → f.out ≡ length front
      → Done i front xs back
          (take (prefix_end - i) xs)
          f
          (filter_bucket remap prefix_end (length xs) i f)
  filter_bucket-Done prefix_end i front junk [] back f shape at_i out =
      unfold filter_bucket in
      record {
        junk = junk;
        shape = subst (λ l. Shape l junk back f.order) (sym (append-nil front)) shape;
        at_end = out ∙ ap length (sym (append-nil front));
        reached = omega (arith, at_i, ap length (append-nil front));
        count = omega (arith, nothing_left (prefix_end - i));
      }
  filter_bucket-Done prefix_end i front junk (x ∷ xs) back f shape at_i out =
      let slot = Shape-read 0 front junk x (xs ++ back) f.order i at_i shape in
      elim (option_cases (new_slot remap x)) [
        | inl gone ↦
            let rest =
              filter_bucket-Done prefix_end (suc i) front (junk ++ x ∷ []) xs back f
                (Shape-skip front junk x (xs ++ back) f.order shape)
                (omega (arith, at_i, length-append junk (x ∷ []))) out in
            let same : renumber remap xs ≡ renumber remap (x ∷ xs) = rw gone refl in
            subst (Done i front (x ∷ xs) back (take (prefix_end - i) (x ∷ xs)) f)
              (sym (one_removed prefix_end i x f slot gone (length xs)))
              (record {
                junk = rest.junk;
                shape = rest.shape ∙ ap (λ l. (front ++ l) ++ (rest.junk ++ back)) same;
                at_end = rest.at_end ∙ ap (λ l. length (front ++ l)) same;
                reached = omega (arith, rest.reached, ap (λ l. length (front ++ l)) same);
                count =
                    rest.count
                    ∙ ap (λ n. f.sorted + n)
                        (skipped x xs gone (prefix_end - suc i) (prefix_end - i) (omega arith));
              })
        | inr (r, kept) ↦
            let f₁ = put prefix_end i r f in
            let (junk', same_long, shape') = Shape-put front junk x (xs ++ back) f.order r shape in
            let shape₁ : Shape (front ++ r ∷ []) junk' (xs ++ back) f₁.order =
              ap (λ o. set f.order o r) out ∙ shape' in
            let longer = length-append front (r ∷ []) in
            let rest =
              filter_bucket-Done prefix_end (suc i) (front ++ r ∷ []) junk' xs back f₁ shape₁
                (omega (arith, at_i, same_long, longer)) (omega (arith, out, longer)) in
            let same : (front ++ r ∷ []) ++ renumber remap xs ≡ front ++ renumber remap (x ∷ xs) =
              append_assoc front (r ∷ []) (renumber remap xs) ∙ rw kept refl in
            subst (Done i front (x ∷ xs) back (take (prefix_end - i) (x ∷ xs)) f)
              (sym (one_kept prefix_end i x r f slot kept (length xs)))
              (record {
                junk = rest.junk;
                shape = rest.shape ∙ ap (λ l. l ++ (rest.junk ++ back)) same;
                at_end = rest.at_end ∙ ap length same;
                reached = omega (arith, rest.reached, ap length same);
                count =
                    rest.count
                    ∙ one_more x r xs f.sorted kept (prefix_end - suc i) (prefix_end - i)
                        (ltb i prefix_end) (λ e. ground arith) (λ e. ground arith);
              })
      ]

-- where the blocks end
abbrev pub ends : (first : ℕ) → List (List ℕ) → List ℕ
ends first [] = []
ends first (p ∷ ps) = (first + length p) ∷ ends (first + length p) ps

pub starts-ends : (first : ℕ) (ps : List (List ℕ)) → starts first ps ≡ first ∷ ends first ps
starts-ends first [] = refl
starts-ends first (p ∷ ps) = ap (◌∷◌ first) (starts-ends (first + length p) ps)

module _ {T : Type 0} (remap : List (Option ℕ)) (state : KeyState T) where
  -- how much of the sorted prefixes is left
  abbrev pub prefixes_left : (b : ℕ) → List (List ℕ) → List ℕ
  prefixes_left b [] = []
  prefixes_left b (q ∷ qs) =
      length (renumber remap (take (get_or state.sorted_len b 0) q)) ∷ prefixes_left (suc b) qs

  -- What the loop over the blocks from b on makes.
  pub record AllDone (front : List ℕ) (b : ℕ) (qs : List (List ℕ)) (done start : List ℕ)
      (order' sorted_len' start' : List ℕ) : Type 0 where
    pub junk : List ℕ
    pub shape : Shape (front ++ concat (map (renumber remap) qs)) junk [] order'
    pub counts : sorted_len' ≡ done ++ prefixes_left b qs
    pub begins : start' ≡ start ++ ends (length front) (map (renumber remap) qs)

  pub filter_buckets-AllDone :
      (ps qs : List (List ℕ)) (front junk : List ℕ) (b : ℕ) (order : List ℕ) (out : ℕ)
      (done lens sorted_len start : List ℕ)
      → Shape front junk (concat qs) order
      → state.start ≡ starts 0 (ps ++ qs)
      → b ≡ length ps
      → length (concat ps) ≡ length front + length junk
      → out ≡ length front
      → sorted_len ≡ done ++ lens
      → b ≡ length done
      → length lens ≡ length qs
      → AllDone front b qs done start
          (filter_buckets remap state (length qs) b order out sorted_len start).order
          (filter_buckets remap state (length qs) b order out sorted_len start).sorted_len
          (filter_buckets remap state (length qs) b order out sorted_len start).start
  unfolding filter_buckets
  filter_buckets-AllDone ps [] front junk b order out done [] sorted_len start shape begins at_b
        at_i at_out len at_done n =
      record {
        junk = junk;
        shape = shape ∙ ap (λ l. l ++ (junk ++ [])) (sym (append-nil front));
        counts = len;
        begins = sym (append-nil start);
      }
  filter_buckets-AllDone ps [] front junk b order out done (l ∷ lens) sorted_len start shape begins
        at_b at_i at_out len at_done n =
      absurd (omega arith)
  filter_buckets-AllDone ps (q ∷ qs) front junk b order out done [] sorted_len start shape begins
        at_b at_i at_out len at_done n =
      absurd (omega arith)
  filter_buckets-AllDone ps (q ∷ qs) front junk b order out done (l ∷ lens) sorted_len start shape
        begins at_b at_i at_out len at_done n =
      let first = get_or state.start b 0 in
      let end = get_or state.start (suc b) 0 in
      let sorted = get_or state.sorted_len b 0 in
      let at_first : first ≡ length (concat ps) =
        ap₂ (λ l i. get_or l i 0) begins at_b
        ∙ get_or-starts 0 ps (q ∷ qs)
        ∙ zero-add (length (concat ps)) in
      let at_last : end ≡ length (concat ps) + length q =
        ap₂ (λ l i. get_or l (suc i) 0) begins at_b
        ∙ get_or-starts_end 0 ps q qs
        ∙ zero-add (length (concat ps) + length q) in
      let width : length q ≡ end - first = omega arith in
      let f₀ : Filtered = record { order = order; out = out; sorted = 0 } in
      let one =
        filter_bucket-Done remap (first + sorted) first front junk q (concat qs) f₀ shape
          (omega arith) at_out in
      let f₁ = filter_bucket remap (first + sorted) (length q) first f₀ in
      let new = renumber remap q in
      let cut : first + sorted - first ≡ sorted = omega arith in
      let count : f₁.sorted ≡ length (renumber remap (take sorted q)) =
        one.count
        ∙ zero-add (length (renumber remap (take (first + sorted - first) q)))
        ∙ ap (λ m. length (renumber remap (take m q))) cut in
      let len₁ : set sorted_len b f₁.sorted
          ≡ (done ++ length (renumber remap (take sorted q)) ∷ []) ++ lens =
        ap₂ (λ s i. set s i f₁.sorted) len at_done
        ∙ set-append done (l ∷ lens) f₁.sorted
        ∙ ap (λ c. done ++ c ∷ lens) count
        ∙ sym (append_assoc done (length (renumber remap (take sorted q)) ∷ []) lens) in
      let blocks = append_assoc ps (q ∷ []) qs in
      let rest =
        filter_buckets-AllDone (ps ++ q ∷ []) qs (front ++ new) one.junk (suc b) f₁.order f₁.out
          (done ++ length (renumber remap (take sorted q)) ∷ []) lens (set sorted_len b f₁.sorted)
          (start ++ f₁.out ∷ []) one.shape (begins ∙ ap (starts 0) (sym blocks))
          (ap suc at_b ∙ sym (one_longer ps q))
          (omega (
            arith,
            one.reached,
            ap length (concat-append ps (q ∷ [])),
            length-append (concat ps) (q ++ []),
            ap length (append-nil q),
          ))
          one.at_end len₁
          (omega
            (arith, at_done, length-append done (length (renumber remap (take sorted q)) ∷ [])))
          (omega arith) in
      let long : length (front ++ new) ≡ length front + length new = length-append front new in
      subst
        (λ m.
          let f = filter_bucket remap (first + sorted) m first f₀ in
          let all =
            filter_buckets remap state (length qs) (suc b) f.order f.out (set sorted_len b f.sorted)
              (start ++ f.out ∷ []) in
          AllDone front b (q ∷ qs) done start all.order all.sorted_len all.start)
        width
        (record {
          junk = rest.junk;
          shape =
              rest.shape
              ∙ ap (λ l. l ++ (rest.junk ++ []))
                  (append_assoc front new (concat (map (renumber remap) qs)));
          counts =
              rest.counts
              ∙ append_assoc done (length (renumber remap (take sorted q)) ∷ [])
                  (prefixes_left (suc b) qs);
          begins =
              rest.begins
              ∙ ap₂ (λ o k. (start ++ o ∷ []) ++ ends k (map (renumber remap) qs))
                  (one.at_end ∙ long) long
              ∙ append_assoc start ((length front + length new) ∷ [])
                  (ends (length front + length new) (map (renumber remap) qs));
        })
    where
      one_longer : (ps : List (List ℕ)) (q : List ℕ) → length (ps ++ q ∷ []) ≡ suc (length ps)
      one_longer [] q = refl
      one_longer (p ∷ ps) q = ap suc (one_longer ps q)
