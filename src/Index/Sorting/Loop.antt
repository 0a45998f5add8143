-- ===== src/Index/Sorting/Loop.antt =====
-- `sort_bucket` and the loops over it, on an order that is made of blocks.
use mathlib.Core.List.{append_assoc}
use mathlib.Core.Path.{ap₂, subst}
use native.Mathlib.Nat.{zero-add}
use speed_up.Common.{
  ℕ, suc, ◌+◌, ◌^◌, ◌<◌, ◌≡◌, refl, sym, ap, ◌∙◌, Bool, List, [], ◌∷◌, ◌++◌, length, map, get_or,
  set, take, drop, length-append, arith,
}
use speed_up.Plan.{sub64}
use speed_up.SortKey.{tie_break}
use speed_up.SortKey.Order.{IsThreeWay}
use speed_up.Std.Sort.{length-stable_sort}
use speed_up.Std.{stable_sort}
use speed_up.Std.Sort.{IsSorted, stable_sort-IsSorted}
use speed_up.Index.{KeyState}
use speed_up.Index.Sorting.{slot_less, sort_bucket, sort_buckets, before, segment, behind}
use speed_up.Index.Sorting.Bucket.{slot_less-IsStrictWeak, sort_bucket-order}
use speed_up.Index.Sorting.Blocks.{
  concat, starts, concat-append, get_or-starts, get_or-starts_end, starts_same, take_left,
  drop_left, Prefixes, Prefixes-at, Prefixes-set, laid, sort_bucket-laid,
}

module _ {T : Type 0} (items : List T) (state : KeyState T)
    (c : IsThreeWay (tie_break state.key)) where
  -- the comparator of the buckets, and the blocks sorted by it
  abbrev pub less : ℕ → ℕ → Bool
  less = slot_less state.key items state.keys

  abbrev pub sorted : List ℕ → List ℕ
  sorted = stable_sort less

  -- An order that is made of the blocks, with what `sort_bucket` relies on.
  pub record Holds (sorted_len : List ℕ) (blocks : List (List ℕ)) : Type 0 where
    pub begins : state.start ≡ starts 0 blocks
    pub small : length (concat blocks) < 2 ^ 63
    pub prefixes : Prefixes less sorted_len blocks

  module _ (l : List ℕ) (ps : List (List ℕ)) (p : List ℕ) (qs : List (List ℕ))
      (h : Holds l (ps ++ p ∷ qs)) where
    before_block : KeyState T
    before_block = laid state (concat (ps ++ p ∷ qs)) l

    lo : get_or state.start (length ps) 0 ≡ length (concat ps)
    lo = ap (λ s. get_or s (length ps) 0) h.begins ∙ get_or-starts 0 ps (p ∷ qs) ∙ zero-add _

    hi : get_or state.start (suc (length ps)) 0 ≡ length (concat ps) + length p
    hi = ap (λ s. get_or s (suc (length ps)) 0) h.begins ∙ get_or-starts_end 0 ps p qs ∙ zero-add _

    long : length (concat (ps ++ p ∷ qs)) ≡ length (concat ps) + (length p + length (concat qs))
    long = omega (
      arith,
      ap length (concat-append ps (p ∷ qs)),
      length-append (concat ps) (p ++ concat qs),
      length-append p (concat qs),
    )

    width :
        sub64 (get_or state.start (suc (length ps)) 0) (get_or state.start (length ps) 0) ≡ length p
    width = omega (arith, lo, hi, long, h.small)

    behind_start : drop (get_or state.start (length ps) 0) (concat (ps ++ p ∷ qs)) ≡ p ++ concat qs
    behind_start = ap₂ drop lo (concat-append ps (p ∷ qs)) ∙ drop_left (concat ps) (p ++ concat qs)

    in_block :
        take
          (sub64 (get_or state.start (suc (length ps)) 0) (get_or state.start (length ps) 0))
          (drop (get_or state.start (length ps) 0) (concat (ps ++ p ∷ qs)))
        ≡ p
    in_block = ap₂ take width behind_start ∙ take_left p (concat qs)

    -- One block is sorted and its sorted prefix is the whole of it.
    sort_bucket-block :
        sort_bucket items (laid state (concat (ps ++ p ∷ qs)) l) (length ps)
        ≡ laid state (concat (ps ++ sorted p ∷ qs)) (set l (length ps) (length p))
    sort_bucket-block =
        let s = laid state (concat (ps ++ p ∷ qs)) l in
        let front : before s (length ps) ≡ concat ps =
          ap₂ take lo (concat-append ps (p ∷ qs)) ∙ take_left (concat ps) (p ++ concat qs) in
        let rest : behind s (length ps) ≡ concat qs =
          ap₂ drop width behind_start ∙ drop_left p (concat qs) in
        let prefix : IsSorted less (take (get_or l (length ps) 0) (segment s (length ps))) =
          subst (λ seg. IsSorted less (take (get_or l (length ps) 0) seg)) (sym in_block)
            (Prefixes-at less l ps p qs h.prefixes) in
        let order =
          sort_bucket-order items s (length ps) c prefix
          ∙ ap₂ ◌++◌ front (ap₂ ◌++◌ (ap sorted in_block) rest)
          ∙ sym (concat-append ps (sorted p ∷ qs)) in
        sort_bucket-laid items s (length ps) ∙ ap₂ (laid state) order (ap (set l (length ps)) width)

    sort_bucket-Holds : Holds (set l (length ps) (length p)) (ps ++ sorted p ∷ qs)
    sort_bucket-Holds =
        let same = length-stable_sort less p in
        record {
          begins = h.begins ∙ starts_same 0 ps p (sorted p) qs (sym same);
          small = omega (
            arith,
            h.small,
            long,
            same,
            ap length (concat-append ps (sorted p ∷ qs)),
            length-append (concat ps) (sorted p ++ concat qs),
            length-append (sorted p) (concat qs),
          );
          prefixes =
              subst (λ n. Prefixes less (set l (length ps) n) (ps ++ sorted p ∷ qs)) same
                (Prefixes-set less l ps p (sorted p) qs h.prefixes (
                  stable_sort-IsSorted less (slot_less-IsStrictWeak state.key items state.keys c)
                    p));
        }

  -- the sorted prefixes after the blocks `ms`, which are number i and following, were sorted
  abbrev pub lengths_set : (i : ℕ) → List (List ℕ) → List ℕ → List ℕ
  lengths_set i [] l = l
  lengths_set i (m ∷ ms) l = lengths_set (suc i) ms (set l i (length m))

  -- The loop over a range of buckets sorts their blocks.
  pub sort_buckets-blocks :
      (l : List ℕ) (ps ms qs : List (List ℕ))
      → Holds l (ps ++ (ms ++ qs))
      → (sort_buckets items (length ms) (length ps) (laid state (concat (ps ++ (ms ++ qs))) l)
          ≡ laid state (concat (ps ++ (map sorted ms ++ qs))) (lengths_set (length ps) ms l))
        × Holds (lengths_set (length ps) ms l) (ps ++ (map sorted ms ++ qs))
  unfolding sort_buckets
  sort_buckets-blocks l ps [] qs h = (refl, h)
  sort_buckets-blocks l ps (m ∷ ms) qs h =
      let l' = set l (length ps) (length m) in
      let ps' = ps ++ sorted m ∷ [] in
      let next : length ps' ≡ suc (length ps) = omega (arith, length-append ps (sorted m ∷ [])) in
      let regroup : (tail : List (List ℕ)) → ps' ++ tail ≡ ps ++ sorted m ∷ tail =
        λ tail. append_assoc ps (sorted m ∷ []) tail in
      let h' : Holds l' (ps' ++ (ms ++ qs)) =
        subst (Holds l') (sym (regroup (ms ++ qs))) (sort_bucket-Holds l ps m (ms ++ qs) h) in
      let (same, holds) = sort_buckets-blocks l' ps' ms qs h' in
      let tail = map sorted ms ++ qs in
      (
        ap₂ (sort_buckets items (length ms)) (sym next) (
              sort_bucket-block l ps m (ms ++ qs) h
              ∙ ap (λ b. laid state (concat b) l') (sym (regroup (ms ++ qs))))
            ∙ same
            ∙ ap₂ (laid state) (ap concat (regroup tail)) (ap (λ i. lengths_set i ms l') next),
        subst (λ i. Holds (lengths_set i ms l') (ps ++ sorted m ∷ tail)) next
            (subst (Holds (lengths_set (length ps') ms l')) (regroup tail) holds),
      )
