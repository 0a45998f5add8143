-- ===== src/Layout/Boundaries.antt =====
-- The boundary keys of the layout that `estimate` of bucket_layout.hpp builds.
use mathlib.Core.List.{append-nil, append_assoc}
use speed_up.Common.{
  ℕ, zero, suc, ◌<◌, ◌≡◌, refl, sym, ap, ◌∙◌, Bool, true, false, Bool-cases, inl, inr, List, [],
  ◌∷◌, ◌++◌, map, length, get_or, ltb, All-at, read, ok, >>=-ok, ok_injective, arith,
}
use speed_up.SortKey.{SortKey, has_key}
use speed_up.Std.Sort.{IsFloor, IsSorted}
use speed_up.Layout.{BucketLayout, less_at, compare_at, with_split, add_split, add_splits}
use speed_up.Layout.Splits.{Ascends}

module _ {A : Type 0} (less : A → A → Bool) where
  IsSorted-at :
      (xs : List A) (i j : ℕ) (default : A)
      → IsSorted less xs
      → i < j
      → j < length xs
      → less (get_or xs j default) (get_or xs i default) ≡ false
  IsSorted-at [] i j default h lt below = absurd (omega arith)
  IsSorted-at (x ∷ xs) i zero default h lt below = absurd (omega arith)
  IsSorted-at (x ∷ xs) zero (suc j) default h lt below =
      All-at (λ y. less y x ≡ false) xs j default h.0 (omega arith)
  IsSorted-at (x ∷ xs) (suc i) (suc j) default h lt below =
      IsSorted-at xs i j default h.1 (omega arith) (omega arith)

read-get_or : (xs : List ℕ) (i : ℕ) {x : ℕ} → read xs i ≡ ok x → get_or xs i 0 ≡ x
read-get_or [] i h = cc
read-get_or (x ∷ xs) zero h = ok_injective h
read-get_or (x ∷ xs) (suc i) h = read-get_or xs i h

less_at-key :
    {T : Type 0} (key : SortKey T) (keys : List ℕ) (items : List T) (a b : ℕ)
    → has_key key ≡ true
    → 0 < length items
    → less_at key items keys a b ≡ false
    → ltb (get_or keys a 0) (get_or keys b 0) ≡ false
unfolding less_at compare_at
less_at-key key keys [] a b keyed some_item h = absurd (omega arith)
less_at-key key keys (x ∷ items) a b keyed some_item h = ground (arith, keyed)

module _ {T : Type 0} (key : SortKey T) (items : List T) (keys sorted : List ℕ) where
  -- the boundary that the position p gives
  abbrev cut : ℕ → ℕ
  cut p = get_or keys (get_or sorted p 0) 0

  boundaries-add_splits :
      (layout : BucketLayout T) (positions : List ℕ) {layout' : BucketLayout T}
      → has_key key ≡ true
      → add_splits key items keys sorted layout positions ≡ ok layout'
      → layout'.boundaries ≡ layout.boundaries ++ map cut positions
  unfolding add_splits add_split with_split
  boundaries-add_splits layout [] keyed e =
      ap (λ l. l.boundaries) (sym (ok_injective e)) ∙ sym (append-nil layout.boundaries)
  boundaries-add_splits layout (p ∷ positions) keyed e =
      let (next, added, rest) = >>=-ok _ (add_split key items keys sorted layout p) e in
      let (item, found, made) = >>=-ok _ (read sorted p) added in
      let here : next.boundaries ≡ layout.boundaries ++ cut p ∷ [] =
        ap (λ l. l.boundaries) (sym (ok_injective made))
        ∙ rw (keyed, read-get_or sorted p found) refl in
      boundaries-add_splits next positions keyed rest
      ∙ ap (λ bs. bs ++ map cut positions) here
      ∙ append_assoc layout.boundaries (cut p ∷ []) (map cut positions)

  unkeyed-add_splits :
      (layout : BucketLayout T) (positions : List ℕ) {layout' : BucketLayout T}
      → has_key key ≡ false
      → add_splits key items keys sorted layout positions ≡ ok layout'
      → layout'.boundaries ≡ layout.boundaries
  unfolding add_splits add_split with_split
  unkeyed-add_splits layout [] keyed e = ap (λ l. l.boundaries) (sym (ok_injective e))
  unkeyed-add_splits layout (p ∷ positions) keyed e =
      let (next, added, rest) = >>=-ok _ (add_split key items keys sorted layout p) e in
      let (item, found, made) = >>=-ok _ (read sorted p) added in
      let here : next.boundaries ≡ layout.boundaries =
        ap (λ l. l.boundaries) (sym (ok_injective made)) ∙ rw keyed refl in
      unkeyed-add_splits next positions keyed rest ∙ here

  cut_mono :
      has_key key ≡ true
      → 0 < length items
      → IsSorted (less_at key items keys) sorted
      → (p q : ℕ) → p < q
      → q < length sorted
      → ltb (cut q) (cut p) ≡ false
  cut_mono keyed some_item h p q lt below =
      less_at-key key keys items (get_or sorted q 0) (get_or sorted p 0) keyed some_item
        (IsSorted-at (less_at key items keys) sorted p q 0 h lt below)

  cuts-IsSorted :
      (lo : ℕ) (positions : List ℕ)
      → ((p q : ℕ) → p < q → q < length sorted → ltb (cut q) (cut p) ≡ false)
      → Ascends lo (length sorted) positions
      → IsSorted ltb (map cut positions)
  cuts-IsSorted lo [] mono h = tt
  cuts-IsSorted lo (p ∷ positions) mono h =
      (floor (suc p) positions h.2 (omega arith), cuts-IsSorted (suc p) positions mono h.2)
    where
      floor :
          (lo : ℕ) (qs : List ℕ)
          → Ascends lo (length sorted) qs
          → p < lo
          → IsFloor ltb (cut p) (map cut qs)
      floor lo [] h lt = tt
      floor lo (q ∷ qs) h lt =
          (mono p q (omega (arith, h.0)) h.1, floor (suc q) qs h.2 (omega (arith, h.0)))

  -- Split points at strictly increasing positions of a sample in order give ascending boundaries.
  pub boundaries-IsSorted :
      (layout : BucketLayout T) (positions : List ℕ) {layout' : BucketLayout T}
      → layout.boundaries ≡ []
      → 0 < length items
      → IsSorted (less_at key items keys) sorted
      → Ascends 1 (length sorted) positions
      → add_splits key items keys sorted layout positions ≡ ok layout'
      → IsSorted ltb layout'.boundaries
  boundaries-IsSorted layout positions {layout'} empty some_item h asc made =
      elim (Bool-cases (has_key key)) [
        | inl keyed ↦
            let same : layout'.boundaries ≡ map cut positions =
              boundaries-add_splits layout positions keyed made
              ∙ ap (λ bs. bs ++ map cut positions) empty in
            rw same (cuts-IsSorted 1 positions (cut_mono keyed some_item h) asc)
        | inr unkeyed ↦
            let same : layout'.boundaries ≡ [] =
              unkeyed-add_splits layout positions unkeyed made ∙ empty in
            rw same tt
      ]
