-- ===== src/Index/Reads/Slices.antt =====
-- Parts of lists, and the loops of bucket_index.hpp that read a part of the order.
use mathlib.Core.Path.{subst}
use mathlib.Core.List.{map-append, reverse-append}
use native.Mathlib.Nat.{zero-add, suc-add}
use speed_up.Common.{
  ℕ, zero, suc, ◌+◌, ◌-◌, ◌<◌, ◌≤◌, ◌≡◌, refl, sym, ap, ◌∙◌, List, [], ◌∷◌, ◌++◌, length, map,
  reverse, get_or, take, drop, All, ok, ◌>>=◌, arith,
}
use speed_up.Index.{KeyState, read}
use speed_up.Index.Reads.{item_at, items_up, items_down}

module _ {A : Type 0} where
  drop-get_or :
      (i : ℕ) (xs : List A) (d : A) → i < length xs → drop i xs ≡ get_or xs i d ∷ drop (suc i) xs
  drop-get_or i [] d h = absurd (omega arith)
  drop-get_or zero (x ∷ xs) d h = refl
  drop-get_or (suc i) (x ∷ xs) d h = drop-get_or i xs d (omega arith)

  drop-past : (xs ys : List A) (j : ℕ) → drop (length xs + j) (xs ++ ys) ≡ drop j ys
  drop-past [] ys j = rw zero-add refl
  drop-past (x ∷ xs) ys j = rw suc-add (drop-past xs ys j)

  take-within : (n : ℕ) (xs ys : List A) → n ≤ length xs → take n (xs ++ ys) ≡ take n xs
  take-within zero xs ys h = refl
  take-within (suc n) [] ys h = absurd (omega arith)
  take-within (suc n) (x ∷ xs) ys h = ap (◌∷◌ x) (take-within n xs ys (omega arith))

  drop-within : (j : ℕ) (xs ys : List A) → j ≤ length xs → drop j (xs ++ ys) ≡ drop j xs ++ ys
  drop-within zero xs ys h = refl
  drop-within (suc j) [] ys h = absurd (omega arith)
  drop-within (suc j) (x ∷ xs) ys h = drop-within j xs ys (omega arith)

  length-dropped : (j : ℕ) (xs : List A) → length (drop j xs) ≡ length xs - j
  length-dropped zero xs = omega arith
  length-dropped (suc j) [] = omega arith
  length-dropped (suc j) (x ∷ xs) = omega (arith, length-dropped j xs)

  -- the part of a list that lies inside its middle section
  pub slice_middle :
      (front mid back : List A) (from rounds : ℕ)
      → length front ≤ from
      → from + rounds ≤ length front + length mid
      → take rounds (drop from (front ++ (mid ++ back)))
        ≡ take rounds (drop (from - length front) mid)
  slice_middle front mid back from rounds p q =
      let j = from - length front in
      let same : from ≡ length front + j = omega arith in
      ap (λ n. take rounds (drop n (front ++ (mid ++ back)))) same
      ∙ ap (take rounds) (drop-past front (mid ++ back) j ∙ drop-within j mid back (omega arith))
      ∙ take-within rounds (drop j mid) back (omega (arith, length-dropped j mid))

  -- Two lists with a common section in the same place agree there.
  pub slice_agree :
      (front front' mid back back' : List A) (from rounds : ℕ)
      → length front ≡ length front'
      → length front ≤ from
      → from + rounds ≤ length front + length mid
      → take rounds (drop from (front ++ (mid ++ back)))
        ≡ take rounds (drop from (front' ++ (mid ++ back')))
  slice_agree front front' mid back back' from rounds e p q =
      slice_middle front mid back from rounds p q
      ∙ ap (λ n. take rounds (drop (from - n) mid)) e
      ∙ sym (slice_middle front' mid back' from rounds (omega arith) (omega arith))

  All-drop : (P : A → Type 0) (n : ℕ) (xs : List A) → All P xs → All P (drop n xs)
  All-drop P zero xs h = h
  All-drop P (suc n) [] h = h
  All-drop P (suc n) (x ∷ xs) h = All-drop P n xs h.1

  All-take : (P : A → Type 0) (n : ℕ) (xs : List A) → All P xs → All P (take n xs)
  All-take P zero xs h = tt
  All-take P (suc n) [] h = tt
  All-take P (suc n) (x ∷ xs) h = (h.0, All-take P n xs h.1)

  pub All-slice :
      (P : A → Type 0) (from rounds : ℕ) (xs : List A)
      → All P xs
      → All P (take rounds (drop from xs))
  All-slice P from rounds xs h = All-take P rounds (drop from xs) (All-drop P from xs h)

  pub map-slice :
      {B : Type 0} (f : A → B) (from rounds : ℕ) (xs : List A)
      → map f (take rounds (drop from xs)) ≡ take rounds (drop from (map f xs))
  map-slice f zero zero xs = refl
  map-slice f zero (suc rounds) [] = refl
  map-slice f zero (suc rounds) (x ∷ xs) = ap (◌∷◌ (f x)) (map-slice f zero rounds xs)
  map-slice f (suc from) zero [] = refl
  map-slice f (suc from) (suc rounds) [] = refl
  map-slice f (suc from) rounds (x ∷ xs) = map-slice f from rounds xs

  slice_snoc :
      (from rounds : ℕ) (xs : List A) (d : A)
      → from + rounds < length xs
      → take (suc rounds) (drop from xs)
        ≡ take rounds (drop from xs) ++ get_or xs (from + rounds) d ∷ []
  slice_snoc from rounds [] d h = absurd (omega arith)
  slice_snoc zero zero (x ∷ xs) d h = refl
  slice_snoc zero (suc rounds) (x ∷ xs) d h =
      let more = slice_snoc zero rounds xs d (omega arith) in
      rw zero-add (ap (◌∷◌ x) (rw zero-add at more))
  slice_snoc (suc from) rounds (x ∷ xs) d h = rw suc-add (slice_snoc from rounds xs d (omega arith))

  read-get_or : (v : List A) (i : ℕ) (d : A) → i < length v → read v i ≡ ok (get_or v i d)
  read-get_or [] i d h = absurd (omega arith)
  read-get_or (x ∷ v) zero d h = refl
  read-get_or (x ∷ v) (suc i) d h = read-get_or v i d (omega arith)

All-split {ℓ} :
    {A : Type ℓ} (P : A → Type 0) (xs ys : List A) → All P (xs ++ ys) → All P xs × All P ys
All-split P [] ys h = (tt, h)
All-split P (x ∷ xs) ys h = let (p, q) = All-split P xs ys h.1 in ((h.0, p), q)

module _ {T : Type 0} (default : T) (items : List T) (state : KeyState T) where
  abbrev item : ℕ → T
  item s = get_or items s default

  item_at_lem :
      (i : ℕ)
      → i < length state.order
      → get_or state.order i 0 < length items
      → item_at items state i ≡ ok (item (get_or state.order i 0))
  unfolding item_at
  item_at_lem i p q =
      ap (λ r. r >>= λ slot. read items slot) (read-get_or state.order i 0 p)
      ∙ read-get_or items (get_or state.order i 0) default q

  -- Reading upwards gives the items of a slice of the order, if its slots exist.
  pub items_up-slice :
      (rounds from : ℕ)
      → from + rounds ≤ length state.order
      → All (λ s. s < length items) (take rounds (drop from state.order))
      → items_up items state rounds from ≡ ok (map item (take rounds (drop from state.order)))
  unfolding items_up
  items_up-slice zero from h a = refl
  items_up-slice (suc rounds) from h a =
      let split = drop-get_or from state.order 0 (omega arith) in
      let a' = subst (λ l. All (λ s. s < length items) (take (suc rounds) l)) split a in
      let rest = items_up-slice rounds (suc from) (omega arith) a'.1 in
      rw (item_at_lem from (omega arith) a'.0, rest)
        (ap (λ l. ok (map item (take (suc rounds) l))) (sym split))

  -- Reading downwards gives the same items in reverse.
  pub items_down-slice :
      (rounds from : ℕ)
      → from + rounds ≤ length state.order
      → All (λ s. s < length items) (take rounds (drop from state.order))
      → items_down items state rounds from
        ≡ ok (reverse (map item (take rounds (drop from state.order))))
  unfolding items_down
  items_down-slice zero from h a = refl
  items_down-slice (suc rounds) from h a =
      let front = take rounds (drop from state.order) in
      let last = get_or state.order (from + rounds) 0 in
      let split = slice_snoc from rounds state.order 0 (omega arith) in
      let (inner, outer) =
        All-split (λ s. s < length items) front (last ∷ [])
          (subst (All (λ s. s < length items)) split a) in
      let rest = items_down-slice rounds from (omega arith) inner in
      let whole : reverse (map item (front ++ last ∷ [])) ≡ item last ∷ reverse (map item front) =
        ap reverse (map-append item front (last ∷ []))
        ∙ reverse-append (map item front) (item last ∷ []) in
      rw (item_at_lem (from + rounds) (omega arith) outer.0, rest)
        (ap ok (sym whole ∙ ap (λ l. reverse (map item l)) (sym split)))
