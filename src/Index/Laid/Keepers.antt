-- ===== src/Index/Laid/Keepers.antt =====
-- Filtering a vector in place, as `remove_if` and `compact` of bucket_index.hpp do: what is in front has
-- its final place, what follows is left over, and the rest is still to be read.
use mathlib.Core.Path.{ap₂}
use mathlib.Core.List.{append_assoc, append-nil}
use speed_up.Common.{
  ℕ, zero, suc, ◌+◌, ◌<◌, ◌≤◌, ◌≡◌, refl, sym, ap, ◌∙◌, Bool, Option, none, some, List, [], ◌∷◌,
  ◌++◌, length, get_or, get_elem?, set, take, map, length-append, All, ◌==◌, if◌then◌else◌,
  Bool-cases, inl, inr, ==_iff, arith,
}
use speed_up.Index.Changes.{remap_loop, move_items}

-- What the new slots keep.
abbrev pub keepers : {A : Type 0} → List (Option ℕ) → List A → List A
keepers [] xs = []
keepers (r ∷ remap) [] = []
keepers (none ∷ remap) (x ∷ xs) = keepers remap xs
keepers (some r ∷ remap) (x ∷ xs) = x ∷ keepers remap xs

-- The new slots are `k`, `k + 1`, and so on.
abbrev pub Numbered : ℕ → List (Option ℕ) → Type 0
Numbered k [] = Unit
Numbered k (none ∷ remap) = Numbered k remap
Numbered k (some r ∷ remap) = (r ≡ k) × Numbered (suc k) remap

module _ {A : Type 0} where
  pub length-keepers :
      (remap : List (Option ℕ)) (xs : List A) → length (keepers remap xs) ≤ length xs
  length-keepers [] xs = omega arith
  length-keepers (r ∷ remap) [] = omega arith
  length-keepers (none ∷ remap) (x ∷ xs) = omega (arith, length-keepers remap xs)
  length-keepers (some r ∷ remap) (x ∷ xs) = omega (arith, length-keepers remap xs)

  pub length-keepers_same :
      {B : Type 0} (remap : List (Option ℕ)) (xs : List A) (ys : List B)
      → length xs ≡ length ys
      → length (keepers remap xs) ≡ length (keepers remap ys)
  length-keepers_same [] xs ys h = refl
  length-keepers_same (r ∷ remap) [] [] h = refl
  length-keepers_same (none ∷ remap) (x ∷ xs) (y ∷ ys) h =
      length-keepers_same remap xs ys (omega arith)
  length-keepers_same (some r ∷ remap) (x ∷ xs) (y ∷ ys) h =
      ap suc (length-keepers_same remap xs ys (omega arith))
  length-keepers_same (r ∷ remap) [] (y ∷ ys) h = absurd (omega arith)
  length-keepers_same (r ∷ remap) (x ∷ xs) [] h = absurd (omega arith)

  pub keepers-map :
      {B : Type 0} (f : A → B) (remap : List (Option ℕ)) (xs : List A)
      → map f (keepers remap xs) ≡ keepers remap (map f xs)
  keepers-map f [] xs = refl
  keepers-map f (r ∷ remap) [] = refl
  keepers-map f (none ∷ remap) (x ∷ xs) = keepers-map f remap xs
  keepers-map f (some r ∷ remap) (x ∷ xs) = ap (◌∷◌ (f x)) (keepers-map f remap xs)

  pub All-keepers :
      (P : A → Type 0) (remap : List (Option ℕ)) (xs : List A) → All P xs → All P (keepers remap xs)
  All-keepers P [] xs h = tt
  All-keepers P (r ∷ remap) [] h = tt
  All-keepers P (none ∷ remap) (x ∷ xs) h = All-keepers P remap xs h.1
  All-keepers P (some r ∷ remap) (x ∷ xs) h = (h.0, All-keepers P remap xs h.1)

  -- A vector while it is filtered.
  abbrev pub Shape : (front junk rest v : List A) → Type 0
  Shape front junk rest v = v ≡ front ++ (junk ++ rest)

  pub Shape-skip :
      (front junk : List A) (x : A) (rest v : List A)
      → Shape front junk (x ∷ rest) v
      → Shape front (junk ++ x ∷ []) rest v
  Shape-skip front junk x rest v h =
      h ∙ ap (λ l. front ++ l) (sym (append_assoc junk (x ∷ []) rest))

  get_or-append :
      (d : A) (xs ys : List A) (i : ℕ) → get_or (xs ++ ys) (length xs + i) d ≡ get_or ys i d
  get_or-append d [] ys i = ap (λ j. get_or ys j d) (omega arith)
  get_or-append d (x ∷ xs) ys i =
      let next : length (x ∷ xs) + i ≡ suc (length xs + i) = omega arith in
      ap (λ j. get_or (x ∷ (xs ++ ys)) j d) next ∙ get_or-append d xs ys i

  pub Shape-read :
      (d : A) (front junk : List A) (x : A) (rest v : List A) (slot : ℕ)
      → slot ≡ length front + length junk
      → Shape front junk (x ∷ rest) v
      → get_or v slot d ≡ x
  Shape-read d front junk x rest v slot e h =
      let here : length junk ≡ length junk + 0 = omega arith in
      ap (λ l. get_or l slot d) h
      ∙ ap (λ i. get_or (front ++ (junk ++ x ∷ rest)) i d) e
      ∙ get_or-append d front (junk ++ x ∷ rest) (length junk)
      ∙ ap (λ i. get_or (junk ++ x ∷ rest) i d) here
      ∙ get_or-append d junk (x ∷ rest) 0

  pub set-append : (xs ys : List A) (v : A) → set (xs ++ ys) (length xs) v ≡ xs ++ set ys 0 v
  set-append [] ys v = refl
  set-append (x ∷ xs) ys v = ap (◌∷◌ x) (set-append xs ys v)

  -- Another element is written where the next one goes.
  pub Shape-put :
      (front junk : List A) (x : A) (rest v : List A) (y : A)
      → Shape front junk (x ∷ rest) v
      → (junk' : List A) × (length junk' ≡ length junk)
        × Shape (front ++ y ∷ []) junk' rest (set v (length front) y)
  Shape-put front [] x rest v y h = (
    [],
    refl,
    ap (λ l. set l (length front) y) h
        ∙ set-append front (x ∷ rest) y
        ∙ sym (append_assoc front (y ∷ []) rest),
  )
  Shape-put front (j ∷ junk) x rest v y h = (
    junk ++ x ∷ [],
    omega (arith, length-append junk (x ∷ [])),
    ap (λ l. set l (length front) y) h
        ∙ set-append front (j ∷ (junk ++ x ∷ rest)) y
        ∙ ap (λ l. front ++ y ∷ l) (sym (append_assoc junk (x ∷ []) rest))
        ∙ sym (append_assoc front (y ∷ []) ((junk ++ x ∷ []) ++ rest)),
  )

  pub Shape-keep :
      (front junk : List A) (x : A) (rest v : List A)
      → Shape front junk (x ∷ rest) v
      → (junk' : List A) × (length junk' ≡ length junk)
        × Shape (front ++ x ∷ []) junk' rest (set v (length front) x)
  Shape-keep front junk x rest v h = Shape-put front junk x rest v x h

  -- the element at `slot`, written where the next one goes
  pub Shape-written :
      (d : A) (front junk : List A) (x : A) (rest v : List A) (slot write : ℕ)
      → slot ≡ length front + length junk
      → write ≡ length front
      → Shape front junk (x ∷ rest) v
      → (junk' : List A) × (suc slot ≡ length (front ++ x ∷ []) + length junk')
        × (suc write ≡ length (front ++ x ∷ []))
        × Shape (front ++ x ∷ []) junk' rest (set v write (get_or v slot d))
  Shape-written d front junk x rest v slot write e w h =
      let (junk', same, shape) = Shape-keep front junk x rest v h in
      (
        junk',
        omega (arith, length-append front (x ∷ []), same),
        omega (arith, length-append front (x ∷ [])),
        ap₂ (set v) w (Shape-read d front junk x rest v slot e h) ∙ shape,
      )

  take-append : (xs ys : List A) → take (length xs) (xs ++ ys) ≡ xs
  take-append [] ys = refl
  take-append (x ∷ xs) ys = ap (◌∷◌ x) (take-append xs ys)

  pub Shape-taken :
      (front junk v : List A) (kept : ℕ)
      → kept ≡ length front
      → Shape front junk [] v
      → take kept v ≡ front
  Shape-taken front junk v kept e h =
      ap (λ l. take kept l) h
      ∙ ap (λ i. take i (front ++ (junk ++ []))) e
      ∙ take-append front (junk ++ [])

module _ {T : Type 0} (match : T → Bool) where
  -- The first loop of `remove_if` numbers the slots that are kept.
  pub remap_loop-Numbered :
      (items : List T) (kept : ℕ)
      → Numbered kept (remap_loop match items kept).0
        × (length (remap_loop match items kept).0 ≡ length items)
        × ((remap_loop match items kept).1
            ≡ kept + length (keepers (remap_loop match items kept).0 items))
  unfolding remap_loop
  remap_loop-Numbered [] kept = (tt, refl, omega arith)
  remap_loop-Numbered (x ∷ items) kept = elim (Bool-cases (match x)) [
    | inl e ↦
        let (numbered, long, total) = remap_loop-Numbered items kept in
        rw e (numbered, ap suc long, total)
    | inr e ↦
        let (numbered, long, total) = remap_loop-Numbered items (suc kept) in
        rw e ((refl, numbered), ap suc long, omega (arith, total))
  ]

module _ {A : Type 0} where
  get_elem?-get_or :
      (d : A) (xs : List A) (i : ℕ) → i < length xs → get_elem? xs i ≡ some (get_or xs i d)
  get_elem?-get_or d [] i h = absurd (omega arith)
  get_elem?-get_or d (x ∷ xs) zero h = refl
  get_elem?-get_or d (x ∷ xs) (suc i) h = get_elem?-get_or d xs i (omega arith)

  -- the write of one element that is kept
  abbrev moved : (r slot : ℕ) → List A → List A
  moved r slot v =
      if r == slot then v else (elim (get_elem? v slot) [ none ↦ v | some x ↦ set v r x ])

  moved-set :
      (front junk : List A) (x : A) (rest v : List A) (slot : ℕ)
      → slot ≡ length front + length junk
      → Shape front junk (x ∷ rest) v
      → moved (length front) slot v ≡ set v (length front) x
  moved-set front junk x rest v slot e h = elim (Bool-cases (length front == slot)) [
    | inl same ↦
        let here = (==_iff (length front) slot).0 same in
        let empty : length junk ≡ 0 = omega arith in rw same (unmoved front junk x rest v empty h)
    | inr other ↦
        let inside : slot < length v = omega (
          arith,
          ap length h,
          length-append front (junk ++ x ∷ rest),
          length-append junk (x ∷ rest),
        ) in
        rw (other, get_elem?-get_or x v slot inside, Shape-read x front junk x rest v slot e h) refl
  ]
    where
      unmoved :
          (front junk : List A) (x : A) (rest v : List A)
          → length junk ≡ 0
          → Shape front junk (x ∷ rest) v
          → v ≡ set v (length front) x
      unmoved front [] x rest v empty h =
          h ∙ sym (set-append front (x ∷ rest) x) ∙ ap (λ l. set l (length front) x) (sym h)
      unmoved front (j ∷ junk) x rest v empty h = absurd (omega arith)

  -- The second loop of `remove_if` moves the items that are kept to their new slots.
  move_items-Shape :
      (remap : List (Option ℕ)) (front junk rest v : List A) (slot : ℕ)
      → slot ≡ length front + length junk
      → length remap ≡ length rest
      → Numbered (length front) remap
      → Shape front junk rest v
      → (junk' : List A) × Shape (front ++ keepers remap rest) junk' [] (move_items remap slot v)
  unfolding move_items
  move_items-Shape [] front junk [] v slot e n k h =
      (junk, h ∙ ap (λ l. l ++ (junk ++ [])) (sym (append-nil front)))
  move_items-Shape (none ∷ remap) front junk (x ∷ rest) v slot e n k h =
      move_items-Shape remap front (junk ++ x ∷ []) rest v (suc slot)
        (omega (arith, length-append junk (x ∷ []))) (omega arith) k
        (Shape-skip front junk x rest v h)
  move_items-Shape (some r ∷ remap) front junk (x ∷ rest) v slot e n k h =
      let more = front ++ x ∷ [] in
      let longer : suc (length front) ≡ length more = omega (arith, length-append front (x ∷ [])) in
      let (junk', same, shape) = Shape-keep front junk x rest v h in
      let written : moved r slot v ≡ set v (length front) x =
        ap (λ i. moved i slot v) k.0 ∙ moved-set front junk x rest v slot e h in
      let (left, done) =
        move_items-Shape remap more junk' rest (moved r slot v) (suc slot)
          (omega (arith, length-append front (x ∷ []), same)) (omega arith) (rw longer at k.1)
          (written ∙ shape) in
      (left, done ∙ ap (λ l. l ++ (left ++ [])) (append_assoc front (x ∷ []) (keepers remap rest)))
  move_items-Shape [] front junk (x ∷ rest) v slot e n k h = absurd (omega arith)
  move_items-Shape (r ∷ remap) front junk [] v slot e n k h = absurd (omega arith)

  pub move_items-keepers :
      (remap : List (Option ℕ)) (items : List A) (kept : ℕ)
      → length remap ≡ length items
      → Numbered 0 remap
      → kept ≡ length (keepers remap items)
      → take kept (move_items remap 0 items) ≡ keepers remap items
  move_items-keepers remap items kept n k e =
      let (left, done) = move_items-Shape remap [] [] items items 0 (omega arith) n k refl in
      Shape-taken (keepers remap items) left (move_items remap 0 items) kept e done
