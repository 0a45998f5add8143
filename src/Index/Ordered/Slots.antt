-- ===== src/Index/Ordered/Slots.antt =====
-- The comparator of slots in terms of the items that they hold, and what keeps a list of slots sorted.
use Prim.Native.Nat.{Ordering}
use speed_up.Common.{
  ℕ, zero, suc, ◌<◌, ◌≡◌, refl, sym, ap, ◌∙◌, Bool, true, false, some, List, [], ◌∷◌, length, map,
  get_or, get_elem?, take, ltb, ◌==◌, if◌then◌else◌, Bool-cases, inl, inr, All, arith,
}
use speed_up.SortKey.{SortKey, key_of, has_key, tie_break, order}
use speed_up.Std.Sort.{IsSorted, IsFloor}
use speed_up.Layout.{compare_at, indices_from}
use speed_up.Index.Sorting.{slot_less, slot_order}
use speed_up.Index.Values.{kept_keys, get_or-kept_keys}
use speed_up.Index.Grouping.Counting.{tally}
use speed_up.Index.Grouping.Same.{passing, tally-passing, tally-indices, All-of_tally}
use speed_up.Index.Grouping.Slots.{picked}
use speed_up.Index.Grouping.Kept.{AreOf}

module _ {T : Type 0} (key : SortKey T) where
  -- what `slot_less` says of slots that hold x and y, where `tie` compares their numbers
  pub item_less : (x y : T) (tie : Bool) → Bool
  item_less x y tie =
      elim (if has_key key
        then (if key_of key x == key_of key y
            then tie_break key x y
            else if ltb (key_of key x) (key_of key y)
            then Ordering.lt
            else Ordering.gt)
        else order key x y) [ Ordering.lt ↦ true | Ordering.gt ↦ false | Ordering.eq ↦ tie ]

  held_or :
      (d : T) (items : List T) (s : ℕ) {x : T} → get_elem? items s ≡ some x → get_or items s d ≡ x
  held_or d [] s h = cc
  held_or d (y ∷ items) zero h = cc
  held_or d (y ∷ items) (suc s) h = held_or d items s h

  held_lt : (items : List T) (s : ℕ) {x : T} → get_elem? items s ≡ some x → s < length items
  held_lt [] s h = cc
  held_lt (y ∷ items) zero h = omega arith
  held_lt (y ∷ items) (suc s) h = omega (arith, held_lt items s h)

  pub slot_less-items :
      (items : List T) (keys : List ℕ) (s t : ℕ) (x y : T)
      → keys ≡ kept_keys key items
      → get_elem? items s ≡ some x
      → get_elem? items t ≡ some y
      → slot_less key items keys s t ≡ item_less x y (ltb s t)
  unfolding slot_less slot_order compare_at item_less
  slot_less-items [] keys s t x y e p q = cc
  slot_less-items (x₀ ∷ rest) keys s t x y e p q =
      let items = x₀ ∷ rest in
      let vx = held_or x₀ items s p in
      let vy = held_or x₀ items t q in
      let kx : get_or keys s 0 ≡ key_of key x =
        ap (λ l. get_or l s 0) e
        ∙ get_or-kept_keys key x₀ items s (held_lt items s p)
        ∙ ap (key_of key) vx in
      let ky : get_or keys t 0 ≡ key_of key y =
        ap (λ l. get_or l t 0) e
        ∙ get_or-kept_keys key x₀ items t (held_lt items t q)
        ∙ ap (key_of key) vy in
      rw (slot_less, slot_order, compare_at, item_less, vx, vy, kx, ky) refl

  pub held : (items : List T) (s : ℕ) → s < length items → (x : T) × (get_elem? items s ≡ some x)
  held [] s h = absurd (omega arith)
  held (x ∷ items) zero h = (x, refl)
  held (x ∷ items) (suc s) h = held items s (omega arith)

  -- Slots that hold the same items, in the same order, compare alike.
  pub slot_less-agree :
      (items items' : List T) (keys keys' : List ℕ) (s t s' t' : ℕ)
      → keys ≡ kept_keys key items
      → keys' ≡ kept_keys key items'
      → s < length items
      → t < length items
      → get_elem? items' s' ≡ get_elem? items s
      → get_elem? items' t' ≡ get_elem? items t
      → ltb s' t' ≡ ltb s t
      → slot_less key items' keys' s' t' ≡ slot_less key items keys s t
  slot_less-agree items items' keys keys' s t s' t' e e' p q h k tie =
      let (x, at_s) = held items s p in
      let (y, at_t) = held items t q in
      slot_less-items items' keys' s' t' x y e' (h ∙ at_s) (k ∙ at_t)
      ∙ ap (item_less x y) tie
      ∙ sym (slot_less-items items keys s t x y e at_s at_t)

-- A sorted list stays sorted under another comparator that agrees on it.
module _ (P : ℕ → Type 0) (f : ℕ → ℕ) (less less' : ℕ → ℕ → Bool)
    (agree : (s t : ℕ) → P s → P t → less' (f s) (f t) ≡ less s t) where
  map-IsFloor :
      (x : ℕ) (ys : List ℕ) → P x → All P ys → IsFloor less x ys → IsFloor less' (f x) (map f ys)
  map-IsFloor x [] p h k = tt
  map-IsFloor x (y ∷ ys) p h k = (agree y x h.0 p ∙ k.0, map-IsFloor x ys p h.1 k.1)

  pub map-IsSorted : (xs : List ℕ) → All P xs → IsSorted less xs → IsSorted less' (map f xs)
  map-IsSorted [] h k = tt
  map-IsSorted (x ∷ xs) h k = (map-IsFloor x xs h.0 h.1 k.0, map-IsSorted xs h.1 k.1)

pub map-same : (xs : List ℕ) → map (λ s. s) xs ≡ xs
map-same [] = refl
map-same (x ∷ xs) = ap (◌∷◌ x) (map-same xs)

module _ (less : ℕ → ℕ → Bool) (test : ℕ → Bool) where
  passing-IsFloor : (x : ℕ) (ys : List ℕ) → IsFloor less x ys → IsFloor less x (passing test ys)
  passing-IsFloor x [] h = tt
  passing-IsFloor x (y ∷ ys) h = elim (Bool-cases (test y)) [
    | inl e ↦ rw e (h.0, passing-IsFloor x ys h.1)
    | inr e ↦ rw e (passing-IsFloor x ys h.1)
  ]

  pub passing-IsSorted : (xs : List ℕ) → IsSorted less xs → IsSorted less (passing test xs)
  passing-IsSorted [] h = tt
  passing-IsSorted (x ∷ xs) h = elim (Bool-cases (test x)) [
    | inl e ↦ rw e (passing-IsFloor x xs h.0, passing-IsSorted xs h.1)
    | inr e ↦ rw e (passing-IsSorted xs h.1)
  ]

pub All-passing :
    (P : ℕ → Type 0) (test : ℕ → Bool) (xs : List ℕ) → All P xs → All P (passing test xs)
All-passing P test [] h = tt
All-passing P test (x ∷ xs) h = elim (Bool-cases (test x)) [
  | inl e ↦ rw e (h.0, All-passing P test xs h.1)
  | inr e ↦ rw e (All-passing P test xs h.1)
]

pub All-take : (P : ℕ → Type 0) (n : ℕ) (xs : List ℕ) → All P xs → All P (take n xs)
All-take P zero xs h = tt
All-take P (suc n) [] h = tt
All-take P (suc n) (x ∷ xs) h = (h.0, All-take P n xs h.1)

-- The blocks of a grouping have only slots that it is of.
pub AreOf-below :
    (was : List ℕ) (b : ℕ) (blocks : List (List ℕ))
    → AreOf was b blocks
    → All (λ q. All (λ s. s < length was) q) blocks
AreOf-below was b [] h = tt
AreOf-below was b (q ∷ qs) h = (
  All-of_tally (λ s. s < length was) q
      (λ s here.
        let all = indices_from 0 (length was) in
        let (few, one, before, behind) = tally-indices s 0 (length was) in
        let count = tally-passing (λ t. get_or was t 0 == b) s all in
        elim (Bool-cases (ltb s (length was))) [
          | inl l ↦ ground arith
          | inr l ↦ absurd (none_held s (h.0 s) here count (behind (ground arith)))
        ]),
  AreOf-below was (suc b) qs h.1,
)
  where
    none_held :
        (s : ℕ)
        → tally s q ≡ tally s (picked was b (indices_from 0 (length was)))
        → 0 < tally s q
        → tally s (picked was b (indices_from 0 (length was)))
          ≡ (if get_or was s 0 == b then tally s (indices_from 0 (length was)) else 0)
        → tally s (indices_from 0 (length was)) ≡ 0
        → ⊥
    none_held s e p c z = elim (Bool-cases (get_or was s 0 == b)) [
      | inl t ↦ omega (arith, rw t at c)
      | inr t ↦ omega (arith, rw t at c)
    ]
