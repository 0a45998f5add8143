-- ===== src/Index/Values.antt =====
-- From slots to elements: sorting the slots of a key without groups is the stable sort of the items.
use mathlib.Core.Path.{ap₂}
use mathlib.Core.List.{append_assoc}
use speed_up.Common.{
  ℕ, zero, suc, ◌+◌, ◌<◌, ◌≤◌, ◌≡◌, refl, sym, ap, ◌∙◌, Bool, true, false, none, List, [], ◌∷◌,
  ◌++◌, length, map, length-map, get_or, if◌then◌else◌, Bool-cases, inl, inr, All, length-append,
  arith,
}
use speed_up.SortKey.{SortKey, is_negative, key_of, has_key, tie_break, compare_keys, order}
use speed_up.SortKey.Order.{IsThreeWay, less_by, order-IsThreeWay, order-compare_keys, raw_group}
use speed_up.Layout.{BucketLayout, compare_at, indices_from, bucket_of}
use speed_up.Layout.Buckets.{bucket_of_mono}
use speed_up.Std.{insert, stable_sort}
use speed_up.Std.Sort.{insert-All}
use speed_up.Std.Commute.{IsTotal}
use speed_up.Index.Sorting.{slot_less, slot_order}
use speed_up.Layout.Within.{compare_at-IsThreeWay}
use speed_up.Index.Sorting.Whole.{InOrder, All-map}

module _ {T : Type 0} (key : SortKey T) where
  -- The normalized keys that a key state keeps: none for a key without a key function.
  abbrev pub kept_keys : List T → List ℕ
  kept_keys items = if has_key key then map (key_of key) items else []

  -- Each slot has its item's bucket, and its item's normalized key if there is one.
  pub record Assigned (place : T → ℕ) (items : List T) (keys buckets : List ℕ) : Type 0 where
    pub keyed : keys ≡ kept_keys items
    pub placed : buckets ≡ map place items

  pub get_or-map :
      (f : T → ℕ) (default : T) (items : List T) (s : ℕ)
      → s < length items
      → get_or (map f items) s 0 ≡ f (get_or items s default)
  get_or-map f default [] s h = absurd (omega arith)
  get_or-map f default (x ∷ items) zero h = refl
  get_or-map f default (x ∷ items) (suc s) h = get_or-map f default items s (omega arith)

  pub key_of-none : (x : T) → has_key key ≡ false → key_of key x ≡ 0
  unfolding key_of has_key
  key_of-none x e = ground arith

  pub get_or-kept_keys :
      (default : T) (items : List T) (s : ℕ)
      → s < length items
      → get_or (kept_keys items) s 0 ≡ key_of key (get_or items s default)
  get_or-kept_keys default items s h = elim (Bool-cases (has_key key)) [
    | inl e ↦ rw e (get_or-map (key_of key) default items s h)
    | inr e ↦ rw e (sym (key_of-none (get_or items s default) e))
  ]

  pub Assigned-at :
      (place : T → ℕ) (default : T) (items : List T) (keys buckets : List ℕ) (s : ℕ)
      → Assigned place items keys buckets
      → s < length items
      → (get_or keys s 0 ≡ key_of key (get_or items s default))
        × (get_or buckets s 0 ≡ place (get_or items s default))
  Assigned-at place default items keys buckets s a h = (
    ap (λ l. get_or l s 0) a.keyed ∙ get_or-kept_keys default items s h,
    ap (λ l. get_or l s 0) a.placed ∙ get_or-map place default items s h,
  )

  pub Assigned-length :
      (place : T → ℕ) (items : List T) (keys buckets : List ℕ)
      → Assigned place items keys buckets
      → length buckets ≡ length items
  Assigned-length place items keys buckets a = ap length a.placed ∙ length-map items place

-- The list of what the slots hold.
module _ {T : Type 0} (key : SortKey T) (ungrouped : key.group_function ≡ none) where
  one_group : (x y : T) → raw_group key x ≡ raw_group key y
  one_group x y = rw ungrouped refl

  module _ (default : T) (items : List T) (keys : List ℕ)
      (keyed : (s : ℕ)
        → s < length items
        → get_or keys s 0 ≡ key_of key (get_or items s default)) where
    -- Two slots compare as their items do.
    compare_at-order :
        (s t : ℕ)
        → s < length items
        → t < length items
        → compare_at key default items keys s t
          ≡ order key (get_or items s default) (get_or items t default)
    unfolding compare_at
    compare_at-order s t p q =
        let x = get_or items s default in
        let y = get_or items t default in
        let plain = order-compare_keys key x y (one_group x y) in
        elim (Bool-cases (has_key key)) [
          | inr e ↦ rw e refl
          | inl e ↦ rw (e, keyed s p, keyed t q) (unfold compare_keys in sym plain)
        ]

-- From here on the first item stands for a slot out of range, as in `slot_less`.
module _ {T : Type 0} (key : SortKey T) (ungrouped : key.group_function ≡ none)
    (c : IsThreeWay (tie_break key)) (x₀ : T) (rest : List T) (keys : List ℕ)
    (keyed : (s : ℕ)
      → s < length (x₀ ∷ rest)
      → get_or keys s 0 ≡ key_of key (get_or (x₀ ∷ rest) s x₀)) where
  abbrev value : ℕ → T
  value s = get_or (x₀ ∷ rest) s x₀

  abbrev below : ℕ → ℕ → Bool
  below = slot_less key (x₀ ∷ rest) keys

  abbrev goes_before : T → T → Bool
  goes_before = less_by (order key)

  same_order :
      (s t : ℕ)
      → s < length (x₀ ∷ rest)
      → t < length (x₀ ∷ rest)
      → compare_at key x₀ (x₀ ∷ rest) keys s t ≡ order key (value s) (value t)
  same_order s t p q = compare_at-order key ungrouped x₀ (x₀ ∷ rest) keys keyed s t p q

  -- A later slot is below an earlier one exactly when its item goes before.
  slot_less-value :
      (s t : ℕ) → s < t → t < length (x₀ ∷ rest) → below t s ≡ goes_before (value t) (value s)
  unfolding slot_less slot_order
  slot_less-value s t p q = ground (arith, same_order t s q (omega arith))

  insert-value :
      (s : ℕ) (l : List ℕ)
      → All (λ t. (s < t) × (t < length (x₀ ∷ rest))) l
      → map value (insert below s l) ≡ insert goes_before (value s) (map value l)
  unfolding insert
  insert-value s [] h = refl
  insert-value s (t ∷ l) h =
      let same = slot_less-value s t h.0.0 h.0.1 in
      elim (Bool-cases (below t s)) [
        | inl e ↦ rw (e, sym same ∙ e) (ap (◌∷◌ (value t)) (insert-value s l h.1))
        | inr e ↦ rw (e, sym same ∙ e) refl
      ]

  -- Sorting the slots is sorting the items.
  sort-values :
      (s m : ℕ)
      → s + m ≤ length (x₀ ∷ rest)
      → All (λ t. (s ≤ t) × (t < length (x₀ ∷ rest))) (stable_sort below (indices_from s m))
        × (map value (stable_sort below (indices_from s m))
            ≡ stable_sort goes_before (map value (indices_from s m)))
  unfolding stable_sort indices_from
  sort-values s zero h = (tt, refl)
  sort-values s (suc m) h =
      let (later, same) = sort-values (suc s) m (omega arith) in
      let rest_sorted = stable_sort below (indices_from (suc s) m) in
      (
        insert-All below (λ t. (s ≤ t) × (t < length (x₀ ∷ rest))) s rest_sorted
            (omega arith, omega arith) (All-map (λ t p. (omega arith, p.1)) rest_sorted later),
        insert-value s rest_sorted (All-map (λ t p. (omega arith, p.1)) rest_sorted later)
            ∙ ap (insert goes_before (value s)) same,
      )

  map-indices :
      (front xs : List T)
      → map (λ s. get_or (front ++ xs) s x₀) (indices_from (length front) (length xs)) ≡ xs
  unfolding indices_from
  map-indices front [] = refl
  map-indices front (x ∷ xs) =
      let more = front ++ x ∷ [] in
      let next : length more ≡ suc (length front) = omega (arith, length-append front (x ∷ [])) in
      ap₂ ◌∷◌ (at_front front x xs) (
        ap₂ (λ ys i. map (λ s. get_or ys s x₀) (indices_from i (length xs)))
          (sym (append_assoc front (x ∷ []) xs)) (sym next)
        ∙ map-indices more xs)
    where
      at_front :
          (front : List T) (x : T) (xs : List T) → get_or (front ++ x ∷ xs) (length front) x₀ ≡ x
      at_front [] x xs = refl
      at_front (y ∷ front) x xs = at_front front x xs

  -- All slots, sorted, hold the items in the order of `std::stable_sort`.
  pub values-sorted :
      map value (stable_sort below (indices_from 0 (length (x₀ ∷ rest))))
      ≡ stable_sort goes_before (x₀ ∷ rest)
  values-sorted =
      (sort-values 0 (length (x₀ ∷ rest)) (omega arith)).1
      ∙ ap (stable_sort goes_before) (map-indices [] (x₀ ∷ rest))

  pub sorted-in_range :
      All (λ t. t < length (x₀ ∷ rest)) (stable_sort below (indices_from 0 (length (x₀ ∷ rest))))
  sorted-in_range =
      All-map (λ t p. p.1) (stable_sort below (indices_from 0 (length (x₀ ∷ rest))))
        (sort-values 0 (length (x₀ ∷ rest)) (omega arith)).0

  -- A slot that is below another does not have the greater item.
  not_before :
      (t s : ℕ)
      → t < length (x₀ ∷ rest)
      → s < length (x₀ ∷ rest)
      → below t s ≡ true
      → is_negative (order key (value s) (value t)) ≡ false
  unfolding slot_less slot_order
  not_before t s p q e =
      let w = order-IsThreeWay key c in
      ground (arith, same_order t s p q, w.flips (value t) (value s))

  -- Buckets follow the order of the slots.
  pub slot_less-InOrder :
      (layout : BucketLayout T) (buckets : List ℕ)
      → Assigned key (bucket_of key layout) (x₀ ∷ rest) keys buckets
      → InOrder below buckets
  slot_less-InOrder layout buckets a s t p q h =
      let n = Assigned-length key (bucket_of key layout) (x₀ ∷ rest) keys buckets a in
      let bucket = λ (i : ℕ) (lt : i < length (x₀ ∷ rest)).
        (Assigned-at key (bucket_of key layout) x₀ (x₀ ∷ rest) keys buckets i a lt).1 in
      elim (Bool-cases (below t s)) [
        | inr e ↦ e
        | inl e ↦
            let t_in : t < length (x₀ ∷ rest) = omega arith in
            let s_in : s < length (x₀ ∷ rest) = omega arith in
            let late =
              bucket_of_mono key layout c (value t) (value s)
                (one_group key ungrouped (value s) (value t)) (not_before t s t_in s_in e) in
            absurd (omega (arith, late, bucket s s_in, bucket t t_in))
      ]

module _ {T : Type 0} (key : SortKey T) (c : IsThreeWay (tie_break key)) where
  -- Slots never tie: the slot number decides at last.
  pub slot_less-IsTotal : (items : List T) (keys : List ℕ) → IsTotal (slot_less key items keys)
  unfolding slot_less slot_order
  slot_less-IsTotal [] keys a b p q = ground arith
  slot_less-IsTotal (x ∷ items) keys a b p q =
      let w = compare_at-IsThreeWay key c (x ∷ items) keys x in ground (arith, w.flips a b)
