-- ===== src/Index/Ordered/Changes.antt =====
-- `append` and `rekey` of bucket_index.hpp keep what is known of a cached order.
use mathlib.Core.Path.{subst}
use speed_up.Common.{
  ℕ, zero, suc, ◌%◌, ◌^◌, ◌<◌, ◌≤◌, ◌≡◌, ◌≢◌, refl, sym, ap, ◌∙◌, Bool, true, false, not, ◌&&◌,
  List, [], ◌∷◌, ◌++◌, length, length-append, length-set, get_or, get_elem?, set, take,
  get_elem?-set_ne, ltb, ◌==◌, ==_iff, if◌then◌else◌, Bool-cases, inl, inr, All, ok, >>=-ok,
  ok_injective, arith,
}
use speed_up.SortKey.{key_of, has_key}
use speed_up.Std.Sort.{IsSorted}
use speed_up.Index.{KeyState, bucket_for, bucket_total}
use speed_up.Index.Changes.{append_state, rekey}
use speed_up.Index.Sorting.{slot_less}
use speed_up.Index.Grouping.Same.{passing}
use speed_up.Index.Grouping.Passes.{has_moved, stayers}
use speed_up.Index.Laid.{IsLaid}
use speed_up.Index.Ordered.{StillSorted, IsOrdered}
use speed_up.Index.Ordered.Slots.{
  slot_less-agree, map-IsSorted, map-same, passing-IsSorted, All-take, AreOf-below,
}

module _ {T : Type 0} (state state' : KeyState T) (P : ℕ → Type 0) (m : ℕ)
    (less less' : ℕ → ℕ → Bool) (agree : (s t : ℕ) → P s → P t → less' s t ≡ less s t)
    (more_marks : (s : ℕ) → has_moved state s ≡ true → has_moved state' s ≡ true)
    (unmarked : (s : ℕ) → s < m → has_moved state' s ≡ false → P s) where
  fewer_stayers :
      (xs : List ℕ) → stayers state' xs ≡ passing (λ s. not (has_moved state' s)) (stayers state xs)
  fewer_stayers [] = refl
  fewer_stayers (x ∷ xs) = elim (Bool-cases (has_moved state x)) [
    | inl e ↦ rw (e, more_marks x e) (fewer_stayers xs)
    | inr e ↦ elim (Bool-cases (has_moved state' x)) [
      | inl e' ↦ rw (e, e') (fewer_stayers xs)
      | inr e' ↦ rw (e, e') (ap (◌∷◌ x) (fewer_stayers xs))
    ]
  ]

  stayers-All : (xs : List ℕ) → All (λ s. s < m) xs → All P (stayers state' xs)
  stayers-All [] h = tt
  stayers-All (x ∷ xs) h = elim (Bool-cases (has_moved state' x)) [
    | inl e ↦ rw e (stayers-All xs h.1)
    | inr e ↦ rw e (unmarked x h.0 e, stayers-All xs h.1)
  ]

  -- Fewer slots stay, and they compare as before.
  pub StillSorted-fewer :
      (l : List ℕ) (blocks : List (List ℕ))
      → All (λ q. All (λ s. s < m) q) blocks
      → StillSorted less state l blocks
      → StillSorted less' state' l blocks
  StillSorted-fewer [] [] h k = tt
  StillSorted-fewer [] (q ∷ qs) h k = elim k [ ]
  StillSorted-fewer (n ∷ l) [] h k = elim k [ ]
  StillSorted-fewer (n ∷ l) (q ∷ qs) h k =
      let xs = take n q in
      let kept = stayers state' xs in
      let one : IsSorted less kept =
        subst (IsSorted less) (sym (fewer_stayers xs))
          (passing-IsSorted less (λ s. not (has_moved state' s)) (stayers state xs) k.0) in
      (
        subst (IsSorted less') (map-same kept) (
            map-IsSorted P (λ s. s) less less' agree kept
              (stayers-All xs (All-take (λ s. s < m) n q h.0)) one),
        StillSorted-fewer l qs h.1 k.1,
      )

get_elem?-append :
    {A : Type 0} (xs ys : List A) (i : ℕ) → i < length xs → get_elem? (xs ++ ys) i ≡ get_elem? xs i
get_elem?-append [] ys i h = absurd (omega arith)
get_elem?-append (x ∷ xs) ys zero h = refl
get_elem?-append (x ∷ xs) ys (suc i) h = get_elem?-append xs ys i (omega arith)

get_or-append : (xs ys : List ℕ) (i : ℕ) → i < length xs → get_or (xs ++ ys) i 0 ≡ get_or xs i 0
get_or-append [] ys i h = absurd (omega arith)
get_or-append (x ∷ xs) ys zero h = refl
get_or-append (x ∷ xs) ys (suc i) h = get_or-append xs ys i (omega arith)

get_or-set_ne :
    {A : Type 0} (d : A) (xs : List A) (i j : ℕ) (v : A)
    → i ≢ j
    → get_or (set xs i v) j d ≡ get_or xs j d
get_or-set_ne d [] i j v h = refl
get_or-set_ne d (x ∷ xs) zero zero v h = absurd (h refl)
get_or-set_ne d (x ∷ xs) zero (suc j) v h = refl
get_or-set_ne d (x ∷ xs) (suc i) zero v h = refl
get_or-set_ne d (x ∷ xs) (suc i) (suc j) v h = get_or-set_ne d xs i j v (λ e. h (ap suc e))

get_or-set_self :
    {A : Type 0} (d : A) (xs : List A) (i : ℕ) (v : A) → i < length xs → get_or (set xs i v) i d ≡ v
get_or-set_self d [] i v h = absurd (omega arith)
get_or-set_self d (x ∷ xs) zero v h = refl
get_or-set_self d (x ∷ xs) (suc i) v h = get_or-set_self d xs i v (omega arith)

module _ {T : Type 0} where
  -- A new slot comes after the grouping.
  pub append_state-IsOrdered :
      (items : List T) (x : T) (state : KeyState T) {state' : KeyState T}
      → append_state x state ≡ ok state'
      → IsLaid items state
      → IsLaid (items ++ x ∷ []) state'
      → state.has_order ≡ true
      → IsOrdered items state
      → IsOrdered (items ++ x ∷ []) state'
  unfolding append_state bucket_total
  append_state-IsOrdered items x state {state'} h laid laid' cached o =
      let (b, given, k) = >>=-ok _ (bucket_for state x (key_of state.key x)) h in
      let made = ok_injective k in
      let keyed = rw (← made) at laid'.keyed in
      let long = laid.counted.long in
      let more = length-append state.buckets (b % 2 ^ 16 ∷ []) in
      let wide : length o.was ≤ length items =
        omega (arith, o.grouped.old, o.grouped.known, long) in
      rw (← made) (record {
        was = o.was;
        blocks = o.blocks;
        grouped = record {
          many = o.grouped.many;
          made = o.grouped.made;
          begins = o.grouped.begins;
          slots = o.grouped.slots;
          below = o.grouped.below;
          old = o.grouped.old;
          known = omega (arith, o.grouped.known, more);
          homes = λ s lt stays.
              o.grouped.homes s lt stays
              ∙ sym (
                  get_or-append state.buckets (b % 2 ^ 16 ∷ []) s
                    (omega (arith, o.grouped.old, o.grouped.known)));
        };
        sorted =
            StillSorted-fewer state state (λ s. s < length items) (length o.was)
              (slot_less state.key items state.keys)
              (slot_less state.key (items ++ x ∷ [])
                (if has_key state.key then state.keys ++ key_of state.key x ∷ [] else state.keys))
              (λ s t p q.
                slot_less-agree state.key items (items ++ x ∷ []) state.keys _ s t s t laid.keyed
                  keyed p q (get_elem?-append items (x ∷ []) s p)
                  (get_elem?-append items (x ∷ []) t q) refl)
              (λ s e. e) (λ s p e. omega arith) state.sorted_len o.blocks
              (AreOf-below o.was 0 o.blocks o.grouped.slots) o.sorted;
        marks = o.marks;
        fresh = λ current. absurd (stale state.has_order state.order_stale cached current);
      })
    where
      stale : (has was_stale : Bool) → has ≡ true → (if has then true else was_stale) ≡ false → ⊥
      stale true was_stale e h = cc
      stale false was_stale e h = cc

  -- The slot that changes is marked, if the grouping has it.
  pub rekey-IsOrdered :
      (items : List T) (x : T) (slot : ℕ) (state : KeyState T) {state' : KeyState T}
      → slot < length items
      → rekey x slot state ≡ ok state'
      → IsLaid items state
      → IsLaid (set items slot x) state'
      → state.has_order ≡ true
      → IsOrdered items state
      → IsOrdered (set items slot x) state'
  unfolding rekey bucket_total
  rekey-IsOrdered items x slot state {state'} inside h laid laid' cached o =
      let (b, given, k) = >>=-ok _ (bucket_for state x (key_of state.key x)) h in
      let made = ok_injective k in
      let keyed = rw (← made) at laid'.keyed in
      let long = laid.counted.long in
      let placed = state.has_order && ltb slot state.ordered_slots in
      let marks = if placed then set state.moved slot true else state.moved in
      let wide : length o.was ≤ length items =
        omega (arith, o.grouped.old, o.grouped.known, long) in
      let other : (s : ℕ) → s < length o.was → get_or marks s false ≡ false → s ≢ slot =
        λ s lt stays same. unmarked s slot lt same cached stays in
      let kept : (s : ℕ) → get_or state.moved s false ≡ true → get_or marks s false ≡ true =
        λ s e. still_marked placed s slot e in
      rw (← made) (record {
        was = o.was;
        blocks = o.blocks;
        grouped = record {
          many = o.grouped.many;
          made = o.grouped.made;
          begins = o.grouped.begins;
          slots = o.grouped.slots;
          below = o.grouped.below;
          old = o.grouped.old;
          known = omega (arith, o.grouped.known, length-set state.buckets slot (b % 2 ^ 16));
          homes = λ s lt stays.
              o.grouped.homes s lt (not_marked s (kept s) stays)
              ∙ sym (
                  get_or-set_ne 0 state.buckets slot s (b % 2 ^ 16)
                    (λ e. other s lt stays (sym e)));
        };
        sorted =
            StillSorted-fewer state (record state { moved = marks })
              (λ s. (s < length items) × (s ≢ slot)) (length o.was)
              (slot_less state.key items state.keys)
              (slot_less state.key (set items slot x) (
                if has_key state.key then set state.keys slot (key_of state.key x) else state.keys))
              (λ s t p q.
                slot_less-agree state.key items (set items slot x) state.keys _ s t s t laid.keyed
                  keyed p.0 q.0 (get_elem?-set_ne items x (λ e. p.1 (sym e)))
                  (get_elem?-set_ne items x (λ e. q.1 (sym e))) refl)
              kept (λ s p e. (omega arith, other s p e)) state.sorted_len o.blocks
              (AreOf-below o.was 0 o.blocks o.grouped.slots) o.sorted;
        marks = marked placed ∙ o.marks;
        fresh = λ current. up_to_date placed (b % 2 ^ 16) refl current;
      })
    where
      not_marked :
          {m : Bool} (s : ℕ)
          → (get_or state.moved s false ≡ true → m ≡ true)
          → m ≡ false
          → get_or state.moved s false ≡ false
      not_marked s h e = elim (Bool-cases (get_or state.moved s false)) [
        | inl t ↦ cc (h t)
        | inr t ↦ t
      ]

      still_marked :
          (placed : Bool) (s slot : ℕ)
          → get_or state.moved s false ≡ true
          → get_or (if placed then set state.moved slot true else state.moved) s false ≡ true
      still_marked false s slot e = e
      still_marked true s slot e = elim (Bool-cases (slot == s)) [
        | inl i ↦
            let here : slot ≡ s = (==_iff slot s).0 i in
            ap (λ j. get_or (set state.moved j true) s false) here
            ∙ marked_self s (in_marks state.moved s e)
        | inr i ↦ get_or-set_ne false state.moved slot s true (ground arith) ∙ e
      ]
        where
          marked_self :
              (s : ℕ) → s < length state.moved → get_or (set state.moved s true) s false ≡ true
          marked_self s lt = get_or-set_self false state.moved s true lt

          in_marks : (l : List Bool) (s : ℕ) → get_or l s false ≡ true → s < length l
          in_marks [] s e = cc
          in_marks (m ∷ l) zero e = omega arith
          in_marks (m ∷ l) (suc s) e = omega (arith, in_marks l s e)

      unmarked :
          (s slot : ℕ)
          → s < length o.was
          → s ≡ slot
          → state.has_order ≡ true
          → get_or
              (if state.has_order && ltb slot state.ordered_slots
                then set state.moved slot true
                else state.moved)
              s
              false
            ≡ false
          → ⊥
      unmarked s slot lt same cached stays =
          let grouped : s < length state.moved = omega (arith, lt, o.grouped.old, o.marks) in
          let early : ltb slot state.ordered_slots ≡ true =
            ground (arith, lt, same, o.grouped.old) in
          let marked = get_or-set_self false state.moved s true grouped in
          let stays' : get_or (set state.moved slot true) s false ≡ false =
            rw (cached, early) at stays in
          cc (marked, ap (λ j. get_or (set state.moved j true) s false) same, stays')

      marked :
          (placed : Bool)
          → length (if placed then set state.moved slot true else state.moved) ≡ length state.moved
      marked true = length-set state.moved slot true
      marked false = refl

      up_to_date :
          (placed : Bool) (v : ℕ)
          → placed ≡ (state.has_order && ltb slot state.ordered_slots)
          → (if placed then true else state.order_stale) ≡ false
          → (state.ordered_slots ≡ length (set state.buckets slot v))
            × ((s : ℕ)
                → get_or (if placed then set state.moved slot true else state.moved) s false
                  ≡ false)
      up_to_date true v e current = cc
      up_to_date false v e current =
          let (all, unmoved) = o.fresh current in
          let late : ltb slot state.ordered_slots ≡ false = sym (rw cached at e) in
          absurd (ground (arith, late, all, laid.counted.long, inside))
