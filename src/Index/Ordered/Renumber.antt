-- ===== src/Index/Ordered/Renumber.antt =====
-- The new numbers of the slots that `remove_if` of bucket_index.hpp keeps.
use mathlib.Core.List.{append_assoc}
use mathlib.Core.Path.{ap₂, subst}
use speed_up.Common.{
  ℕ, zero, suc, ◌+◌, ◌-◌, ◌<◌, ◌≤◌, ◌≡◌, refl, sym, ap, ◌∙◌, Bool, Option, none, some, List, [],
  ◌∷◌, ◌++◌, ◌⊎◌, length, length-append, get_or, get_elem?, get_or-append_at, ◌==◌, Bool-cases, inl,
  inr, All, arith,
}
use speed_up.Layout.{indices_from}
use speed_up.Std.Sort.{IsSorted, IsFloor}
use speed_up.Index.Grouping.Counting.{tally}
use speed_up.Index.Grouping.Same.{Same, tally-append, found_at, Same-tail, empty_of}
use speed_up.Index.Grouping.Tallies.{tally_self}
use speed_up.Index.Grouping.Slots.{bucket, picked}
use speed_up.Index.Laid.Keepers.{keepers, Numbered}

abbrev pub new_slot : List (Option ℕ) → ℕ → Option ℕ
new_slot remap s = get_or remap s none

abbrev pub with_slot : Option ℕ → List ℕ → List ℕ
with_slot none slots = slots
with_slot (some r) slots = r ∷ slots

-- The new numbers of some slots, without those that are removed.
abbrev pub renumber : List (Option ℕ) → List ℕ → List ℕ
renumber remap [] = []
renumber remap (s ∷ slots) = with_slot (new_slot remap s) (renumber remap slots)

module _ (remap : List (Option ℕ)) where
  with_slot-append : (o : Option ℕ) (xs ys : List ℕ) → with_slot o (xs ++ ys) ≡ with_slot o xs ++ ys
  with_slot-append none xs ys = refl
  with_slot-append (some r) xs ys = refl

  pub renumber-append :
      (xs ys : List ℕ) → renumber remap (xs ++ ys) ≡ renumber remap xs ++ renumber remap ys
  renumber-append [] ys = refl
  renumber-append (x ∷ xs) ys =
      ap (with_slot (new_slot remap x)) (renumber-append xs ys)
      ∙ with_slot-append (new_slot remap x) (renumber remap xs) (renumber remap ys)

  tally-with_slot :
      (s : ℕ) (o : Option ℕ) (xs : List ℕ)
      → tally s (with_slot o xs) ≡ tally s (with_slot o []) + tally s xs
  tally-with_slot s none xs = omega arith
  tally-with_slot s (some r) xs = omega arith

  pub renumber-Same : (xs ys : List ℕ) → Same xs ys → Same (renumber remap xs) (renumber remap ys)
  renumber-Same [] ys h s =
      ap (λ l. tally s (renumber remap l)) (sym (empty_of ys (λ t. sym (h t))))
  renumber-Same (x ∷ xs) ys h s =
      let (front, back, same) = found_at x ys (omega (arith, h x, tally_self x [] xs)) in
      let split : Same (x ∷ xs) (front ++ x ∷ back) = λ t. h t ∙ ap (tally t) same in
      let rest = renumber-Same xs (front ++ back) (Same-tail x xs front back split) s in
      let o = new_slot remap x in
      let left = tally-with_slot s o (renumber remap xs) in
      let right : tally s (renumber remap ys)
          ≡ tally s (renumber remap front) + tally s (with_slot o (renumber remap back)) =
        ap (λ l. tally s (renumber remap l)) same
        ∙ ap (tally s) (renumber-append front (x ∷ back))
        ∙ tally-append s (renumber remap front) (with_slot o (renumber remap back)) in
      omega (
        arith,
        left,
        right,
        tally-with_slot s o (renumber remap back),
        rest,
        ap (tally s) (renumber-append front back),
        tally-append s (renumber remap front) (renumber remap back),
      )

  -- A comparator that agrees on the new numbers.
  module _ (P : ℕ → Type 0) (less less' : ℕ → ℕ → Bool)
      (agree : (s t r q : ℕ)
        → P s
        → P t
        → new_slot remap s ≡ some r
        → new_slot remap t ≡ some q
        → less' r q ≡ less s t) where
    option_cases : (o : Option ℕ) → (o ≡ none) ⊎ (r : ℕ) × (o ≡ some r)
    option_cases none = inl refl
    option_cases (some r) = inr (r, refl)

    renumber-IsFloor :
        (x r : ℕ) (ys : List ℕ)
        → new_slot remap x ≡ some r
        → P x
        → All P ys
        → IsFloor less x ys
        → IsFloor less' r (renumber remap ys)
    renumber-IsFloor x r [] e p h k = tt
    renumber-IsFloor x r (y ∷ ys) e p h k = elim (option_cases (new_slot remap y)) [
      | inl gone ↦ rw gone (renumber-IsFloor x r ys e p h.1 k.1)
      | inr (q, kept) ↦
          rw kept (agree y x q r h.0 p kept e ∙ k.0, renumber-IsFloor x r ys e p h.1 k.1)
    ]

    pub renumber-IsSorted :
        (xs : List ℕ) → All P xs → IsSorted less xs → IsSorted less' (renumber remap xs)
    renumber-IsSorted [] h k = tt
    renumber-IsSorted (x ∷ xs) h k = elim (option_cases (new_slot remap x)) [
      | inl gone ↦ rw gone (renumber-IsSorted xs h.1 k.1)
      | inr (r, kept) ↦
          rw kept (renumber-IsFloor x r xs kept h.0 h.1 k.0, renumber-IsSorted xs h.1 k.1)
    ]

-- A slot that is kept has its item at its new number.
pub keepers-held :
    {A : Type 0} (remap : List (Option ℕ)) (k : ℕ) (xs : List A) (s r : ℕ)
    → length remap ≡ length xs
    → Numbered k remap
    → new_slot remap s ≡ some r
    → (k ≤ r) × (get_elem? (keepers remap xs) (r - k) ≡ get_elem? xs s)
keepers-held [] k xs s r n h e = cc
keepers-held (o ∷ remap) k [] s r n h e = absurd (omega arith)
keepers-held (none ∷ remap) k (x ∷ xs) zero r n h e = cc
keepers-held (none ∷ remap) k (x ∷ xs) (suc s) r n h e =
    keepers-held remap k xs s r (omega arith) h e
keepers-held (some q ∷ remap) k (x ∷ xs) zero r n h e =
    let here : r ≡ k = sym (some_injective e) ∙ h.0 in
    let first : r - k ≡ zero = omega arith in
    (omega arith, ap (get_elem? (x ∷ keepers remap xs)) first)
  where
    some_injective : {a b : ℕ} → some a ≡ some b → a ≡ b
    some_injective e = cc
keepers-held (some q ∷ remap) k (x ∷ xs) (suc s) r n h e =
    let (later, same) = keepers-held remap (suc k) xs s r (omega arith) h.1 e in
    let next : r - k ≡ suc (r - suc k) = omega arith in
    (omega arith, ap (get_elem? (x ∷ keepers remap xs)) next ∙ same)

-- New numbers are in the order of the old ones.
pub new_slot_mono :
    (remap : List (Option ℕ)) (k s t r q : ℕ)
    → Numbered k remap
    → new_slot remap s ≡ some r
    → new_slot remap t ≡ some q
    → s < t
    → (k ≤ r) × (r < q)
new_slot_mono [] k s t r q h e f lt = cc
new_slot_mono (o ∷ remap) k s zero r q h e f lt = absurd (omega arith)
new_slot_mono (none ∷ remap) k zero (suc t) r q h e f lt = cc
new_slot_mono (none ∷ remap) k (suc s) (suc t) r q h e f lt =
    new_slot_mono remap k s t r q h e f (omega arith)
new_slot_mono (some p ∷ remap) k zero (suc t) r q h e f lt =
    let here : r ≡ k = sym (some_injective e) ∙ h.0 in
    let later = new_slot_ge remap (suc k) t q h.1 f in (omega arith, omega arith)
  where
    some_injective : {a b : ℕ} → some a ≡ some b → a ≡ b
    some_injective e = cc

    new_slot_ge :
        (remap : List (Option ℕ)) (k t q : ℕ) → Numbered k remap → new_slot remap t ≡ some q → k ≤ q
    new_slot_ge [] k t q h f = cc
    new_slot_ge (none ∷ remap) k zero q h f = cc
    new_slot_ge (none ∷ remap) k (suc t) q h f = new_slot_ge remap k t q h f
    new_slot_ge (some p ∷ remap) k zero q h f = omega (arith, h.0, some_injective f)
    new_slot_ge (some p ∷ remap) k (suc t) q h f =
        omega (arith, new_slot_ge remap (suc k) t q h.1 f)
new_slot_mono (some p ∷ remap) k (suc s) (suc t) r q h e f lt =
    let (above, less) = new_slot_mono remap (suc k) s t r q h.1 e f (omega arith) in
    (omega arith, less)

-- The slots of a bucket, renumbered, are the slots of that bucket among those that are kept.
pub renumber-picked :
    (remap : List (Option ℕ)) (was was' : List ℕ) (b : ℕ) (rf rs : List (Option ℕ))
    (wf ws wf' : List ℕ)
    → remap ≡ rf ++ rs
    → was ≡ wf ++ ws
    → was' ≡ wf' ++ keepers rs ws
    → length rf ≡ length wf
    → length rs ≡ length ws
    → Numbered (length wf') rs
    → renumber remap (picked was b (indices_from (length wf) (length ws)))
      ≡ picked was' b (indices_from (length wf') (length (keepers rs ws)))
unfolding indices_from
renumber-picked remap was was' b rf [] wf [] wf' e f g n m h = refl
renumber-picked remap was was' b rf [] wf (w ∷ ws) wf' e f g n m h = absurd (omega arith)
renumber-picked remap was was' b rf (o ∷ rs) wf [] wf' e f g n m h = absurd (omega arith)
renumber-picked remap was was' b rf (none ∷ rs) wf (w ∷ ws) wf' e f g n m h =
    let s = length wf in
    let at_s : bucket was s ≡ w = ap (λ l. get_or l s 0) f ∙ get_or-append_at 0 wf w ws in
    let gone : new_slot remap s ≡ none =
      ap₂ (λ l i. get_or l i none) e (sym n) ∙ get_or-append_at none rf none rs in
    let next : length (wf ++ w ∷ []) ≡ suc s = omega (arith, length-append wf (w ∷ [])) in
    let more : length (rf ++ none ∷ []) ≡ length (wf ++ w ∷ []) =
      omega (arith, length-append rf (none ∷ []), length-append wf (w ∷ []), n) in
    let rest =
      renumber-picked remap was was' b (rf ++ none ∷ []) rs (wf ++ w ∷ []) ws wf'
        (e ∙ sym (append_assoc rf (none ∷ []) rs)) (f ∙ sym (append_assoc wf (w ∷ []) ws)) g more
        (omega arith) h in
    let rest' : renumber remap (picked was b (indices_from (suc s) (length ws)))
        ≡ picked was' b (indices_from (length wf') (length (keepers rs ws))) =
      ap (λ i. renumber remap (picked was b (indices_from i (length ws)))) (sym next) ∙ rest in
    elim (Bool-cases (w == b)) [ inl k ↦ rw (at_s, k, gone) rest' | inr k ↦ rw (at_s, k) rest' ]
renumber-picked remap was was' b rf (some r ∷ rs) wf (w ∷ ws) wf' e f g n m h =
    let s = length wf in
    let t = length wf' in
    let at_s : bucket was s ≡ w = ap (λ l. get_or l s 0) f ∙ get_or-append_at 0 wf w ws in
    let at_t : bucket was' t ≡ w =
      ap (λ l. get_or l t 0) g ∙ get_or-append_at 0 wf' w (keepers rs ws) in
    let kept : new_slot remap s ≡ some t =
      ap₂ (λ l i. get_or l i none) e (sym n) ∙ get_or-append_at none rf (some r) rs ∙ ap some h.0 in
    let next : length (wf ++ w ∷ []) ≡ suc s = omega (arith, length-append wf (w ∷ [])) in
    let next' : length (wf' ++ w ∷ []) ≡ suc t = omega (arith, length-append wf' (w ∷ [])) in
    let more : length (rf ++ some r ∷ []) ≡ length (wf ++ w ∷ []) =
      omega (arith, length-append rf (some r ∷ []), length-append wf (w ∷ []), n) in
    let rest =
      renumber-picked remap was was' b (rf ++ some r ∷ []) rs (wf ++ w ∷ []) ws (wf' ++ w ∷ [])
        (e ∙ sym (append_assoc rf (some r ∷ []) rs)) (f ∙ sym (append_assoc wf (w ∷ []) ws))
        (g ∙ sym (append_assoc wf' (w ∷ []) (keepers rs ws))) more (omega arith)
        (subst (λ i. Numbered i rs) (sym next') h.1) in
    let rest' : renumber remap (picked was b (indices_from (suc s) (length ws)))
        ≡ picked was' b (indices_from (suc t) (length (keepers rs ws))) =
      ap (λ i. renumber remap (picked was b (indices_from i (length ws)))) (sym next)
      ∙ rest
      ∙ ap (λ i. picked was' b (indices_from i (length (keepers rs ws)))) next' in
    elim (Bool-cases (w == b)) [
      | inl k ↦ rw (at_s, at_t, k, kept) (ap (◌∷◌ t) rest')
      | inr k ↦ rw (at_s, at_t, k) rest'
    ]
