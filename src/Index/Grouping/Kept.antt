-- ===== src/Index/Grouping/Kept.antt =====
-- A cached grouping of bucket_index.hpp that may be out of date: what `regroup` relies on, and the slots
-- in the order in which it places them.
use native.Mathlib.Nat.{zero-add}
use speed_up.Common.{
  ℕ, suc, ◌+◌, ◌-◌, ◌<◌, ◌≤◌, ◌≡◌, ◌≢◌, refl, sym, ap, ◌∙◌, false, List, [], ◌∷◌, ◌++◌, length, map,
  get_or, ltb, ◌==◌, if◌then◌else◌, Bool-cases, inl, inr, ==_iff, All, All-at, arith,
}
use speed_up.Layout.{indices_from}
use speed_up.Index.{KeyState, bucket_total}
use speed_up.Index.Grouping.Counting.{tally}
use speed_up.Index.Grouping.Same.{
  Same, tally-append, tally-passing, tally-parts, tally-indices, All-of_tally, indices-append,
}
use speed_up.Index.Grouping.Slots.{bucket, picked}
use speed_up.Index.Grouping.Passes.{has_moved, stayers, movers, AllHome}
use speed_up.Index.Sorting.Blocks.{concat, starts}

-- Each block has the slots of its bucket, by the buckets that the slots had.
abbrev pub AreOf : (was : List ℕ) (b : ℕ) → List (List ℕ) → Type 0
AreOf was b [] = Unit
AreOf was b (p ∷ ps) = Same p (picked was b (indices_from 0 (length was))) × AreOf was (suc b) ps

module _ {T : Type 0} where
  -- The order is made of a block for each bucket, of the slots that were in it when the slots were
  -- grouped last; a slot that is not marked as moved is still there.
  pub record IsGrouped (state : KeyState T) (was : List ℕ) (blocks : List (List ℕ)) : Type 0 where
    pub many : length blocks ≡ bucket_total state
    pub made : state.order ≡ concat blocks
    pub begins : state.start ≡ starts 0 blocks
    pub slots : AreOf was 0 blocks
    pub below : All (λ b. b < length blocks) was
    pub old : length was ≡ state.ordered_slots
    pub known : state.ordered_slots ≤ length state.buckets
    pub homes :
        (s : ℕ)
        → s < length was
        → has_moved state s ≡ false
        → get_or was s 0 ≡ bucket state.buckets s

-- A slot that was in a bucket is in its block, and in no other.
tally-blocks :
    (was : List ℕ) (s b : ℕ) (blocks : List (List ℕ))
    → AreOf was b blocks
    → (b ≤ get_or was s 0
        → get_or was s 0 < b + length blocks
        → tally s (concat blocks) ≡ tally s (indices_from 0 (length was)))
      × (get_or was s 0 < b → tally s (concat blocks) ≡ 0)
      × (tally s (indices_from 0 (length was)) ≡ 0 → tally s (concat blocks) ≡ 0)
tally-blocks was s b [] h = (λ p q. absurd (omega arith), λ p. refl, λ p. refl)
tally-blocks was s b (p ∷ ps) h =
    let all = tally s (indices_from 0 (length was)) in
    let (inside, before, nowhere) = tally-blocks was s (suc b) ps h.1 in
    let here : tally s p ≡ (if get_or was s 0 == b then all else 0) =
      h.0 s ∙ tally-passing (λ t. get_or was t 0 == b) s (indices_from 0 (length was)) in
    let both : tally s (concat (p ∷ ps)) ≡ tally s p + tally s (concat ps) =
      tally-append s p (concat ps) in
    elim (Bool-cases (get_or was s 0 == b)) [
      | inl e ↦
          let at_b = (==_iff (get_or was s 0) b).0 e in
          let one : tally s p ≡ all = rw e at here in
          let none_later = before (omega arith) in
          (
            λ q r. omega (arith, one, none_later, both),
            λ q. absurd (omega arith),
            λ q. omega (arith, one, none_later, both, q),
          )
      | inr e ↦
          let none_here : tally s p ≡ 0 = rw e at here in
          let other : get_or was s 0 ≢ b = ground arith in
          (
            λ q r. omega (arith, none_here, both, inside (omega (arith, other)) (omega arith)),
            λ q. omega (arith, none_here, both, before (omega arith)),
            λ q. omega (arith, none_here, both, nowhere q),
          )
    ]

pub concat-Same :
    (was : List ℕ) (blocks : List (List ℕ))
    → AreOf was 0 blocks
    → All (λ b. b < length blocks) was
    → Same (concat blocks) (indices_from 0 (length was))
concat-Same was blocks h below s =
    let n = length was in
    let (few, one, before, behind) = tally-indices s 0 n in
    let (inside, lower, nowhere) = tally-blocks was s 0 blocks h in
    elim (Bool-cases (ltb s n)) [
      | inl e ↦
          let lt : s < n = ground arith in
          inside (omega arith) (omega (arith, All-at (λ b. b < length blocks) was s 0 below lt))
      | inr e ↦ let none_there = behind (ground arith) in nowhere none_there ∙ sym none_there
    ]

module _ {T : Type 0} (state : KeyState T) where
  tally-kept :
      (s : ℕ) (blocks : List (List ℕ))
      → tally s (concat (map (movers state) blocks)) + tally s (concat (map (stayers state) blocks))
        ≡ tally s (concat blocks)
  tally-kept s [] = refl
  tally-kept s (p ∷ ps) = omega (
    arith,
    tally-append s p (concat ps),
    tally-append s (movers state p) (concat (map (movers state) ps)),
    tally-append s (stayers state p) (concat (map (stayers state) ps)),
    tally-parts (has_moved state) s p,
    tally-kept s ps,
  )

  -- The slots in the order in which `regroup` places them: those that stay, those that moved, and
  -- those that came after the last grouping.
  abbrev pub placing : List (List ℕ) → (n : ℕ) → List ℕ
  placing blocks n =
      concat (map (stayers state) blocks)
      ++ (concat (map (movers state) blocks)
          ++ indices_from state.ordered_slots (n - state.ordered_slots))

  -- They are all slots.
  pub placing-Same :
      (was : List ℕ) (blocks : List (List ℕ))
      → IsGrouped state was blocks
      → Same (placing blocks (length state.buckets)) (indices_from 0 (length state.buckets))
  placing-Same was blocks g s =
      let n = length state.buckets in
      let m = state.ordered_slots in
      let stay = concat (map (stayers state) blocks) in
      let move = concat (map (movers state) blocks) in
      let new = indices_from m (n - m) in
      let total : m + (n - m) ≡ n = omega (arith, g.known) in
      let from_zero : 0 + m ≡ m = zero-add m in
      let old : tally s (concat blocks) ≡ tally s (indices_from 0 m) =
        concat-Same was blocks g.slots g.below s ∙ ap (λ k. tally s (indices_from 0 k)) g.old in
      let split : tally s (indices_from 0 n) ≡ tally s (indices_from 0 m) + tally s new =
        ap (λ k. tally s (indices_from 0 k)) (sym total)
        ∙ ap (tally s) (indices-append 0 m (n - m))
        ∙ tally-append s (indices_from 0 m) (indices_from (0 + m) (n - m))
        ∙ ap (λ k. tally s (indices_from 0 m) + tally s (indices_from k (n - m))) from_zero in
      omega (
        arith,
        tally-append s stay (move ++ new),
        tally-append s move new,
        tally-kept s blocks,
        old,
        split,
      )

  -- The blocks keep at home what is not marked.
  blocks-AllHome :
      (was : List ℕ) (b : ℕ) (blocks : List (List ℕ))
      → AreOf was b blocks
      → ((s : ℕ)
          → s < length was
          → has_moved state s ≡ false
          → get_or was s 0 ≡ bucket state.buckets s)
      → AllHome state b blocks
  blocks-AllHome was b [] h homes = tt
  blocks-AllHome was b (p ∷ ps) h homes = (
    All-of_tally (λ s. has_moved state s ≡ false → bucket state.buckets s ≡ b) p
        (λ s here stays.
          let all = indices_from 0 (length was) in
          let held : 0 < tally s (picked was b all) = omega (arith, h.0 s) in
          let (lt, at_b) = in_block s held in sym (homes s lt stays) ∙ at_b),
    blocks-AllHome was (suc b) ps h.1 homes,
  )
    where
      in_block :
          (s : ℕ)
          → 0 < tally s (picked was b (indices_from 0 (length was)))
          → (s < length was) × (get_or was s 0 ≡ b)
      in_block s held =
          let all = indices_from 0 (length was) in
          let n = length was in
          let (few, one, before, behind) = tally-indices s 0 n in
          let count = tally-passing (λ t. get_or was t 0 == b) s all in
          elim (Bool-cases (get_or was s 0 == b)) [
            | inr e ↦ absurd (omega (arith, held, rw e at count))
            | inl e ↦ elim (Bool-cases (ltb s n)) [
              | inl l ↦ (ground arith, (==_iff (get_or was s 0) b).0 e)
              | inr l ↦ absurd (omega (arith, held, rw e at count, behind (ground arith)))
            ]
          ]

  pub IsGrouped-AllHome :
      (was : List ℕ) (blocks : List (List ℕ)) → IsGrouped state was blocks → AllHome state 0 blocks
  IsGrouped-AllHome was blocks g = blocks-AllHome was 0 blocks g.slots g.homes
