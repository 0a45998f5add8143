-- ===== src/Search/Narrowing.antt =====
-- The loop over large ranges of the searches with AVX2: it finds the key, or keeps it in the range.
use mathlib.Core.Path.{subst}
use speed_up.Common.{
  ℕ, zero, suc, ◌+◌, ◌-◌, ◌*◌, ◌<◌, ◌≤◌, ◌≡◌, refl, ap, ◌∙◌, Bool, true, false, List, length,
  Option, none, some, ltb, ◌==◌, if◌then◌else◌, Result, ok, ◌>>=◌, Bool-cases, Option-cases, inl,
  inr, ltb→lt, arith,
}
use speed_up.Common.Int.{ℤ, ◌≤ℤ◌, eqz, ltz, eqz_same}
use speed_up.Index.{read}
use speed_up.Search.Finds.{elem, IsAscending, Finds, Within, read-next, Within-up, Within-down}
use speed_up.Search.Simd.{
  Lanes, Avx2, IsAvx2, bit, mask_of, Candidates, candidates, load, first_set, narrow, Narrowed,
  found, range_left, simd_loop,
}

abbrev bits : (b0 b1 b2 b3 : Bool) → ℕ
bits b0 b1 b2 b3 = bit b0 + (2 * bit b1 + (4 * bit b2 + 8 * bit b3))

-- The first lane that passes.
first_of : Candidates → (b0 b1 b2 b3 : Bool) → Option ℕ
first_of p true b1 b2 b3 = some p.p0
first_of p false true b2 b3 = some p.p1
first_of p false false true b3 = some p.p2
first_of p false false false true = some p.p3
first_of p false false false false = none

first_set-bits :
    (p : Candidates) (b0 b1 b2 b3 : Bool)
    → (if bits b0 b1 b2 b3 == 0 then none else first_set p (bits b0 b1 b2 b3))
      ≡ first_of p b0 b1 b2 b3
unfolding first_set first_of
first_set-bits p true true true true = refl
first_set-bits p true true true false = refl
first_set-bits p true true false true = refl
first_set-bits p true true false false = refl
first_set-bits p true false true true = refl
first_set-bits p true false true false = refl
first_set-bits p true false false true = refl
first_set-bits p true false false false = refl
first_set-bits p false true true true = refl
first_set-bits p false true true false = refl
first_set-bits p false true false true = refl
first_set-bits p false true false false = refl
first_set-bits p false false true true = refl
first_set-bits p false false true false = refl
first_set-bits p false false false true = refl
first_set-bits p false false false false = refl

some_injective : {i j : ℕ} → some i ≡ some j → i ≡ j
some_injective e = cc

-- Where the first lane is not below the key.
narrow-low :
    (lo hi : ℕ) (p : Candidates) (b1 b2 b3 : Bool)
    → narrow lo hi p (bits false b1 b2 b3) ≡ (lo, p.p0)
unfolding narrow
narrow-low lo hi p true true true = refl
narrow-low lo hi p true true false = refl
narrow-low lo hi p true false true = refl
narrow-low lo hi p true false false = refl
narrow-low lo hi p false true true = refl
narrow-low lo hi p false true false = refl
narrow-low lo hi p false false true = refl
narrow-low lo hi p false false false = refl

ltz_anti : (a b key : ℤ) → a ≤ℤ b → ltz a key ≡ false → ltz b key ≡ false
ltz_anti a b key h e = ground arith

abbrev lanes : List ℤ → Candidates → Lanes
lanes array p = record {
  v0 = elem array p.p0;
  v1 = elem array p.p1;
  v2 = elem array p.p2;
  v3 = elem array p.p3;
}

-- The candidates stand in the range, in this order.
record AreInside (lo hi : ℕ) (p : Candidates) : Type 0 where
  first : lo ≤ p.p0
  second : p.p0 < p.p1
  third : p.p1 < p.p2
  fourth : p.p2 ≤ p.p3
  last : p.p3 < hi

candidates-AreInside : (lo hi : ℕ) → lo + 17 < hi → AreInside lo hi (candidates lo hi)
candidates-AreInside lo hi h = record {
  first = omega arith;
  second = omega arith;
  third = omega arith;
  fourth = omega arith;
  last = omega arith;
}

load-lanes :
    (array : List ℤ) (lo hi : ℕ) (p : Candidates)
    → AreInside lo hi p
    → hi ≤ length array
    → load array p ≡ ok (lanes array p)
unfolding load
load-lanes array lo hi p i h =
    read-next array p.p3
      (λ v3. read array p.p2 >>= λ v2. read array p.p1 >>= λ v1.
        read array p.p0 >>= λ v0. ok (record { v0 = v0; v1 = v1; v2 = v2; v3 = v3 }))
      (omega (arith, i.last))
    ∙ read-next array p.p2
        (λ v2. read array p.p1 >>= λ v1.
          read array p.p0 >>= λ v0. ok (record { v0 = v0; v1 = v1; v2 = v2; v3 = elem array p.p3 }))
        (omega (arith, i.last, i.fourth))
    ∙ read-next array p.p1
        (λ v1. read array p.p0 >>= λ v0.
          ok (record { v0 = v0; v1 = v1; v2 = elem array p.p2; v3 = elem array p.p3 }))
        (omega (arith, i.last, i.fourth, i.third))
    ∙ read-next array p.p0
        (λ v0.
          ok (record { v0 = v0; v1 = elem array p.p1; v2 = elem array p.p2; v3 = elem array p.p3 }))
        (omega (arith, i.last, i.fourth, i.third, i.second))

first_of-some :
    (p : Candidates) (P : ℕ → Type 0) (b0 b1 b2 b3 : Bool)
    → (b0 ≡ true → P p.p0)
    → (b1 ≡ true → P p.p1)
    → (b2 ≡ true → P p.p2)
    → (b3 ≡ true → P p.p3)
    → (i : ℕ) → first_of p b0 b1 b2 b3 ≡ some i
    → P i
unfolding first_of
first_of-some p P true b1 b2 b3 f0 f1 f2 f3 i e = subst P (some_injective e) (f0 refl)
first_of-some p P false true b2 b3 f0 f1 f2 f3 i e = subst P (some_injective e) (f1 refl)
first_of-some p P false false true b3 f0 f1 f2 f3 i e = subst P (some_injective e) (f2 refl)
first_of-some p P false false false true f0 f1 f2 f3 i e = subst P (some_injective e) (f3 refl)
first_of-some p P false false false false f0 f1 f2 f3 i e = cc

first_of-none :
    (p : Candidates) (b0 b1 b2 b3 : Bool)
    → first_of p b0 b1 b2 b3 ≡ none
    → (b0 ≡ false) × (b1 ≡ false) × (b2 ≡ false) × (b3 ≡ false)
unfolding first_of
first_of-none p true b1 b2 b3 e = cc
first_of-none p false true b2 b3 e = cc
first_of-none p false false true b3 e = cc
first_of-none p false false false true e = cc
first_of-none p false false false false e = (refl, refl, refl, refl)

abbrev HasKeyAt : List ℤ → ℤ → ℕ → Type 0
HasKeyAt array key i = Finds array key (some i)

module _ (array : List ℤ) (key : ℤ) (ascending : IsAscending array) where
  -- A candidate that holds the key is what a search must find.
  hit-Finds :
      (lo hi : ℕ) (p : Candidates)
      → AreInside lo hi p
      → hi ≤ length array
      → (i : ℕ)
      → first_of p
          (eqz (elem array p.p0) key)
          (eqz (elem array p.p1) key)
          (eqz (elem array p.p2) key)
          (eqz (elem array p.p3) key)
        ≡ some i
      → Finds array key (some i)
  hit-Finds lo hi p k h i e =
      first_of-some p (HasKeyAt array key) (eqz (elem array p.p0) key) (eqz (elem array p.p1) key)
        (eqz (elem array p.p2) key) (eqz (elem array p.p3) key)
        (λ s.
          (omega (arith, k.second, k.third, k.fourth, k.last), eqz_same (elem array p.p0) key s))
        (λ s. (omega (arith, k.third, k.fourth, k.last), eqz_same (elem array p.p1) key s))
        (λ s. (omega (arith, k.fourth, k.last), eqz_same (elem array p.p2) key s))
        (λ s. (omega (arith, k.last), eqz_same (elem array p.p3) key s)) i e

  -- Where no candidate holds the key, the narrower range keeps it.
  narrow-Within :
      (lo hi : ℕ) (p : Candidates)
      → AreInside lo hi p
      → Within array key lo hi
      → eqz (elem array p.p0) key ≡ false
      → eqz (elem array p.p1) key ≡ false
      → eqz (elem array p.p2) key ≡ false
      → eqz (elem array p.p3) key ≡ false
      → (lo' hi' : ℕ) × (narrow lo hi p (mask_of (λ x. ltz x key) (lanes array p)) ≡ (lo', hi'))
        × Within array key lo' hi'
        × (hi' - lo' < hi - lo)
  unfolding narrow
  narrow-Within lo hi p i w n0 n1 n2 n3 =
      let in0 : p.p0 < length array =
        omega (arith, w.inside, i.second, i.third, i.fourth, i.last) in
      let in1 : p.p1 < length array = omega (arith, w.inside, i.third, i.fourth, i.last) in
      let in2 : p.p2 < length array = omega (arith, w.inside, i.fourth, i.last) in
      let in3 : p.p3 < length array = omega (arith, w.inside, i.last) in
      let up =
        λ (a b : ℕ) (le : a ≤ b) (lt : b < length array) (e : ltz (elem array a) key ≡ false).
          ltz_anti (elem array a) (elem array b) key (ascending a b le lt) e in
      let le12 : p.p1 ≤ p.p2 = omega (arith, i.third) in
      elim (Bool-cases (ltz (elem array p.p0) key)) [
        | inr l0 ↦ (
          lo,
          p.p0,
          rw l0 (
              narrow-low lo hi p (ltz (elem array p.p1) key) (ltz (elem array p.p2) key)
                (ltz (elem array p.p3) key)),
          Within-down array key ascending lo hi p.p0 w in0 n0 l0,
          omega (arith, i.first, i.second, i.third, i.fourth, i.last),
        )
        | inl l0 ↦ elim (Bool-cases (ltz (elem array p.p1) key)) [
          | inr l1 ↦
              let l2 = up p.p1 p.p2 le12 in2 l1 in
              let l3 = up p.p2 p.p3 i.fourth in3 l2 in
              (
                p.p0 + 1,
                p.p1,
                rw (l0, l1, l2, l3) refl,
                Within-down array key ascending (p.p0 + 1) hi p.p1
                    (Within-up array key ascending lo hi p.p0 w in0 l0) in1 n1 l1,
                omega (arith, i.first, i.third, i.fourth, i.last),
              )
          | inl l1 ↦ elim (Bool-cases (ltz (elem array p.p2) key)) [
            | inr l2 ↦
                let l3 = up p.p2 p.p3 i.fourth in3 l2 in
                (
                  p.p1 + 1,
                  p.p2,
                  rw (l0, l1, l2, l3) refl,
                  Within-down array key ascending (p.p1 + 1) hi p.p2
                      (Within-up array key ascending lo hi p.p1 w in1 l1) in2 n2 l2,
                  omega (arith, i.first, i.second, i.fourth, i.last),
                )
            | inl l2 ↦ elim (Bool-cases (ltz (elem array p.p3) key)) [
              | inr l3 ↦ (
                p.p2 + 1,
                p.p3,
                rw (l0, l1, l2, l3) refl,
                Within-down array key ascending (p.p2 + 1) hi p.p3
                    (Within-up array key ascending lo hi p.p2 w in2 l2) in3 n3 l3,
                omega (arith, i.first, i.second, i.third, i.last),
              )
              | inl l3 ↦ (
                p.p3 + 1,
                hi,
                rw (l0, l1, l2, l3) refl,
                Within-up array key ascending lo hi p.p3 w in3 l3,
                omega (arith, i.first, i.second, i.third, i.fourth, i.last),
              )
            ]
          ]
        ]
      ]

  -- What the loop over large ranges must return: a position of the key, or a range that keeps it.
  abbrev pub IsNarrowed : Narrowed → Type 0
  IsNarrowed (found i) = Finds array key (some i)
  IsNarrowed (range_left lo hi) = Within array key lo hi

  -- With intrinsics as documented, the loop ends and keeps the key.
  pub simd_loop-IsNarrowed :
      (a : Avx2) (limit fuel lo hi : ℕ)
      → IsAvx2 a
      → 16 ≤ limit
      → hi - lo < fuel
      → Within array key lo hi
      → (r : Narrowed) × (simd_loop a limit array key fuel lo hi ≡ ok r) × IsNarrowed r
  unfolding simd_loop
  simd_loop-IsNarrowed a limit zero lo hi law large f w = absurd (omega arith)
  simd_loop-IsNarrowed a limit (suc fuel) lo hi law large f w =
      elim (Bool-cases (ltb (lo + limit + 1) hi)) [
        | inr e ↦ (range_left lo hi, rw e refl, w)
        | inl e ↦
            let p = candidates lo hi in
            let v = lanes array p in
            let inside = candidates-AreInside lo hi (omega (arith, ltb→lt (lo + limit + 1) hi e)) in
            let next : Lanes → Result Narrowed = λ v.
              let mask = a.equal_mask v key in
              let hit : Option ℕ = if mask == 0 then none else first_set p mask in
              let next = narrow lo hi p (a.less_mask v key) in
              let rest = simd_loop a limit array key fuel next.0 next.1 in
              elim hit [ none ↦ rest | some i ↦ ok (found i) ] in
            let b0 = eqz v.v0 key in
            let b1 = eqz v.v1 key in
            let b2 = eqz v.v2 key in
            let b3 = eqz v.v3 key in
            let n = narrow lo hi p (a.less_mask v key) in
            let rest = simd_loop a limit array key fuel n.0 n.1 in
            let looked : simd_loop a limit array key (suc fuel) lo hi
                ≡ elim (first_of p b0 b1 b2 b3) [ none ↦ rest | some i ↦ ok (found i) ] =
              rw e (
                ap (λ r. r >>= next) (load-lanes array lo hi p inside w.inside)
                ∙ ap
                    (λ m. elim (if m == 0 then none else first_set p m) [
                      | none ↦ rest
                      | some i ↦ ok (found i)
                    ])
                    (law.equal v key)
                ∙ ap (λ o. elim o [ none ↦ rest | some i ↦ ok (found i) ])
                    (first_set-bits p b0 b1 b2 b3)) in
            elim (Option-cases (first_of p b0 b1 b2 b3)) [
              | inr (i, hit) ↦ (
                found i,
                looked ∙ ap (λ o. elim o [ none ↦ rest | some i ↦ ok (found i) ]) hit,
                hit-Finds lo hi p inside w.inside i hit,
              )
              | inl missed ↦
                  let (n0, n1, n2, n3) = first_of-none p b0 b1 b2 b3 missed in
                  let (lo', hi', narrowed, kept, shorter) =
                    narrow-Within lo hi p inside w n0 n1 n2 n3 in
                  let (r, returned, good) =
                    simd_loop-IsNarrowed a limit fuel lo' hi' law large (omega arith) kept in
                  (
                    r,
                    looked
                        ∙ ap (λ o. elim o [ none ↦ rest | some i ↦ ok (found i) ]) missed
                        ∙ ap (λ m. simd_loop a limit array key fuel m.0 m.1)
                            (ap (narrow lo hi p) (law.less v key) ∙ narrowed)
                        ∙ returned,
                    good,
                  )
            ]
      ]
