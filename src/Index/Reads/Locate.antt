-- ===== src/Index/Reads/Locate.antt =====
-- `bucket_at` of bucket_index.hpp finds the bucket of a position.
use mathlib.Core.Path.{subst}
use mathlib.Core.List.{append-nil}
use native.Mathlib.Nat.{zero-add}
use speed_up.Common.{
  ℕ, zero, suc, ◌+◌, ◌-◌, ◌^◌, ◌<◌, ◌≤◌, ◌≡◌, refl, sym, ap, ◌∙◌, true, false, not, List, [], ◌∷◌,
  length, get_or, ltb, dec_lt, arith,
}
use speed_up.Plan.{sub64}
use speed_up.Std.{bisect}
use speed_up.Std.Bisect.{bisect-Splits}
use speed_up.Index.{KeyState, bucket_at}
use speed_up.Index.Sorting.Blocks.{concat, starts, get_or-starts}

length-starts : (first : ℕ) (ps : List (List ℕ)) → length (starts first ps) ≡ suc (length ps)
length-starts first [] = refl
length-starts first (p ∷ ps) = ap suc (length-starts (first + length p) ps)

starts-first : (ps : List (List ℕ)) → get_or (starts 0 ps) 0 0 ≡ 0
starts-first [] = refl
starts-first (p ∷ ps) = refl

starts-last : (ps : List (List ℕ)) → get_or (starts 0 ps) (length ps) 0 ≡ length (concat ps)
starts-last ps =
    ap (λ qs. get_or (starts 0 qs) (length ps) 0) (sym (append-nil ps))
    ∙ get_or-starts 0 ps []
    ∙ zero-add _

starts-ge :
    (first : ℕ) (ps : List (List ℕ)) (j : ℕ) → j ≤ length ps → first ≤ get_or (starts first ps) j 0
starts-ge first [] zero h = omega arith
starts-ge first [] (suc j) h = absurd (omega arith)
starts-ge first (p ∷ ps) zero h = omega arith
starts-ge first (p ∷ ps) (suc j) h = omega (arith, starts-ge (first + length p) ps j (omega arith))

-- Later buckets start later.
pub starts_mono :
    (first : ℕ) (ps : List (List ℕ)) (i j : ℕ)
    → i ≤ j
    → j ≤ length ps
    → get_or (starts first ps) i 0 ≤ get_or (starts first ps) j 0
starts_mono first [] zero zero p h = omega arith
starts_mono first [] i (suc j) p h = absurd (omega arith)
starts_mono first [] (suc i) zero p h = absurd (omega arith)
starts_mono first (q ∷ ps) zero j p h = starts-ge first (q ∷ ps) j h
starts_mono first (q ∷ ps) (suc i) zero p h = absurd (omega arith)
starts_mono first (q ∷ ps) (suc i) (suc j) p h =
    starts_mono (first + length q) ps i j (omega arith) (omega arith)

not-ltb-true : (p v : ℕ) → not (ltb p v) ≡ true → v ≤ p
not-ltb-true p v e = ground arith

not-ltb-false : (p v : ℕ) → not (ltb p v) ≡ false → p < v
not-ltb-false p v e = ground arith

module _ {T : Type 0} where
  -- For an order of fewer than 2^63 buckets and a position of it: `bucket_at` gives a bucket that
  -- starts at or before the position and ends behind it.
  pub bucket_at-starts :
      (state : KeyState T) (blocks : List (List ℕ)) (position : ℕ)
      → state.start ≡ starts 0 blocks
      → length blocks < 2 ^ 63
      → position < length (concat blocks)
      → (bucket_at state position < length blocks)
        × (get_or state.start (bucket_at state position) 0 ≤ position)
        × (position < get_or state.start (suc (bucket_at state position)) 0)
  unfolding bucket_at
  bucket_at-starts state blocks position begins few h =
      let right = λ (i : ℕ). not (ltb position (get_or state.start i 0)) in
      let r = bisect right (length state.start) in
      let s = bisect-Splits right (length state.start) in
      let count : length state.start ≡ suc (length blocks) =
        ap length begins ∙ length-starts 0 blocks in
      let zeroth : get_or state.start 0 0 ≡ 0 =
        ap (λ l. get_or l 0 0) begins ∙ starts-first blocks in
      let final : get_or state.start (length blocks) 0 ≡ length (concat blocks) =
        ap (λ l. get_or l (length blocks) 0) begins ∙ starts-last blocks in
      let begun =
        λ (i : ℕ) (e : right i ≡ true). not-ltb-true position (get_or state.start i 0) e in
      let ended =
        λ (i : ℕ) (e : right i ≡ false). not-ltb-false position (get_or state.start i 0) e in
      let some_start : 0 < r = elim (dec_lt 0 r) [
        | yes p ↦ p
        | no p ↦
            let none_starts : r ≡ 0 = omega arith in
            absurd (
              omega (
                arith,
                zeroth,
                ended 0 (subst (λ i. right i ≡ false) none_starts (s.after (omega arith))),
              ))
      ] in
      let some_end : r < length state.start = elim (dec_lt r (length state.start)) [
        | yes p ↦ p
        | no p ↦
            let all_start : r - 1 ≡ length blocks = omega (arith, s.at_most) in
            absurd (
              omega (
                arith,
                final,
                begun (length blocks) (subst (λ i. right i ≡ true) all_start (s.before some_start)),
              ))
      ] in
      let found : r - 1 ≡ sub64 r 1 = omega arith in
      let behind : r ≡ suc (sub64 r 1) = omega arith in
      (
        omega arith,
        subst (λ b. get_or state.start b 0 ≤ position) found (begun (r - 1) (s.before some_start)),
        subst (λ b. position < get_or state.start b 0) behind (ended r (s.after some_end)),
      )
