-- ===== src/Std/Bisect.antt =====
-- What a binary search returns.
use speed_up.Common.{
  ℕ, zero, suc, ◌+◌, ◌-◌, ◌/◌, ◌<◌, ◌≤◌, ◌≡◌, Bool, true, false, sym, ◌∙◌, ltb, ltb→lt, lt→ltb,
  le→ltb_false, Bool-cases, inl, inr, dec_lt, arith,
}
use speed_up.Std.{bisect_loop, bisect}

module _ (right : ℕ → Bool) where
  -- With enough fuel: the result lies in the range, what stands just below it goes right, and what
  -- stands at it does not, on any predicate.
  pub record Splits (lo hi r : ℕ) : Type 0 where
    pub at_least : lo ≤ r
    pub at_most : r ≤ hi
    pub before : lo < r → right (r - 1) ≡ true
    pub after : r < hi → right r ≡ false

  -- the two branches of a round
  above :
      {lo hi r : ℕ} (mid : ℕ)
      → (lo ≤ mid) × (mid < hi)
      → right mid ≡ true
      → Splits (mid + 1) hi r
      → Splits lo hi r
  above {lo} {hi} {r} mid b up s = record {
    at_least = omega arith;
    at_most = s.at_most;
    before = λ _. elim (dec_lt (mid + 1) r) [
      | yes p ↦ s.before p
      | no p ↦ let e : r - 1 ≡ mid = omega arith in rw e up
    ];
    after = s.after;
  }

  below :
      {lo hi r : ℕ} (mid : ℕ)
      → (lo ≤ mid) × (mid < hi)
      → right mid ≡ false
      → Splits lo mid r
      → Splits lo hi r
  below {lo} {hi} {r} mid b down s = record {
    at_least = s.at_least;
    at_most = omega arith;
    before = s.before;
    after = λ _. elim (dec_lt r mid) [
      | yes p ↦ s.after p
      | no p ↦ let e : r ≡ mid = omega arith in rw e down
    ];
  }

  bisect_loop-Splits :
      (fuel lo hi : ℕ) → lo ≤ hi → hi - lo ≤ fuel → Splits lo hi (bisect_loop right fuel lo hi)
  unfolding bisect_loop
  bisect_loop-Splits zero lo hi h f = ground arith
  bisect_loop-Splits (suc fuel) lo hi h f =
      let mid = lo + (hi - lo) / 2 in
      elim (Bool-cases (ltb lo hi)) [
        | inr empty ↦ rw empty (ground arith)
        | inl more ↦ elim (Bool-cases (right mid)) [
          | inl up ↦
              rw (more, up)
                (above mid (ground arith) up
                  (bisect_loop-Splits fuel (mid + 1) hi (ground arith) (ground arith)))
          | inr down ↦
              rw (more, down)
                (below mid (ground arith) down
                  (bisect_loop-Splits fuel lo mid (ground arith) (ground arith)))
        ]
      ]

  pub bisect-Splits : (n : ℕ) → Splits 0 n (bisect right n)
  unfolding bisect
  bisect-Splits n = bisect_loop-Splits n 0 n (omega arith) (omega arith)

  -- If the test `right` holds below every index at which it holds, the binary search splits its
  -- range: `right` holds exactly before the result.
  pub bisect-partition :
      (n : ℕ)
      → ((i j : ℕ) → i ≤ j → right j ≡ true → right i ≡ true)
      → (i : ℕ) → i < n
      → right i ≡ ltb i (bisect right n)
  bisect-partition n down i h =
      let s = bisect-Splits n in
      let r = bisect right n in
      elim (dec_lt i r) [
        | yes p ↦ down i (r - 1) (omega arith) (s.before (omega arith)) ∙ sym (lt→ltb i r p)
        | no p ↦ elim (Bool-cases (right i)) [
          | inr ok ↦ ok ∙ sym (le→ltb_false i r (omega arith))
          | inl bad ↦ absurd (ground (arith, down r i (omega arith) bad, s.after (omega arith)))
        ]
      ]

-- Where one predicate implies another, its search stops no later.
bisect_loop_mono :
    (p q : ℕ → Bool)
    → ((i : ℕ) → p i ≡ true → q i ≡ true)
    → (fuel lo hi : ℕ) → lo ≤ hi
    → hi - lo ≤ fuel
    → bisect_loop p fuel lo hi ≤ bisect_loop q fuel lo hi
unfolding bisect_loop
bisect_loop_mono p q imp zero lo hi h f = omega arith
bisect_loop_mono p q imp (suc fuel) lo hi h f =
    let mid = lo + (hi - lo) / 2 in
    elim (Bool-cases (ltb lo hi)) [
      | inr empty ↦ rw empty (omega arith)
      | inl more ↦
          let less : lo < hi = ltb→lt lo hi more in
          let top = bisect_loop-Splits p fuel lo mid (omega arith) (omega arith) in
          let bottom = bisect_loop-Splits q fuel (mid + 1) hi (omega arith) (omega arith) in
          ground (
            arith,
            imp mid,
            top.at_most,
            bottom.at_least,
            bisect_loop_mono p q imp fuel (mid + 1) hi (omega arith) (omega arith),
            bisect_loop_mono p q imp fuel lo mid (omega arith) (omega arith),
          )
    ]

pub bisect_mono :
    (p q : ℕ → Bool) (n : ℕ) → ((i : ℕ) → p i ≡ true → q i ≡ true) → bisect p n ≤ bisect q n
unfolding bisect
bisect_mono p q n imp = bisect_loop_mono p q imp n 0 n (omega arith) (omega arith)
