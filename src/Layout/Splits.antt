-- ===== src/Layout/Splits.antt =====
-- The split positions that are chosen.
use speed_up.Common.{
  ℕ, suc, ◌<◌, ◌≤◌, ◌≡◌, ◌⊎◌, inl, inr, List, [], ◌∷◌, length, All, Bool-cases, ◌==◌, false, arith,
}
use speed_up.Layout.{best_split, choose_loop, choose_split_positions}

-- Strictly increasing numbers in [lo, hi).
abbrev pub Ascends : ℕ → ℕ → List ℕ → Type 0
Ascends lo hi [] = Unit
Ascends lo hi (x ∷ xs) = (lo ≤ x) × (x < hi) × Ascends (suc x) hi xs

pub Ascends-All : (lo hi : ℕ) (xs : List ℕ) → Ascends lo hi xs → All (λ x. x < hi) xs
Ascends-All lo hi [] h = tt
Ascends-All lo hi (x ∷ xs) h = (h.1, Ascends-All (suc x) hi xs h.2)

pub Ascends-weaken : (lo lo' hi : ℕ) (xs : List ℕ) → lo' ≤ lo → Ascends lo hi xs → Ascends lo' hi xs
Ascends-weaken lo lo' hi [] p h = tt
Ascends-weaken lo lo' hi (x ∷ xs) p h = (omega arith, h.1, h.2)

module _ (s : ℕ) (run_start run_end : ℕ → ℕ) where
  -- `p` is the start or the end of the run of a desired position
  abbrev pub IsRunEdge : ℕ → List ℕ → Type 0
  IsRunEdge p [] = ⊥
  IsRunEdge p (q ∷ desired) = (p ≡ run_start q) ⊎ ((p ≡ run_end q) ⊎ IsRunEdge p desired)

  best_split-cases :
      (previous q : ℕ)
      → run_start q < s
      → (best_split s previous q (run_start q) (run_end q) ≡ 0)
        ⊎ ((previous < best_split s previous q (run_start q) (run_end q))
            × (best_split s previous q (run_start q) (run_end q) < s)
            × ((best_split s previous q (run_start q) (run_end q) ≡ run_start q)
                ⊎ (best_split s previous q (run_start q) (run_end q) ≡ run_end q)))
  unfolding best_split
  best_split-cases previous q h = ground arith

  later :
      (xs : List ℕ) (q : ℕ) (desired : List ℕ)
      → All (λ p. IsRunEdge p desired) xs
      → All (λ p. IsRunEdge p (q ∷ desired)) xs
  later [] q desired h = tt
  later (x ∷ xs) q desired h = (inr (inr h.0), later xs q desired h.1)

  -- a position that is pushed in front of those of the later rounds
  pushed :
      (previous best q : ℕ) (desired xs : List ℕ)
      → (best == 0) ≡ false
      → (best ≡ 0) ⊎ ((previous < best) × (best < s) × ((best ≡ run_start q) ⊎ (best ≡ run_end q)))
      → Ascends (suc best) s xs
      → All (λ p. IsRunEdge p desired) xs
      → length xs ≤ length desired
      → Ascends (suc previous) s (best ∷ xs)
        × All (λ p. IsRunEdge p (q ∷ desired)) (best ∷ xs)
        × (length (best ∷ xs) ≤ length (q ∷ desired))
  pushed previous best q desired xs n (inl e) asc edge len = absurd (ground arith)
  pushed previous best q desired xs n (inr (above, below, inl start)) asc edge len =
      ((above, below, asc), (inl start, later xs q desired edge), omega arith)
  pushed previous best q desired xs n (inr (above, below, inr end)) asc edge len =
      ((above, below, asc), (inr (inl end), later xs q desired edge), omega arith)

  choose_loop-Ascends :
      (previous : ℕ) (desired : List ℕ)
      → All (λ q. run_start q < s) desired
      → Ascends (suc previous) s (choose_loop s run_start run_end previous desired)
        × All (λ p. IsRunEdge p desired) (choose_loop s run_start run_end previous desired)
        × (length (choose_loop s run_start run_end previous desired) ≤ length desired)
  unfolding choose_loop
  choose_loop-Ascends previous [] h = (tt, tt, omega arith)
  choose_loop-Ascends previous (q ∷ desired) h =
      let best = best_split s previous q (run_start q) (run_end q) in
      elim (Bool-cases (best == 0)) [
        | inl e ↦
            let (asc, edge, len) = choose_loop-Ascends previous desired h.1 in
            rw e (asc, later _ q desired edge, omega arith)
        | inr e ↦
            let (asc, edge, len) = choose_loop-Ascends best desired h.1 in
            rw e (pushed previous best q desired _ e (best_split-cases previous q h.0) asc edge len)
      ]

  -- For runs that start below s: the positions chosen are strictly increasing in (0, s), each is
  -- the start or the end of the run of a desired position, and there are no more than desired.
  pub choose_split_positions-Ascends :
      (desired : List ℕ)
      → All (λ q. run_start q < s) desired
      → Ascends 1 s (choose_split_positions desired s run_start run_end)
        × All (λ p. IsRunEdge p desired) (choose_split_positions desired s run_start run_end)
        × (length (choose_split_positions desired s run_start run_end) ≤ length desired)
  unfolding choose_split_positions
  choose_split_positions-Ascends desired h = choose_loop-Ascends 0 desired h
