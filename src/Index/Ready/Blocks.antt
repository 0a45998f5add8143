-- ===== src/Index/Ready/Blocks.antt =====
-- The blocks of the grouping that `build_order` makes, one for each bucket.
use native.Mathlib.Nat.{zero-add}
use speed_up.Common.{
  ℕ, zero, suc, ◌+◌, ◌≤◌, ◌≡◌, refl, sym, ap, ◌∙◌, Bool, List, [], ◌∷◌, ◌++◌, length, get_or,
  replicate, sum, ◌==◌, Bool-cases, inl, inr, length-append, arith,
}
use speed_up.Index.Grouping.{start_loop}
use speed_up.Index.Grouping.Counting.{slots_in, tally, tallies, grouped, get_or-tallies}
use speed_up.Index.Sorting.Blocks.{concat, starts, Prefixes}
use speed_up.Index.Sorting.Whole.{AreSlots}

-- The slots of the buckets from b, `k` of them.
abbrev pub blocks_of : (k b : ℕ) → List ℕ → List (List ℕ)
blocks_of zero b buckets = []
blocks_of (suc k) b buckets = slots_in b 0 buckets ∷ blocks_of k (suc b) buckets

pub length-blocks_of : (k b : ℕ) (buckets : List ℕ) → length (blocks_of k b buckets) ≡ k
length-blocks_of zero b buckets = refl
length-blocks_of (suc k) b buckets = ap suc (length-blocks_of k (suc b) buckets)

pub concat-blocks_of :
    (k b : ℕ) (buckets : List ℕ) → concat (blocks_of k b buckets) ≡ grouped k b buckets
concat-blocks_of zero b buckets = refl
concat-blocks_of (suc k) b buckets =
    ap (◌++◌ (slots_in b 0 buckets)) (concat-blocks_of k (suc b) buckets)

length-slots_in :
    (b slot : ℕ) (buckets : List ℕ) → length (slots_in b slot buckets) ≡ tally b buckets
length-slots_in b slot [] = refl
length-slots_in b slot (c ∷ buckets) = elim (Bool-cases (c == b)) [
  | inl e ↦ rw e (omega (arith, length-slots_in b (suc slot) buckets))
  | inr e ↦ rw e (omega (arith, length-slots_in b (suc slot) buckets))
]

pub length-concat_blocks :
    (k b : ℕ) (buckets : List ℕ)
    → length (concat (blocks_of k b buckets)) ≡ sum (tallies k b buckets)
length-concat_blocks zero b buckets = refl
length-concat_blocks (suc k) b buckets = omega (
  arith,
  length-append (slots_in b 0 buckets) (concat (blocks_of k (suc b) buckets)),
  length-slots_in b 0 buckets,
  length-concat_blocks k (suc b) buckets,
)

-- The starts that are summed up from right counts are those of the blocks.
pub start_loop-starts :
    (k b acc rounds : ℕ) (buckets : List ℕ)
    → b + rounds ≤ k
    → start_loop (tallies k 0 buckets) b acc rounds ≡ starts acc (blocks_of rounds b buckets)
unfolding start_loop
start_loop-starts k b acc zero buckets h = refl
start_loop-starts k b acc (suc rounds) buckets h =
    let count : get_or (tallies k 0 buckets) b 0 ≡ length (slots_in b 0 buckets) =
      rw (zero-add b) at (get_or-tallies k 0 b buckets (omega arith))
      ∙ sym (length-slots_in b 0 buckets) in
    ap (λ n. acc ∷ start_loop (tallies k 0 buckets) (suc b) (acc + n) rounds) count
    ∙ ap (◌∷◌ acc) (
        start_loop-starts k (suc b) (acc + length (slots_in b 0 buckets)) rounds buckets
          (omega arith))

pub blocks_of-AreSlots :
    (less : ℕ → ℕ → Bool) (k b : ℕ) (buckets : List ℕ)
    → AreSlots less b (blocks_of k b buckets) buckets
blocks_of-AreSlots less zero b buckets = tt
blocks_of-AreSlots less (suc k) b buckets = (refl, blocks_of-AreSlots less k (suc b) buckets)

-- Nothing is sorted yet.
pub blocks_of-Prefixes :
    (less : ℕ → ℕ → Bool) (k b : ℕ) (buckets : List ℕ)
    → Prefixes less (replicate k 0) (blocks_of k b buckets)
blocks_of-Prefixes less zero b buckets = tt
blocks_of-Prefixes less (suc k) b buckets = (tt, blocks_of-Prefixes less k (suc b) buckets)
