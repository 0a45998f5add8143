-- ===== src/Index/Grouping/Counting.antt =====
-- What a grouping of slots by bucket is: the slots of each bucket in turn, in insertion order.
use speed_up.Common.{
  ℕ, zero, suc, ◌+◌, ◌<◌, ◌≡◌, refl, ap, ◌∙◌, List, [], ◌∷◌, ◌++◌, get_or, replicate, ◌==◌,
  if◌then◌else◌, ==_refl, ==_ne, arith,
}
use native.Mathlib.Nat.{add-zero}
use mathlib.Core.Path.{ap₂}
use speed_up.Index.{increment}

-- The slots from `slot` on that are in bucket b.
abbrev pub slots_in : (b slot : ℕ) → List ℕ → List ℕ
slots_in b slot [] = []
slots_in b slot (c ∷ buckets) =
    let rest = slots_in b (suc slot) buckets in if c == b then slot ∷ rest else rest

-- How many slots are in bucket b.
abbrev pub tally : (b : ℕ) → List ℕ → ℕ
tally b [] = 0
tally b (c ∷ buckets) = (if c == b then 1 else 0) + tally b buckets

-- The counts of the buckets from b, `k` of them.
abbrev pub tallies : (k b : ℕ) → List ℕ → List ℕ
tallies zero b buckets = []
tallies (suc k) b buckets = tally b buckets ∷ tallies k (suc b) buckets

-- The slots grouped: bucket b first, then the next, `k` of them.
abbrev pub grouped : (k b : ℕ) → List ℕ → List ℕ
grouped zero b buckets = []
grouped (suc k) b buckets = slots_in b 0 buckets ++ grouped k (suc b) buckets

pub get_or-tallies :
    (k b i : ℕ) (buckets : List ℕ)
    → i < k
    → get_or (tallies k b buckets) i 0 ≡ tally (b + i) buckets
get_or-tallies zero b i buckets h = absurd (omega arith)
get_or-tallies (suc k) b zero buckets h = rw add-zero
get_or-tallies (suc k) b (suc i) buckets h =
    get_or-tallies k (suc b) i buckets (omega arith) ∙ ap (λ j. tally j buckets) (omega arith)

pub tallies-nil : (k b : ℕ) → tallies k b [] ≡ replicate k 0
tallies-nil zero b = refl
tallies-nil (suc k) b = ap (◌∷◌ 0) (tallies-nil k (suc b))

-- A new slot in bucket b + i increments the count at i.
tally-snoc :
    (b c : ℕ) (buckets : List ℕ)
    → tally b (buckets ++ c ∷ []) ≡ tally b buckets + (if c == b then 1 else 0)
tally-snoc b c [] = omega arith
tally-snoc b c (x ∷ buckets) = omega (arith, tally-snoc b c buckets)

tallies-snoc_below :
    (k b c : ℕ) (buckets : List ℕ) → c < b → tallies k b (buckets ++ c ∷ []) ≡ tallies k b buckets
tallies-snoc_below zero b c buckets h = refl
tallies-snoc_below (suc k) b c buckets h =
    ground (arith, tally-snoc b c buckets, tallies-snoc_below k (suc b) c buckets)

pub tallies-snoc :
    (k b i : ℕ) (buckets : List ℕ)
    → tallies k b (buckets ++ (b + i) ∷ []) ≡ increment (tallies k b buckets) i
tallies-snoc zero b i buckets = refl
tallies-snoc (suc k) b zero buckets = rw add-zero (
    ap₂ ◌∷◌ (rw ==_refl at (tally-snoc b b buckets))
      (tallies-snoc_below k (suc b) b buckets (omega arith)))
tallies-snoc (suc k) b (suc i) buckets =
    let other = ==_ne (b + suc i) b (omega arith) in
    let shift : b + suc i ≡ suc b + i = omega arith in
    ap₂ ◌∷◌ (rw (other, add-zero) at (tally-snoc b (b + suc i) buckets))
      (ap (λ c. tallies k (suc b) (buckets ++ c ∷ [])) shift ∙ tallies-snoc k (suc b) i buckets)
