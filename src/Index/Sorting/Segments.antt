-- ===== src/Index/Sorting/Segments.antt =====
-- Where the slots of one bucket stand after `build_order` of bucket_index.hpp.
use native.Mathlib.Nat.{add-zero, zero-add, suc-add}
use speed_up.Common.{
  ℕ, zero, suc, ◌+◌, ◌-◌, ◌^◌, ◌<◌, ◌≤◌, ◌≡◌, refl, sym, ap, ◌∙◌, List, [], ◌∷◌, ◌++◌, length, sum,
  get_or, take, drop, All, arith,
}
use speed_up.Plan.{sub64}
use speed_up.Index.{KeyState, bucket_total}
use speed_up.Index.Grouping.{start_loop, build_order}
use speed_up.Index.Grouping.Counting.{slots_in, tally, tallies, grouped, get_or-tallies}
use speed_up.Index.Grouping.Placing.{build_order-order, sum-tallies}
use speed_up.Index.Sorting.{segment}

-- A bucket starts where the counts of the buckets before it end.
get_or-start_loop :
    (k b acc rounds i : ℕ) (buckets : List ℕ)
    → i ≤ rounds
    → b + rounds ≤ k
    → get_or (start_loop (tallies k 0 buckets) b acc rounds) i 0 ≡ acc + sum (tallies i b buckets)
unfolding start_loop
get_or-start_loop k b acc zero zero buckets p h = omega arith
get_or-start_loop k b acc zero (suc i) buckets p h = absurd (omega arith)
get_or-start_loop k b acc (suc rounds) zero buckets p h = omega arith
get_or-start_loop k b acc (suc rounds) (suc i) buckets p h =
    let count = get_or-tallies k 0 b buckets (omega arith) in
    let same : tally (0 + b) buckets ≡ tally b buckets = ap (λ c. tally c buckets) (zero-add b) in
    omega (
      arith,
      count,
      same,
      get_or-start_loop k (suc b) (acc + get_or (tallies k 0 buckets) b 0) rounds i buckets
          (omega arith) (omega arith),
    )

length-slots_in :
    (b slot : ℕ) (buckets : List ℕ) → length (slots_in b slot buckets) ≡ tally b buckets
length-slots_in b slot [] = refl
length-slots_in b slot (c ∷ buckets) = ground (arith, length-slots_in b (suc slot) buckets)

drop-append : (xs ys : List ℕ) (n : ℕ) → drop (length xs + n) (xs ++ ys) ≡ drop n ys
drop-append [] ys n = rw zero-add refl
drop-append (x ∷ xs) ys n = rw suc-add (drop-append xs ys n)

take-append : (xs ys : List ℕ) → take (length xs) (xs ++ ys) ≡ xs
take-append [] ys = refl
take-append (x ∷ xs) ys = ap (◌∷◌ x) (take-append xs ys)

drop-grouped :
    (i j b : ℕ) (buckets : List ℕ)
    → drop (sum (tallies i b buckets)) (grouped (i + suc j) b buckets)
      ≡ slots_in (b + i) 0 buckets ++ grouped j (suc (b + i)) buckets
drop-grouped zero j b buckets = rw (zero-add, add-zero) refl
drop-grouped (suc i) j b buckets =
    let s = sum (tallies i (suc b) buckets) in
    let shift : suc b + i ≡ b + suc i = omega arith in
    let skip : tally b buckets + s ≡ length (slots_in b 0 buckets) + s =
      omega (arith, length-slots_in b 0 buckets) in
    rw (suc-add i (suc j), skip)
      (drop-append (slots_in b 0 buckets) (grouped (i + suc j) (suc b) buckets) s
        ∙ drop-grouped i j (suc b) buckets
        ∙ ap (λ c. slots_in c 0 buckets ++ grouped j (suc c) buckets) shift)

sum-tallies_le :
    (i j b : ℕ) (buckets : List ℕ) → sum (tallies i b buckets) ≤ sum (tallies (i + j) b buckets)
sum-tallies_le zero j b buckets = omega arith
sum-tallies_le (suc i) j b buckets =
    rw (suc-add i j) (omega (arith, sum-tallies_le i j (suc b) buckets))

sum-tallies-suc :
    (i b : ℕ) (buckets : List ℕ)
    → sum (tallies (suc i) b buckets) ≡ sum (tallies i b buckets) + tally (b + i) buckets
sum-tallies-suc zero b buckets =
    let here : tally (b + 0) buckets ≡ tally b buckets = ap (λ c. tally c buckets) (add-zero b) in
    omega (arith, here)
sum-tallies-suc (suc i) b buckets =
    let shift : tally (suc b + i) buckets ≡ tally (b + suc i) buckets =
      ap (λ c. tally c buckets) (omega arith) in
    omega (arith, shift, sum-tallies-suc i (suc b) buckets)

segment-grouped :
    (k n b : ℕ) (buckets start : List ℕ)
    → length buckets ≡ n
    → All (λ c. c < k) buckets
    → start ≡ start_loop (tallies k 0 buckets) 0 0 k
    → n < 2 ^ 63
    → b < k
    → take
        (sub64 (get_or start (suc b) 0) (get_or start b 0))
        (drop (get_or start b 0) (grouped k 0 buckets))
      ≡ slots_in b 0 buckets
segment-grouped k n b buckets start len range begins small h =
    let rest = k - suc b in
    let split : b + suc rest ≡ k = omega arith in
    let lo : get_or start b 0 ≡ sum (tallies b 0 buckets) =
      ap (λ l. get_or l b 0) begins
      ∙ get_or-start_loop k 0 0 k b buckets (omega arith) (omega arith)
      ∙ zero-add _ in
    let hi : get_or start (suc b) 0 ≡ sum (tallies (suc b) 0 buckets) =
      ap (λ l. get_or l (suc b) 0) begins
      ∙ get_or-start_loop k 0 0 k (suc b) buckets (omega arith) (omega arith)
      ∙ zero-add _ in
    let here : tally (0 + b) buckets ≡ tally b buckets = ap (λ c. tally c buckets) (zero-add b) in
    let within : sum (tallies (suc b) 0 buckets) ≤ n =
      let same : suc b + rest ≡ k = omega arith in
      rw (sum-tallies k buckets range ∙ len) at
        (rw same at (sum-tallies_le (suc b) rest 0 buckets)) in
    let long : sub64 (get_or start (suc b) 0) (get_or start b 0) ≡ length (slots_in b 0 buckets) =
      omega
        (arith, lo, hi, here, within, sum-tallies-suc b 0 buckets, length-slots_in b 0 buckets) in
    let tail = grouped rest (suc b) buckets in
    let dropped : drop (get_or start b 0) (grouped k 0 buckets) ≡ slots_in b 0 buckets ++ tail =
      ap (λ m. drop m (grouped k 0 buckets)) lo
      ∙ ap (λ m. drop (sum (tallies b 0 buckets)) (grouped m 0 buckets)) (sym split)
      ∙ drop-grouped b rest 0 buckets
      ∙ ap (λ c. slots_in c 0 buckets ++ grouped rest (suc c) buckets) (zero-add b) in
    ap (λ m. take m (drop (get_or start b 0) (grouped k 0 buckets))) long
    ∙ ap (take (length (slots_in b 0 buckets))) dropped
    ∙ take-append (slots_in b 0 buckets) tail

module _ {T : Type 0} where
  -- For as many slots as the key state has buckets, fewer than 2^63, all buckets in range, and counts
  -- that are the numbers of slots in each bucket: after `build_order` the part of the order that
  -- `start` gives to a bucket is exactly the slots of that bucket, in insertion order.
  pub segment-build_order :
      (n : ℕ) (state : KeyState T) (b : ℕ)
      → length state.buckets ≡ n
      → All (λ c. c < bucket_total state) state.buckets
      → state.counts ≡ tallies (bucket_total state) 0 state.buckets
      → n < 2 ^ 63
      → b < bucket_total state
      → segment (build_order n state) b ≡ slots_in b 0 state.buckets
  segment-build_order n state b len range right small h =
      let k = bucket_total state in
      let begins : (build_order n state).start ≡ start_loop (tallies k 0 state.buckets) 0 0 k =
        unfold build_order in (ap (λ c. start_loop c 0 0 k) right) in
      let start = (build_order n state).start in
      ap (λ l. take (sub64 (get_or start (suc b) 0) (get_or start b 0)) (drop (get_or start b 0) l))
        (build_order-order n state len range right)
      ∙ segment-grouped k n b state.buckets start len range begins small h
