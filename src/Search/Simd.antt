-- ===== src/Search/Simd.antt =====
-- legacy/benchmark_win.c: the searches that look at four elements at once with AVX2, and the check of
-- a search against the reference. The intrinsics are a parameter: what they compute, with the bits
-- that the header immintrin.h documents, is named as a law.
use speed_up.Common.{
  ℕ, zero, suc, ◌+◌, ◌-◌, ◌*◌, ◌/◌, ◌%◌, ◌^◌, ◌≡◌, Bool, true, false, List, [], ◌∷◌, Option, none,
  some, ltb, ◌==◌, if◌then◌else◌, Result, ok, err, undefined, ◌>>=◌,
}
use speed_up.Common.Int.{ℤ, eqz, ltz}
use speed_up.Index.{read}
use speed_up.Search.{search_loop, count_of}

-- the reference of the benchmark, which is the library's loop again
unfoldable pub reference_binary_search : List ℤ → (key size : ℤ) → Result (Option ℕ)
unfolding search_loop
reference_binary_search array key size =
    search_loop array key (suc (count_of size)) 0 (count_of size)

-- four lanes of 64 bits, the first in the lowest position
pub record Lanes : Type 0 where
  pub v0 : ℤ
  pub v1 : ℤ
  pub v2 : ℤ
  pub v3 : ℤ

-- `_mm256_movemask_pd` of `_mm256_cmpeq_epi64` and of `_mm256_cmpgt_epi64`, the key in every lane
pub record Avx2 : Type 0 where
  pub equal_mask : (values : Lanes) (key : ℤ) → ℕ
  pub less_mask : (values : Lanes) (key : ℤ) → ℕ

abbrev pub bit : Bool → ℕ
bit b = if b then 1 else 0

-- bit i of a mask says that lane i passes
abbrev pub mask_of : (ℤ → Bool) → Lanes → ℕ
mask_of p v = bit (p v.v0) + (2 * bit (p v.v1) + (4 * bit (p v.v2) + 8 * bit (p v.v3)))

pub record IsAvx2 (a : Avx2) : Type 0 where
  pub equal : (v : Lanes) (key : ℤ) → a.equal_mask v key ≡ mask_of (λ x. eqz x key) v
  pub less : (v : Lanes) (key : ℤ) → a.less_mask v key ≡ mask_of (λ x. ltz x key) v

-- `mask & (1 << i)`
abbrev pub test_bit : ℕ → ℕ → Bool
test_bit mask i = mask / 2 ^ i % 2 == 1

-- the four candidate positions
pub record Candidates : Type 0 where
  pub p0 : ℕ
  pub p1 : ℕ
  pub p2 : ℕ
  pub p3 : ℕ

abbrev pub candidates : (lo hi : ℕ) → Candidates
candidates lo hi =
    let quarter = (hi - lo) / 4 in
    record { p0 = lo + quarter; p1 = lo + quarter * 2; p2 = lo + quarter * 3; p3 = hi - 1 }

unfoldable pub load : List ℤ → Candidates → Result Lanes
load array p = read array p.p3 >>= λ v3. read array p.p2 >>= λ v2. read array p.p1 >>= λ v1.
    read array p.p0 >>= λ v0. ok (record { v0 = v0; v1 = v1; v2 = v2; v3 = v3 })

-- the loop over the bits of the mask: the first position whose bit is set
unfoldable pub first_set : Candidates → ℕ → Option ℕ
first_set p mask =
    if test_bit mask 0
    then some p.p0
    else if test_bit mask 1
    then some p.p1
    else if test_bit mask 2
    then some p.p2
    else if test_bit mask 3
    then some p.p3
    else none

-- the narrower range, as `left` and `right` + 1
unfoldable pub narrow : (lo hi : ℕ) → Candidates → ℕ → ℕ × ℕ
narrow lo hi p less_bits =
    if less_bits == 15
    then (p.p3 + 1, hi)
    else if less_bits == 7
    then (p.p2 + 1, p.p3)
    else if less_bits == 3
    then (p.p1 + 1, p.p2)
    else if less_bits == 1
    then (p.p0 + 1, p.p1)
    else (lo, p.p0)

-- how the loop over large ranges ends: at the key, or at a small range
pub data Narrowed : Type 0 where
  found : ℕ → Narrowed
  range_left : (lo hi : ℕ) → Narrowed

module _ (a : Avx2) where
  -- `while (right - left > limit)`
  unfoldable pub simd_loop : (limit : ℕ) → List ℤ → (key : ℤ) (fuel lo hi : ℕ) → Result Narrowed
  unfolding load first_set narrow
  simd_loop limit array key zero lo hi = err undefined
  simd_loop limit array key (suc fuel) lo hi =
      let p = candidates lo hi in
      if ltb (lo + limit + 1) hi
      then (load array p >>= λ v.
          let mask = a.equal_mask v key in
          let hit : Option ℕ = if mask == 0 then none else first_set p mask in
          let next = narrow lo hi p (a.less_mask v key) in
          let rest = simd_loop limit array key fuel next.0 next.1 in
          elim hit [ none ↦ rest | some i ↦ ok (found i) ])
      else ok (range_left lo hi)

  unfoldable pub simd_binary_search : List ℤ → (key size : ℤ) → Result (Option ℕ)
  unfolding simd_loop search_loop reference_binary_search
  simd_binary_search array key size =
      let n = count_of size in
      if ltb n 32
      then reference_binary_search array key size
      else (simd_loop 16 array key (suc n) 0 n >>= λ r. elim r [
        | found i ↦ ok (some i)
        | range_left lo hi ↦ search_loop array key (suc n) lo hi
      ])

-- the loop of the second phase: `value` was read at `mid` before the round
unfoldable pub pipelined_loop :
    List ℤ → (key : ℤ) (fuel lo hi mid : ℕ) (value : ℤ) → Result (Option ℕ)
pipelined_loop array key zero lo hi mid value = err undefined
pipelined_loop array key (suc fuel) lo hi mid value =
    let lo' = if ltz value key then mid + 1 else lo in
    let hi' = if ltz value key then hi else mid in
    let mid' = lo' + (hi' - 1 - lo') / 2 in
    let rest : Result (Option ℕ) =
      if ltb lo' hi'
      then (read array mid' >>= λ value'. pipelined_loop array key fuel lo' hi' mid' value')
      else ok none in
    if ltb lo hi then (if eqz value key then ok (some mid) else rest) else ok none

module _ (a : Avx2) where
  unfoldable pub simd_optimized_binary_search : List ℤ → (key size : ℤ) → Result (Option ℕ)
  unfolding simd_loop pipelined_loop reference_binary_search
  simd_optimized_binary_search array key size =
      let n = count_of size in
      if ltb n 32
      then reference_binary_search array key size
      else (simd_loop a 32 array key (suc n) 0 n >>= λ r. elim r [
        | found i ↦ ok (some i)
        | range_left lo hi ↦
            let mid = lo + (hi - 1 - lo) / 2 in
            if ltb lo hi
            then (read array mid >>= λ value. pipelined_loop array key (suc n) lo hi mid value)
            else ok none
      ])

-- `result != expected` on positions, -1 included
abbrev pub same_position : Option ℕ → Option ℕ → Bool
same_position none none = true
same_position none (some j) = false
same_position (some i) none = false
same_position (some i) (some j) = i == j

-- `verify_function`, without the message that it prints
unfoldable pub verify_function :
    (List ℤ → ℤ → ℤ → Result (Option ℕ)) → List ℤ → (size : ℤ) → List ℤ → Result Bool
unfolding reference_binary_search
verify_function search array size [] = ok true
verify_function search array size (key ∷ keys) =
    reference_binary_search array key size >>= λ expected. search array key size >>= λ result.
    elim (same_position result expected) [
      | false ↦ ok false
      | true ↦ verify_function search array size keys
    ]
