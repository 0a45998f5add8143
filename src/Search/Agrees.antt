-- ===== src/Search/Agrees.antt =====
-- The searches with AVX2 find what the reference finds, and the check of benchmark_win.c passes.
use speed_up.Common.{
  ℕ, zero, suc, ◌+◌, ◌-◌, ◌/◌, ◌<◌, ◌≤◌, ◌≡◌, refl, ap, ◌∙◌, List, length, Option, none, some, ltb,
  if◌then◌else◌, Result, ok, ◌>>=◌, Bool-cases, inl, inr, ltb→lt, lt→ltb, arith,
}
use speed_up.Common.Int.{ℤ, pos, eqz, ltz, eqz_same}
use speed_up.Index.{read}
use speed_up.Search.{search_loop, binary_search_i64_ref}
use speed_up.Search.Finds.{
  elem, IsAscending, Finds, Within, read-next, Within-up, Within-down, Within-empty, Within-all,
  search_loop-Finds, binary_search_i64_ref-Finds,
}
use speed_up.Search.Simd.{
  reference_binary_search, Avx2, IsAvx2, Narrowed, found, range_left, simd_binary_search,
  pipelined_loop, simd_optimized_binary_search,
}
use speed_up.Search.Narrowing.{IsNarrowed, simd_loop-IsNarrowed}

module _ (array : List ℤ) (key : ℤ) (ascending : IsAscending array) where
  -- The reference of the benchmark is the library's search.
  pub reference_binary_search-Finds :
      (r : Option ℕ) × (reference_binary_search array key (pos (length array)) ≡ ok r)
      × Finds array key r
  unfolding reference_binary_search binary_search_i64_ref
  reference_binary_search-Finds = binary_search_i64_ref-Finds array key ascending

  -- the middle of a range
  abbrev middle : (lo hi : ℕ) → ℕ
  middle lo hi = lo + (hi - 1 - lo) / 2

  -- The end of a round: the next element is read, unless the range is empty.
  next_round :
      (fuel lo hi : ℕ)
      → Within array key lo hi
      → (lo < hi
          → (r : Option ℕ) × (pipelined_loop array key fuel lo hi
                (middle lo hi)
                (elem array (middle lo hi))
              ≡ ok r)
            × Finds array key r)
      → (r : Option ℕ) × ((if ltb lo hi
            then (read array (middle lo hi) >>= λ v.
                pipelined_loop array key fuel lo hi (middle lo hi) v)
            else ok none)
          ≡ ok r)
        × Finds array key r
  next_round fuel lo hi w again = elim (Bool-cases (ltb lo hi)) [
    | inr e ↦ (none, rw e refl, Within-empty array key ascending lo hi (ground arith) w)
    | inl e ↦
        let some_left : lo < hi = ltb→lt lo hi e in
        let mid = middle lo hi in
        let (r, returned, finds) = again some_left in
        (
          r,
          rw e (
              read-next array mid (λ v. pipelined_loop array key fuel lo hi mid v)
                (omega (arith, w.inside))
              ∙ returned),
          finds,
        )
  ]

  -- The pipelined loop ends and finds the key, if `value` is the element at `mid`, which is in range.
  pipelined_loop-Finds :
      (fuel lo hi mid : ℕ)
      → hi - lo < fuel
      → Within array key lo hi
      → lo ≤ mid
      → mid < hi
      → (r : Option ℕ) × (pipelined_loop array key fuel lo hi mid (elem array mid) ≡ ok r)
        × Finds array key r
  unfolding pipelined_loop
  pipelined_loop-Finds zero lo hi mid f w p q = absurd (omega arith)
  pipelined_loop-Finds (suc fuel) lo hi mid f w p q =
      let v = elem array mid in
      let at_mid : mid < length array = omega (arith, w.inside) in
      let more = lt→ltb lo hi (omega arith) in
      elim (Bool-cases (eqz v key)) [
        | inl same ↦ (some mid, rw (more, same) refl, (at_mid, eqz_same v key same))
        | inr differs ↦ elim (Bool-cases (ltz v key)) [
          | inl less ↦
              let (r, returned, finds) =
                next_round fuel (mid + 1) hi (Within-up array key ascending lo hi mid w at_mid less)
                  (λ left.
                    pipelined_loop-Finds fuel (mid + 1) hi (middle (mid + 1) hi) (omega arith)
                      (Within-up array key ascending lo hi mid w at_mid less) (omega arith)
                      (omega arith)) in
              (r, rw (more, differs, less) returned, finds)
          | inr least ↦
              let (r, returned, finds) =
                next_round fuel lo mid
                  (Within-down array key ascending lo hi mid w at_mid differs least)
                  (λ left.
                    pipelined_loop-Finds fuel lo mid (middle lo mid) (omega arith)
                      (Within-down array key ascending lo hi mid w at_mid differs least)
                      (omega arith) (omega arith)) in
              (r, rw (more, differs, least) returned, finds)
        ]
      ]

module _ (a : Avx2) (law : IsAvx2 a) (array : List ℤ) (key : ℤ)
    (ascending : IsAscending array) where
  -- With intrinsics as documented, on an ascending array the search with AVX2 ends, reads no element
  -- out of the array, and returns a position of the key, or -1 where the key does not stand in the
  -- array.
  pub simd_binary_search-Finds :
      (r : Option ℕ) × (simd_binary_search a array key (pos (length array)) ≡ ok r)
      × Finds array key r
  unfolding simd_binary_search
  simd_binary_search-Finds = elim (Bool-cases (ltb (length array) 32)) [
    | inl small ↦
        let (r, returned, finds) = reference_binary_search-Finds array key ascending in
        (r, rw small returned, finds)
    | inr large ↦
        let n = length array in
        let rest : Result Narrowed → Result (Option ℕ) = λ r. r >>= λ r. elim r [
          | found i ↦ ok (some i)
          | range_left lo hi ↦ search_loop array key (suc n) lo hi
        ] in
        let (r, narrowed, good) =
          simd_loop-IsNarrowed array key ascending a 16 (suc n) 0 n law (omega arith) (omega arith)
            (Within-all array key ascending) in
        let (result, returned, finds) = finish r good in
        (result, rw large (ap rest narrowed ∙ returned), finds)
  ]
    where
      finish :
          (r : Narrowed)
          → IsNarrowed array key ascending r
          → (result : Option ℕ) × (elim r [
            | found i ↦ ok (some i)
            | range_left lo hi ↦ search_loop array key (suc (length array)) lo hi
          ]
              ≡ ok result)
            × Finds array key result
      finish (found i) good = (some i, refl, good)
      finish (range_left lo hi) good =
          search_loop-Finds array key ascending (suc (length array)) lo hi
            (omega (arith, good.inside)) good

  -- With intrinsics as documented, on an ascending array the search that goes on with the pipelined
  -- loop ends, reads no element out of the array, and returns a position of the key, or -1 where the
  -- key does not stand in the array.
  pub simd_optimized_binary_search-Finds :
      (r : Option ℕ) × (simd_optimized_binary_search a array key (pos (length array)) ≡ ok r)
      × Finds array key r
  unfolding simd_optimized_binary_search
  simd_optimized_binary_search-Finds = elim (Bool-cases (ltb (length array) 32)) [
    | inl small ↦
        let (r, returned, finds) = reference_binary_search-Finds array key ascending in
        (r, rw small returned, finds)
    | inr large ↦
        let n = length array in
        let second = λ (lo hi : ℕ).
          let mid = lo + (hi - 1 - lo) / 2 in
          if ltb lo hi
          then (read array mid >>= λ value. pipelined_loop array key (suc n) lo hi mid value)
          else ok none in
        let rest : Result Narrowed → Result (Option ℕ) =
          λ r. r >>= λ r. elim r [ found i ↦ ok (some i) | range_left lo hi ↦ second lo hi ] in
        let (r, narrowed, good) =
          simd_loop-IsNarrowed array key ascending a 32 (suc n) 0 n law (omega arith) (omega arith)
            (Within-all array key ascending) in
        let (result, returned, finds) = finish r good in
        (result, rw large (ap rest narrowed ∙ returned), finds)
  ]
    where
      finish :
          (r : Narrowed)
          → IsNarrowed array key ascending r
          → (result : Option ℕ) × (elim r [
            | found i ↦ ok (some i)
            | range_left lo hi ↦
                if ltb lo hi
                then (read array (lo + (hi - 1 - lo) / 2) >>= λ value.
                    pipelined_loop array key
                      (suc (length array))
                      lo
                      hi
                      (lo + (hi - 1 - lo) / 2)
                      value)
                else ok none
          ]
              ≡ ok result)
            × Finds array key result
      finish (found i) good = (some i, refl, good)
      finish (range_left lo hi) good =
          next_round array key ascending (suc (length array)) lo hi good (λ left.
            pipelined_loop-Finds array key ascending (suc (length array)) lo hi
              (middle array key ascending lo hi) (omega (arith, good.inside)) good (omega arith)
              (omega arith))
