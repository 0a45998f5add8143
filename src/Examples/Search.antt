-- ===== src/Examples/Search.antt =====
-- Runs and applications of the theorems on the searches, on the array that benchmark_win.c searches.
use speed_up.Common.{
  ℕ, zero, suc, ◌+◌, ◌*◌, ◌<◌, ◌≡◌, refl, ap, ◌∙◌, List, [], ◌∷◌, length, Option, none, some, ok,
  arith, true,
}
use speed_up.Common.Int.{ℤ, pos}
use speed_up.Search.{
  binary_search_i64_ref, binary_search_i64, initial_settings, set_backend_preference, force_opencl,
  Settings,
}
use speed_up.Search.Simd.{
  Avx2, IsAvx2, mask_of, simd_binary_search, simd_optimized_binary_search, verify_function,
}
use speed_up.Common.Int.{eqz, ltz}
use speed_up.Search.Finds.{elem, IsAscending, Finds, binary_search_i64-Finds}
use speed_up.Search.Agrees.{simd_binary_search-Finds, simd_optimized_binary_search-Finds}
use speed_up.Search.Verify.{IsRising, verify_function-simd_binary_search}

-- `array[i] = i * 2`, from i on
abbrev evens : (i count : ℕ) → List ℤ
evens i zero = []
evens i (suc count) = pos (i * 2) ∷ evens (suc i) count

length-evens : (i count : ℕ) → length (evens i count) ≡ count
length-evens i zero = refl
length-evens i (suc count) = ap suc (length-evens (suc i) count)

elem-evens : (i count k : ℕ) → k < count → elem (evens i count) k ≡ pos ((i + k) * 2)
elem-evens i zero k h = absurd (omega arith)
elem-evens i (suc count) zero h = ap pos (omega arith)
elem-evens i (suc count) (suc k) h = elem-evens (suc i) count k (omega arith) ∙ ap pos (omega arith)

abbrev forty : List ℤ
forty = evens 0 40

forty-IsRising : IsRising forty
forty-IsRising i j p h =
    rw (elem-evens 0 40 i (omega arith), elem-evens 0 40 j (omega arith)) (omega arith)

forty-IsAscending : IsAscending forty
forty-IsAscending i j p h =
    rw (elem-evens 0 40 i (omega arith), elem-evens 0 40 j (omega arith)) (omega arith)

abbrev documented : Avx2
documented = record {
  equal_mask = λ v key. mask_of (λ x. eqz x key) v;
  less_mask = λ v key. mask_of (λ x. ltz x key) v;
}

documented-IsAvx2 : IsAvx2 documented
documented-IsAvx2 = record { equal = λ v key. refl; less = λ v key. refl }

found_by_ref : binary_search_i64_ref forty (pos 46) (pos 40) ≡ ok (some 23)
unfolding binary_search_i64_ref
found_by_ref = refl

found_by_simd : simd_binary_search documented forty (pos 46) (pos 40) ≡ ok (some 23)
unfolding simd_binary_search
found_by_simd = refl

missed_by_simd : simd_optimized_binary_search documented forty (pos 47) (pos 40) ≡ ok none
unfolding simd_optimized_binary_search
missed_by_simd = refl

abbrev forced : Settings
forced = set_backend_preference force_opencl initial_settings

binary_search_i64-Finds_example :
    (r : Option ℕ) × (binary_search_i64 forced forty (pos 46) (pos 40) ≡ ok r)
    × Finds forty (pos 46) r
binary_search_i64-Finds_example = binary_search_i64-Finds forced forty (pos 46) forty-IsAscending

simd_binary_search-Finds_example :
    (r : Option ℕ) × (simd_binary_search documented forty (pos 46) (pos 40) ≡ ok r)
    × Finds forty (pos 46) r
simd_binary_search-Finds_example =
    simd_binary_search-Finds documented documented-IsAvx2 forty (pos 46) forty-IsAscending

simd_optimized_binary_search-Finds_example :
    (r : Option ℕ) × (simd_optimized_binary_search documented forty (pos 46) (pos 40) ≡ ok r)
    × Finds forty (pos 46) r
simd_optimized_binary_search-Finds_example =
    simd_optimized_binary_search-Finds documented documented-IsAvx2 forty (pos 46) forty-IsAscending

verify_function-simd_binary_search_example :
    (verify_function (simd_binary_search documented) forty (pos 40) (pos 46 ∷ pos 47 ∷ [])
      ≡ ok true)
    × (verify_function
          (simd_optimized_binary_search documented)
          forty
          (pos 40)
          (pos 46 ∷ pos 47 ∷ [])
        ≡ ok true)
verify_function-simd_binary_search_example =
    verify_function-simd_binary_search forty forty-IsRising documented (pos 46 ∷ pos 47 ∷ [])
      documented-IsAvx2
