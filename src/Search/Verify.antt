-- ===== src/Search/Verify.antt =====
-- `verify_function` of legacy/benchmark_win.c: the searches with AVX2 pass it.
use speed_up.Common.{
  ℕ, ◌<◌, ◌≡◌, refl, sym, ap, ◌∙◌, Bool, true, false, List, [], ◌∷◌, length, Option, none, some,
  Result, ok, ◌>>=◌, ==_iff, arith, dec_lt,
}
use speed_up.Common.Int.{ℤ, pos, ◌≤ℤ◌, ◌<ℤ◌}
use speed_up.Search.Finds.{elem, IsAscending, Finds}
use speed_up.Search.Simd.{
  Avx2, IsAvx2, simd_binary_search, simd_optimized_binary_search, same_position, verify_function,
}
use speed_up.Search.Agrees.{
  reference_binary_search-Finds, simd_binary_search-Finds, simd_optimized_binary_search-Finds,
}

-- Every element is below those behind it.
abbrev pub IsRising : List ℤ → Type 0
IsRising array = (i j : ℕ) → i < j → j < length array → elem array i <ℤ elem array j

same_elem : (a b : ℤ) → a ≡ b → a ≤ℤ b
same_elem a b e = rw e (omega arith)

module _ (array : List ℤ) (rising : IsRising array) where
  ascending : IsAscending array
  ascending i j p h = elim (dec_lt i j) [
    | yes q ↦ let less = rising i j q h in omega arith
    | no q ↦ same_elem (elem array i) (elem array j) (ap (elem array) (omega arith))
  ]

  apart : (i j : ℕ) → i < j → j < length array → elem array i ≡ elem array j → ⊥
  apart i j p h e =
      let less = rising i j p h in
      let back = same_elem (elem array j) (elem array i) (sym e) in absurd (omega arith)

  same_place : (i j : ℕ) → i < length array → j < length array → elem array i ≡ elem array j → i ≡ j
  same_place i j p q e = elim (dec_lt i j) [
    | yes l ↦ absurd (apart i j l q e)
    | no l ↦ elim (dec_lt j i) [ yes g ↦ absurd (apart j i g p (sym e)) | no g ↦ omega arith ]
  ]

  -- Two searches that find the key find it at the same place.
  same_position-Finds :
      (key : ℤ) (r s : Option ℕ) → Finds array key r → Finds array key s → same_position r s ≡ true
  same_position-Finds key none none f g = refl
  same_position-Finds key none (some j) f g = absurd (f j g.0 g.1)
  same_position-Finds key (some i) none f g = absurd (g i f.0 f.1)
  same_position-Finds key (some i) (some j) f g =
      (==_iff i j).1 (same_place i j f.0 g.0 (f.1 ∙ sym g.1))

  verify_function-Finds :
      (search : List ℤ → ℤ → ℤ → Result (Option ℕ)) (keys : List ℤ)
      → ((key : ℤ)
          → (r : Option ℕ) × (search array key (pos (length array)) ≡ ok r) × Finds array key r)
      → verify_function search array (pos (length array)) keys ≡ ok true
  unfolding verify_function
  verify_function-Finds search [] finds = refl
  verify_function-Finds search (key ∷ keys) finds =
      let n = pos (length array) in
      let (expected, ref, f) = reference_binary_search-Finds array key ascending in
      let (result, other, g) = finds key in
      let rest : Bool → Result Bool =
        λ b. elim b [ false ↦ ok false | true ↦ verify_function search array n keys ] in
      ap
        (λ r.
          r >>= λ expected. search array key n >>= λ result. rest (same_position result expected))
        ref
      ∙ ap (λ r. r >>= λ result. rest (same_position result expected)) other
      ∙ ap rest (same_position-Finds key result expected g f)
      ∙ verify_function-Finds search keys finds

  -- With intrinsics as documented, on an array in which every element is below those behind it, the
  -- check of both searches with AVX2 against the reference passes for all keys.
  pub verify_function-simd_binary_search :
      (a : Avx2) (keys : List ℤ)
      → IsAvx2 a
      → (verify_function (simd_binary_search a) array (pos (length array)) keys ≡ ok true)
        × (verify_function (simd_optimized_binary_search a) array (pos (length array)) keys
            ≡ ok true)
  verify_function-simd_binary_search a keys law = (
    verify_function-Finds (simd_binary_search a) keys
        (λ key. simd_binary_search-Finds a law array key ascending),
    verify_function-Finds (simd_optimized_binary_search a) keys
        (λ key. simd_optimized_binary_search-Finds a law array key ascending),
  )
