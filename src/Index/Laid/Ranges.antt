-- ===== src/Index/Laid/Ranges.antt =====
-- Where the layouts of a key state are well formed, `bucket_for` of bucket_index.hpp gives only
-- buckets that there are.
use native.Mathlib.Nat.{zero-add}
use speed_up.Common.{
  refl, ℕ, zero, suc, ◌+◌, ◌*◌, ◌<◌, ◌≤◌, ◌≡◌, ap, ◌∙◌, List, [], ◌∷◌, length, get_or, All, All-at,
  ltb, if◌then◌else◌, Bool-cases, inl, inr, ok, >>=-ok, ok_injective, arith,
}
use speed_up.SortKey.{SortKey, group, key_of, has_key}
use speed_up.Layout.{BucketLayout, bucket_count, bucket_of, single_bucket}
use speed_up.Layout.Buckets.{IsLayout, bucket_of-lt}
use speed_up.Index.{KeyState, bucket_for, local_bucket, bucket_total, last_or}
use speed_up.Index.Relayout.{offsets, with_layouts}
use speed_up.Index.Laid.{IsRanged}
use speed_up.Index.Laid.Layouts.{AreLayouts}

module _ {T : Type 0} where
  -- how many buckets there are in all
  total : List (BucketLayout T) → ℕ
  total [] = 0
  total (layout ∷ layouts) = bucket_count layout + total layouts

  last-offsets :
      (first d : ℕ) (layouts : List (BucketLayout T))
      → last_or d (offsets first layouts) ≡ first + total layouts
  unfolding offsets total
  last-offsets first d [] = omega arith
  last-offsets first d (layout ∷ layouts) =
      omega (arith, last-offsets (first + bucket_count layout) first layouts)

  -- The buckets of a group end before the last offset.
  group_fits :
      (first g : ℕ) (layouts : List (BucketLayout T))
      → g < length layouts
      → get_or (offsets first layouts) g 0 + bucket_count (get_or layouts g single_bucket)
        ≤ first + total layouts
  unfolding offsets total
  group_fits first g [] h = absurd (omega arith)
  group_fits first zero (layout ∷ []) h = omega arith
  group_fits first zero (layout ∷ next ∷ layouts) h = omega arith
  group_fits first (suc g) (layout ∷ layouts) h =
      omega (arith, group_fits (first + bucket_count layout) g layouts (omega arith))

  total-le :
      (P : BucketLayout T → Type 0) (m : ℕ) (layouts : List (BucketLayout T))
      → All (λ layout. P layout × (bucket_count layout ≤ m)) layouts
      → total layouts ≤ length layouts * m
  unfolding total
  total-le P m [] h = omega arith
  total-le P m (layout ∷ layouts) h = grind (arith, h.0.1, total-le P m layouts h.1)

  group-lt :
      (key : SortKey T) (x : T) (g : ℕ) → 0 < key.groups → group key x ≡ ok g → g < key.groups
  unfolding group
  group-lt key x g p e = ground arith

  module _ (state : KeyState T) (n m : ℕ) (layouts : List (BucketLayout T))
      (a : AreLayouts state.key m layouts) (some_group : 0 < state.key.groups) where
    -- the state whose slots `relayout` assigns
    abbrev laid : KeyState T
    laid = with_layouts state n layouts

    bucket_total-laid : bucket_total laid ≡ total layouts
    unfolding bucket_total with_layouts
    bucket_total-laid = last-offsets 0 0 layouts ∙ zero-add (total layouts)

    local-lt :
        (x : T) (g : ℕ)
        → g < length layouts
        → local_bucket laid x (key_of state.key x) g < bucket_count (get_or layouts g single_bucket)
    unfolding local_bucket with_layouts bucket_of
    local-lt x g h =
        let layout = get_or layouts g single_bucket in
        let formed =
          (All-at (λ l. IsLayout state.key l × (bucket_count l ≤ m)) layouts g single_bucket
            a.formed h).0 in
        let lt = bucket_of-lt state.key layout x formed in
        elim (Bool-cases (has_key state.key)) [
          | inl k ↦ rw k (rw k at lt)
          | inr k ↦ rw k (rw k at lt)
        ]

    bucket_for-lt :
        (x : T) (b : ℕ) → bucket_for laid x (key_of state.key x) ≡ ok b → b < bucket_total laid
    unfolding bucket_for with_layouts
    bucket_for-lt x b e =
        let (g, chosen, k) =
          >>=-ok _ (if ltb 1 (length layouts) then group state.key x else ok 0) e in
        let in_group : g < length layouts = elim (Bool-cases (ltb 1 (length layouts))) [
          | inl more ↦
              omega (arith, a.each_group, group-lt state.key x g some_group (rw more at chosen))
          | inr one ↦ omega (arith, a.each_group, some_group, ok_injective (rw one at chosen))
        ] in
        omega (
          arith,
          ok_injective k,
          local-lt x g in_group,
          group_fits 0 g layouts in_group,
          bucket_total-laid,
        )

    pub laid-IsRanged : IsRanged laid
    unfolding with_layouts
    laid-IsRanged = record {
      small = omega (
        arith,
        bucket_total-laid,
        total-le (IsLayout state.key) m layouts a.formed,
        ap (λ g. g * m) a.each_group,
        a.few,
      );
      limit = m;
      formed = a;
      offset = refl;
      below = bucket_for-lt;
    }
