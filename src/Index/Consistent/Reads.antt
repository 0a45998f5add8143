-- ===== src/Index/Consistent/Reads.antt =====
-- The reads of bucket_index.hpp, which may prepare and sort, keep an index consistent.
use mathlib.Core.Path.{subst}
use speed_up.Common.{
  ℕ, suc, ◌+◌, ◌-◌, min, ◌≡◌, sym, ap, ◌∙◌, inl, inr, Bool, Option, none, some, List, length, take,
  drop, get_or, leb, ◌==◌, Bool-cases, Result, ok, >>=-ok, ok_injective,
}
use speed_up.Common.Doubles.{Doubles}
use speed_up.Index.{
  KeyState, BucketIndex, Direction, ascending, descending, bucket_at, bucket_total, to_ascending,
  read,
}
use speed_up.Index.Sorting.{sort_bucket, sort_buckets}
use speed_up.Std.{find_index}
use speed_up.Index.Reads.{
  with_active, at, range, first_page, position_if, for_each, sort_all, item_at,
  is_grouped_descending, first_match, visit_up, visit_groups,
}
use speed_up.Index.Laid.{base}
use speed_up.Index.Laid.Order.{
  base-sort_bucket, base-sort_buckets, base-range_plain, base-range_groups, base-visit_up,
  base-visit_groups,
}
use speed_up.Index.Consistent.{option-cases, IsConsistent, with_active-IsConsistent}

module _ {F : Type 0} ⦃d : Doubles F⦄ {T : Type 0} where
  pub at-IsConsistent :
      (position : ℕ) (index : BucketIndex F T) {result : BucketIndex F T × T}
      → at position index ≡ ok result
      → IsConsistent index
      → IsConsistent result.0
  unfolding at
  at-IsConsistent position index {result} h c =
      elim (Bool-cases (leb (length index.items) position)) [
        | inl out ↦ cc (rw (at, out) at h)
        | inr e ↦ elim (option-cases index.active) [
          | inl unsorted ↦
              let (x, held, k) = >>=-ok _ (read index.items position) (rw (at, e, unsorted) at h) in
              subst IsConsistent (ap (λ p. p.0) (ok_injective k)) c
          | inr (i, active) ↦
              with_active-IsConsistent index i _
                (λ s r done.
                  let pos = to_ascending index.direction (length index.items) s position in
                  let b = bucket_at s pos in
                  let (x, held, k) =
                    >>=-ok _ (item_at index.items (sort_bucket index.items s b) pos) done in
                  ap (λ p. base p.0) (sym (ok_injective k)) ∙ base-sort_bucket index.items s b)
                (rw (at, e, active) at h) c
        ]
      ]

  pub range-IsConsistent :
      (from to : ℕ) (index : BucketIndex F T) {result : BucketIndex F T × List T}
      → range from to index ≡ ok result
      → IsConsistent index
      → IsConsistent result.0
  unfolding range
  range-IsConsistent from to index {result} h c =
      let stop = min to (length index.items) in
      elim (Bool-cases (leb stop from)) [
        | inl e ↦ subst IsConsistent (ap (λ p. p.0) (ok_injective (rw (range, e) at h))) c
        | inr e ↦ elim (option-cases index.active) [
          | inl unsorted ↦
              subst IsConsistent (ap (λ p. p.0) (ok_injective (rw (range, e, unsorted) at h))) c
          | inr (i, active) ↦
              with_active-IsConsistent index i _
                (λ s r done. elim (Bool-cases (is_grouped_descending index.direction s)) [
                  | inl g ↦ base-range_groups index.items (stop - from) from none s (rw g at done)
                  | inr g ↦ base-range_plain index.items index.direction from stop s (rw g at done)
                ])
                (rw (range, e, active) at h) c
        ]
      ]

  pub first_page-IsConsistent :
      (index : BucketIndex F T) {result : BucketIndex F T × List T}
      → first_page index ≡ ok result
      → IsConsistent index
      → IsConsistent result.0
  unfolding first_page
  first_page-IsConsistent index h c = range-IsConsistent 0 index.plan.page_size index h c

  pub position_if-IsConsistent :
      (match : T → Bool) (index : BucketIndex F T) {result : BucketIndex F T × Option ℕ}
      → position_if match index ≡ ok result
      → IsConsistent index
      → IsConsistent result.0
  unfolding position_if
  position_if-IsConsistent match index {result} h c =
      let slot = first_match match index.items in
      elim (Bool-cases (slot == length index.items)) [
        | inl e ↦ subst IsConsistent (ap (λ p. p.0) (ok_injective (rw (position_if, e) at h))) c
        | inr e ↦ elim (option-cases index.active) [
          | inl unsorted ↦
              subst IsConsistent (ap (λ p. p.0) (ok_injective (rw (position_if, e, unsorted) at h)))
                c
          | inr (i, active) ↦
              let body : KeyState T → Result (KeyState T × Option ℕ) = λ state.
                let bucket = get_or state.buckets slot 0 in
                let state' = sort_bucket index.items state bucket in
                let first = get_or state'.start bucket 0 in
                let end = get_or state'.start (suc bucket) 0 in
                let it = first + find_index (take (end - first) (drop first state'.order)) slot in
                ok (state', some (to_ascending index.direction (length index.items) state' it)) in
              with_active-IsConsistent index i body
                (λ s r done.
                  ap (λ (p : KeyState T × Option ℕ). base p.0) (sym (ok_injective done))
                  ∙ base-sort_bucket index.items s (get_or s.buckets slot 0))
                (rw (position_if, e, active) at h) c
        ]
      ]

  pub for_each-IsConsistent :
      (index : BucketIndex F T) {result : BucketIndex F T × List T}
      → for_each index ≡ ok result
      → IsConsistent index
      → IsConsistent result.0
  unfolding for_each
  for_each-IsConsistent index {result} h c = elim (option-cases index.active) [
    | inl unsorted ↦
        subst IsConsistent (ap (λ p. p.0) (ok_injective (rw (for_each, unsorted) at h))) c
    | inr (i, active) ↦
        with_active-IsConsistent index i _
          (λ s r done. visited index.items index.direction s r done) (rw (for_each, active) at h) c
  ]
    where
      visited :
          (items : List T) (direction : Direction) (s : KeyState T) (r : KeyState T × List T)
          → elim direction [
            | ascending ↦ visit_up items (bucket_total s) 0 s
            | descending ↦ visit_groups items (length s.layouts) 0 s
          ]
            ≡ ok r
          → base r.0 ≡ base s
      visited items ascending s r done = base-visit_up items (bucket_total s) 0 s done
      visited items descending s r done = base-visit_groups items (length s.layouts) 0 s done

  pub sort_all-IsConsistent :
      (index : BucketIndex F T) {index' : BucketIndex F T}
      → sort_all index ≡ ok index'
      → IsConsistent index
      → IsConsistent index'
  unfolding sort_all
  sort_all-IsConsistent index {index'} h c = elim (option-cases index.active) [
    | inl unsorted ↦ subst IsConsistent (ok_injective (rw (sort_all, unsorted) at h)) c
    | inr (i, active) ↦
        let body : KeyState T → Result (KeyState T × Unit {0}) =
          λ state. ok (sort_buckets index.items (bucket_total state) 0 state, tt) in
        let last : BucketIndex F T × Unit {0} → Result (BucketIndex F T) =
          λ (index', u). ok index' in
        let ((next, u), done, k) =
          >>=-ok last (with_active index i body) (rw (sort_all, active) at h) in
        subst IsConsistent (ok_injective k) (
          with_active-IsConsistent index i body
            (λ s r e.
              ap (λ (p : KeyState T × Unit {0}). base p.0) (sym (ok_injective e))
              ∙ base-sort_buckets index.items (bucket_total s) 0 s)
            done c)
  ]
