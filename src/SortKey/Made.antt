-- ===== src/SortKey/Made.antt =====
-- The sort keys that a caller can hold: what `of` of sort_key.hpp returns, or a `with_groups` copy.
use Prim.Native.Nat.{Ordering}
use Prim.Native.String.{String}
use text.Mathlib.Text.{◌==◌ as str_eq}
use speed_up.Common.{
  ℕ, ◌<◌, ◌≤◌, ◌≡◌, sym, ap, Option, none, some, ltb, ◌==◌, ◌||◌, Bool-cases, inl, inr, ok,
  ok_injective, arith,
}
use speed_up.SortKey.{SortKey, max_groups, construct, of_key, of_comparator, with_groups}

module _ {T : Type 0} where
  -- `of_exact` and `of_text` return what `of_key` does.
  pub data MadeKey : SortKey T → Type 0 where
    by_key :
        {k : SortKey T} (name : String) (key : Option (T → ℕ))
        (tie_breaker : Option (T → T → Ordering))
        → of_key name key tie_breaker ≡ ok k
        → MadeKey k
    by_comparator :
        {k : SortKey T} (name : String) (comparator : Option (T → T → Ordering))
        → of_comparator name comparator ≡ ok k
        → MadeKey k
    in_groups :
        {k k' : SortKey T} (groups : ℕ) (group : Option (T → ℕ))
        → MadeKey k
        → with_groups k groups group ≡ ok k'
        → MadeKey k'

  construct-groups :
      (name : String) (key : Option (T → ℕ)) (comparator : Option (T → T → Ordering))
      {k : SortKey T}
      → construct name key comparator ≡ ok k
      → k.groups ≡ 1
  unfolding construct
  construct-groups name key comparator h = elim (Bool-cases (str_eq name "")) [
    | inl e ↦ cc (rw e at h)
    | inr e ↦ ap (λ k. k.groups) (sym (ok_injective (rw e at h)))
  ]

  pub MadeKey-groups : (k : SortKey T) → MadeKey k → (0 < k.groups) × (k.groups ≤ max_groups)
  unfolding of_key of_comparator with_groups
  MadeKey-groups k (by_key name none tie_breaker h) = cc
  MadeKey-groups k (by_key name (some f) tie_breaker h) =
      let one = construct-groups name (some f) tie_breaker h in (omega arith, omega arith)
  MadeKey-groups k (by_comparator name none h) = cc
  MadeKey-groups k (by_comparator name (some f) h) =
      let one = construct-groups name none (some f) h in (omega arith, omega arith)
  MadeKey-groups k (in_groups groups none made h) =
      elim (Bool-cases (groups == 0 || ltb max_groups groups)) [
        | inl e ↦ cc (rw e at h)
        | inr e ↦ cc (rw e at h)
      ]
  MadeKey-groups k (in_groups groups (some f) made h) =
      elim (Bool-cases (groups == 0 || ltb max_groups groups)) [
        | inl e ↦ cc (rw e at h)
        | inr e ↦
            let same = ap (λ k. k.groups) (ok_injective (rw e at h)) in
            (ground (arith, same), ground (arith, same))
      ]
