-- ===== src/Layout/Within.antt =====
-- The positions at which `estimate` of bucket_layout.hpp cuts its sorted sample: where the comparator is
-- consistent, std::lower_bound stops at an element of the sample.
use speed_up.Common.{
  ℕ, suc, ◌-◌, ◌<◌, ◌≡◌, Bool, false, List, [], ◌∷◌, length, get_or, All, All-get_or, All-at,
  dec_lt, arith,
}
use speed_up.SortKey.{SortKey, tie_break}
use speed_up.SortKey.Order.{IsThreeWay, order-IsThreeWay, IsThreeWay-IsStrictWeak}
use speed_up.Layout.{compare_at, less_at, split_positions, desired_positions}
use speed_up.Layout.Splits.{Ascends, choose_split_positions-Ascends}
use speed_up.Std.{bisect, lower_bound, stable_sort}
use speed_up.Std.Bisect.{bisect-Splits}
use speed_up.Std.Sort.{IsStrictWeak, IsSorted, stable_sort-IsSorted}

module _ {A : Type 0} (less : A → A → Bool) (weak : IsStrictWeak less) where
  irreflexive : (x : A) → less x x ≡ false
  irreflexive x = ground (arith, weak.asymm x x)

  -- The last element of a sorted list is below none of them.
  last-IsCeiling :
      (x : A) (xs : List A) (default : A)
      → IsSorted less (x ∷ xs)
      → All (λ y. less (get_or (x ∷ xs) (length xs) default) y ≡ false) (x ∷ xs)
  last-IsCeiling x [] default h = (irreflexive x, tt)
  last-IsCeiling x (y ∷ ys) default h = (
    All-at (λ z. less z x ≡ false) (y ∷ ys) (length ys) default h.0 (omega arith),
    last-IsCeiling y ys default h.1,
  )

  lower_bound-lt :
      (default : A) (xs : List A) (q : ℕ)
      → 0 < length xs
      → IsSorted less xs
      → lower_bound less default xs (get_or xs q (get_or xs 0 default)) < length xs
  unfolding lower_bound
  lower_bound-lt default [] q p h = absurd (omega arith)
  lower_bound-lt default (x ∷ xs) q p h =
      let v = get_or (x ∷ xs) q x in
      let r = bisect (λ i. less (get_or (x ∷ xs) i default) v) (suc (length xs)) in
      let s = bisect-Splits (λ i. less (get_or (x ∷ xs) i default) v) (suc (length xs)) in
      let ceiling = last-IsCeiling x xs default h in
      let last : less (get_or (x ∷ xs) (length xs) default) v ≡ false =
        All-get_or (λ y. less (get_or (x ∷ xs) (length xs) default) y ≡ false) (x ∷ xs) q x ceiling
          ceiling.0 in
      elim (dec_lt r (suc (length xs))) [
        | yes lt ↦ lt
        | no ge ↦
            let end : r - 1 ≡ length xs = omega (arith, s.at_most) in
            let up = s.before (omega (arith, s.at_most)) in absurd (cc)
      ]

All-any {ℓ κ} : {A : Type ℓ} (P : A → Type κ) (xs : List A) → ((x : A) → P x) → All P xs
All-any P [] h = tt
All-any P (x ∷ xs) h = (h x, All-any P xs h)

module _ {T : Type 0} (key : SortKey T) (c : IsThreeWay (tie_break key)) where
  pub compare_at-IsThreeWay :
      (items : List T) (keys : List ℕ) (default : T)
      → IsThreeWay (compare_at key default items keys)
  unfolding compare_at
  compare_at-IsThreeWay items keys default =
      let w = order-IsThreeWay key c in
      record {
        flips = λ a b. ground (
          arith,
          c.flips (get_or items a default) (get_or items b default),
          w.flips (get_or items a default) (get_or items b default),
        );
        neg_trans = λ a b e p q. ground (
          arith,
          c.neg_trans (get_or items a default) (get_or items b default) (get_or items e default),
          w.neg_trans (get_or items a default) (get_or items b default) (get_or items e default),
        );
      }

  pub less_at-IsStrictWeak :
      (items : List T) (keys : List ℕ) → IsStrictWeak (less_at key items keys)
  unfolding less_at
  less_at-IsStrictWeak [] keys = record {
    asymm = λ a b h. ground arith;
    neg_trans = λ a b e p q. ground arith;
  }
  less_at-IsStrictWeak (x ∷ items) keys =
      IsThreeWay-IsStrictWeak (compare_at key x (x ∷ items) keys)
        (compare_at-IsThreeWay (x ∷ items) keys x)

  -- The positions that split a sample in order are strictly increasing and positive, and stand in it.
  pub split_positions-Ascends :
      (items : List T) (keys sample targets : List ℕ) (n : ℕ)
      → 0 < length (stable_sort (less_at key items keys) sample)
      → Ascends 1
          (length (stable_sort (less_at key items keys) sample))
          (split_positions key items keys (stable_sort (less_at key items keys) sample) targets n)
  unfolding split_positions
  split_positions-Ascends items keys sample targets n p =
      let less = less_at key items keys in
      let weak = less_at-IsStrictWeak items keys in
      let sorted = stable_sort less sample in
      let desired = desired_positions n (length sorted) 0 targets in
      (choose_split_positions-Ascends (length sorted) _ _ desired (
        All-any _ desired
          (λ q. lower_bound-lt less weak 0 sorted q p (stable_sort-IsSorted less weak sample)))).0
