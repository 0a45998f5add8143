-- ===== src/SortKey/Order.antt =====
-- The order that a sort key defines.
use Prim.Native.Nat.{Ordering}
use speed_up.Common.{
  ℕ, ◌<◌, ◌≡◌, ◌⊎◌, ◌↔◌, Bool, false, Option, none, some, ltb, ◌==◌, if◌then◌else◌, ok, err,
  out_of_range, arith,
}
use speed_up.Std.Sort.{IsStrictWeak}
use speed_up.SortKey.{SortKey, is_negative, key_of, tie_break, compare_keys, compare, order, group}

abbrev pub flip : Ordering → Ordering
flip Ordering.lt = Ordering.gt
flip Ordering.eq = Ordering.eq
flip Ordering.gt = Ordering.lt

-- What a comparator has to be, as with strcmp: the two directions agree, and "less than" is a
-- strict weak order.
pub record IsThreeWay {T : Type 0} (c : T → T → Ordering) : Type 0 where
  pub flips : (x y : T) → c y x ≡ flip (c x y)
  pub neg_trans :
      (x y z : T)
      → is_negative (c x y) ≡ false
      → is_negative (c y z) ≡ false
      → is_negative (c x z) ≡ false

module _ {T : Type 0} where
  -- the comparator as the `less` of the standard algorithms
  abbrev pub less_by : (T → T → Ordering) → T → T → Bool
  less_by c x y = is_negative (c x y)

  pub IsThreeWay-IsStrictWeak : (c : T → T → Ordering) → IsThreeWay c → IsStrictWeak (less_by c)
  IsThreeWay-IsStrictWeak c w = record {
    asymm = λ a b h. ground (arith, w.flips a b);
    neg_trans = w.neg_trans;
  }

  -- A number in front of a comparator: groups and keys are compared first.
  abbrev by_number : (T → ℕ) → (T → T → Ordering) → T → T → Ordering
  by_number f c x y =
      if f x == f y then c x y else if ltb (f x) (f y) then Ordering.lt else Ordering.gt

  by_number-IsThreeWay :
      (f : T → ℕ) (c : T → T → Ordering) → IsThreeWay c → IsThreeWay (by_number f c)
  by_number-IsThreeWay f c w = record {
    flips = λ x y. ground (arith, w.flips x y);
    neg_trans = λ x y z p q. ground (arith, w.neg_trans x y z);
  }

  compare_keys-IsThreeWay : (k : SortKey T) → IsThreeWay (tie_break k) → IsThreeWay (compare_keys k)
  unfolding compare_keys
  compare_keys-IsThreeWay k w = by_number-IsThreeWay (key_of k) (tie_break k) w

  -- With a consistent tie-breaker (or none) the whole order, groups and keys included, is
  -- consistent.
  pub order-IsThreeWay : (k : SortKey T) → IsThreeWay (tie_break k) → IsThreeWay (order k)
  unfolding order
  order-IsThreeWay k w = by_groups k.group_function
    where
      by_groups :
          (o : Option (T → ℕ))
          → IsThreeWay (λ a b. elim o [
            | none ↦ compare_keys k a b
            | some f ↦
                if f a == f b
                then compare_keys k a b
                else if ltb (f a) (f b)
                then Ordering.lt
                else Ordering.gt
          ])
      by_groups none = compare_keys-IsThreeWay k w
      by_groups (some f) = by_number-IsThreeWay f (compare_keys k) (compare_keys-IsThreeWay k w)

  -- the value of the group function, whether in range or not
  abbrev pub raw_group : SortKey T → T → ℕ
  raw_group k x = elim k.group_function [ none ↦ 0 | some f ↦ f x ]

  -- The group function, if there is one, gives x a group of the key.
  abbrev pub HasGroup : SortKey T → T → Type 0
  HasGroup k x = elim k.group_function [ none ↦ Unit | some f ↦ f x < k.groups ]

  -- Group, then key, then tie-breaker put a first.
  abbrev pub Precedes : SortKey T → T → T → Type 0
  Precedes k a b =
      (raw_group k a < raw_group k b)
      ⊎ (((raw_group k a ≡ raw_group k b) × (key_of k a < key_of k b))
          ⊎ ((raw_group k a ≡ raw_group k b)
              × (key_of k a ≡ key_of k b)
              × (tie_break k a b ≡ Ordering.lt)))

  -- For a consistent tie-breaker: compare throws std::out_of_range exactly where the group of one
  -- of the two elements is out of range; otherwise it says less exactly where the group, then the
  -- key, then the tie-breaker put the first element before the second, and greater exactly where
  -- they put the second first.
  pub compare-Precedes :
      (k : SortKey T) (a b : T)
      → IsThreeWay (tie_break k)
      → ((compare k a b ≡ err out_of_range) ↔ (¬ (HasGroup k a × HasGroup k b)))
        × ((compare k a b ≡ ok Ordering.lt) ↔ (HasGroup k a × HasGroup k b × Precedes k a b))
        × ((compare k a b ≡ ok Ordering.gt) ↔ (HasGroup k a × HasGroup k b × Precedes k b a))
  unfolding compare compare_keys group
  compare-Precedes k a b w =
      let swapped = w.flips a b in
      (
        (λ h. ground arith, λ h. ground arith),
        (λ h. ground arith, λ h. ground arith),
        (λ h. ground (arith, swapped), λ h. ground (arith, swapped)),
      )

  -- Within a group the order is that of the keys and the tie-breaker.
  pub order-compare_keys :
      (k : SortKey T) (a b : T) → raw_group k a ≡ raw_group k b → order k a b ≡ compare_keys k a b
  unfolding order
  order-compare_keys k a b h = ground arith
