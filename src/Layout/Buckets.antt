-- ===== src/Layout/Buckets.antt =====
-- Buckets follow the order of the key: bucket_of of bucket_layout.hpp.
use Prim.Native.Nat.{Ordering}
use speed_up.Common.{
  ℕ, suc, ◌<◌, ◌≤◌, ◌≡◌, refl, sym, Bool, true, false, not, Option, none, some, List, [], ◌∷◌,
  length, get_or, get_elem?, ltb, Bool-cases, inl, inr, arith,
}
use speed_up.Std.{bisect}
use speed_up.Std.Bisect.{bisect-Splits, bisect_mono}
use speed_up.SortKey.{SortKey, has_key, key_of, tie_break, compare_keys, order, is_negative}
use speed_up.SortKey.Order.{IsThreeWay, order-IsThreeWay, order-compare_keys, raw_group}
use speed_up.Layout.{
  BucketLayout, bucket_count, bucket_of, bucket_of_keyed, is_below, below_splitter, compares_below,
}

module _ {T : Type 0} where
  -- The vectors of a layout fit together.
  pub record IsLayout (key : SortKey T) (layout : BucketLayout T) : Type 0 where
    pub keyed : has_key key ≡ true → suc (length layout.boundaries) ≡ length layout.expected
    pub stored : has_key key ≡ true → length layout.split_element ≡ length layout.boundaries
    pub compared : has_key key ≡ false → suc (length layout.splitters) ≡ length layout.expected
    pub positions : length layout.splitter_positions ≡ length layout.splitters

  bucket_of_keyed-le :
      (key : SortKey T) (layout : BucketLayout T) (x : T) (k : ℕ)
      → bucket_of_keyed key layout x k ≤ length layout.boundaries
  unfolding bucket_of_keyed
  bucket_of_keyed-le key layout x k = by_splitters layout.splitters
    where
      by_splitters :
          (splitters : List T)
          → elim splitters [
            | [] ↦
                bisect
                  (λ mid. not (ltb k (get_or layout.boundaries mid 0)))
                  (length layout.boundaries)
            | split ∷ rest ↦
                bisect (λ mid. not (is_below key layout x k mid)) (length layout.boundaries)
          ]
            ≤ length layout.boundaries
      by_splitters [] =
          (bisect-Splits (λ mid. not (ltb k (get_or layout.boundaries mid 0)))
            (length layout.boundaries)).at_most
      by_splitters (split ∷ rest) =
          (bisect-Splits (λ mid. not (is_below key layout x k mid))
            (length layout.boundaries)).at_most

  -- In a well-formed layout, where no comparison throws, every element has one of its buckets.
  pub bucket_of-lt :
      (key : SortKey T) (layout : BucketLayout T) (x : T)
      → IsLayout key layout
      → bucket_of key layout x < bucket_count layout
  unfolding bucket_of bucket_count
  bucket_of-lt key layout x v = elim (Bool-cases (has_key key)) [
    | inl e ↦ rw e (omega (arith, v.keyed e, bucket_of_keyed-le key layout x (key_of key x)))
    | inr e ↦
        let r =
          bisect-Splits (λ mid. not (compares_below key layout x mid)) (length layout.splitters) in
        rw e (omega (arith, v.compared e, r.at_most))
  ]

  -- the test of an element against a splitter, which may be missing
  abbrev beats : (T → T → Ordering) → Option T → T → Bool
  beats c none value = false
  beats c (some split) value = is_negative (c value split)

  beats-anti :
      (c : T → T → Ordering) (o : Option T) (x y : T)
      → IsThreeWay c
      → is_negative (c y x) ≡ false
      → beats c o x ≡ false
      → beats c o y ≡ false
  beats-anti c none x y w h p = refl
  beats-anti c (some split) x y w h p = w.neg_trans y x split h p

  -- the splitter that split point `mid` of a keyed layout stores
  abbrev splitter_at : BucketLayout T → Option ℕ → Option T
  splitter_at layout none = none
  splitter_at layout (some e) = get_elem? layout.splitters e

  below_splitter-beats :
      (key : SortKey T) (layout : BucketLayout T) (mid : ℕ) (x : T)
      → below_splitter key layout mid x
        ≡ beats (tie_break key) (splitter_at layout (get_or layout.split_element mid none)) x
  unfolding below_splitter
  below_splitter-beats key layout mid x = ground arith

  compares_below-beats :
      (key : SortKey T) (layout : BucketLayout T) (mid : ℕ) (x : T)
      → compares_below key layout x mid ≡ beats (order key) (get_elem? layout.splitters mid) x
  unfolding compares_below
  compares_below-beats key layout mid x = ground arith

  module _ (key : SortKey T) (layout : BucketLayout T) (c : IsThreeWay (tie_break key)) where
    is_below-anti :
        (x y : T)
        → is_negative (compare_keys key y x) ≡ false
        → (mid : ℕ) → not (is_below key layout x (key_of key x) mid) ≡ true
        → not (is_below key layout y (key_of key y) mid) ≡ true
    unfolding is_below compare_keys
    is_below-anti x y h mid p =
        let stored = splitter_at layout (get_or layout.split_element mid none) in
        ground (
          arith,
          below_splitter-beats key layout mid x,
          below_splitter-beats key layout mid y,
          beats-anti (tie_break key) stored x y c,
        )

    compares_below-anti :
        (x y : T)
        → is_negative (order key y x) ≡ false
        → (mid : ℕ) → not (compares_below key layout x mid) ≡ true
        → not (compares_below key layout y mid) ≡ true
    compares_below-anti x y h mid p = ground (
      arith,
      compares_below-beats key layout mid x,
      compares_below-beats key layout mid y,
      beats-anti (order key) (get_elem? layout.splitters mid) x y (order-IsThreeWay key c) h,
    )

    bucket_of_keyed_mono :
        (x y : T)
        → is_negative (compare_keys key y x) ≡ false
        → bucket_of_keyed key layout x (key_of key x) ≤ bucket_of_keyed key layout y (key_of key y)
    unfolding bucket_of_keyed compare_keys
    bucket_of_keyed_mono x y h = by_splitters layout.splitters
      where
        keys_le : key_of key x ≤ key_of key y
        keys_le = ground arith

        by_splitters :
            (splitters : List T)
            → elim splitters [
              | [] ↦
                  bisect
                    (λ mid. not (ltb (key_of key x) (get_or layout.boundaries mid 0)))
                    (length layout.boundaries)
              | split ∷ rest ↦
                  bisect
                    (λ mid. not (is_below key layout x (key_of key x) mid))
                    (length layout.boundaries)
            ]
              ≤ elim splitters [
                | [] ↦
                    bisect
                      (λ mid. not (ltb (key_of key y) (get_or layout.boundaries mid 0)))
                      (length layout.boundaries)
                | split ∷ rest ↦
                    bisect
                      (λ mid. not (is_below key layout y (key_of key y) mid))
                      (length layout.boundaries)
              ]
        by_splitters [] =
            bisect_mono (λ mid. not (ltb (key_of key x) (get_or layout.boundaries mid 0)))
              (λ mid. not (ltb (key_of key y) (get_or layout.boundaries mid 0)))
              (length layout.boundaries) (λ mid p. ground arith)
        by_splitters (split ∷ rest) =
            bisect_mono (λ mid. not (is_below key layout x (key_of key x) mid))
              (λ mid. not (is_below key layout y (key_of key y) mid)) (length layout.boundaries)
              (is_below-anti x y h)

    -- For a consistent tie-breaker, on any layout, where no comparison throws: if two elements are
    -- in one group and y does not come before x, the bucket of x does not come after the bucket of
    -- y.
    pub bucket_of_mono :
        (x y : T)
        → raw_group key y ≡ raw_group key x
        → is_negative (order key y x) ≡ false
        → bucket_of key layout x ≤ bucket_of key layout y
    unfolding bucket_of
    bucket_of_mono x y g h = elim (Bool-cases (has_key key)) [
      | inl e ↦ rw e (bucket_of_keyed_mono x y (rw (order-compare_keys key y x g) at h))
      | inr e ↦ rw e (
          bisect_mono (λ mid. not (compares_below key layout x mid))
            (λ mid. not (compares_below key layout y mid)) (length layout.splitters)
            (compares_below-anti x y h))
    ]

    -- For a consistent tie-breaker, on any layout, where no comparison throws: elements of one
    -- group that compare equal share a bucket.
    pub bucket_of-eq :
        (x y : T)
        → raw_group key y ≡ raw_group key x
        → order key y x ≡ Ordering.eq
        → bucket_of key layout x ≡ bucket_of key layout y
    bucket_of-eq x y g h =
        let w = order-IsThreeWay key c in
        omega (
          arith,
          bucket_of_mono x y g (rw h refl),
          bucket_of_mono y x (sym g) (rw (w.flips y x, h) refl),
        )
