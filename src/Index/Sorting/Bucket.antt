-- ===== src/Index/Sorting/Bucket.antt =====
-- `sort_bucket` sorts one bucket and leaves the others alone.
use Prim.Native.Nat.{Ordering}
use speed_up.Common.{
  ℕ, zero, suc, ◌≡◌, refl, sym, ap, ◌∙◌, Bool, true, false, List, [], ◌∷◌, ◌++◌, get_or, take, drop,
  ltb, ◌==◌, Bool-cases, inl, inr, ==_iff, take-append-drop, arith,
}
use speed_up.Plan.{sub64}
use speed_up.SortKey.{SortKey, tie_break}
use speed_up.SortKey.Order.{IsThreeWay}
use speed_up.Layout.{compare_at}
use speed_up.Layout.Within.{compare_at-IsThreeWay}
use speed_up.Std.{stable_sort}
use speed_up.Std.Sort.{IsStrictWeak, IsSorted, stable_sort-of_IsSorted}
use speed_up.Std.Merge.{finish-stable_sort}
use speed_up.Index.{KeyState}
use speed_up.Index.Sorting.{slot_less, sort_bucket, before, segment, behind}

-- A comparator followed by the slot numbers is a strict weak order.
then_slot : (ℕ → ℕ → Ordering) → ℕ → ℕ → Bool
then_slot c a b = elim (c a b) [ Ordering.lt ↦ true | Ordering.gt ↦ false | Ordering.eq ↦ ltb a b ]

then_slot-IsStrictWeak : (c : ℕ → ℕ → Ordering) → IsThreeWay c → IsStrictWeak (then_slot c)
unfolding then_slot
then_slot-IsStrictWeak c w = record {
  asymm = λ a b h. ground (arith, w.flips a b);
  neg_trans = λ a b e p q. ground (
    arith,
    w.flips a b,
    w.flips b e,
    w.flips a e,
    w.neg_trans a b e,
    w.neg_trans e b a,
    w.neg_trans b a e,
    w.neg_trans e a b,
    w.neg_trans a e b,
    w.neg_trans b e a,
  );
}

module _ {T : Type 0} where
  -- The comparator of `sort_bucket` is a strict weak order if the tie-breaker is consistent.
  pub slot_less-IsStrictWeak :
      (key : SortKey T) (items : List T) (keys : List ℕ)
      → IsThreeWay (tie_break key)
      → IsStrictWeak (slot_less key items keys)
  unfolding slot_less then_slot
  slot_less-IsStrictWeak key [] keys c = record {
    asymm = λ a b h. ground arith;
    neg_trans = λ a b e p q. ground arith;
  }
  slot_less-IsStrictWeak key (default ∷ items) keys c =
      then_slot-IsStrictWeak (compare_at key default (default ∷ items) keys)
        (compare_at-IsThreeWay key c (default ∷ items) keys default)

take-take {ℓ} : {A : Type ℓ} (n : ℕ) (xs : List A) → take n (take n xs) ≡ take n xs
take-take zero xs = refl
take-take (suc n) [] = refl
take-take (suc n) (x ∷ xs) = ap (◌∷◌ x) (take-take n xs)

module _ {T : Type 0} (items : List T) (state : KeyState T) (bucket : ℕ) where
  abbrev pub by_slot : ℕ → ℕ → Bool
  by_slot = slot_less state.key items state.keys

  -- The sorted prefix of the bucket is sorted, as `sorted_len` says.
  abbrev pub HasSortedPrefix : Type 0
  HasSortedPrefix =
      IsSorted by_slot (take (get_or state.sorted_len bucket 0) (segment state bucket))

  split_order : state.order ≡ before state bucket ++ (segment state bucket ++ behind state bucket)
  split_order =
      let first = get_or state.start bucket 0 in
      let len = sub64 (get_or state.start (suc bucket) 0) first in
      sym (
        ap (◌++◌ (take first state.order)) (take-append-drop len (drop first state.order))
        ∙ take-append-drop first state.order)

  -- With a consistent tie-breaker and a bucket whose recorded prefix is sorted, where no
  -- comparison throws: sort_bucket replaces the slots of the bucket by their stable sort under
  -- key, tie-breaker and slot number, and keeps the slots before and behind.
  pub sort_bucket-order :
      IsThreeWay (tie_break state.key)
      → HasSortedPrefix
      → (sort_bucket items state bucket).order
        ≡ before state bucket ++ (stable_sort by_slot (segment state bucket) ++ behind state bucket)
  unfolding sort_bucket
  sort_bucket-order c sorted =
      let len = sub64 (get_or state.start (suc bucket) 0) (get_or state.start bucket 0) in
      let prefix = get_or state.sorted_len bucket 0 in
      let slots = segment state bucket in
      elim (Bool-cases (prefix == len)) [
        | inl e ↦
            let same : prefix ≡ len = (==_iff prefix len).0 e in
            let whole : take prefix slots ≡ slots =
              ap (λ n. take n slots) same
              ∙ take-take len (drop (get_or state.start bucket 0) state.order) in
            rw e (
              split_order
              ∙ ap (λ (l : List ℕ). before state bucket ++ (l ++ behind state bucket))
                  (sym (stable_sort-of_IsSorted by_slot slots (rw whole at sorted))))
        | inr e ↦ rw e (
            ap (λ (l : List ℕ). before state bucket ++ (l ++ behind state bucket))
              (finish-stable_sort by_slot (slot_less-IsStrictWeak state.key items state.keys c)
                  (take prefix slots) (drop prefix slots) sorted
                ∙ ap (stable_sort by_slot) (take-append-drop prefix slots)))
      ]
