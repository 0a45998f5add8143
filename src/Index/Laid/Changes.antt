-- ===== src/Index/Laid/Changes.antt =====
-- The rounds of `append` and `rekey` of bucket_index.hpp for one sort key keep the buckets of all items
-- as the layouts give them.
use speed_up.Common.{
  ℕ, zero, suc, ◌%◌, ◌^◌, ◌<◌, ◌≤◌, ◌≡◌, refl, sym, ap, ◌∙◌, List, [], ◌∷◌, ◌++◌, length, get_or,
  set, map, length-append, length-set, All-set, if◌then◌else◌, Bool-cases, inl, inr, ok, >>=-ok,
  ok_injective, arith,
}
use speed_up.SortKey.{SortKey, key_of, has_key}
use speed_up.Index.{KeyState, bucket_for, bucket_total, increment, decrement, max_slots}
use speed_up.Index.Changes.{append_state, rekey}
use speed_up.Index.Relayout.Counts.{Counted, Counted-snoc}
use speed_up.Index.Grouping.Counting.{tallies}
use speed_up.Index.Grouping.Tallies.{tallies-set}
use speed_up.Index.Values.{kept_keys}
use speed_up.Index.Laid.{PlacedIn, IsLaid}
use speed_up.Index.Laid.Base.{frame-IsLaid}

map-append : {A B : Type 0} (f : A → B) (xs ys : List A) → map f (xs ++ ys) ≡ map f xs ++ map f ys
map-append f [] ys = refl
map-append f (x ∷ xs) ys = ap (◌∷◌ (f x)) (map-append f xs ys)

map-set :
    {A B : Type 0} (f : A → B) (xs : List A) (i : ℕ) (v : A)
    → map f (set xs i v) ≡ set (map f xs) i (f v)
map-set f [] i v = refl
map-set f (x ∷ xs) zero v = refl
map-set f (x ∷ xs) (suc i) v = ap (◌∷◌ (f x)) (map-set f xs i v)

module _ {T : Type 0} where
  kept_keys-snoc :
      (key : SortKey T) (items : List T) (x : T) (keys : List ℕ)
      → keys ≡ kept_keys key items
      → (if has_key key then keys ++ key_of key x ∷ [] else keys) ≡ kept_keys key (items ++ x ∷ [])
  kept_keys-snoc key items x keys e = elim (Bool-cases (has_key key)) [
    | inl k ↦ rw k (
        ap (λ l. l ++ key_of key x ∷ []) (rw k at e) ∙ sym (map-append (key_of key) items (x ∷ [])))
    | inr k ↦ rw k (rw k at e)
  ]

  PlacedIn-snoc :
      (state : KeyState T) (items : List T) (buckets : List ℕ) (x : T) (b : ℕ)
      → PlacedIn state items buckets
      → bucket_for state x (key_of state.key x) ≡ ok b
      → PlacedIn state (items ++ x ∷ []) (buckets ++ b ∷ [])
  PlacedIn-snoc state [] [] x b h e = (e, tt)
  PlacedIn-snoc state (y ∷ items) (c ∷ buckets) x b h e =
      (h.0, PlacedIn-snoc state items buckets x b h.1 e)
  PlacedIn-snoc state [] (c ∷ buckets) x b h e = elim h [ ]
  PlacedIn-snoc state (y ∷ items) [] x b h e = elim h [ ]

  pub append_state-IsLaid :
      (items : List T) (x : T) (state : KeyState T) {state' : KeyState T}
      → append_state x state ≡ ok state'
      → IsLaid items state
      → IsLaid (items ++ x ∷ []) state' × (state'.key ≡ state.key)
  unfolding append_state
  append_state-IsLaid items x state {state'} h laid =
      let (b, given, k) = >>=-ok _ (bucket_for state x (key_of state.key x)) h in
      let inside = laid.ranged.below x b given in
      let fits : b % 2 ^ 16 ≡ b = omega (arith, inside, laid.ranged.small) in
      let longer : suc (length items) ≡ length (items ++ x ∷ []) =
        omega (arith, length-append items (x ∷ [])) in
      let counted =
        Counted-snoc (bucket_total state) (length items) b state.buckets state.counts inside
          laid.ranged.small laid.counted in
      let placed = PlacedIn-snoc state items state.buckets x b laid.placed given in
      let made = ok_injective k in
      rw (← made) (
        frame-IsLaid (items ++ x ∷ []) state _ refl
            (kept_keys-snoc state.key items x state.keys laid.keyed) (rw fits placed)
            (rw longer at counted) laid.ranged,
        refl,
      )

  kept_keys-set :
      (key : SortKey T) (items : List T) (i : ℕ) (x : T) (keys : List ℕ)
      → keys ≡ kept_keys key items
      → (if has_key key then set keys i (key_of key x) else keys) ≡ kept_keys key (set items i x)
  kept_keys-set key items i x keys e = elim (Bool-cases (has_key key)) [
    | inl k ↦
        rw k (ap (λ l. set l i (key_of key x)) (rw k at e) ∙ sym (map-set (key_of key) items i x))
    | inr k ↦ rw k (rw k at e)
  ]

  PlacedIn-set :
      (state : KeyState T) (items : List T) (buckets : List ℕ) (i : ℕ) (x : T) (b : ℕ)
      → PlacedIn state items buckets
      → bucket_for state x (key_of state.key x) ≡ ok b
      → PlacedIn state (set items i x) (set buckets i b)
  PlacedIn-set state [] [] i x b h e = h
  PlacedIn-set state (y ∷ items) (c ∷ buckets) zero x b h e = (e, h.1)
  PlacedIn-set state (y ∷ items) (c ∷ buckets) (suc i) x b h e =
      (h.0, PlacedIn-set state items buckets i x b h.1 e)
  PlacedIn-set state [] (c ∷ buckets) i x b h e = elim h [ ]
  PlacedIn-set state (y ∷ items) [] i x b h e = elim h [ ]

  pub rekey-IsLaid :
      (items : List T) (x : T) (slot : ℕ) (state : KeyState T) {state' : KeyState T}
      → slot < length items
      → length items ≤ max_slots
      → rekey x slot state ≡ ok state'
      → IsLaid items state
      → IsLaid (set items slot x) state' × (state'.key ≡ state.key)
  unfolding rekey
  rekey-IsLaid items x slot state {state'} inside few h laid =
      let (b, given, k) = >>=-ok _ (bucket_for state x (key_of state.key x)) h in
      let total = bucket_total state in
      let bs = state.buckets in
      let lt = laid.ranged.below x b given in
      let fits : b % 2 ^ 16 ≡ b = omega (arith, lt, laid.ranged.small) in
      let long = laid.counted.long in
      let counts : increment (decrement state.counts (get_or bs slot 0)) b
          ≡ tallies total 0 (set bs slot b) =
        ap (λ l. increment (decrement l (get_or bs slot 0)) b) laid.counted.right
        ∙ tallies-set total b slot bs (omega (arith, long)) (omega (arith, long)) laid.counted.below
            lt in
      let counted : Counted total (length (set items slot x)) (set bs slot b)
          (increment (decrement state.counts (get_or bs slot 0)) b) =
        record {
          long = length-set bs slot b ∙ long ∙ sym (length-set items slot x);
          below = All-set (λ c. c < total) bs slot b laid.counted.below lt;
          right = counts;
        } in
      let made = ok_injective k in
      rw (← made) (
        frame-IsLaid (set items slot x) state _ refl
            (kept_keys-set state.key items slot x state.keys laid.keyed)
            (rw fits (PlacedIn-set state items bs slot x b laid.placed given)) (rw fits counted)
            laid.ranged,
        refl,
      )
