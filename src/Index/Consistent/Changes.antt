-- ===== src/Index/Consistent/Changes.antt =====
-- The operations of bucket_index.hpp that change the collection keep an index consistent.
use mathlib.Core.Path.{subst}
use speed_up.Common.{
  read-All, map_result-All, ℕ, zero, suc, ◌-◌, ◌<◌, ◌≤◌, ◌≡◌, refl, sym, ap, ◌∙◌, ◌⊎◌, inl, inr,
  Bool, true, false, ◌&&◌, Option, List, [], ◌∷◌, ◌++◌, length, set, take, map, length-map,
  length-append, length-set, All, leb, ◌==◌, if◌then◌else◌, Bool-cases, Result, ok, >>=-ok,
  ok_injective, map_result, arith,
}
use speed_up.Common.Doubles.{Doubles}
use speed_up.SortKey.{SortKey, has_key}
use speed_up.Index.{KeyState, BucketIndex, read, max_slots}
use speed_up.Index.Grouping.{regroup}
use speed_up.Index.Relayout.{relayout, maybe_auto_rebalance}
use speed_up.Index.Changes.{
  append_state, rekey, mutated, remap_loop, move_items, compact, append, append_all, add_all,
  remove_if, update_loop, relayout_changed, update_if, clear,
}
use speed_up.Index.Laid.{IsLaid}
use speed_up.Index.Laid.Relaid.{relayout-IsLaid, maybe_auto_rebalance-IsLaid}
use speed_up.Index.Laid.Order.{base-regroup}
use speed_up.Index.Laid.Changes.{append_state-IsLaid, rekey-IsLaid}
use speed_up.Index.Laid.Keepers.{keepers, length-keepers, remap_loop-Numbered, move_items-keepers}
use speed_up.Index.Laid.Compact.{compact-IsLaid}
use speed_up.Index.Values.{kept_keys}
use speed_up.Index.Consistent.{Chosen, Good, Good-key, Good-base, IsConsistent, states-IsConsistent}

module _ {T : Type 0} where
  regrouped-Good :
      (items : List T) (n : ℕ) (states : List (KeyState T))
      → All (Good items) states
      → All
          (Good items)
          (map (λ (s : KeyState T). if s.has_order && s.order_stale then regroup n s else s) states)
  regrouped-Good items n [] h = tt
  regrouped-Good items n (s ∷ states) h = (
    elim (Bool-cases (s.has_order && s.order_stale)) [
      | inl e ↦ rw e (Good-base items s (regroup n s) (base-regroup n s) h.0)
      | inr e ↦ rw e h.0
    ],
    regrouped-Good items n states h.1,
  )

choice :
    {A : Type 0} (b : Bool) (r r' : Result A) {a : A}
    → (if b then r else r') ≡ ok a
    → ((b ≡ true) × (r ≡ ok a)) ⊎ ((b ≡ false) × (r' ≡ ok a))
choice true r r' h = inl (refl, h)
choice false r r' h = inr (refl, h)

module _ {F : Type 0} ⦃d : Doubles F⦄ {T : Type 0} where
  -- New items, and all states made for them.
  renewed-IsConsistent :
      (index : BucketIndex F T) (items : List T) (states : List (KeyState T))
      → IsConsistent index
      → length items ≤ max_slots
      → All (Good items) states × (length states ≡ length index.states)
      → IsConsistent (record index { items = items; states = states })
  renewed-IsConsistent index items states c few h = record {
    valid = c.valid;
    few = few;
    laid = h.0;
    chosen = subst (Chosen index.active) (sym h.1) c.chosen;
  }

  pub append-IsConsistent :
      (x : T) (index : BucketIndex F T) {index' : BucketIndex F T}
      → append x index ≡ ok index'
      → IsConsistent index
      → IsConsistent index'
  unfolding append
  append-IsConsistent x index {index'} h c =
      elim (Bool-cases (leb max_slots (length index.items))) [
        | inl full ↦ cc (rw (append, full) at h)
        | inr room ↦
            let xs = index.items ++ x ∷ [] in
            let (states, all, k) =
              >>=-ok _ (map_result (append_state x) index.states) (rw (append, room) at h) in
            let good =
              map_result-All (Good index.items) (Good xs) (append_state x)
                (λ s s' g e.
                  let (laid, key) = append_state-IsLaid index.items x s e g.0 in
                  (laid, omega (arith, g.1, ap (λ k. k.groups) key)))
                index.states c.laid all in
            let fits : length xs ≤ max_slots =
              omega (arith, length-append index.items (x ∷ []), above (length index.items) room) in
            subst IsConsistent (ok_injective k) (renewed-IsConsistent index xs states c fits good)
      ]
    where
      above : (n : ℕ) → leb max_slots n ≡ false → n < max_slots
      above n e = ground arith

  pub append_all-IsConsistent :
      (xs : List T) (index : BucketIndex F T) {index' : BucketIndex F T}
      → append_all xs index ≡ ok index'
      → IsConsistent index
      → IsConsistent index'
  unfolding append_all
  append_all-IsConsistent [] index h c = subst IsConsistent (ok_injective h) c
  append_all-IsConsistent (x ∷ xs) index h c =
      let (next, appended, k) = >>=-ok _ (append x index) h in
      append_all-IsConsistent xs next k (append-IsConsistent x index appended c)

  pub add_all-IsConsistent :
      (xs : List T) (index : BucketIndex F T) {index' : BucketIndex F T}
      → add_all xs index ≡ ok index'
      → IsConsistent index
      → IsConsistent index'
  unfolding add_all
  add_all-IsConsistent xs index h c =
      let (next, appended, k) = >>=-ok _ (append_all xs index) h in
      let c' = append_all-IsConsistent xs index appended c in
      let (states, all, k') =
        >>=-ok _ (map_result (maybe_auto_rebalance next.plan next.items) next.states) k in
      let (good, long) =
        map_result-All (Good next.items) (Good next.items)
          (maybe_auto_rebalance next.plan next.items)
          (λ s s' g e.
            Good-key next.items s s' g
              (maybe_auto_rebalance-IsLaid next.plan next.items s c'.valid g.1 c'.few e g.0))
          next.states c'.laid all in
      subst IsConsistent (ok_injective k') (states-IsConsistent next states c' good long)

  pub clear-IsConsistent :
      (index : BucketIndex F T) {index' : BucketIndex F T}
      → clear index ≡ ok index'
      → IsConsistent index
      → IsConsistent index'
  unfolding clear
  clear-IsConsistent index h c =
      let (states, all, k) =
        >>=-ok _
          (map_result
            (λ (s : KeyState T). relayout index.plan [] (record s { keys = []; buckets = [] }))
            index.states)
          h in
      let good =
        map_result-All (Good index.items) (Good [])
          (λ (s : KeyState T). relayout index.plan [] (record s { keys = []; buckets = [] }))
          (λ s s' g e.
            let (laid, key) =
              relayout-IsLaid index.plan [] (record s { keys = []; buckets = [] }) c.valid g.1
                (omega arith) (sym (no_keys s.key)) e in
            (laid, omega (arith, g.1, ap (λ k. k.groups) key)))
          index.states c.laid all in
      subst IsConsistent (ok_injective k)
        (renewed-IsConsistent index [] states c (omega arith) good)
    where
      no_keys : (key : SortKey T) → kept_keys key [] ≡ []
      no_keys key = elim (Bool-cases (has_key key)) [ inl e ↦ rw e refl | inr e ↦ rw e refl ]

  -- One round of `update_if`, on an item that matches.
  update-IsConsistent :
      (slot : ℕ) (x : T) (index : BucketIndex F T) {states : List (KeyState T)}
      → slot < length index.items
      → map_result (rekey x slot) index.states ≡ ok states
      → IsConsistent index
      → IsConsistent (record index { items = set index.items slot x; states = states })
  update-IsConsistent slot x index {states} inside all c =
      let good =
        map_result-All (Good index.items) (Good (set index.items slot x)) (rekey x slot)
          (λ s s' g e.
            let (laid, key) = rekey-IsLaid index.items x slot s inside c.few e g.0 in
            (laid, omega (arith, g.1, ap (λ k. k.groups) key)))
          index.states c.laid all in
      renewed-IsConsistent index (set index.items slot x) states c
        (omega (arith, c.few, length-set index.items slot x)) good

  pub update_loop-IsConsistent :
      (match : T → Bool) (mutate : Option (T → T)) (rounds slot updated : ℕ)
      (index : BucketIndex F T) {result : BucketIndex F T × ℕ}
      → update_loop match mutate rounds slot updated index ≡ ok result
      → IsConsistent index
      → IsConsistent result.0
  unfolding update_loop
  update_loop-IsConsistent match mutate zero slot updated index h c =
      subst IsConsistent (ap (λ p. p.0) (ok_injective h)) c
  update_loop-IsConsistent match mutate (suc rounds) slot updated index h c =
      let (x, held, k) = >>=-ok _ (read index.items slot) h in
      let x' = mutated mutate x in
      let inside = (read-All (λ y. Unit) index.items slot (all_unit index.items) held).1 in
      elim (Bool-cases (match x)) [
        | inl e ↦
            let ((next, count), one, k') = >>=-ok _ _ (rw e at k) in
            let (states, all, k'') = >>=-ok _ (map_result (rekey x' slot) index.states) one in
            let c' = update-IsConsistent slot x' index inside all c in
            update_loop-IsConsistent match mutate rounds (suc slot) count next k'
              (subst IsConsistent (ap (λ p. p.0) (ok_injective k'')) c')
        | inr e ↦
            update_loop-IsConsistent match mutate rounds (suc slot) updated index (rw e at k) c
      ]
    where
      all_unit : (xs : List T) → All (λ y. Unit {0}) xs
      all_unit [] = tt
      all_unit (x ∷ xs) = (tt, all_unit xs)

  relayout_changed-Good :
      (index : BucketIndex F T) (s s' : KeyState T)
      → IsConsistent index
      → Good index.items s
      → relayout_changed index.plan index.items s ≡ ok s'
      → Good index.items s'
  unfolding relayout_changed
  relayout_changed-Good index s s' c g h =
      elim (choice s.splitter_changed (relayout index.plan index.items s) (ok s) h) [
        | inl (e, done) ↦
            Good-key index.items s s' g
              (relayout-IsLaid index.plan index.items s c.valid g.1 c.few g.0.keyed done)
        | inr (e, done) ↦ subst (Good index.items) (ok_injective done) g
      ]

  pub update_if-IsConsistent :
      (match : T → Bool) (mutate : Option (T → T)) (index : BucketIndex F T)
      {result : BucketIndex F T × ℕ}
      → update_if match mutate index ≡ ok result
      → IsConsistent index
      → IsConsistent result.0
  unfolding update_if
  update_if-IsConsistent match mutate index h c =
      let ((next, count), looped, k) =
        >>=-ok _ (update_loop match mutate (length index.items) 0 0 index) h in
      let c' = update_loop-IsConsistent match mutate (length index.items) 0 0 index looped c in
      let (states, all, k') =
        >>=-ok _ (map_result (relayout_changed next.plan next.items) next.states) k in
      let (good, long) =
        map_result-All (Good next.items) (Good next.items) (relayout_changed next.plan next.items)
          (λ s s' g e. relayout_changed-Good next s s' c' g e) next.states c'.laid all in
      subst IsConsistent (ap (λ p. p.0) (ok_injective k'))
        (states-IsConsistent next states c' good long)

  pub remove_if-IsConsistent :
      (match : T → Bool) (index : BucketIndex F T) {result : BucketIndex F T × ℕ}
      → remove_if match index ≡ ok result
      → IsConsistent index
      → IsConsistent result.0
  unfolding remove_if
  remove_if-IsConsistent match index {result} h c =
      let n = length index.items in
      let remap = (remap_loop match index.items 0).0 in
      let kept = (remap_loop match index.items 0).1 in
      let (numbered, long, total) = remap_loop-Numbered match index.items 0 in
      let kept_all : kept ≡ length (keepers remap index.items) = omega (arith, total) in
      let moved = move_items-keepers remap index.items kept long numbered kept_all in
      elim (Bool-cases (n - kept == 0)) [
        | inl e ↦ subst IsConsistent (ap (λ p. p.0) (ok_injective (rw e at h))) c
        | inr e ↦
            let regrouped =
              map (λ (s : KeyState T). if s.has_order && s.order_stale then regroup n s else s)
                index.states in
            let items = take kept (move_items remap 0 index.items) in
            let (states, all, k) =
              >>=-ok _ (map_result (compact index.plan items remap kept) regrouped) (rw e at h) in
            let (good, many) =
              map_result-All (Good index.items) (Good items) (compact index.plan items remap kept)
                (compacted remap kept index long c kept_all items moved) regrouped
                (regrouped-Good index.items n index.states c.laid) all in
            let fits : length items ≤ max_slots =
              omega (arith, c.few, ap length moved, length-keepers remap index.items) in
            subst IsConsistent (ap (λ p. p.0) (ok_injective k)) (
              renewed-IsConsistent index items states c fits
                (good, many ∙ length-map index.states _))
      ]
    where
      compacted :
          (remap : List (Option ℕ)) (kept : ℕ) (index : BucketIndex F T)
          → length remap ≡ length index.items
          → IsConsistent index
          → kept ≡ length (keepers remap index.items)
          → (items : List T) → items ≡ keepers remap index.items
          → (s s' : KeyState T) → Good index.items s
          → compact index.plan items remap kept s ≡ ok s'
          → Good items s'
      compacted remap kept index long c kept_all items moved s s' g e =
          let (laid, key) =
            compact-IsLaid index.plan remap index.items kept s c.valid g.1 long c.few kept_all
              (ap (λ xs. compact index.plan xs remap kept s) (sym moved) ∙ e) g.0 in
          (subst (λ xs. IsLaid xs s') (sym moved) laid, omega (arith, g.1, ap (λ k. k.groups) key))
