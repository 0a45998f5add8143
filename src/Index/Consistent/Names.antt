-- ===== src/Index/Consistent/Names.antt =====
-- The operations of bucket_index.hpp on the sort keys of an index keep it consistent.
use Prim.Native.String.{String}
use mathlib.Core.Path.{subst}
use text.Mathlib.Text.{◌==◌ as str_eq}
use speed_up.Common.{
  read-All, map_result-All, ℕ, zero, suc, ◌+◌, ◌-◌, ◌<◌, ◌≤◌, ◌≡◌, refl, sym, ap, ◌∙◌, inl, inr,
  Option, none, some, List, [], ◌∷◌, ◌++◌, length, length-append, length-set, All, All-append, ◌==◌,
  ltb, Bool-cases, ok, >>=-ok, ok_injective, map_result, arith,
}
use speed_up.Common.Doubles.{Doubles}
use speed_up.Plan.{BucketPlan}
use speed_up.Plan.Valid.{IsValid}
use speed_up.SortKey.{SortKey}
use speed_up.Index.{KeyState, BucketIndex, Direction, new_state, find_state, require_state, read}
use speed_up.Index.Relayout.{relayout}
use speed_up.Index.Sorting.{prepare}
use speed_up.Index.Names.{
  erase_at, active_after, make_index, add_sort_key, remove_sort_key, sort_by, unsort, rebalance,
  rebalance_all, set_plan,
}
use speed_up.Index.Values.{kept_keys}
use speed_up.Index.Laid.Relaid.{relayout-IsLaid}
use speed_up.Index.Consistent.{
  Chosen, option-cases, Good, Good-key, IsConsistent, states-IsConsistent, set-IsConsistent,
  prepare-Good,
}

Chosen-more : (active : Option ℕ) (n m : ℕ) → n ≤ m → Chosen active n → Chosen active m
Chosen-more none n m h c = tt
Chosen-more (some i) n m h c = omega arith

Chosen-active_after :
    (active : Option ℕ) (i n : ℕ) → i < n → Chosen active n → Chosen (active_after active i) (n - 1)
unfolding active_after
Chosen-active_after none i n h c = tt
Chosen-active_after (some a) i n h c = elim (Bool-cases (a == i)) [
  | inl e ↦ rw e tt
  | inr e ↦ elim (Bool-cases (ltb i a)) [
    | inl l ↦ rw (e, l) (ground arith)
    | inr l ↦ rw (e, l) (ground arith)
  ]
]

erase_at-All :
    {A : Type 0} (P : A → Type 0) (xs : List A) (i : ℕ) → All P xs → All P (erase_at xs i)
unfolding erase_at
erase_at-All P [] i h = tt
erase_at-All P (x ∷ xs) zero h = h.1
erase_at-All P (x ∷ xs) (suc i) h = (h.0, erase_at-All P xs i h.1)

length-erase_at :
    {A : Type 0} (xs : List A) (i : ℕ) → i < length xs → length (erase_at xs i) ≡ length xs - 1
unfolding erase_at
length-erase_at [] i h = absurd (omega arith)
length-erase_at (x ∷ xs) zero h = omega arith
length-erase_at (x ∷ xs) (suc i) h = omega (arith, length-erase_at xs i (omega arith))

module _ {T : Type 0} where
  find_state-lt :
      (states : List (KeyState T)) (name : String) {i : ℕ}
      → find_state states name ≡ some i
      → i < length states
  unfolding find_state
  find_state-lt [] name h = cc
  find_state-lt (s ∷ states) name {i} h = elim (Bool-cases (str_eq s.key.name name)) [
    | inl e ↦ let first : zero ≡ i = some_injective (rw e at h) in omega arith
    | inr e ↦ elim (option-cases (find_state states name)) [
      | inl n ↦ absurd (none_some (rw (e, n) at h))
      | inr (j, found) ↦
          let next : suc j ≡ i = some_injective (rw (e, found) at h) in
          omega (arith, find_state-lt states name found)
    ]
  ]
    where
      some_injective : {a b : ℕ} → some a ≡ some b → a ≡ b
      some_injective h = cc

      none_some : {b : ℕ} → none ≡ some b → ⊥
      none_some h = cc

module _ {F : Type 0} ⦃d : Doubles F⦄ {T : Type 0} where
  pub make_index-IsConsistent :
      (plan : BucketPlan F) → IsValid plan → IsConsistent (make_index {T = T} plan)
  unfolding make_index
  make_index-IsConsistent plan valid = record {
    valid = valid;
    few = omega arith;
    laid = tt;
    chosen = tt;
  }

  relayout-Good :
      (plan : BucketPlan F) (items : List T) (index : BucketIndex F T) (s : KeyState T)
      {s' : KeyState T}
      → IsConsistent index
      → IsValid plan
      → items ≡ index.items
      → relayout plan items s ≡ ok s'
      → Good index.items s
      → Good index.items s'
  relayout-Good plan items index s {s'} c valid same h good =
      let done : relayout plan index.items s ≡ ok s' =
        ap (λ xs. relayout plan xs s) (sym same) ∙ h in
      Good-key index.items s s' good
        (relayout-IsLaid plan index.items s valid good.1 c.few good.0.keyed done)

  pub add_sort_key-IsConsistent :
      (key : SortKey T) (index : BucketIndex F T) {index' : BucketIndex F T}
      → 0 < key.groups
      → add_sort_key key index ≡ ok index'
      → IsConsistent index
      → IsConsistent index'
  unfolding add_sort_key new_state
  add_sort_key-IsConsistent key index {index'} some_group h c =
      elim (option-cases (find_state index.states key.name)) [
        | inr (i, found) ↦ cc (rw (add_sort_key, found) at h)
        | inl fresh ↦
            let s₀ = record (new_state key) { keys = kept_keys key index.items } in
            let (s, laid_out, k) =
              >>=-ok _ (relayout index.plan index.items s₀) (rw (add_sort_key, fresh) at h) in
            let (good, same) =
              relayout-IsLaid index.plan index.items s₀ c.valid some_group c.few refl laid_out in
            let states = index.states ++ s ∷ [] in
            let more : length states ≡ length index.states + 1 =
              length-append index.states (s ∷ []) in
            subst IsConsistent (ok_injective k) (record {
              valid = c.valid;
              few = c.few;
              laid =
                  All-append (Good index.items) index.states (s ∷ []) c.laid
                    ((good, omega (arith, some_group, ap (λ k. k.groups) same)), tt);
              chosen =
                  Chosen-more index.active (length index.states) (length states) (omega arith)
                    c.chosen;
            })
      ]

  pub remove_sort_key-IsConsistent :
      (name : String) (index : BucketIndex F T)
      → IsConsistent index
      → IsConsistent (remove_sort_key name index).0
  unfolding remove_sort_key
  remove_sort_key-IsConsistent name index c = elim (option-cases (find_state index.states name)) [
    | inl missing ↦ rw (remove_sort_key, missing) c
    | inr (i, found) ↦
        let lt = find_state-lt index.states name found in
        rw (remove_sort_key, found)
          (record {
            valid = c.valid;
            few = c.few;
            laid = erase_at-All (Good index.items) index.states i c.laid;
            chosen =
                subst (Chosen (active_after index.active i))
                  (sym (length-erase_at index.states i lt))
                  (Chosen-active_after index.active i (length index.states) lt c.chosen);
          })
  ]

  pub sort_by-IsConsistent :
      (name : String) (direction : Direction) (index : BucketIndex F T) {index' : BucketIndex F T}
      → sort_by name direction index ≡ ok index'
      → IsConsistent index
      → IsConsistent index'
  unfolding sort_by
  sort_by-IsConsistent name direction index {index'} h c =
      let (i, found, k) = >>=-ok _ (require_state index.states name) h in
      let (s, held, k') = >>=-ok _ (read index.states i) k in
      let (s', prepared, k'') = >>=-ok _ (prepare index.plan index.items s) k' in
      let (good, lt) = read-All (Good index.items) index.states i c.laid held in
      let changed = set-IsConsistent index i s' c (prepare-Good index s c prepared good) in
      subst IsConsistent (ok_injective k'') (record {
        valid = changed.valid;
        few = changed.few;
        laid = changed.laid;
        chosen = omega (arith, lt, length-set index.states i s');
      })

  pub unsort-IsConsistent :
      (index : BucketIndex F T) → IsConsistent index → IsConsistent (unsort index)
  unfolding unsort
  unsort-IsConsistent index c = record { valid = c.valid; few = c.few; laid = c.laid; chosen = tt }

  pub rebalance-IsConsistent :
      (name : String) (index : BucketIndex F T) {index' : BucketIndex F T}
      → rebalance name index ≡ ok index'
      → IsConsistent index
      → IsConsistent index'
  unfolding rebalance
  rebalance-IsConsistent name index h c =
      let (i, found, k) = >>=-ok _ (require_state index.states name) h in
      let (s, held, k') = >>=-ok _ (read index.states i) k in
      let (s', laid_out, k'') = >>=-ok _ (relayout index.plan index.items s) k' in
      let (good, lt) = read-All (Good index.items) index.states i c.laid held in
      subst IsConsistent (ok_injective k'') (
        set-IsConsistent index i s' c
          (relayout-Good index.plan index.items index s c c.valid refl laid_out good))

  pub rebalance_all-IsConsistent :
      (index : BucketIndex F T) {index' : BucketIndex F T}
      → rebalance_all index ≡ ok index'
      → IsConsistent index
      → IsConsistent index'
  unfolding rebalance_all
  rebalance_all-IsConsistent index h c =
      let (states, all, k) =
        >>=-ok _ (map_result (relayout index.plan index.items) index.states) h in
      let (good, long) =
        map_result-All (Good index.items) (Good index.items) (relayout index.plan index.items)
          (λ s s' g e. relayout-Good index.plan index.items index s c c.valid refl e g) index.states
          c.laid all in
      subst IsConsistent (ok_injective k) (states-IsConsistent index states c good long)

  pub set_plan-IsConsistent :
      (plan : BucketPlan F) (index : BucketIndex F T) {index' : BucketIndex F T}
      → IsValid plan
      → set_plan plan index ≡ ok index'
      → IsConsistent index
      → IsConsistent index'
  unfolding set_plan
  set_plan-IsConsistent plan index valid h c =
      rebalance_all-IsConsistent (record index { plan = plan }) h
        (record { valid = valid; few = c.few; laid = c.laid; chosen = c.chosen })
