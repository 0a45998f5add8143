-- ===== src/Index/Consistent.antt =====
-- What holds of a BucketIndex between its operations, and that the operations of bucket_index.hpp that
-- work on one key state or on all of them keep it.
use mathlib.Core.Path.{subst}
use speed_up.Common.{
  read-All, ℕ, zero, suc, ◌+◌, ◌<◌, ◌≤◌, ◌≡◌, refl, sym, ap, ◌∙◌, ◌⊎◌, inl, inr, Option, none, some,
  List, [], ◌∷◌, ◌++◌, length, get_elem?, set, length-append, length-set, All, All_mono, All-set,
  All-append, Result, ok, err, ◌>>=◌, >>=-ok, ok_injective, map_result, arith,
}
use speed_up.Common.Doubles.{Doubles}
use speed_up.Plan.{BucketPlan}
use speed_up.Plan.Valid.{IsValid}
use speed_up.SortKey.{SortKey}
use speed_up.Index.{KeyState, BucketIndex, read, max_slots}
use speed_up.Index.Sorting.{prepare}
use speed_up.Index.Reads.{with_active}
use speed_up.Index.Laid.{IsLaid, base}
use speed_up.Index.Laid.Base.{IsLaid-base}
use speed_up.Index.Laid.Order.{prepare-IsLaid}
pub mod Names
pub mod Changes
pub mod Reads
pub mod Steps
pub mod Thrown

-- `active_` is the number of a sort key
abbrev pub Chosen : Option ℕ → ℕ → Type 0
Chosen none n = Unit
Chosen (some i) n = i < n

pub option-cases {ℓ} : {A : Type ℓ} (o : Option A) → (o ≡ none) ⊎ (a : A) × (o ≡ some a)
option-cases none = inl refl
option-cases (some a) = inr (a, refl)

pub read-ok :
    {A : Type 0} (xs : List A) (i : ℕ) {x : A} → read xs i ≡ ok x → get_elem? xs i ≡ some x
read-ok [] i h = cc
read-ok (x ∷ xs) zero h = ap some (ok_injective h)
read-ok (x ∷ xs) (suc i) h = read-ok xs i h

module _ {T : Type 0} where
  -- A key state that has the items' keys, buckets and counts.
  abbrev pub Good : List T → KeyState T → Type 0
  Good items s = IsLaid items s × (0 < s.key.groups)

  pub Good-key :
      (items : List T) (s s' : KeyState T)
      → Good items s
      → IsLaid items s' × (s'.key ≡ s.key)
      → Good items s'
  Good-key items s s' good h = (h.0, omega (arith, good.1, ap (λ k. k.groups) h.1))

  pub Good-base :
      (items : List T) (s s' : KeyState T) → base s' ≡ base s → Good items s → Good items s'
  Good-base items s s' same good =
      Good-key items s s' good (IsLaid-base items s s' same good.0, ap (λ x. x.key) same)

module _ {F : Type 0} ⦃d : Doubles F⦄ {T : Type 0} where
  pub record IsConsistent (index : BucketIndex F T) : Type 0 where
    pub valid : IsValid index.plan
    pub few : length index.items ≤ max_slots
    pub laid : All (Good index.items) index.states
    pub chosen : Chosen index.active (length index.states)

  -- The states change, and stay as many.
  pub states-IsConsistent :
      (index : BucketIndex F T) (states : List (KeyState T))
      → IsConsistent index
      → All (Good index.items) states
      → length states ≡ length index.states
      → IsConsistent (record index { states = states })
  states-IsConsistent index states c good long = record {
    valid = c.valid;
    few = c.few;
    laid = good;
    chosen = subst (Chosen index.active) (sym long) c.chosen;
  }

  -- One state changes.
  pub set-IsConsistent :
      (index : BucketIndex F T) (i : ℕ) (s : KeyState T)
      → IsConsistent index
      → Good index.items s
      → IsConsistent (record index { states = set index.states i s })
  set-IsConsistent index i s c good =
      states-IsConsistent index (set index.states i s) c
        (All-set (Good index.items) index.states i s c.laid good) (length-set index.states i s)

  pub prepare-Good :
      (index : BucketIndex F T) (s : KeyState T) {s' : KeyState T}
      → IsConsistent index
      → prepare index.plan index.items s ≡ ok s'
      → Good index.items s
      → Good index.items s'
  prepare-Good index s {s'} c h good =
      Good-key index.items s s' good
        (prepare-IsLaid index.plan index.items s c.valid good.1 c.few h good.0)

  -- A read of the active key state that leaves its buckets alone.
  pub with_active-IsConsistent :
      {A : Type 0} (index : BucketIndex F T) (i : ℕ) (body : KeyState T → Result (KeyState T × A))
      {result : BucketIndex F T × A}
      → ((s : KeyState T) (r : KeyState T × A) → body s ≡ ok r → base r.0 ≡ base s)
      → with_active index i body ≡ ok result
      → IsConsistent index
      → IsConsistent result.0
  unfolding with_active
  with_active-IsConsistent index i body keeps h c =
      let (s, held, k) = >>=-ok _ (read index.states i) h in
      let (s', prepared, k') = >>=-ok _ (prepare index.plan index.items s) k in
      let (r, done, k'') = >>=-ok _ (body s') k' in
      let good =
        prepare-Good index s c prepared
          (read-All (Good index.items) index.states i c.laid held).0 in
      subst IsConsistent (ap (λ p. p.0) (ok_injective k''))
        (set-IsConsistent index i r.0 c (Good-base index.items s' r.0 (keeps s' r done) good))
