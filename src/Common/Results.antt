-- ===== src/Common/Results.antt =====
-- The exceptions that the library throws, and operations that either return or throw. `undefined`
-- stands for a read outside a vector, which has no defined behaviour.
use mathlib.Core.Path.{◌≡◌, refl, ap, subst}
use mathlib.Core.List.{List, [], ◌∷◌}
use mathlib.Core.Option.{none, some}
use Prim.Native.Nat.{ℕ, zero, suc, ◌<◌}
use speed_up.Common.Lists.{get_elem?, All, length}
use native.Mathlib.Omega.{arith}

pub data Error : Type 0 where
  invalid_argument out_of_range length_error undefined : Error

-- What an operation returns, or the exception that it throws.
pub data Result {ℓ} (A : Type ℓ) : Type ℓ where
  err : (thrown : Error) → Result A
  ok : (value : A) → Result A

infixl 5 ◌>>=◌
-- An exception skips what follows.
abbrev pub ◌>>=◌ {ℓ κ} : {B : Type κ} {A : Type ℓ} → Result A → (A → Result B) → Result B
err thrown >>= next = err thrown
ok value >>= next = next value

-- Where a chain returns, its first step returned what the next one went on with.
pub >>=-ok {ℓ κ} :
    {B : Type κ} {b : B} {A : Type ℓ} (next : A → Result B) (first : Result A)
    → first >>= next ≡ ok b
    → (a : A) × (first ≡ ok a) × (next a ≡ ok b)
>>=-ok next (err thrown) returned = cc
>>=-ok next (ok value) returned = (value, refl, returned)

pub ok_injective {ℓ} : {A : Type ℓ} {a b : A} → ok a ≡ ok b → a ≡ b
ok_injective h = cc

-- `for (x : xs) x = f(x)` where f may throw.
unfoldable pub map_result {ℓ κ} :
    {A : Type ℓ} {B : Type κ} → (A → Result B) → List A → Result (List B)
map_result f [] = ok []
map_result f (x ∷ xs) = f x >>= λ y. map_result f xs >>= λ ys. ok (y ∷ ys)

pub map_result-All :
    {A B : Type 0} (P : A → Type 0) (Q : B → Type 0) (f : A → Result B)
    → ((x : A) (y : B) → P x → f x ≡ ok y → Q y)
    → (xs : List A) {ys : List B} → All P xs
    → map_result f xs ≡ ok ys
    → All Q ys × (length ys ≡ length xs)
unfolding map_result
map_result-All P Q f good [] h e = rw (← (ok_injective e)) (tt, refl)
map_result-All P Q f good (x ∷ xs) h e =
    let (y, made, k) = >>=-ok _ (f x) e in
    let (ys, rest, k') = >>=-ok _ (map_result f xs) k in
    let (all, long) = map_result-All P Q f good xs h.1 rest in
    rw (← (ok_injective k')) ((good x y h.0 made, all), ap suc long)

-- `v[i]`
abbrev pub read {ℓ} : {A : Type ℓ} → List A → ℕ → Result A
read v i = elim (get_elem? v i) [ none ↦ err undefined | some x ↦ ok x ]

pub read-All :
    {A : Type 0} (P : A → Type 0) (xs : List A) (i : ℕ) {x : A}
    → All P xs
    → read xs i ≡ ok x
    → P x × (i < length xs)
read-All P [] i h e = cc
read-All P (x ∷ xs) zero h e = (subst P (ok_injective e) h.0, omega arith)
read-All P (x ∷ xs) (suc i) h e = let (p, lt) = read-All P xs i h.1 e in (p, omega arith)
