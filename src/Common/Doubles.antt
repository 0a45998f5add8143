-- ===== src/Common/Doubles.antt =====
-- The operations on `double` that the plan and the index use, and the IEEE-754 behaviour that the
-- proofs rely on. The type is a parameter of the model.
use Prim.Native.Nat.{ℕ, ◌^◌, ◌≤◌, ◌<◌}
use mathlib.Core.Path.{◌≡◌}
use mathlib.Core.Bool.{Bool, true, false}

pub record Doubles (F : Type 0) : Type 0 where
  -- `static_cast<double>(n)`, also for the literals 1.0, 2.0 and 4.0
  pub of_size : ℕ → F
  -- `static_cast<std::size_t>(std::ceil(x))`
  pub ceil_to_size : F → ℕ
  pub mul : F → F → F
  pub div : F → F → F
  -- `x < y` and `x <= y`, false at a NaN
  pub lt : F → F → Bool
  pub le : F → F → Bool
  pub is_finite : F → Bool

-- What IEEE-754 says of numbers from 1 on. A NaN is not `le` to anything, itself included, so that every
-- law excludes it.
pub record IsIeee {F : Type 0} (d : Doubles F) : Type 0 where
  pub of_size_mono : (m n : ℕ) → m ≤ n → d.le (d.of_size m) (d.of_size n) ≡ true
  pub le_trans : (x y z : F) → d.le x y ≡ true → d.le y z ≡ true → d.le x z ≡ true
  pub le_of_not_lt :
      (x y : F) → d.le x x ≡ true → d.le y y ≡ true → d.lt y x ≡ false → d.le x y ≡ true
  pub le_self : (x y : F) → d.le x y ≡ true → (d.le x x ≡ true) × (d.le y y ≡ true)
  pub mul-ge_one :
      (x y : F)
      → d.le (d.of_size 1) x ≡ true
      → d.le (d.of_size 1) y ≡ true
      → d.le (d.of_size 1) (d.mul x y) ≡ true
  pub ceil-pos :
      (x : F)
      → d.le (d.of_size 1) x ≡ true
      → d.le x (d.of_size (2 ^ 63)) ≡ true
      → 0 < d.ceil_to_size x
