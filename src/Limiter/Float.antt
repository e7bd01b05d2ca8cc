-- ===== src/Limiter/Float.antt =====
-- What the rate limiter takes from Go's float64 (IEEE 754, round to nearest): conversion of an
-- integer, four operations and the order, with the facts that its theorems rest on. Rounding keeps
-- the order, and integers below 2 ^ 53 are exact.
use sentinelix_backend.Base.{ℕ, ◌^◌, ◌<◌, ◌≤◌, ◌≡◌, Bool, true}

pub record Float64 : Type 1 where
  pub F : Type 0
  pub from_int : ℕ → F
  pub sub : F → F → F
  pub div : F → F → F
  pub mul : F → F → F
  pub add : F → F → F
  pub le : F → F → Bool
  pub le_trans : (x y z : F) → le x y ≡ true → le y z ≡ true → le x z ≡ true
  pub from_int_exact : (a b : ℕ) → b < 2 ^ 53 → le (from_int a) (from_int b) ≡ true → a ≤ b
  pub div_bounds :
      (a b : ℕ)
      → a < b
      → (le (from_int 0) (div (from_int a) (from_int b)) ≡ true)
        × (le (div (from_int a) (from_int b)) (from_int 1) ≡ true)
  pub sub_bounds :
      (y : F)
      → le (from_int 0) y ≡ true
      → le y (from_int 1) ≡ true
      → (le (from_int 0) (sub (from_int 1) y) ≡ true)
        × (le (sub (from_int 1) y) (from_int 1) ≡ true)
  pub mul_nonneg :
      (a : ℕ) (y : F)
      → le (from_int 0) y ≡ true
      → le y (from_int 1) ≡ true
      → le (from_int 0) (mul (from_int a) y) ≡ true
  pub le-add :
      (x : F) (b : ℕ) → le (from_int 0) x ≡ true → le (from_int b) (add x (from_int b)) ≡ true
