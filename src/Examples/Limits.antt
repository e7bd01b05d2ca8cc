-- ===== src/Examples/Limits.antt =====
-- The theorem on the rate limiter at a concrete input.
use sentinelix_backend.Base.{
  String, ℕ, ◌+◌, ◌-◌, ◌*◌, ◌/◌, ◌≤◌, ◌<◌, ◌≡◌, refl, true, List, [], ◌∷◌, leb, leb→le, arith,
}
use sentinelix_backend.Limiter.{RateLimiter, new_rate_limiter, second}
use sentinelix_backend.Limiter.Float.{Float64}
use sentinelix_backend.Limiter.Window.{granted, granted-le-limit}
use sentinelix_backend.Examples.{breaking}

-- Numbers without fractions, rounded down.
pub div_bounds : (a b : ℕ) → a < b → (leb 0 (a / b) ≡ true) × (leb (a / b) 1 ≡ true)
div_bounds a b h = let small : a / b ≡ 0 = grind arith in rw small (refl, refl)

pub sub_bounds :
    (y : ℕ) → leb 0 y ≡ true → leb y 1 ≡ true → (leb 0 (1 - y) ≡ true) × (leb (1 - y) 1 ≡ true)
sub_bounds y h k = ground arith

pub leb_trans : (x y z : ℕ) → leb x y ≡ true → leb y z ≡ true → leb x z ≡ true
leb_trans x y z h k = ground arith

pub nonneg : (n : ℕ) → leb 0 n ≡ true
nonneg n = ground arith

pub le-add : (x b : ℕ) → leb 0 x ≡ true → leb b (x + b) ≡ true
le-add x b h = ground arith

abbrev pub coarse : Float64
coarse = record {
  F = ℕ;
  from_int = λ n. n;
  sub = λ x y. x - y;
  div = λ x y. x / y;
  mul = λ x y. x * y;
  add = λ x y. x + y;
  le = leb;
  le_trans = leb_trans;
  from_int_exact = λ a b h k. leb→le a b k;
  div_bounds = div_bounds;
  sub_bounds = sub_bounds;
  mul_nonneg = λ a y h k. nonneg (a * y);
  le-add = le-add;
}

abbrev limiter : RateLimiter
limiter = record { prefix = "ratelimit:ingest"; limit = 2; window = 60 * second }

-- Three requests in one minute, of which Redis fails one.
abbrev burst : List (ℕ × String)
burst = (0, "k") ∷ (second, "k") ∷ (second, "j") ∷ (second, "k") ∷ []

granted-le-limit_example : granted limiter coarse "k" 16 burst (breaking (2 ∷ [])) ≤ 2
unfolding new_rate_limiter
granted-le-limit_example =
    granted-le-limit coarse "ratelimit:ingest" 2 (60 * second) limiter "k" 16 burst
      (breaking (2 ∷ [])) refl (omega arith) refl
