-- ===== src/StatusPage/Uptime.antt =====
-- The uptime on the status page as a rounded ratio.
use sentinelix_backend.Base.{
  refl, multiple-le, lt-next_multiple, ℕ, zero, suc, ◌+◌, ◌*◌, ◌/◌, ◌≤◌, ◌<◌, ◌≡◌, Bool, List, [],
  ◌∷◌, length, count_of, arith,
}
use sentinelix_backend.World.{World}
use native.Mathlib.Nat.{div-lt_iff_lt-mul}
use sentinelix_backend.StatusPage.{percentage, uptime, joined, checked_up}

-- `u` hundredths of a percent are the part `up` of `n`, to the nearest, with a half rounded up.
abbrev pub IsNearest : ℕ → ℕ → ℕ → Type 0
IsNearest up n u = (2 * n * u ≤ 20000 * up + n) × (20000 * up < 2 * n * u + n)

percentage-IsNearest : (up n : ℕ) → 0 < n → IsNearest up n (percentage up n)
unfolding percentage
percentage-IsNearest up zero h = omega arith
percentage-IsNearest up (suc n) h =
    let low = multiple-le (20000 * up + suc n) (2 * suc n) (omega arith) in
    let high = lt-next_multiple (20000 * up + suc n) (2 * suc n) (omega arith) in
    (grind arith, grind arith)

percentage-le : (up n : ℕ) → up ≤ n → percentage up n ≤ 10000
unfolding percentage
percentage-le up zero h = omega arith
percentage-le up (suc n) h =
    let below : (20000 * up + suc n) / (2 * suc n) < 10001 =
      (div-lt_iff_lt-mul {k = 2 * suc n} (omega arith)).1 (omega arith) in
    omega arith

count_of-le {ℓ} : {A : Type ℓ} (p : A → Bool) (xs : List A) → count_of p xs ≤ length xs
count_of-le p [] = omega arith
count_of-le p (x ∷ xs) = ground (arith, count_of-le p xs)

-- The uptime of a monitor: of its checks of the last 30 days, or full without one.
abbrev pub IsUptime : World → ℕ → ℕ → Type 0
IsUptime w monitor u =
    let n = length (joined w monitor) in
    (u ≤ 10000)
    × (n ≡ 0 → u ≡ 10000)
    × (0 < n → IsNearest (count_of checked_up (joined w monitor)) n u)

pub uptime-IsUptime : (w : World) (monitor : ℕ) → IsUptime w monitor (uptime w monitor)
unfolding uptime percentage
uptime-IsUptime w monitor =
    let checks = joined w monitor in
    (
      percentage-le _ _ (count_of-le checked_up checks),
      λ none_yet. rw none_yet refl,
      percentage-IsNearest _ _,
    )
