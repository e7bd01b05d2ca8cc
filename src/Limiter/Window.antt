-- ===== src/Limiter/Window.antt =====
-- How many requests a window lets pass, over every history of requests.
use sentinelix_backend.Base.{
  ℕ, refl, ◌+◌, ◌^◌, ◌≤◌, ◌<◌, String, ◌≡◌, Bool, true, false, ◌&&◌, none, some, List, [], ◌∷◌,
  ◌==◌, str_eq, if◌then◌else◌, arith, eq_iff, Bool-cases, inl, inr, ◌⊎◌,
}
use mathlib.Core.Path.{subst₂}
use native.Mathlib.Nat.{le_refl}
use sentinelix_backend.Domain.Errors.{Result, ok, err}
use sentinelix_backend.World.{World}
use sentinelix_backend.Limiter.{RateLimiter, new_rate_limiter, allow, window_secs, window_id}
use sentinelix_backend.Limiter.Counters.{value, stored}
use sentinelix_backend.Limiter.Bound.{Lasting, own-Counted}
use sentinelix_backend.Limiter.Others.{allow-other}
use sentinelix_backend.Limiter.Float.{Float64}

abbrev pub is_granted : Result Bool → Bool
is_granted (ok allowed) = allowed
is_granted (err e) = false

is_granted-ok : (a : Result Bool) → is_granted a ≡ true → a ≡ ok true
is_granted-ok (ok allowed) h = cc
is_granted-ok (err e) h = cc

add_bound :
    (counts : Bool) (g old new limit : ℕ)
    → old ≤ new
    → (counts ≡ true → (old < new) × (new ≤ limit))
    → (g + new ≤ limit) ⊎ (g ≡ 0)
    → ((if counts then 1 else 0) + g + old ≤ limit) ⊎ ((if counts then 1 else 0) + g ≡ 0)
add_bound true g old new limit more counted later =
    let c = counted refl in elim later [ inl h ↦ inl (omega arith) | inr h ↦ inl (omega arith) ]
add_bound false g old new limit more counted later = elim later [
  | inl h ↦ inl (omega arith)
  | inr h ↦ inr (omega arith)
]

-- What a request to `key` does to the counter of a subject in a window.
abbrev Advances : RateLimiter → Float64 → String → World → String → ℕ → Type 0
Advances r f key w subject id =
    let a = allow r key f w in
    Lasting r id (stored r subject id w)
    → Lasting r id (stored r subject id a.1)
      × (value (stored r subject id w) ≤ value (stored r subject id a.1))
      × (a.0 ≡ ok true
          → (value (stored r subject id w) < value (stored r subject id a.1))
            × (value (stored r subject id a.1) ≤ r.limit))

module _ (r : RateLimiter) (f : Float64) (subject : String) (id : ℕ) where
  -- A request of the subject in the window?
  abbrev pub is_ours : String → ℕ → Bool
  is_ours key now = str_eq key subject && window_id r now == id

  -- How many of these requests are let through, in a history of requests after delays.
  abbrev pub granted : List (ℕ × String) → World → ℕ
  granted [] w = 0
  granted ((delay, key) ∷ rest) w =
      let v = record w { now = w.now + delay } in
      (if is_ours key v.now && is_granted (allow r key f v).0 then 1 else 0)
      + granted rest (allow r key f v).1

  -- One request: what it adds to the count, it adds to the counter.
  step_bound :
      (key : String) (w : World)
      → 0 < window_secs r
      → r.limit < 2 ^ 53
      → Lasting r id (stored r subject id w)
      → let a = allow r key f w in
        Lasting r id (stored r subject id a.1)
        × (value (stored r subject id w) ≤ value (stored r subject id a.1))
        × (is_ours key w.now && is_granted a.0 ≡ true
            → (value (stored r subject id w) < value (stored r subject id a.1))
              × (value (stored r subject id a.1) ≤ r.limit))
  step_bound key w pos small l = elim (Bool-cases (is_ours key w.now)) [
    | inl ours ↦
        let same_subject : key ≡ subject = ground (arith, eq_iff key subject) in
        let same_window : window_id r w.now ≡ id = ground arith in
        let s =
          subst₂ (Advances r f key w) same_subject same_window
            (λ h. own-Counted r pos key f w small h) l in
        (s.0, s.1, λ h. s.2 (is_granted-ok (allow r key f w).0 (ground arith)))
    | inr theirs ↦
        let same = allow-other r f subject key id w theirs in
        rw (same, theirs) (l, le_refl _, λ h. absurd (cc))
  ]

  granted_bound :
      (calls : List (ℕ × String)) (w : World)
      → 0 < window_secs r
      → r.limit < 2 ^ 53
      → Lasting r id (stored r subject id w)
      → (granted calls w + value (stored r subject id w) ≤ r.limit) ⊎ (granted calls w ≡ 0)
  granted_bound [] w pos small l = inr refl
  granted_bound ((delay, key) ∷ rest) w pos small l =
      let v = record w { now = w.now + delay } in
      let s = step_bound key v pos small l in
      let later = granted_bound rest (allow r key f v).1 pos small s.0 in
      add_bound (is_ours key v.now && is_granted (allow r key f v).0)
        (granted rest (allow r key f v).1) (value (stored r subject id w))
        (value (stored r subject id (allow r key f v).1)) r.limit s.1 s.2 later

new-window_secs :
    (prefix : String) (limit window : ℕ) (r : RateLimiter)
    → new_rate_limiter prefix limit window ≡ some r
    → 0 < window_secs r
unfolding new_rate_limiter
new-window_secs prefix limit window r h = ground arith

-- A limiter that its constructor accepts, with a limit below 2 ^ 53, lets no more requests of a
-- subject pass in a window than its limit: over every history of requests, whichever calls to Redis
-- fail, where nothing is stored for the subject and the window before it.
pub granted-le-limit :
    (f : Float64) (prefix : String) (limit window : ℕ) (r : RateLimiter) (subject : String) (id : ℕ)
    (calls : List (ℕ × String)) (w : World)
    → new_rate_limiter prefix limit window ≡ some r
    → limit < 2 ^ 53
    → stored r subject id w ≡ none
    → granted r f subject id calls w ≤ limit
unfolding new_rate_limiter
granted-le-limit f prefix limit window r subject id calls w made small none_yet =
    let same : r.limit ≡ limit = ground arith in
    let b =
      granted_bound r f subject id calls w (new-window_secs prefix limit window r made)
        (omega arith) (rw none_yet tt) in
    ground (arith, b)
