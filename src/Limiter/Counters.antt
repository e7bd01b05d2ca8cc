-- ===== src/Limiter/Counters.antt =====
-- The counters of the rate limiter: what a window's key holds, and how long.
use sentinelix_backend.Base.{
  first-holds, lt-next_multiple, multiple-le, ℕ, suc, refl, ◌+◌, ◌*◌, ◌/◌, ◌≤◌, ◌<◌, String, ◌≡◌,
  Bool, true, false, not, ◌&&◌, Option, none, some, List, [], ◌∷◌, ◌==◌, str_eq, first, select,
  arith, eq_iff, Bool-cases, Option-cases,
}
use mathlib.Core.Logic.{inl, inr}
use sentinelix_backend.World.{World, Counter}
use sentinelix_backend.Limiter.{
  RateLimiter, second, window_secs, window_id, has_name, fresh_counter, store, counter_at,
}

-- An element that is found passes the test; elements that fail it may be left out.
first-select {ℓ} :
    {A : Type ℓ} (p q : A → Bool) (xs : List A)
    → ((x : A) → p x ≡ true → q x ≡ true)
    → first p (select q xs) ≡ first p xs
first-select p q [] h = refl
first-select p q (x ∷ xs) h = ground (arith, h x, first-select p q xs h)

module _ (r : RateLimiter) (pos : 0 < window_secs r) (now : ℕ) where
  pub before_end : now < suc (window_id r now) * window_secs r * second
  before_end =
      let a = lt-next_multiple now second (omega arith) in
      let b = lt-next_multiple (now / second) (window_secs r) pos in grind arith

  pub after_start : window_id r now * window_secs r * second ≤ now
  after_start =
      let a = multiple-le now second (omega arith) in
      let b = multiple-le (now / second) (window_secs r) pos in grind arith

  -- A counter that expires two windows after a moment outlasts the moment's window.
  pub outlasts : suc (window_id r now) * window_secs r * second ≤ now + r.window * 2
  outlasts = let a = multiple-le r.window second (omega arith) in grind (arith, after_start)

-- The value stored under a key, alive or not.
abbrev pub value : Option Counter → ℕ
value none = 0
value (some c) = c.count

has_name-fields :
    (prefix subject : String) (id : ℕ) (c : Counter)
    → has_name prefix subject id c ≡ true
    → (c.prefix ≡ prefix) × (c.subject ≡ subject) × (c.window_id ≡ id)
has_name-fields prefix subject id c h =
    ground (arith, eq_iff c.prefix prefix, eq_iff c.subject subject)

has_name_lem :
    (prefix subject : String) (id : ℕ) (c : Counter)
    → c.prefix ≡ prefix
    → c.subject ≡ subject
    → c.window_id ≡ id
    → has_name prefix subject id c ≡ true
has_name_lem prefix subject id c p q s =
    ground (arith, eq_iff c.prefix prefix, eq_iff c.subject subject)

-- A counter has one name.
has_name_unique :
    (prefix subject key : String) (i id : ℕ) (c : Counter)
    → has_name prefix subject i c ≡ true
    → has_name prefix key id c ≡ true
    → (str_eq key subject && id == i) ≡ true
has_name_unique prefix subject key i id c p q =
    let a = has_name-fields prefix subject i c p in
    let b = has_name-fields prefix key id c q in ground (arith, eq_iff key subject)

module _ (r : RateLimiter) where
  abbrev pub stored : String → ℕ → World → Option Counter
  stored subject id w = first (has_name r.prefix subject id) w.counters

  -- What is found under a key has its name.
  pub counter_at-name :
      (key : String) (id : ℕ) (w : World) → has_name r.prefix key id (counter_at r key id w) ≡ true
  unfolding counter_at
  counter_at-name key id w = elim (Option-cases (stored key id w)) [
    | inl e ↦ rw e (has_name_lem r.prefix key id (fresh_counter r.prefix key id) refl refl refl)
    | inr (c, e) ↦ rw e ground (
      arith,
      has_name_lem r.prefix key id (fresh_counter r.prefix key id) refl refl refl,
      first-holds (has_name r.prefix key id) w.counters c e,
    )
  ]

  pub stored-store_self :
      (key : String) (id : ℕ) (c : Counter) (w : World)
      → has_name r.prefix key id c ≡ true
      → stored key id (store r key id c w) ≡ some c
  stored-store_self key id c w h = ground (arith, h)

  -- A write under another key, or for another window, is not seen.
  pub stored-store_other :
      (subject key : String) (i id : ℕ) (c : Counter) (w : World)
      → has_name r.prefix key id c ≡ true
      → (str_eq key subject && id == i) ≡ false
      → stored subject i (store r key id c w) ≡ stored subject i w
  stored-store_other subject key i id c w h other =
      let mine = has_name r.prefix subject i in
      let theirs = has_name r.prefix key id in
      let apart : (x : Counter) → mine x ≡ true → not (theirs x) ≡ true = λ x p.
        elim (Bool-cases (theirs x)) [
          | inl e ↦ absurd (cc (has_name_unique r.prefix subject key i id x p e))
          | inr e ↦ rw e refl
        ] in
      let left = first-select mine (λ x. not (theirs x)) w.counters apart in
      elim (Bool-cases (mine c)) [
        | inl e ↦ absurd (cc (has_name_unique r.prefix subject key i id c e h))
        | inr e ↦ rw e left
      ]
