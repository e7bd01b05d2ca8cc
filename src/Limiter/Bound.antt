-- ===== src/Limiter/Bound.antt =====
-- How many requests a window lets pass.
use sentinelix_backend.Base.{
  ℕ, suc, refl, ◌*◌, ◌/◌, ◌%◌, ◌^◌, ◌≤◌, ◌<◌, String, ◌≡◌, Bool, true, Option, none, some, ◌==◌,
  if◌then◌else◌, arith, Bool-cases,
}
use mathlib.Core.Logic.{inl, inr}
use native.Mathlib.Nat.{le_refl}
use mathlib.Core.Path.{subst}
use sentinelix_backend.Domain.Errors.{Result, ok, err}
use sentinelix_backend.World.{World, Counter, continue, ◌>>◌}
use sentinelix_backend.Limiter.{
  RateLimiter, second, allow, within_limit, window_secs, window_id, found, fresh_counter, one_more,
  expiring, counter_at, incr_and_get, expire_first, is_alive,
}
use sentinelix_backend.Limiter.Counters.{
  value, stored, counter_at-name, stored-store_self, before_end, outlasts,
}
use sentinelix_backend.Limiter.Float.{Float64}

-- What the test lets pass is within the limit by this window's count alone.
within_limit-le :
    (f : Float64) (r : RateLimiter) (now current before : ℕ)
    → 0 < window_secs r
    → r.limit < 2 ^ 53
    → within_limit r f now current before ≡ true
    → current ≤ r.limit
unfolding within_limit
within_limit-le f r now current before pos small h =
    let elapsed = now / second % window_secs r in
    let part = f.div_bounds elapsed (window_secs r) (omega arith) in
    let weight = f.sub_bounds _ part.0 part.1 in
    let past = f.mul_nonneg before _ weight.0 weight.1 in
    f.from_int_exact current r.limit small (f.le_trans _ _ _ (f.le-add _ current past) h)

-- The counter does not expire before the end of its window.
abbrev pub LastingTo : RateLimiter → ℕ → Option ℕ → Type 0
LastingTo r id none = Unit {0}
LastingTo r id (some t) = suc id * window_secs r * second ≤ t

abbrev pub Lasting : RateLimiter → ℕ → Option Counter → Type 0
Lasting r id none = Unit {0}
Lasting r id (some c) = LastingTo r id c.expires_at

module _ (r : RateLimiter) (pos : 0 < window_secs r) (subject : String) where
  -- In its window, a lasting counter is found with its value.
  found-value :
      (now : ℕ) (o : Option Counter)
      → Lasting r (window_id r now) o
      → ((found now (fresh_counter r.prefix subject (window_id r now)) o).count ≡ value o)
        × Lasting r
            (window_id r now)
            (some (found now (fresh_counter r.prefix subject (window_id r now)) o))
  found-value now none l = (refl, tt)
  found-value now (some c) l = alive c.expires_at refl
    where
      alive :
          (e : Option ℕ)
          → c.expires_at ≡ e
          → ((if is_alive now c.expires_at
                then c
                else fresh_counter r.prefix subject (window_id r now)).count
              ≡ c.count)
            × Lasting r (window_id r now) (
                some (
                  if is_alive now c.expires_at
                  then c
                  else fresh_counter r.prefix subject (window_id r now)))
      alive none e = rw e (refl, tt)
      alive (some t) e = ground (arith, before_end r pos now)

  counter_at-value :
      (w : World)
      → Lasting r (window_id r w.now) (stored r subject (window_id r w.now) w)
      → ((counter_at r subject (window_id r w.now) w).count
          ≡ value (stored r subject (window_id r w.now) w))
        × Lasting r (window_id r w.now) (some (counter_at r subject (window_id r w.now) w))
  unfolding counter_at
  counter_at-value w l = found-value w.now (stored r subject (window_id r w.now) w) l

  -- The moment's window, and what is stored for it.
  abbrev pub this : World → ℕ
  this w = window_id r w.now

  abbrev pub here : ℕ → World → Option Counter
  here id w = stored r subject id w

  incr-Lasting :
      (w : World)
      → Lasting r (this w) (here (this w) w)
      → let v = (incr_and_get r subject w).1 in
        Lasting r (this w) (here (this w) v)
        × (v.now ≡ w.now)
        × (value (here (this w) w) ≤ value (here (this w) v))
        × ((n p : ℕ)
            → (incr_and_get r subject w).0 ≡ ok (n, p)
            → (n ≡ value (here (this w) v)) × (n ≡ suc (value (here (this w) w))))
  unfolding incr_and_get
  incr-Lasting w l =
      let w1 = record w { calls = suc w.calls } in
      let before = counter_at-value w1 l in
      let c = one_more r subject (counter_at r subject (this w) w1) in
      let s = stored-store_self r subject (this w) c w1 (counter_at-name r subject (this w) w1) in
      elim (Bool-cases (w.outage w.calls)) [
        | inl down ↦ rw down (l, refl, le_refl _, λ n p h. absurd (cc))
        | inr up ↦ rw up (
          rw s before.1,
          refl,
          rw s (omega (arith, before.0)),
          λ n p h. rw s (ground (arith, before.0)),
        )
      ]

  expire-Lasting :
      (n : ℕ) (w : World)
      → Lasting r (this w) (here (this w) w)
      → let v = (expire_first r subject n w).1 in
        Lasting r (this w) (here (this w) v) × (value (here (this w) v) ≡ value (here (this w) w))
  unfolding expire_first
  expire-Lasting n w l =
      let w1 = record w { calls = suc w.calls } in
      let before = counter_at-value w1 l in
      let c = expiring r subject (this w) w1 in
      let s = stored-store_self r subject (this w) c w1 (counter_at-name r subject (this w) w1) in
      elim (Bool-cases (n == 1)) [
        | inr later ↦ rw later (l, refl)
        | inl one ↦ elim (Bool-cases (w.outage w.calls)) [
          | inl down ↦ rw (one, down) (l, refl)
          | inr up ↦ rw (one, up) (rw s (outlasts r pos w.now), rw s before.0)
        ]
      ]

  abbrev Kept : ℕ → ℕ → World → Type 0
  Kept n id w =
      let v = (expire_first r subject n w).1 in
      Lasting r id (here id w) → Lasting r id (here id v) × (value (here id v) ≡ value (here id w))

  expire-Kept : (n m : ℕ) (w : World) → w.now ≡ m → Kept n (window_id r m) w
  expire-Kept n m w same = subst (λ k. Kept n (window_id r k) w) same (expire-Lasting n w)

  -- A request in a window whose counter lasts: the counter lasts on and does not fall, and where
  -- the request is let through it is one more, and within the limit.
  abbrev pub Counted : World → Result Bool × World → Type 0
  Counted w (answer, v) =
      Lasting r (this w) (here (this w) v)
      × (value (here (this w) w) ≤ value (here (this w) v))
      × (answer ≡ ok true
          → (value (here (this w) w) < value (here (this w) v))
            × (value (here (this w) v) ≤ r.limit))

  judged :
      (f : Float64) (w v : World) (n p : ℕ) (e : Result (Unit {0}) × World)
      → r.limit < 2 ^ 53
      → Lasting r (this w) (here (this w) e.1)
      → value (here (this w) e.1) ≡ n
      → n ≡ suc (value (here (this w) w))
      → Counted w (continue e.0 (λ u. λ x. (ok (within_limit r f x.now n p), x)) e.1)
  judged f w v n p (err reason, x) small l a b = (l, omega arith, λ h. absurd (cc))
  judged f w v n p (ok _, x) small l a b = (
    l,
    omega arith,
    λ h. (omega arith, ground (arith, within_limit-le f r x.now n p pos small (cc))),
  )

  counted :
      (f : Float64) (w : World) (i : Result (ℕ × ℕ)) (v : World)
      → r.limit < 2 ^ 53
      → Lasting r (this w) (here (this w) v)
      → v.now ≡ w.now
      → value (here (this w) w) ≤ value (here (this w) v)
      → ((n p : ℕ)
          → i ≡ ok (n, p)
          → (n ≡ value (here (this w) v)) × (n ≡ suc (value (here (this w) w))))
      → Counted w (
          continue i
            (λ counts. expire_first r subject counts.0 >> λ x.
              (ok (within_limit r f x.now counts.0 counts.1), x))
            v)
  counted f w (err reason) v small l same more rest = (l, more, λ h. absurd (cc))
  counted f w (ok (n, p)) v small l same more rest =
      let kept = expire-Kept n w.now v same l in
      let counts = rest n p refl in
      judged f w v n p (expire_first r subject n v) small kept.0 (omega (arith, kept.1, counts.0))
        counts.1

  pub own-Counted :
      (f : Float64) (w : World)
      → r.limit < 2 ^ 53
      → Lasting r (this w) (here (this w) w)
      → Counted w (allow r subject f w)
  unfolding allow
  own-Counted f w small l =
      let i = incr-Lasting w l in
      counted f w (incr_and_get r subject w).0 (incr_and_get r subject w).1 small i.0 i.1 i.2 i.3
