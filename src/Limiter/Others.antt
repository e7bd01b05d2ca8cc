-- ===== src/Limiter/Others.antt =====
-- A request is about one counter: those of other subjects and windows stay as they are.
use sentinelix_backend.Base.{
  ℕ, suc, refl, ◌∙◌, String, ◌≡◌, false, ◌&&◌, ◌==◌, str_eq, arith, Bool-cases,
}
use mathlib.Core.Logic.{inl, inr}
use sentinelix_backend.Domain.Errors.{Result, ok, err}
use sentinelix_backend.World.{World, continue, ◌>>◌}
use sentinelix_backend.Limiter.{
  RateLimiter, allow, within_limit, window_id, one_more, expiring, counter_at, incr_and_get,
  expire_first,
}
use sentinelix_backend.Limiter.Counters.{stored, counter_at-name, stored-store_other}
use sentinelix_backend.Limiter.Float.{Float64}

-- A request about another subject, or in another window, does not touch the counter.
module _ (r : RateLimiter) (f : Float64) (subject key : String) (id : ℕ) where
  incr-other :
      (w : World)
      → (str_eq key subject && window_id r w.now == id) ≡ false
      → (stored r subject id (incr_and_get r key w).1 ≡ stored r subject id w)
        × ((incr_and_get r key w).1.now ≡ w.now)
  unfolding incr_and_get
  incr-other w h =
      let w1 = record w { calls = suc w.calls } in
      let c = one_more r key (counter_at r key (window_id r w.now) w1) in
      let s =
        stored-store_other r subject key id (window_id r w.now) c w1
          (counter_at-name r key (window_id r w.now) w1) h in
      elim (Bool-cases (w.outage w.calls)) [
        | inl down ↦ rw down (refl, refl)
        | inr up ↦ rw up (s, refl)
      ]

  expire-other :
      (n : ℕ) (w : World)
      → (str_eq key subject && window_id r w.now == id) ≡ false
      → stored r subject id (expire_first r key n w).1 ≡ stored r subject id w
  unfolding expire_first
  expire-other n w h =
      let w1 = record w { calls = suc w.calls } in
      let c = expiring r key (window_id r w.now) w1 in
      let s =
        stored-store_other r subject key id (window_id r w.now) c w1
          (counter_at-name r key (window_id r w.now) w1) h in
      elim (Bool-cases (n == 1)) [
        | inr later ↦ rw later refl
        | inl one ↦ elim (Bool-cases (w.outage w.calls)) [
          | inl down ↦ rw (one, down) refl
          | inr up ↦ rw (one, up) s
        ]
      ]

  after_incr :
      (i : Result (ℕ × ℕ)) (v : World)
      → (str_eq key subject && window_id r v.now == id) ≡ false
      → stored r subject id
          (continue i
            (λ counts. expire_first r key counts.0 >> λ x.
              (ok (within_limit r f x.now counts.0 counts.1), x))
            v).1
        ≡ stored r subject id v
  after_incr (err reason) v h = refl
  after_incr (ok (n, p)) v h = ground (arith, expire-other n v h)

  pub allow-other :
      (w : World)
      → (str_eq key subject && window_id r w.now == id) ≡ false
      → stored r subject id (allow r key f w).1 ≡ stored r subject id w
  unfolding allow
  allow-other w h =
      let i = incr-other w h in
      after_incr (incr_and_get r key w).0 (incr_and_get r key w).1 (rw i.1 h) ∙ i.0
