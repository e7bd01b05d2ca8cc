-- ===== src/Limiter.antt =====
-- internal/repository/redis/ratelimiter.go: the sliding window over two counters in Redis.
-- The text of a counter's key is its three parts: the prefixes of cmd/api/main.go are told apart
-- before a ":", and a window's number, which has none, comes last. A limit is a positive constant
-- there. Go's float64 is the argument `f`.
pub mod Float
pub mod Counters
pub mod Bound
pub mod Others
pub mod Window
use sentinelix_backend.Base.{
  ℕ, zero, suc, ◌+◌, ◌-◌, ◌*◌, ◌/◌, ◌%◌, ◌^◌, String, Bool, true, false, not, ◌&&◌, Option, none,
  some, List, [], ◌∷◌, ltb, ◌==◌, str_eq, first, select, if◌then◌else◌,
}
use sentinelix_backend.Domain.Errors.{ok}
use sentinelix_backend.World.{World, Counter, Act, pure, exec, trip, ◌>>=◌, ◌>>◌}
use Float.{Float64}

abbrev pub second : ℕ
second = 10 ^ 9

-- The window is a time.Duration, in nanoseconds.
pub record RateLimiter : Type 0 where
  pub prefix : String
  pub limit : ℕ
  pub window : ℕ

-- `none` is the panic of the constructor.
unfoldable pub new_rate_limiter : String → ℕ → ℕ → Option RateLimiter
new_rate_limiter prefix limit window =
    if ltb window second
    then none
    else some (record { prefix = prefix; limit = limit; window = window })

-- A counter that has expired is not there.
abbrev pub is_alive : ℕ → Option ℕ → Bool
is_alive now none = true
is_alive now (some t) = ltb now t

abbrev pub has_name : String → String → ℕ → Counter → Bool
has_name prefix subject id c =
    str_eq c.prefix prefix && str_eq c.subject subject && c.window_id == id

abbrev pub fresh_counter : String → String → ℕ → Counter
fresh_counter prefix subject id = record {
  prefix = prefix;
  subject = subject;
  window_id = id;
  count = 0;
  expires_at = none;
}

-- What GET and INCR find under a key: a counter that is alive, or one at 0.
abbrev pub found : ℕ → Counter → Option Counter → Counter
found now fresh none = fresh
found now fresh (some c) = if is_alive now c.expires_at then c else fresh

module _ (r : RateLimiter) where
  -- int64(r.window.Seconds()), and now.Unix() / windowSecs
  abbrev pub window_secs : ℕ
  window_secs = r.window / second

  abbrev pub window_id : ℕ → ℕ
  window_id now = now / second / window_secs

  -- The weighted count against the limit.
  unfoldable pub within_limit : Float64 → ℕ → ℕ → ℕ → Bool
  within_limit f now current before =
      let elapsed = now / second % window_secs in
      let weight = f.sub (f.from_int 1) (f.div (f.from_int elapsed) (f.from_int window_secs)) in
      f.le (f.add (f.mul (f.from_int before) weight) (f.from_int current)) (f.from_int r.limit)

  module _ (subject : String) where
    unfoldable pub counter_at : ℕ → World → Counter
    counter_at id w =
        found w.now (fresh_counter r.prefix subject id)
          (first (has_name r.prefix subject id) w.counters)

    abbrev pub store : ℕ → Counter → World → World
    store id c w = record w {
      counters = c ∷ select (λ x. not (has_name r.prefix subject id x)) w.counters;
    }

    -- The previous window's count; before the first window there is none.
    abbrev pub previous : ℕ → World → ℕ
    previous zero w = 0
    previous (suc id) w = (counter_at id w).count

    abbrev pub one_more : Counter → Counter
    one_more c = record c { count = suc c.count }

    -- The pipeline of INCR and GET: the counts of this window and of the one before.
    unfoldable pub incr_and_get : Act (ℕ × ℕ)
    unfolding trip counter_at
    incr_and_get = trip >> λ w.
        let id = window_id w.now in
        let c = one_more (counter_at id w) in (ok (c.count, previous id w), store id c w)

    abbrev pub expiring : ℕ → World → Counter
    unfolding counter_at
    expiring id w = record (counter_at id w) { expires_at = some (w.now + r.window * 2) }

    -- EXPIRE, where the window's first request was counted.
    unfoldable pub expire_first : ℕ → Act (Unit {0})
    unfolding trip counter_at
    expire_first count =
        if count == 1
        then exec (λ w. store (window_id w.now) (expiring (window_id w.now) w) w)
        else pure tt

    -- RateLimiter.Allow
    unfoldable pub allow : Float64 → Act Bool
    unfolding within_limit
    allow f = do
      counts ← incr_and_get
      expire_first counts.0
      λ w. (ok (within_limit f w.now counts.0 counts.1), w)
