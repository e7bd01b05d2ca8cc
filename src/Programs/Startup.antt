-- ===== src/Programs/Startup.antt =====
-- When the API starts, and with what.
use sentinelix_backend.Base.{
  ℕ, suc, String, ◌≡◌, ◌≤◌, ◌*◌, refl, true, false, some, none, List, arith, str_eq,
}
use mathlib.Core.Path.{subst}
use sentinelix_backend.World.{World, trip, IsHealthy}
use sentinelix_backend.Limiter.{new_rate_limiter}
use sentinelix_backend.Limiter.Float.{Float64}
use sentinelix_backend.Limiter.Counters.{stored}
use sentinelix_backend.Limiter.Window.{granted, granted-le-limit}
use sentinelix_backend.Http.Router.{Services}
use sentinelix_backend.Config.{load, get_env_default}
use sentinelix_backend.Programs.{Environment, Limiters, running, limiters, start_api, minute}

-- No constructor of a limiter panics.
abbrev pub the_limiters : Limiters
the_limiters = record {
  ingest_rate = record { prefix = "ratelimit:ingest"; limit = 100; window = minute };
  login_ip = record { prefix = "ratelimit:login:ip"; limit = 10; window = 15 * minute };
  login_email = record { prefix = "ratelimit:login:email"; limit = 5; window = 15 * minute };
  dashboard = record { prefix = "ratelimit:dashboard"; limit = 300; window = minute };
}

pub limiters_lem : limiters ≡ some the_limiters
unfolding limiters new_rate_limiter
limiters_lem = refl

-- With its two required variables set, URLs that the drivers accept, and both services answering,
-- the API starts.
pub api_starts :
    (e : Environment) (env : String → String) (w : World)
    → IsHealthy w
    → str_eq (env "DATABASE_URL") "" ≡ false
    → str_eq (env "JWT_SECRET") "" ≡ false
    → e.database_url_ok (env "DATABASE_URL") ≡ true
    → e.redis_url_ok (env "REDIS_URL") ≡ true
    → (s : Services) × ((start_api e env w).0 ≡ running s)
      × (s.secure_cookie ≡ str_eq (get_env_default env "APP_ENV" "development") "production")
unfolding start_api load limiters trip new_rate_limiter get_env_default
api_starts e env w h db jwt url redis =
    rw (db, jwt) (rw url (rw (h.up w.calls) (rw redis (rw (h.up (suc w.calls)) (_, refl, refl)))))

-- Of the logins with one email in one window of 15 minutes, the API lets at most five pass.
pub logins-le :
    (f : Float64) (ls : Limiters) (email : String) (id : ℕ) (calls : List (ℕ × String)) (w : World)
    → limiters ≡ some ls
    → stored ls.login_email email id w ≡ none
    → granted ls.login_email f email id calls w ≤ 5
unfolding new_rate_limiter
logins-le f ls email id calls w made clear =
    let same : the_limiters ≡ ls = let known = limiters_lem in cc in
    subst
      (λ l. stored l.login_email email id w ≡ none → granted l.login_email f email id calls w ≤ 5)
      same
      (granted-le-limit f "ratelimit:login:email" 5 (15 * minute) the_limiters.login_email email id
        calls w refl (omega arith))
      clear
