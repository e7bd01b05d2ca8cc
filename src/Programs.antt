-- ===== src/Programs.antt =====
-- cmd/api/main.go, cmd/worker/main.go, cmd/status-api/main.go and internal/worker/alert_notifier.go:
-- what the programs are wired from, and when they stop before they start. What the drivers say of a
-- URL are arguments.
pub mod Startup
pub mod Session
use sentinelix_backend.Base.{
  ℕ, List, ◌*◌, ◌^◌, String, Bool, true, false, Option, none, some, str_eq, if◌then◌else◌,
}
use sentinelix_backend.Domain.Errors.{Result, ok, err}
use sentinelix_backend.Domain.Event.{Event}
use sentinelix_backend.World.{World, Act, trip, swallow}
use sentinelix_backend.World.Cache.{find_cached}
use sentinelix_backend.Alerts.{evaluate_thresholds}
use sentinelix_backend.Auth.{Platform}
use sentinelix_backend.Dashboard.Projects.{Keys}
use sentinelix_backend.Limiter.{RateLimiter, second, new_rate_limiter, allow}
use sentinelix_backend.Limiter.Float.{Float64}
use sentinelix_backend.Consumer as Worker
use sentinelix_backend.Consumer.Queue.{push}
use sentinelix_backend.Jwt.{Jwt, Claims, Manager, new_manager, generate}
use sentinelix_backend.Http.{Library}
use sentinelix_backend.Http.Router.{Services}
use sentinelix_backend.Config.{Config, Loaded, missing_env, loaded, load, get_env_default}

abbrev pub minute : ℕ
minute = 60 * second

-- The four limiters of the API.
pub record Limiters : Type 0 where
  pub ingest_rate : RateLimiter
  pub login_ip : RateLimiter
  pub login_email : RateLimiter
  pub dashboard : RateLimiter

infixl 5 ◌>>=◌
abbrev ◌>>=◌ {ℓ κ} : {A : Type ℓ} {B : Type κ} → Option A → (A → Option B) → Option B
none >>= rest = none
some a >>= rest = rest a

-- `none` is a panic of a constructor.
unfoldable pub limiters : Option Limiters
unfolding new_rate_limiter
limiters = do
  ingest_rate ← new_rate_limiter "ratelimit:ingest" 100 minute
  login_ip ← new_rate_limiter "ratelimit:login:ip" 10 (15 * minute)
  login_email ← new_rate_limiter "ratelimit:login:email" 5 (15 * minute)
  dashboard ← new_rate_limiter "ratelimit:dashboard" 300 minute
  some (record {
    ingest_rate = ingest_rate;
    login_ip = login_ip;
    login_email = login_email;
    dashboard = dashboard;
  })

-- Why a program stops before it starts: log.Fatalf, or the panic.
pub data Fatal : Type 0 where
  config_failed resend_key_missing database_url_invalid redis_url_invalid : Fatal
  database_unreachable redis_unreachable panicked : Fatal

pub data Started (A : Type 0) : Type 0 where
  fatal : Fatal → Started A
  running : A → Started A

-- What the programs take from elsewhere: Go's library, the drivers' check of a URL, the package of the
-- JWTs, and the text of an identifier. Signing and parsing go by the manager that is wired.
pub record Environment : Type 1 where
  pub lib : Library
  pub platform : Platform
  pub jwt : Jwt
  pub keys : Keys
  pub scheme : String → Option String
  pub float64 : Float64
  pub database_url_ok : String → Bool
  pub redis_url_ok : String → Bool
  pub id_text : ℕ → String

abbrev pub jwt_manager : Config → Manager
jwt_manager c = new_manager c.jwt_secret (15 * minute)

abbrev pub token_of : Option (String × ℕ) → Option String
token_of none = none
token_of (some (token, seconds)) = some token

abbrev pub subject_of : Option (Claims × Bool) → Option (ℕ × Bool)
subject_of none = none
subject_of (some (claims, valid)) = some (claims.user_id, valid)

abbrev pub services : Environment → Config → Limiters → Services
services e c ls = record {
  lib = record e.lib {
    parse_with_claims =
        λ now token. subject_of (e.jwt.parse_with_claims (jwt_manager c).secret now token);
  };
  platform = record e.platform {
    sign = λ user now. token_of (generate e.jwt (jwt_manager c) user now);
  };
  keys = e.keys;
  scheme = e.scheme;
  secure_cookie = str_eq c.env "production";
  frontend_url = c.frontend_url;
  ip_limiter = λ ip. allow ls.login_ip ip e.float64;
  email_limiter = λ email. allow ls.login_email email e.float64;
  ingest_limiter = λ key. allow ls.ingest_rate key e.float64;
  dashboard_limiter = λ user. allow ls.dashboard (e.id_text user) e.float64;
  find_project = find_cached;
  push = push;
}

-- The settings of the consumer.
abbrev pub consumer_config : Worker.Config
consumer_config = record { max_delivery_count = 3; reclaim_min_idle = 30 * second }

-- The pings: a call that fails ends the program.
abbrev pub pinged :
    Fatal
    → (World → Started Services × World)
    → Result (Unit {0})
    → World
    → Started Services × World
pinged reason rest (err e) w = (fatal reason, w)
pinged reason rest (ok u) w = rest w

abbrev pub with_limiters : Environment → Config → Option Limiters → Started Services
with_limiters e c none = fatal panicked
with_limiters e c (some ls) = running (services e c ls)

module _ (e : Environment) where
  abbrev pub with_database : Config → World → Started Services × World
  unfolding limiters trip
  with_database c w =
      if e.redis_url_ok c.redis_url
      then pinged redis_unreachable (λ u. (with_limiters e c limiters, u)) (trip w).0 (trip w).1
      else (fatal redis_url_invalid, w)

  abbrev pub connected : Config → World → Started Services × World
  unfolding limiters trip
  connected c w =
      if e.database_url_ok c.database_url
      then pinged database_unreachable (with_database c) (trip w).0 (trip w).1
      else (fatal database_url_invalid, w)

  abbrev pub from_config : Loaded → World → Started Services × World
  from_config (missing_env key) w = (fatal config_failed, w)
  from_config (loaded c) w = connected c w

  -- main of cmd/api, up to ListenAndServe.
  unfoldable pub start_api : (String → String) → World → Started Services × World
  unfolding load
  start_api env w = from_config (load env) w

  abbrev pub worker_from : Loaded → Started Worker.Config
  worker_from (missing_env key) = fatal config_failed
  worker_from (loaded c) =
      if str_eq c.resend_api_key ""
      then fatal resend_key_missing
      else if e.database_url_ok c.database_url
      then (if e.redis_url_ok c.redis_url then running consumer_config else fatal redis_url_invalid)
      else fatal database_url_invalid

  -- main of cmd/worker, up to the start of its goroutines, with the settings of the consumer.
  unfoldable pub start_worker : (String → String) → Started Worker.Config
  unfolding load
  start_worker env = worker_from (load env)

  abbrev pub status_from : (String → String) → Loaded → Started String
  unfolding get_env_default
  status_from env (missing_env key) = fatal config_failed
  status_from env (loaded c) =
      if e.database_url_ok c.database_url
      then running (get_env_default env "STATUS_API_PORT" "8081")
      else fatal database_url_invalid

  -- main of cmd/status-api, up to ListenAndServe, with its port. It makes no call before.
  unfoldable pub start_status_api : (String → String) → Started String
  unfolding load
  start_status_api env = status_from env (load env)

-- A tick of AlertNotifierWorker: an error of the evaluation is only logged.
unfoldable pub on_tick : (List (ℕ × ℕ) → List (ℕ × ℕ)) → Act (Unit {0})
on_tick range = swallow (evaluate_thresholds range)
