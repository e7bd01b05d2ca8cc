-- ===== src/Examples/Wiring.antt =====
-- The theorems on the programs as they are wired, at concrete inputs.
use sentinelix_backend.Base.{
  ℕ, ◌*◌, ◌^◌, ◌≤◌, ◌<◌, ◌≡◌, refl, sym, ap, ◌∙◌, String, Bool, true, false, Option, some, none,
  List, [], ◌∷◌, ◌==◌, ◌&&◌, ltb, str_eq, arith, if◌then◌else◌, Bool-cases, inl, inr,
}
use sentinelix_backend.Domain.Event.{Event, nil, validate}
use sentinelix_backend.Domain.Alert.{known_channel}
use sentinelix_backend.World.Cache.{find_cached}
use sentinelix_backend.Limiter.{allow, incr_and_get, expire_first}
use sentinelix_backend.Ingest.{ingest}
use sentinelix_backend.Consumer.Queue.{push}
use sentinelix_backend.Stream.{Entry}
use sentinelix_backend.Stream
use sentinelix_backend.World.{alert, broadcast}
use sentinelix_backend.Consumer.{process_message}
use sentinelix_backend.Consumer.Delivery.{IsStored}
use sentinelix_backend.Jwt.{Claims, generate, nanoseconds}
use sentinelix_backend.Http.Middleware.{Method, cors_middleware, dashboard_rate_limit}
use sentinelix_backend.Http.Ingestion.{IngestEventRequest, event, handle_ingest_event}
use sentinelix_backend.Http.Router.{
  Request, protected, get_rules, get_healthz, serve, serve_route, serve_protected,
}
use sentinelix_backend.Config.{Config}
use sentinelix_backend.Programs.{Environment, services, minute}
use sentinelix_backend.Programs.Startup.{the_limiters}
use sentinelix_backend.Programs.Session.{session_lasts}
use sentinelix_backend.Pipeline.{Move, posted, polled, reclaimed, passed, post_to, run}
use sentinelix_backend.Pipeline.Intake.{IsFrom}
use sentinelix_backend.Pipeline.Passage.{to_input, accepted_reaches_table}
use sentinelix_backend.Pipeline.Alerting.{event_announced}
use sentinelix_backend.Examples.{quiet, rule, boom}
use sentinelix_backend.Examples.Limits.{coarse}
use sentinelix_backend.Examples.Sessions.{platform}
use sentinelix_backend.Examples.Tenants.{shop}
use sentinelix_backend.Examples.Api.{library, keys}

-- One login is signed: the one of user 3 at second 1000, for a quarter of an hour.
abbrev claims : Claims
claims = record { user_id = 3; expires_at = 1900; issued_at = 1000 }

abbrev is_login : Claims → Bool
is_login c = c.user_id == 3 && c.expires_at == 1900 && c.issued_at == 1000

is_login_lem : (c : Claims) → is_login c ≡ true → c ≡ claims
is_login_lem c h =
    let user : c.user_id ≡ 3 = ground arith in
    let expiry : c.expires_at ≡ 1900 = ground arith in
    let issue : c.issued_at ≡ 1000 = ground arith in
    ap (λ n. record { user_id = n; expires_at = c.expires_at; issued_at = c.issued_at }) user
    ∙ ap (λ n. record { user_id = 3; expires_at = n; issued_at = c.issued_at }) expiry
    ∙ ap (λ n. record { user_id = 3; expires_at = 1900; issued_at = n }) issue

abbrev sign : String → Claims → Option String
sign key c = if is_login c then some "jwt" else none

abbrev parse : String → ℕ → String → Option (Claims × Bool)
parse key now token =
    if str_eq token "jwt" && ltb now (1900 * nanoseconds) then some (claims, true) else none

signed_lem :
    (key token : String) (c : Claims) → sign key c ≡ some token → (c ≡ claims) × (token ≡ "jwt")
signed_lem key token c h = elim (Bool-cases (is_login c)) [
  | inl mine ↦ (is_login_lem c mine, ground (arith, h))
  | inr other ↦ absurd (ground (arith, h))
]

fresh :
    (key token : String) (c : Claims) (now : ℕ)
    → sign key c ≡ some token
    → now < c.expires_at * nanoseconds
    → parse key now token ≡ some (c, true)
fresh key token c now h lt =
    let s = signed_lem key token c h in
    let soon : ltb now (1900 * nanoseconds) ≡ true =
      ground (arith, lt, ap (λ (d : Claims). d.expires_at) s.0) in
    rw (s.1, soon) (ap (λ d. some (d, true)) (sym s.0))

expired :
    (key token : String) (c : Claims) (now : ℕ)
    → sign key c ≡ some token
    → c.expires_at * nanoseconds ≤ now
    → parse key now token ≡ none
expired key token c now h le =
    let s = signed_lem key token c h in
    let late : ltb now (1900 * nanoseconds) ≡ false =
      ground (arith, le, ap (λ (d : Claims). d.expires_at) s.0) in
    rw (s.1, late) refl

abbrev environment : Environment
environment = record {
  lib = library;
  platform = platform;
  jwt = record {
    signed_string = sign;
    parse_with_claims = parse;
    fresh = fresh;
    expired = expired;
  };
  keys = keys;
  scheme = λ url. some "https";
  float64 = coarse;
  database_url_ok = λ url. true;
  redis_url_ok = λ url. true;
  id_text = λ id. "3";
}

abbrev config : Config
config = record {
  database_url = "postgres://db";
  redis_url = "redis://cache";
  jwt_secret = "secret";
  port = "8080";
  env = "production";
  frontend_url = "https://app.example";
  resend_api_key = "";
  email_from_address = "ops@a.example";
}

abbrev request : Request
request = record {
  method = Method.post;
  path = "/ingest/event";
  route = get_healthz;
  access_token = none;
  refresh_token = none;
}

session_lasts_example :
    serve_route
      (services environment config the_limiters)
      (record request { access_token = some "jwt" })
      (protected (get_rules 1))
      shop
    ≡ dashboard_rate_limit
        (services environment config the_limiters).dashboard_limiter
        (serve_protected (services environment config the_limiters) (get_rules 1))
        (some 3)
        shop
unfolding generate
session_lasts_example =
    session_lasts environment config the_limiters request (get_rules 1) 3 (10 ^ 12) "jwt" shop refl

abbrev report : IngestEventRequest
report = record { level = ""; message = "boom"; stack_trace = "main.go:3"; context = nil }

abbrev moves : List Move
moves =
    posted request "" (event report)
    ∷ posted request "hash" (event report)
    ∷ passed minute
    ∷ reclaimed
    ∷ polled
    ∷ []

accepted_reaches_table_example :
    (req : IngestEventRequest) × (event report ≡ event req)
    × ((x : Event) × IsFrom "hash" shop (to_input "hash" req) x
        × IsStored x
            (run environment config the_limiters moves
              (post_to environment config the_limiters request "hash"
                (event report)
                shop).1).events)
unfolding serve cors_middleware serve_route handle_ingest_event ingest allow incr_and_get
    expire_first find_cached validate push
accepted_reaches_table_example =
    accepted_reaches_table environment config the_limiters request "hash" (event report) shop moves
      (λ n. refl) (omega arith) refl

event_announced_example :
    (process_message
      (λ s. s)
      (record { id = 1; payload = Stream.event boom })
      (record quiet { rules = rule ∷ [] })).sent
    ≡ alert 7 100 "https://hooks.slack.com/x" ∷ broadcast (some 1) "issue.created" 100 ∷ []
unfolding known_channel
event_announced_example =
    event_announced (λ s. s) (record { id = 1; payload = Stream.event boom }) boom
      (record quiet { rules = rule ∷ [] }) refl (record { up = λ n. refl; accepted = λ n. refl })
      (refl, tt) (refl, tt) (refl, tt)
