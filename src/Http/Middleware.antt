-- ===== src/Http/Middleware.antt =====
-- internal/delivery/http/middleware_auth.go, middleware_ratelimit.go, middleware_cors.go and ip.go,
-- with Verify of pkg/jwt/jwt.go.
use Prim.Native.Char.{code}
use Prim.Native.String.{[], ◌∷◌}
use sentinelix_backend.Base.{
  ℕ, String, Bool, true, false, ◌==◌, Option, none, some, str_eq, if◌then◌else◌,
}
use sentinelix_backend.Base.Text.{trim_space}
use sentinelix_backend.Domain.Errors.{Result, ok, err}
use sentinelix_backend.World.{World, Act}
use sentinelix_backend.Http.{
  Library, Response, Handler, write_json, write_error, reply, authenticated, no_content,
}

abbrev pub valid_claims : Option (ℕ × Bool) → Option ℕ
valid_claims none = none
valid_claims (some (user, valid)) = if valid then some user else none

-- Manager.Verify: the user of a token that is valid at the time.
unfoldable pub verify : Library → ℕ → String → Option ℕ
verify lib now token = valid_claims (lib.parse_with_claims now token)

abbrev pub verified : Option ℕ → (Option ℕ → Handler) → Handler
verified none next = reply (write_error 401 "UNAUTHORIZED")
verified (some user) next = next (some user)

-- The access token is a cookie; the handler that follows gets the user of its context.
unfoldable pub auth_middleware : Library → Option String → (Option ℕ → Handler) → Handler
unfolding verify
auth_middleware lib none next w = reply (write_error 401 "UNAUTHORIZED") w
auth_middleware lib (some token) next w = verified (verify lib w.now token) next w

abbrev pub admitted : Result Bool → Handler → Handler
admitted (err e) next = reply (write_error 500 "INTERNAL_ERROR")
admitted (ok false) next = reply (write_error 429 "RATE_LIMITED")
admitted (ok true) next = next

unfoldable pub dashboard_rate_limit : (ℕ → Act Bool) → (Option ℕ → Handler) → Option ℕ → Handler
dashboard_rate_limit limiter next user =
    authenticated user λ id. λ w. admitted (limiter id w).0 (next user) (limiter id w).1

pub data Method : Type 0 where
  get post patch delete options other_method : Method

abbrev pub is_options : Method → Bool
is_options options = true
is_options _ = false

-- Access-Control-Allow-Origin, and whether Access-Control-Allow-Credentials is "true".
pub record CorsHeaders : Type 0 where
  pub allow_origin : String
  pub allow_credentials : Bool
  pub allow_methods : String

-- strings.HasSuffix
unfoldable pub has_suffix : String → String → Bool
has_suffix [] suffix = str_eq [] suffix
has_suffix (c ∷ s) suffix =
    let later = has_suffix s suffix in if str_eq (c ∷ s) suffix then true else later

unfoldable pub cors_headers : String → String → CorsHeaders
unfolding has_suffix
cors_headers allowed_origin path =
    if has_suffix path "/ingest/event"
    then record { allow_origin = "*"; allow_credentials = false; allow_methods = "POST, OPTIONS" }
    else record {
      allow_origin = allowed_origin;
      allow_credentials = true;
      allow_methods = "GET, POST, PATCH, DELETE, OPTIONS";
    }

unfoldable pub cors_middleware :
    String → Method → String → Handler → World → (CorsHeaders × Response) × World
unfolding cors_headers
cors_middleware allowed_origin method path next w =
    let headers = cors_headers allowed_origin path in
    if is_options method
    then ((headers, write_json 204 no_content), w)
    else ((headers, (next w).0), (next w).1)

-- strings.Split(s, ",")[0]
unfoldable pub before_comma : String → String
before_comma [] = []
before_comma (c ∷ s) = let rest = before_comma s in if code c == b',' then [] else c ∷ rest

abbrev pub host_or : String → Option String → String
host_or remote none = remote
host_or remote (some host) = host

-- The first of X-Forwarded-For where there is one, else the host of RemoteAddr.
unfoldable pub extract_client_ip : Library → String → String → String
unfolding before_comma trim_space
extract_client_ip lib forwarded remote =
    let ip = trim_space (before_comma forwarded) in
    if str_eq ip "" then host_or remote (lib.split_host_port remote) else ip
