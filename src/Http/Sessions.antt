-- ===== src/Http/Sessions.antt =====
-- internal/delivery/http/handler_auth.go.
use sentinelix_backend.Base.{String, Bool, Option, none, some, ◌∷◌, if◌then◌else◌}
use sentinelix_backend.Base.Int.{ℤ, pos, negsuc}
use sentinelix_backend.Domain.Errors.{
  Error, invalid_credential, email_already_exist, weak_password, rate_limited,
  refresh_token_not_found, refresh_token_expired, refresh_token_revoked,
}
use sentinelix_backend.World.{Act}
use sentinelix_backend.Auth
use sentinelix_backend.Auth.{Platform, LoginOutput}
use sentinelix_backend.Http.{
  Library, SameSite, lax_mode, none_mode, Cookie, Response, Handler, write_json, write_error, reply,
  decoded, answer, registered, session, logged_out,
}
use sentinelix_backend.Http.Middleware.{extract_client_ip}

abbrev pub access_token_cookie_name : String
access_token_cookie_name = "access_token"

abbrev pub refresh_token_cookie_name : String
refresh_token_cookie_name = "refresh_token"

abbrev pub refresh_token_cookie_path : String
refresh_token_cookie_path = "/api/v1/auth"

pub record RegisterRequest : Type 0 where
  pub email : String
  pub password : String

pub record LoginRequest : Type 0 where
  pub email : String
  pub password : String

-- The writeError of Register, Login and Refresh, by the error of the use case.
abbrev pub register_error : Error → Response
register_error (weak_password rules) = write_error 400 "WEAK_PASSWORD"
register_error email_already_exist = write_error 409 "EMAIL_EXISTS"
register_error _ = write_error 500 "INTERNAL_ERROR"

abbrev pub login_error : Error → Response
login_error invalid_credential = write_error 401 "INVALID_CREDENTIAL"
login_error rate_limited = write_error 429 "RATE_LIMITED"
login_error _ = write_error 500 "INTERNAL_ERROR"

abbrev pub refresh_error : Error → Response
refresh_error refresh_token_not_found = write_error 401 "INVALID_REFRESH_TOKEN"
refresh_error refresh_token_expired = write_error 401 "INVALID_REFRESH_TOKEN"
refresh_error refresh_token_revoked = write_error 401 "INVALID_REFRESH_TOKEN"
refresh_error _ = write_error 500 "INTERNAL_ERROR"

module _ (secure_cookie : Bool) where
  unfoldable pub cookie_same_site : SameSite
  cookie_same_site = if secure_cookie then none_mode else lax_mode

  abbrev cookie : String → String → String → ℤ → Cookie
  unfolding cookie_same_site
  cookie name value path max_age = record {
    name = name;
    value = value;
    path = path;
    http_only = Bool.true;
    secure = secure_cookie;
    same_site = cookie_same_site;
    max_age = max_age;
  }

  unfoldable pub set_auth_cookies : LoginOutput → Response → Response
  unfolding cookie_same_site
  set_auth_cookies out r = record r {
    cookies =
        cookie access_token_cookie_name out.access_token "/" (pos out.expires_in)
        ∷ cookie refresh_token_cookie_name out.refresh_token refresh_token_cookie_path
            (pos out.refresh_expires_in)
        ∷ r.cookies;
  }

  -- MaxAge is -1.
  unfoldable pub clear_auth_cookies : Response → Response
  unfolding cookie_same_site
  clear_auth_cookies r = record r {
    cookies =
        cookie access_token_cookie_name "" "/" (negsuc 0)
        ∷ cookie refresh_token_cookie_name "" refresh_token_cookie_path (negsuc 0)
        ∷ r.cookies;
  }

  abbrev pub logged_in : LoginOutput → Response
  unfolding set_auth_cookies
  logged_in out = set_auth_cookies out (write_json 200 (session out.access_token out.expires_in))

  module _ (p : Platform) where
    unfoldable pub register : Option RegisterRequest → Handler
    register body = decoded body λ req.
        answer register_error (λ out. write_json 201 (registered out.0 out.1))
          (Auth.register p req.email req.password)

    unfoldable pub login :
        Library
        → (String → Act Bool)
        → (String → Act Bool)
        → String
        → String
        → Option LoginRequest
        → Handler
    unfolding set_auth_cookies
    login lib ip_limiter email_limiter forwarded remote body = decoded body λ req.
        answer login_error logged_in (
          Auth.login p ip_limiter email_limiter req.email req.password
            (extract_client_ip lib forwarded remote))

    -- The cookies are cleared on every error of the use case.
    unfoldable pub refresh : Option String → Handler
    unfolding set_auth_cookies clear_auth_cookies
    refresh none = reply (write_error 401 "UNAUTHORIZED")
    refresh (some raw) =
        answer (λ e. clear_auth_cookies (refresh_error e)) logged_in (Auth.refresh p raw)

    -- An error of the use case is ignored.
    unfoldable pub logout : Option String → Handler
    unfolding clear_auth_cookies
    logout none w = (clear_auth_cookies (write_json 200 logged_out), w)
    logout (some raw) w = (clear_auth_cookies (write_json 200 logged_out), (Auth.logout p raw w).1)
