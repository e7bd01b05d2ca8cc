-- ===== src/Http/Access.antt =====
-- Who passes AuthMiddleware and the rate limit of the dashboard.
use sentinelix_backend.Base.{
  ℕ, String, Bool, true, false, ◌≡◌, refl, Option, none, some, leb, arith,
}
use sentinelix_backend.Domain.Errors.{Result, ok, err}
use sentinelix_backend.World.{World, Act}
use sentinelix_backend.Http.{Library, Response, Handler, write_error}
use sentinelix_backend.Http.Middleware.{
  is_options, verify, verified, auth_middleware, admitted, dashboard_rate_limit, cors_middleware,
  cors_headers,
}
use sentinelix_backend.Http.Router.{
  Services, Protected, Request, protected, serve, serve_route, serve_protected,
}

-- The user of the access token that a request carries.
abbrev pub token_user : Library → ℕ → Option String → Option ℕ
token_user lib now none = none
token_user lib now (some token) = verify lib now token

-- To show what holds of every outcome of AuthMiddleware, and of the rate limit after it.
module _ {κ} (P : Response × World → Type κ) (w : World) where
  verified_cases :
      (o : Option ℕ) (next : Option ℕ → Handler)
      → P (write_error 401 "UNAUTHORIZED", w)
      → ((user : ℕ) → o ≡ some user → P (next (some user) w))
      → P (verified o next w)
  verified_cases none next refused passed = refused
  verified_cases (some user) next refused passed = passed user refl

  pub auth_cases :
      (lib : Library) (token : Option String) (next : Option ℕ → Handler)
      → P (write_error 401 "UNAUTHORIZED", w)
      → ((user : ℕ) → token_user lib w.now token ≡ some user → P (next (some user) w))
      → P (auth_middleware lib token next w)
  unfolding auth_middleware
  auth_cases lib none next refused passed = refused
  auth_cases lib (some token) next refused passed =
      verified_cases (verify lib w.now token) next refused passed

  admitted_cases :
      (r : Result Bool) (next : Handler)
      → ((status : ℕ) (code : String) → leb 400 status ≡ true → P (write_error status code, w))
      → (r ≡ ok true → P (next w))
      → P (admitted r next w)
  admitted_cases (err e) next refused passed = refused 500 "INTERNAL_ERROR" refl
  admitted_cases (ok false) next refused passed = refused 429 "RATE_LIMITED" refl
  admitted_cases (ok true) next refused passed = passed refl

pub limit_cases {κ} :
    (P : Response × World → Type κ) (limiter : ℕ → Act Bool) (next : Option ℕ → Handler) (user : ℕ)
    (w : World)
    → ((status : ℕ) (code : String)
        → leb 400 status ≡ true
        → P (write_error status code, (limiter user w).1))
    → ((limiter user w).0 ≡ ok true → P (next (some user) (limiter user w).1))
    → P (dashboard_rate_limit limiter next (some user) w)
unfolding dashboard_rate_limit
limit_cases P limiter next user w refused passed =
    admitted_cases P (limiter user w).1 (limiter user w).0 (next (some user)) refused passed

unauthorized :
    (lib : Library) (token : Option String) (next : Option ℕ → Handler) (w : World)
    → token_user lib w.now token ≡ none
    → auth_middleware lib token next w ≡ (write_error 401 "UNAUTHORIZED", w)
unauthorized lib token next w h =
    auth_cases (λ x. x ≡ (write_error 401 "UNAUTHORIZED", w)) w lib token next refl
      λ user e. absurd (cc)

pub authorized :
    (lib : Library) (token : Option String) (next : Option ℕ → Handler) (user : ℕ) (w : World)
    → token_user lib w.now token ≡ some user
    → auth_middleware lib token next w ≡ next (some user) w
unfolding auth_middleware
authorized lib token next user w h = ground (arith, h)

-- A request to a route of the dashboard that is no preflight and carries no token, or one that is
-- not valid at the time, gets status 401, sets no cookie and changes nothing: neither the rate
-- limiter nor the handler is called.
pub no_session :
    (s : Services) (r : Request) (route : Protected) (w : World)
    → r.route ≡ protected route
    → is_options r.method ≡ false
    → token_user s.lib w.now r.access_token ≡ none
    → serve s r w ≡ ((cors_headers s.frontend_url r.path, write_error 401 "UNAUTHORIZED"), w)
unfolding serve cors_middleware serve_route auth_middleware
no_session s r route w p q t =
    let refused =
      unauthorized s.lib r.access_token
        (dashboard_rate_limit s.dashboard_limiter (serve_protected s route)) w t in
    ground (arith, p, q, refused)
