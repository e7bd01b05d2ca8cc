-- ===== src/Http/Cookies.antt =====
-- The cookies that the API sets, over all routes.
use sentinelix_backend.Base.{
  ℕ, String, Bool, true, false, ◌≡◌, refl, ◌&&◌, ◌||◌, [], Option, some, str_eq, all_of, arith,
  if◌then◌else◌,
}
use sentinelix_backend.World.{World}
use sentinelix_backend.Auth.{LoginOutput}
use sentinelix_backend.Http.{SameSite, lax_mode, none_mode, Cookie, Response}
use sentinelix_backend.Http.Middleware
use sentinelix_backend.Http.Middleware.{auth_middleware, dashboard_rate_limit}
use sentinelix_backend.Http.Access.{auth_cases, limit_cases}
use sentinelix_backend.Http.Sessions
use sentinelix_backend.Http.Projects
use sentinelix_backend.Http.Issues
use sentinelix_backend.Http.Rules
use sentinelix_backend.Http.Monitors
use sentinelix_backend.Http.Ingestion
use sentinelix_backend.Http.Router.{
  Services, Protected, serve_protected, serve_route, Request, Route, serve, get_healthz,
  post_register, post_login, post_refresh, post_logout, post_event, protected, unmatched,
}

abbrev is_lax : SameSite → Bool
is_lax lax_mode = true
is_lax none_mode = false

-- Out of reach of scripts, sent to other sites over TLS only, and the refresh token to the
-- endpoints of authentication only.
abbrev pub is_guarded : Cookie → Bool
is_guarded c =
    c.http_only
    && (c.secure || is_lax c.same_site)
    && str_eq c.path (if str_eq c.name "refresh_token" then "/api/v1/auth" else "/")

abbrev Plain : Response → Type 0
Plain r = r.cookies ≡ []

abbrev Guarded : Response → Type 0
Guarded r = all_of is_guarded r.cookies ≡ true

serve_protected-Plain :
    (s : Services) (route : Protected) (user : Option ℕ) (w : World)
    → Plain (serve_protected s route user w).0
unfolding serve_protected Projects.create Projects.list Projects.delete Projects.handle_connection
    Issues.list Issues.get_by_id Issues.list_events Rules.create Rules.list Rules.update
    Rules.delete Monitors.create Monitors.list Monitors.get_by_id Monitors.update Monitors.delete
    Monitors.list_checks Monitors.write_monitor_error
serve_protected-Plain s route user w = ground arith

set_auth_cookies-Guarded :
    (secure : Bool) (out : LoginOutput) (r : Response)
    → Plain r
    → Guarded (Sessions.set_auth_cookies secure out r)
unfolding Sessions.set_auth_cookies Sessions.cookie_same_site
set_auth_cookies-Guarded secure out r h = ground arith

clear_auth_cookies-Guarded :
    (secure : Bool) (r : Response) → Plain r → Guarded (Sessions.clear_auth_cookies secure r)
unfolding Sessions.clear_auth_cookies Sessions.cookie_same_site
clear_auth_cookies-Guarded secure r h = ground arith

gate-Plain :
    (s : Services) (token : Option String) (route : Protected) (w : World)
    → Plain
        (auth_middleware s.lib token
          (dashboard_rate_limit s.dashboard_limiter (serve_protected s route))
          w).0
gate-Plain s token route w =
    auth_cases (λ x. Plain x.0) w s.lib token _ refl
      λ user e.
        limit_cases (λ x. Plain x.0) s.dashboard_limiter (serve_protected s route) user w
          (λ status code h. refl) λ h. serve_protected-Plain s route (some user) _

Plain-Guarded : (r : Response) → Plain r → Guarded r
Plain-Guarded r h = ground arith

serve_route-Guarded :
    (s : Services) (r : Request) (route : Route) (w : World) → Guarded (serve_route s r route w).0
unfolding serve_route Sessions.register Sessions.login Sessions.refresh Sessions.logout
    Sessions.set_auth_cookies Sessions.clear_auth_cookies Sessions.cookie_same_site
    Ingestion.handle_ingest_event
serve_route-Guarded s r (protected p) w =
    Plain-Guarded (serve_route s r (protected p) w).0 (gate-Plain s r.access_token p w)
serve_route-Guarded s r get_healthz w = ground arith
serve_route-Guarded s r (post_register body) w = ground arith
serve_route-Guarded s r (post_login forwarded remote body) w = ground arith
serve_route-Guarded s r post_refresh w = ground arith
serve_route-Guarded s r post_logout w = ground arith
serve_route-Guarded s r (post_event key payload) w = ground arith
serve_route-Guarded s r (unmatched status) w = ground arith

-- Every cookie of every answer of the API is HttpOnly, has SameSite=None only with Secure, and has
-- the path of the authentication endpoints if it is the refresh token, else the root: for every
-- request and every state of the services.
pub cookies_guarded :
    (s : Services) (r : Request) (w : World) → all_of is_guarded (serve s r w).0.1.cookies ≡ true
unfolding serve Middleware.cors_middleware
cookies_guarded s r w = ground (arith, serve_route-Guarded s r r.route w)
