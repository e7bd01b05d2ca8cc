-- ===== src/Http/Router.antt =====
-- internal/delivery/http/router.go: the routes, each with what its handler reads of the request, and
-- the middlewares around them. The table of the services that the handlers use is the argument `s`.
use sentinelix_backend.Base.{ℕ, String, Bool, Option}
use sentinelix_backend.Domain.Account.{Project}
use sentinelix_backend.Domain.Event.{Event}
use sentinelix_backend.World.{World, Act}
use sentinelix_backend.Auth.{Platform}
use sentinelix_backend.Dashboard.Projects.{Keys}
use sentinelix_backend.Dashboard.Rules.{UpdateAlertRuleInput}
use sentinelix_backend.Dashboard.Monitors.{UpdateMonitorInput}
use sentinelix_backend.Http.{Library, Response, Handler, write_json, reply, no_content}
use sentinelix_backend.Http.Middleware.{
  Method, CorsHeaders, cors_middleware, auth_middleware, dashboard_rate_limit,
}
use sentinelix_backend.Http.Sessions
use sentinelix_backend.Http.Sessions.{RegisterRequest, LoginRequest}
use sentinelix_backend.Http.Projects
use sentinelix_backend.Http.Projects.{CreateProjectRequest}
use sentinelix_backend.Http.Issues
use sentinelix_backend.Http.Rules
use sentinelix_backend.Http.Rules.{CreateAlertRuleRequest}
use sentinelix_backend.Http.Monitors
use sentinelix_backend.Http.Monitors.{CreateMonitorRequest}
use sentinelix_backend.Http.Ingestion.{Payload, handle_ingest_event}

-- The routes behind AuthMiddleware and the rate limit of the dashboard.
pub data Protected : Type 0 where
  post_project : Option CreateProjectRequest → Protected
  get_projects : Protected
  delete_project : ℕ → Protected
  -- the project, and the query's status, page and limit
  get_issues : ℕ → String → String → String → Protected
  get_issue : ℕ → Protected
  get_events : ℕ → String → Protected
  post_rule : ℕ → Option CreateAlertRuleRequest → Protected
  get_rules : ℕ → Protected
  patch_rule : ℕ → Option UpdateAlertRuleInput → Protected
  delete_rule : ℕ → Protected
  post_monitor : ℕ → Option CreateMonitorRequest → Protected
  get_monitors : ℕ → Protected
  get_monitor : ℕ → Protected
  patch_monitor : ℕ → Option UpdateMonitorInput → Protected
  delete_monitor : ℕ → Protected
  -- the query's from and to
  get_checks : ℕ → String → String → Protected
  -- the project, and the header Origin
  get_ws : ℕ → String → Protected

pub data Route : Type 0 where
  get_healthz : Route
  post_register : Option RegisterRequest → Route
  -- X-Forwarded-For and the remote address
  post_login : String → String → Option LoginRequest → Route
  post_refresh : Route
  post_logout : Route
  -- the header X-SentinelIX-Key
  post_event : String → Payload → Route
  protected : Protected → Route
  -- no route matches: chi answers with this status
  unmatched : ℕ → Route

pub record Request : Type 0 where
  pub method : Method
  pub path : String
  pub route : Route
  pub access_token : Option String
  pub refresh_token : Option String

pub record Services : Type 0 where
  pub lib : Library
  pub platform : Platform
  pub keys : Keys
  pub scheme : String → Option String
  pub secure_cookie : Bool
  pub frontend_url : String
  pub ip_limiter : String → Act Bool
  pub email_limiter : String → Act Bool
  pub ingest_limiter : String → Act Bool
  pub dashboard_limiter : ℕ → Act Bool
  pub find_project : String → Act Project
  pub push : Event → Act (Unit {0})

module _ (s : Services) where
  unfoldable pub serve_protected : Protected → Option ℕ → Handler
  serve_protected (post_project body) user = Projects.create s.keys user body
  serve_protected get_projects user = Projects.list user
  serve_protected (delete_project id) user = Projects.delete user id
  serve_protected (get_issues id status page limit) user =
      Issues.list s.lib user id status page limit
  serve_protected (get_issue id) user = Issues.get_by_id user id
  serve_protected (get_events id limit) user = Issues.list_events s.lib user id limit
  serve_protected (post_rule id body) user = Rules.create user id body
  serve_protected (get_rules id) user = Rules.list user id
  serve_protected (patch_rule id body) user = Rules.update user id body
  serve_protected (delete_rule id) user = Rules.delete user id
  serve_protected (post_monitor id body) user = Monitors.create s.scheme user id body
  serve_protected (get_monitors id) user = Monitors.list user id
  serve_protected (get_monitor id) user = Monitors.get_by_id user id
  serve_protected (patch_monitor id body) user = Monitors.update s.scheme user id body
  serve_protected (delete_monitor id) user = Monitors.delete user id
  serve_protected (get_checks id from to) user = Monitors.list_checks s.lib user id from to
  serve_protected (get_ws id origin) user =
      Projects.handle_connection s.lib s.frontend_url user id origin

  unfoldable pub serve_route : Request → Route → Handler
  serve_route r get_healthz = reply (write_json 200 no_content)
  serve_route r (post_register body) = Sessions.register s.secure_cookie s.platform body
  serve_route r (post_login forwarded remote body) =
      Sessions.login s.secure_cookie s.platform s.lib s.ip_limiter s.email_limiter forwarded remote
        body
  serve_route r post_refresh = Sessions.refresh s.secure_cookie s.platform r.refresh_token
  serve_route r post_logout = Sessions.logout s.secure_cookie s.platform r.refresh_token
  serve_route r (post_event key payload) =
      handle_ingest_event s.platform.sha256_hex s.ingest_limiter s.find_project s.push key payload
  serve_route r (protected route) =
      auth_middleware s.lib r.access_token
        (dashboard_rate_limit s.dashboard_limiter (serve_protected route))
  serve_route r (unmatched status) = reply (write_json status no_content)

  -- NewRouter: the headers that CORS sets, and the answer.
  unfoldable pub serve : Request → World → (CorsHeaders × Response) × World
  serve r = cors_middleware s.frontend_url r.method r.path (serve_route r r.route)
