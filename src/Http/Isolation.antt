-- ===== src/Http/Isolation.antt =====
-- What a user gets from the API about resources that are not the user's.
use sentinelix_backend.Base.{ℕ, Bool, true, false, ◌≡◌, refl, some, leb, arith}
use sentinelix_backend.World.{World}
use sentinelix_backend.Dashboard.Rules as RuleUsecase
use sentinelix_backend.Dashboard.Rules.{get_owned_alert_rule}
use sentinelix_backend.Dashboard.Monitors as MonitorUsecase
use sentinelix_backend.Dashboard.Monitors.{get_owned_monitor}
use sentinelix_backend.Dashboard.Issues as IssueUsecase
use sentinelix_backend.Dashboard.Issues.{get_owned_issue}
use sentinelix_backend.Dashboard.Projects as ProjectUsecase
use sentinelix_backend.Dashboard.Ownership.{
  owns, owns_rule, owns_monitor, owns_issue, owned_project-Refused, get_owned_alert_rule-Refused,
  get_owned_monitor-Refused, get_owned_issue-Refused,
}
use sentinelix_backend.Http.{Response}
use sentinelix_backend.Http.Middleware.{is_options, dashboard_rate_limit, cors_middleware}
use sentinelix_backend.Http.Projects
use sentinelix_backend.Http.Issues
use sentinelix_backend.Http.Rules
use sentinelix_backend.Http.Monitors
use sentinelix_backend.Http.Router.{
  Services, Protected, Request, protected, serve, serve_route, serve_protected, post_project,
  get_projects, delete_project, get_issues, get_issue, get_events, post_rule, get_rules, patch_rule,
  delete_rule, post_monitor, get_monitors, get_monitor, patch_monitor, delete_monitor, get_checks,
  get_ws,
}
use sentinelix_backend.Http.Access.{token_user, authorized, limit_cases}

-- Does the resource that a route names belong to the user?
abbrev pub is_own : ℕ → Protected → World → Bool
is_own user (post_project body) w = true
is_own user get_projects w = true
is_own user (delete_project id) w = owns user id w
is_own user (get_issues id status page limit) w = owns user id w
is_own user (get_issue id) w = owns_issue user id w
is_own user (get_events id limit) w = owns_issue user id w
is_own user (post_rule id body) w = owns user id w
is_own user (get_rules id) w = owns user id w
is_own user (patch_rule id body) w = owns_rule user id w
is_own user (delete_rule id) w = owns_rule user id w
is_own user (post_monitor id body) w = owns user id w
is_own user (get_monitors id) w = owns user id w
is_own user (get_monitor id) w = owns_monitor user id w
is_own user (patch_monitor id body) w = owns_monitor user id w
is_own user (delete_monitor id) w = owns_monitor user id w
is_own user (get_checks id from to) w = owns_monitor user id w
is_own user (get_ws id origin) w = owns user id w

-- An answer that is an error, and a world with nothing changed but the number of calls made.
abbrev pub Denied : World → Response × World → Type 0
Denied w (r, v) = (leb 400 r.status ≡ true) × (v ≡ record w { calls = v.calls })

module _ (s : Services) (user : ℕ) (w : World) where
  serve_protected-Denied :
      (route : Protected)
      → is_own user route w ≡ false
      → Denied w (serve_protected s route (some user) w)
  unfolding serve_protected Projects.create Projects.list Projects.delete Projects.handle_connection
      Issues.list Issues.get_by_id Issues.list_events Rules.create Rules.list Rules.update
      Rules.delete Monitors.create Monitors.list Monitors.get_by_id Monitors.update Monitors.delete
      Monitors.list_checks ProjectUsecase.delete ProjectUsecase.verify_ownership IssueUsecase.list
      IssueUsecase.list_events RuleUsecase.create RuleUsecase.list RuleUsecase.update
      RuleUsecase.delete Monitors.write_monitor_error Monitors.parse_time_query
      MonitorUsecase.create MonitorUsecase.list MonitorUsecase.update MonitorUsecase.delete
      MonitorUsecase.list_checks
  serve_protected-Denied (post_project body) h = absurd (cc)
  serve_protected-Denied get_projects h = absurd (cc)
  serve_protected-Denied (delete_project id) h = ground (arith, owned_project-Refused user id w h)
  serve_protected-Denied (get_issues id status page limit) h =
      ground (arith, owned_project-Refused user id w h)
  serve_protected-Denied (get_issue id) h = ground (arith, get_owned_issue-Refused user id w h)
  serve_protected-Denied (get_events id limit) h =
      ground (arith, get_owned_issue-Refused user id w h)
  serve_protected-Denied (post_rule id body) h = ground (arith, owned_project-Refused user id w h)
  serve_protected-Denied (get_rules id) h = ground (arith, owned_project-Refused user id w h)
  serve_protected-Denied (patch_rule id body) h =
      ground (arith, get_owned_alert_rule-Refused user id w h)
  serve_protected-Denied (delete_rule id) h =
      ground (arith, get_owned_alert_rule-Refused user id w h)
  serve_protected-Denied (post_monitor id body) h =
      ground (arith, owned_project-Refused user id w h)
  serve_protected-Denied (get_monitors id) h = ground (arith, owned_project-Refused user id w h)
  serve_protected-Denied (get_monitor id) h = ground (arith, get_owned_monitor-Refused user id w h)
  serve_protected-Denied (patch_monitor id body) h =
      ground (arith, get_owned_monitor-Refused user id w h)
  serve_protected-Denied (delete_monitor id) h =
      ground (arith, get_owned_monitor-Refused user id w h)
  serve_protected-Denied (get_checks id from to) h =
      ground (arith, get_owned_monitor-Refused user id w h)
  serve_protected-Denied (get_ws id origin) h = ground (arith, owned_project-Refused user id w h)

limited-Denied :
    (s : Services) (user : ℕ) (w : World) (route : Protected)
    → is_own user route (s.dashboard_limiter user w).1 ≡ false
    → Denied
        (s.dashboard_limiter user w).1
        (dashboard_rate_limit s.dashboard_limiter (serve_protected s route) (some user) w)
limited-Denied s user w route h =
    limit_cases (Denied (s.dashboard_limiter user w).1) s.dashboard_limiter
      (serve_protected s route) user w (λ status code e. (e, refl))
      λ e. serve_protected-Denied s user (s.dashboard_limiter user w).1 route h

-- A request with a valid token to a route of the dashboard that names a project, issue, alert rule
-- or monitor which is not the user's, or which does not exist, gets an answer with an error status,
-- and changes nothing after the rate limiter's own count but the number of calls made: for each of
-- the routes, every body and query, and whichever calls fail.
pub stranger_refused :
    (s : Services) (r : Request) (route : Protected) (user : ℕ) (w : World)
    → r.route ≡ protected route
    → is_options r.method ≡ false
    → token_user s.lib w.now r.access_token ≡ some user
    → is_own user route (s.dashboard_limiter user w).1 ≡ false
    → Denied (s.dashboard_limiter user w).1 ((serve s r w).0.1, (serve s r w).1)
unfolding serve cors_middleware serve_route
stranger_refused s r route user w p q t h =
    let passed =
      authorized s.lib r.access_token
        (dashboard_rate_limit s.dashboard_limiter (serve_protected s route)) user w t in
    ground (arith, p, q, passed, limited-Denied s user w route h)
