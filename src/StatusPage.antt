-- ===== src/StatusPage.antt =====
-- The program cmd/status-api: internal/repository/postgres/status_repo.go,
-- internal/usecase/get_status_page.go, internal/delivery/handler_status.go and router_status.go.
-- An uptime is in hundredths of a percent, to which the query rounds it. Postgres rounds the quotient
-- to 16 digits before that, which changes nothing below 10 ^ 11 checks.
pub mod Uptime
pub mod Page
use sentinelix_backend.Base.{
  ℕ, zero, suc, ◌+◌, ◌*◌, ◌/◌, ◌^◌, String, Bool, ◌&&◌, Option, none, some, List, [], ◌∷◌, map,
  ◌==◌, leb, str_eq, first, select, count_of, order_asc, length, if◌then◌else◌,
}
use sentinelix_backend.Domain.Errors.{Result, ok, err, Error, project_slug_not_found, other}
use sentinelix_backend.Domain.Account.{Project}
use sentinelix_backend.Domain.Monitor.{Monitor, MonitorCheck}
use sentinelix_backend.Domain.Status.{OverallStatus, monitor_is_up, compute_overall_status}
use sentinelix_backend.World.{World, Act, pure, fail, query, trip, ◌>>=◌}

pub record MonitorStatusData : Type 0 where
  pub name : String
  pub raw_status : String
  pub uptime_30d : ℕ

pub record ProjectStatusData : Type 0 where
  pub project_name : String
  pub monitors : List MonitorStatusData

pub record StatusMonitorInfo : Type 0 where
  pub name : String
  pub is_up : Bool
  pub uptime_30d : ℕ

pub record StatusPageResponse : Type 0 where
  pub project_name : String
  pub overall_status : OverallStatus
  pub monitors : List StatusMonitorInfo

-- interval '30 days', in nanoseconds
abbrev pub thirty_days : ℕ
thirty_days = 30 * 24 * 60 * 60 * 10 ^ 9

-- COALESCE(ROUND(up::numeric / NULLIF(n, 0) * 100, 2), 100): ROUND takes a half up.
unfoldable pub percentage : ℕ → ℕ → ℕ
percentage up zero = 10000
percentage up (suc n) = (20000 * up + suc n) / (2 * suc n)

-- The checks that the LEFT JOIN finds for a monitor.
abbrev pub joined : World → ℕ → List MonitorCheck
joined w monitor =
    select (λ (c : MonitorCheck). c.monitor_id == monitor && leb w.now (c.checked_at + thirty_days))
      w.checks

abbrev pub checked_up : MonitorCheck → Bool
checked_up c = c.is_up

unfoldable pub uptime : World → ℕ → ℕ
uptime w monitor = percentage (count_of checked_up (joined w monitor)) (length (joined w monitor))

-- A row of the second query, which is scanned into texts: a name that is NULL is an error.
abbrev pub scanned : World → Monitor → Option String → Result MonitorStatusData
scanned w m none = err other
scanned w m (some name) = ok (record {
  name = if str_eq name "" then m.url else name;
  raw_status = m.status;
  uptime_30d = uptime w m.id;
})

unfoldable pub status_data : World → Monitor → Result MonitorStatusData
status_data w m = scanned w m m.name

-- The loop over the rows, which the first error ends.
abbrev add_row {ℓ} : {A : Type ℓ} → Result A → Result (List A) → Result (List A)
add_row (ok d) (ok ds) = ok (d ∷ ds)
add_row (ok d) (err e) = err e
add_row (err e) rest = err e

unfoldable pub scan_rows : World → List Monitor → Result (List MonitorStatusData)
scan_rows w [] = ok []
scan_rows w (m ∷ ms) = add_row (status_data w m) (scan_rows w ms)

-- The monitors of a project, in the order of the page.
abbrev pub listed : World → ℕ → List Monitor
listed w project =
    order_asc (λ (m : Monitor). m.created_at)
      (select (λ (m : Monitor). m.project_id == project) w.monitors)

abbrev project_data : Project → Result (List MonitorStatusData) → Result (Option ProjectStatusData)
project_data p (err e) = err e
project_data p (ok ds) = ok (some (record { project_name = p.name; monitors = ds }))

-- The second query, where the first has found a project.
unfoldable pub with_monitors : Option Project → Act (Option ProjectStatusData)
unfolding trip
with_monitors none = pure none
with_monitors (some p) = query λ w. project_data p (scan_rows w (listed w p.id))

unfoldable pub get_project_status_by_slug : String → Act (Option ProjectStatusData)
unfolding trip
get_project_status_by_slug slug =
    query (λ w. ok (first (λ (p : Project). str_eq p.slug slug) w.projects)) >>= with_monitors

unfoldable pub info : MonitorStatusData → StatusMonitorInfo
info m = record { name = m.name; is_up = monitor_is_up m.raw_status; uptime_30d = m.uptime_30d }

abbrev pub raw : MonitorStatusData → String
raw m = m.raw_status

unfoldable pub respond : Option ProjectStatusData → Act StatusPageResponse
respond none = fail project_slug_not_found
respond (some d) = pure (record {
  project_name = d.project_name;
  overall_status = compute_overall_status (map raw d.monitors);
  monitors = map info d.monitors;
})

-- GetStatusPageUsecase.Execute
unfoldable pub execute : String → Act StatusPageResponse
execute slug = get_project_status_by_slug slug >>= respond

-- What is encoded as the answer's body: the fields of a page go over one by one.
pub data PageBody : Type 0 where
  empty_body : PageBody
  page_error : String → PageBody
  page : StatusPageResponse → PageBody

abbrev pub page_refused : Error → ℕ × PageBody
page_refused project_slug_not_found = (404, page_error "PROJECT_NOT_FOUND")
page_refused _ = (500, page_error "INTERNAL_ERROR")

abbrev pub write_status : Result StatusPageResponse → ℕ × PageBody
write_status (err e) = page_refused e
write_status (ok p) = (200, page p)

unfoldable pub get_by_slug : String → World → (ℕ × PageBody) × World
get_by_slug slug w = (write_status (execute slug w).0, (execute slug w).1)

pub data StatusRoute : Type 0 where
  get_healthz : StatusRoute
  get_status : String → StatusRoute
  -- no route matches: chi answers with this status
  unmatched : ℕ → StatusRoute

unfoldable pub serve : StatusRoute → World → (ℕ × PageBody) × World
serve get_healthz w = ((200, empty_body), w)
serve (get_status slug) w = get_by_slug slug w
serve (unmatched status) w = ((status, empty_body), w)
