-- ===== src/Lib.antt =====
-- SentinelIX backend: error tracking and uptime monitoring, modelled over one shared state.
--
-- The program. An API process (cmd/api) takes events by API key (internal/usecase/ingest_event.go)
-- and puts them on a Redis stream (internal/repository/redis/queue.go). A worker (cmd/worker) reads
-- the stream (internal/worker/ingest_consumer.go), groups each event into an issue by its
-- fingerprint (pkg/fingerprint, internal/usecase/group_issue.go) in Postgres, broadcasts the change
-- and evaluates the project's alert rules (internal/usecase/evaluate_alert.go), which notify by
-- email or Slack (internal/notifier). For each monitor a goroutine of the worker's supervisor
-- (internal/worker/monitor_checker.go) pings the URL (internal/usecase/check_monitor.go) and
-- notifies of a monitor that goes down; edits reach the supervisor as messages (monitor_sync.go).
-- Users register, log in and refresh their sessions (internal/usecase/auth.go) and edit their
-- projects, rules and monitors (internal/usecase/project.go, alert_rule.go, monitor.go, issue.go)
-- over the routes of internal/delivery/http, behind the rate limiter (internal/repository/redis); a
-- hub (internal/delivery/ws) passes broadcasts on to the open dashboards. A third program
-- (cmd/status-api, internal/delivery) serves the public status page of a project.
--
-- The files.
--   Base, Base/*        shared types, tests, lists, sorting, Go's int64, strings.TrimSpace
--   Domain/*            internal/domain: the entities with their validation; Domain/Overall is about
--                       ComputeOverallStatus, Domain/Strength about ValidatePassword
--   World, World/*      the state, and the monad of methods that may fail; World/Projects, Issues,
--                       Alerts, Monitors and Tokens are internal/repository/postgres, World/Cache is
--                       internal/repository/redis/cached_project_repo.go
--   Stream              the Redis streams: the unread events, the pending list, the dead letters
--   Notifier, Notifier/*   internal/notifier/notifier.go and internal/repository/redis/broadcaster.go;
--                       Notifier/Requests has the requests with their wording, Notifier/Secrets is
--                       about where they go
--   Fingerprint, Fingerprint/Normal      pkg/fingerprint/hash.go
--   Ingest, Ingest/Acceptance, Ingest/Grouping, Ingest/Retry   ingest_event.go, group_issue.go;
--                       Ingest/Counts and Ingest/Room are about the counts of the issues
--   Consumer, Consumer/Delivery, Consumer/Batch   internal/worker/ingest_consumer.go
--   Consumer/Queue      internal/repository/redis/queue.go
--   Consumer/Aside, Consumer/Progress, Consumer/Drain, Consumer/Reclaim, Consumer/Counts,
--   Consumer/History    what a message, a poll and a round of reclaiming change and what they leave,
--                       and histories of them
--   Alerts, Alerts/Cooldown, Alerts/Spacing   evaluate_alert.go
--   Checker, Checker/Recent, Checker/Automaton, Checker/Refinement   check_monitor.go and the loop of
--                       internal/worker/monitor_checker.go
--   Supervisor, Supervisor/*   the supervisor of monitor_checker.go, and monitor_sync.go: the table of
--                       goroutines (Table), what a step of it keeps (Agreement), the edits of users
--                       (Edits), how the table follows them (Tracking, Following, Orphans), and
--                       the end of Run (Shutdown)
--   Limiter, Limiter/*  internal/repository/redis/ratelimiter.go: float64 (Float), the counters
--                       (Counters), one request (Bound, Others), histories of requests (Window)
--   Auth, Auth/*        auth.go: rotation, sessions, theft, races, credentials, and the way from a
--                       registration to a login (Roundtrip)
--   Dashboard, Dashboard/*   project.go, alert_rule.go, monitor.go, issue.go, with the theorems on
--                       ownership, on validity and on the project cache
--   Http, Http/*        internal/delivery/http: a module per file of handlers, Middleware with ip.go
--                       and the use of pkg/jwt, and Router; Access, Isolation and Cookies are about all
--                       the routes
--   Hub, Hub/*          internal/delivery/ws: the steps of the goroutines, the members of the rooms
--                       (Members), what holds between the steps (Sound, Leaving, Fanout, Safety)
--   StatusPage, StatusPage/*   internal/repository/postgres/status_repo.go,
--                       internal/usecase/get_status_page.go, internal/delivery/handler_status.go and
--                       router_status.go
--   Jwt                 pkg/jwt/jwt.go
--   Config, Programs, Programs/Startup, Programs/Session   config/config.go, the mains of cmd/api,
--                       cmd/worker and cmd/status-api, and a tick of
--                       internal/worker/alert_notifier.go
--   Pipeline, Pipeline/*   an event's way over the components: from the request to the stream
--                       (Intake) and to the table (Passage), what the worker sends (Alerting), and
--                       what the open dashboards receive (Dashboards)
--   Examples, Examples/*   the theorems at concrete inputs
--
-- The state. `World` holds the tables of migrations/, the project cache, the limiter's counters, the
-- streams with their pending and dead messages, what was sent and the notifier's requests, the clock
-- and the next identifier.
-- Every call to Postgres, Redis or a notification service is a `trip`: the oracle `outage` says for
-- the n-th call whether it fails, so a theorem for every world is one for every pattern of failures.
-- A call that fails has changed nothing. Time does not pass inside an action; histories give the
-- delays between actions. A method is a function from the world to a result or an error and a new
-- world: what was written before a failure stays written. Concurrency is the order of such actions.
-- Beside the world stand the supervisor's map with its goroutines (Supervisor), and the hub with its
-- rooms and channels, whose goroutines are a step relation (Hub). Pipeline/Dashboards joins the world
-- and the hub.
--
-- Conventions. Identifiers are numbers: the code only compares them. Times are nanoseconds. A time
-- that the program sends to Postgres is cut to microseconds, as the driver does; the database's own
-- now() is the clock. A column that a table does not have is not kept (the level and the message of
-- an event), and the name of a monitor may be NULL. Go's int is a signed integer without bounds,
-- except where a time.Duration is multiplied: there the wrap-around of int64 is written out. A JSON
-- value is what its decoding yields: an event, a text that is none, or no text. Parameters stand
-- for what is not in the repository: SHA-256, bcrypt, random bytes, golang-jwt (with the law that a
-- signed token parses to its claims before it expires, and fails from then on), lower case, the
-- classes of package unicode, the scheme that url.Parse finds, strconv.Atoi, RFC 3339, the decimal
-- numbers of fmt, net.SplitHostPort, the WebSocket upgrade, what the drivers say of a URL, and the
-- order in which Go ranges over a map. Go's float64, which the rate limiter weighs with, is a
-- parameter with the facts of its rounding that are used. The handlers and the ingestion take the
-- limiters, the lookup by API key, the push and the JWT functions as arguments, as the code does;
-- Programs puts in those of cmd/api. All loops are structural over lists; there is no fuel. The
-- UNIQUE columns and cascades of the migrations are part of the repositories' functions; a foreign
-- key that an insertion would violate is not, nor the length of a VARCHAR column.
--
-- Not modelled: the JSON texts; the matching of paths by chi; in Supervisor/Following, histories of
-- anything but edits of monitors; deadlines, pings and frames of a WebSocket, and other goroutines
-- between two sends of one broadcast; the HTTP servers and the goroutines that the programs start;
-- the pool settings of cmd/status-api; internal/testutil, which only tests use.
pub mod Base
pub mod Domain
pub mod Stream
pub mod World
pub mod Notifier
pub mod Checker
pub mod Alerts
pub mod Auth
pub mod Fingerprint
pub mod Ingest
pub mod Consumer
pub mod Dashboard
pub mod Limiter
pub mod StatusPage
pub mod Supervisor
pub mod Jwt
pub mod Http
pub mod Hub
pub mod Config
pub mod Programs
pub mod Pipeline
pub mod Examples
