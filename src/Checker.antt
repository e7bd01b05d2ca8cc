-- ===== src/Checker.antt =====
-- internal/usecase/check_monitor.go: one ping of a monitor, and the status that follows from it.
-- The `Monitor` object lives on in the worker's goroutine, so it comes back on every path.
pub mod Recent
pub mod Automaton
pub mod Refinement
use sentinelix_backend.Base.{
  ℕ, ◌+◌, ◌<◌, String, ◌≡◌, Bool, true, false, not, Option, none, some, List, [], ◌∷◌, ltb, str_eq,
  length, all_of, if◌then◌else◌,
}
use sentinelix_backend.Base.Int.{ℤ, pos, ltb_ℤ}
use sentinelix_backend.Domain.Errors.{Result, ok, err, Error}
use sentinelix_backend.Domain.Monitor.{Monitor, MonitorCheck, status_up, status_down}
use sentinelix_backend.World.{World, Act, pure, swallow, ◌>>=◌, ◌>>◌}
use sentinelix_backend.World.Monitors.{create_check, list_recent_by_monitor_id, update_status}
use sentinelix_backend.Notifier.{notify_monitor_down, publish}

-- What the HTTP client makes of the monitor's URL: no request can be built; no answer, after some
-- milliseconds; an answer with its status code.
pub data Reply : Type 0 where
  bad_url : Reply
  unreachable : ℕ → Reply
  answered : ℕ → ℕ → Reply

pub record Ping : Type 0 where
  pub status_code : ℕ
  pub latency_ms : ℕ
  pub is_up : Bool

unfoldable pub ping : Reply → Ping
ping bad_url = record { status_code = 0; latency_ms = 0; is_up = false }
ping (unreachable ms) = record { status_code = 0; latency_ms = ms; is_up = false }
ping (answered code ms) = record { status_code = code; latency_ms = ms; is_up = ltb code 400 }

abbrev is_down : MonitorCheck → Bool
is_down c = not c.is_up

-- The tests on the recent checks.
unfoldable pub judge : Monitor → List MonitorCheck → String
judge m recent =
    if ltb_ℤ (pos (length recent)) m.failure_threshold
    then m.status
    else if all_of is_down recent
    then status_down
    else m.status

unfoldable pub evaluate_status : Monitor → Bool → Act String
evaluate_status m true = pure status_up
evaluate_status m false = do
  recent ← list_recent_by_monitor_id m.id m.failure_threshold
  pure (judge m recent)

pub record Checked : Type 0 where
  pub outcome : Result MonitorCheck
  pub monitor : Monitor
  pub world : World

abbrev pub finish : MonitorCheck → Monitor → Result (Unit {0}) × World → Checked
finish c m (ok _, w) = record { outcome = ok c; monitor = m; world = w }
finish c m (err e, w) = record { outcome = err e; monitor = m; world = w }

-- The new status is stored: set it on the object, broadcast it, and notify of a monitor down.
abbrev pub announce : MonitorCheck → Monitor → String → Result (Unit {0}) × World → Checked
announce c m status (err e, w) = record { outcome = err e; monitor = m; world = w }
announce c m status (ok _, w) =
    let m' = record m { status = status } in
    let w' = (swallow (publish (some m.project_id) "monitor.status_changed" m.id) w).1 in
    if str_eq status status_down
    then finish c m' (notify_monitor_down m' m'.failure_threshold w')
    else record { outcome = ok c; monitor = m'; world = w' }

abbrev pub settle : MonitorCheck → Monitor → Result String × World → Checked
settle c m (err e, w) = record { outcome = err e; monitor = m; world = w }
settle c m (ok status, w) =
    if str_eq status m.status
    then record { outcome = ok c; monitor = m; world = w }
    else announce c m status (update_status m.id status w)

abbrev pub evaluate : Monitor → Bool → Result MonitorCheck × World → Checked
evaluate m up (err e, w) = record { outcome = err e; monitor = m; world = w }
evaluate m up (ok c, w) = settle c m (evaluate_status m up w)

-- MonitorCheckerUsecase.Check
unfoldable pub check : Monitor → Reply → World → Checked
check m reply w =
    let p = ping reply in
    evaluate m p.is_up (create_check m.id p.status_code p.latency_ms p.is_up w)

-- The loop of runChecker (internal/worker/monitor_checker.go): a check at each tick, after a delay.
unfoldable pub watch : Monitor → List (ℕ × Reply) → World → Monitor × World
watch m [] w = (m, w)
watch m ((delay, reply) ∷ rest) w =
    let c = check m reply (record w { now = w.now + delay }) in watch c.monitor rest c.world
