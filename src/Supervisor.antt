-- ===== src/Supervisor.antt =====
-- internal/worker/monitor_checker.go and monitor_sync.go: the supervisor's table of checkers, one
-- goroutine for each monitor, and the messages that change it. A goroutine is numbered by the ones
-- before it; one that is cancelled stops before its next check. The check itself is Checker.check.
-- Cancelling a goroutine twice does nothing.
pub mod Table
pub mod Agreement
pub mod Edits
pub mod Tracking
pub mod Following
pub mod Orphans
pub mod Shutdown
use sentinelix_backend.Base.{
  ℕ, suc, String, Bool, true, false, not, ◌&&◌, Option, none, some, List, [], ◌∷◌, ◌==◌, str_eq,
  length, select, update_where, if◌then◌else◌,
}
use sentinelix_backend.Domain.Errors.{Result, ok, err, Error}
use sentinelix_backend.Domain.Monitor.{Monitor}
use sentinelix_backend.World.{World}
use sentinelix_backend.World.Monitors.{get_by_id, list_all}

pub record Goroutine : Type 0 where
  pub number : ℕ
  pub monitor : Monitor
  pub cancelled : Bool

-- The map from a monitor's id to its CancelFunc, which is the number of the goroutine it cancels.
abbrev pub Cancels : Type 0
Cancels = List (ℕ × ℕ)

abbrev pub find_cancel : ℕ → Cancels → Option ℕ
find_cancel id [] = none
find_cancel id ((i, n) ∷ cs) = let rest = find_cancel id cs in if i == id then some n else rest

abbrev pub delete_cancel : ℕ → Cancels → Cancels
delete_cancel id cs = select (λ (c : ℕ × ℕ). not (c.0 == id)) cs

abbrev pub set_cancel : ℕ → ℕ → Cancels → Cancels
set_cancel id n cs = (id, n) ∷ delete_cancel id cs

pub record Supervisor : Type 0 where
  pub cancels : Cancels
  pub goroutines : List Goroutine

-- NewMonitorSupervisor
unfoldable pub new_supervisor : Supervisor
new_supervisor = record { cancels = []; goroutines = [] }

abbrev pub has_number : ℕ → Goroutine → Bool
has_number n g = g.number == n

abbrev pub stopped : Goroutine → Goroutine
stopped g = record g { cancelled = true }

-- `if cancel, exists := s.cancels[id]; exists { cancel() }`
abbrev pub cancel : Option ℕ → List Goroutine → List Goroutine
cancel none gs = gs
cancel (some n) gs = update_where (has_number n) stopped gs

-- spawn: the old goroutine of the monitor is cancelled, a new one started.
unfoldable pub spawn : Monitor → Supervisor → Supervisor
spawn m s =
    let n = length s.goroutines in
    record {
      cancels = set_cancel m.id n s.cancels;
      goroutines =
          record { number = n; monitor = m; cancelled = false }
          ∷ cancel (find_cancel m.id s.cancels) s.goroutines;
    }

unfoldable pub spawn_all : List Monitor → Supervisor → Supervisor
unfolding spawn
spawn_all [] s = s
spawn_all (m ∷ rest) s = spawn_all rest (spawn m s)

abbrev pub spawn_found : Result Monitor → Supervisor → Supervisor
unfolding spawn
spawn_found (ok m) s = spawn m s
spawn_found (err e) s = s

-- Sync: the monitor as the database has it; an error is only logged.
unfoldable pub sync : ℕ → Supervisor → World → Supervisor × World
unfolding spawn
sync id s w = (spawn_found (get_by_id id w).0 s, (get_by_id id w).1)

unfoldable pub remove : ℕ → Supervisor → Supervisor
remove id s = record {
  cancels = delete_cancel id s.cancels;
  goroutines = cancel (find_cancel id s.cancels) s.goroutines;
}

abbrev pub started : Result (List Monitor) → Supervisor → Result Supervisor
unfolding spawn_all
started (ok ms) s = ok (spawn_all ms s)
started (err e) s = err e

-- Run, up to the wait for the end of the context.
unfoldable pub start : Supervisor → World → Result Supervisor × World
unfolding spawn_all
start s w = (started (list_all w).0 s, (list_all w).1)

-- The end of Run: each cancel function of the map is called.
abbrev pub cancel_all : Cancels → List Goroutine → List Goroutine
cancel_all [] gs = gs
cancel_all ((id, n) ∷ cs) gs = cancel_all cs (cancel (some n) gs)

unfoldable pub shut_down : Supervisor → Supervisor
shut_down s = record s { goroutines = cancel_all s.cancels s.goroutines }

-- What arrives on the channel: no envelope, one whose data holds no id, or one with its type and id.
pub data Incoming : Type 0 where
  garbage : Incoming
  no_id : String → Incoming
  envelope : String → ℕ → Incoming

abbrev pub monitor_sync_created : String
monitor_sync_created = "monitor.created"

abbrev pub monitor_sync_updated : String
monitor_sync_updated = "monitor.updated"

abbrev pub monitor_sync_deleted : String
monitor_sync_deleted = "monitor.deleted"

-- One round of RunMonitorSync.
unfoldable pub handle_message : Incoming → Supervisor → World → Supervisor × World
unfolding sync remove
handle_message garbage s w = (s, w)
handle_message (no_id kind) s w = (s, w)
handle_message (envelope kind id) s w =
    if str_eq kind monitor_sync_created
    then sync id s w
    else if str_eq kind monitor_sync_updated
    then sync id s w
    else if str_eq kind monitor_sync_deleted
    then (remove id s, w)
    else (s, w)
