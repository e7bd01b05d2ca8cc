-- ===== src/Supervisor/Following.antt =====
-- The supervisor follows the table of monitors over every history of edits, and from the start.
use sentinelix_backend.Base.{
  ℕ, ◌≡◌, refl, sym, ap, ◌∙◌, String, Option, none, some, List, [], ◌∷◌, ◌==◌, map, first, inl, inr,
  arith, Bool-cases,
}
use sentinelix_backend.Domain.Errors.{Result, ok, err}
use sentinelix_backend.Domain.Monitor.{Monitor}
use sentinelix_backend.World.{IsHealthy-of, World, IsHealthy}
use sentinelix_backend.World.Monitors
use sentinelix_backend.Supervisor.{Supervisor, spawn, spawn_all, start, new_supervisor}
use sentinelix_backend.Supervisor.Table.{checkers}
use sentinelix_backend.Supervisor.Agreement.{IsSound, spawn-IsSound, checkers-spawn}
use sentinelix_backend.Supervisor.Edits.{
  Edit, apply_edit, has_monitor_id, stored_monitor, Untouched, create_cases, update_cases,
  delete_cases, first-update_other, first-update_self, first-delete_other, first-delete_self,
  first-id, create, update, delete,
}
use sentinelix_backend.Domain.Monitor.{status_unknown}
use sentinelix_backend.World.Monitors.{set_columns}
use sentinelix_backend.Dashboard.Monitors.{new_monitor, merge_monitor}
use sentinelix_backend.Supervisor.Tracking.{
  Followed, Tracks, published, deliver, run_edits, published-none, stored-Followed,
  deleted-Followed, checked_config, wanted, config,
}

-- A refused edit publishes nothing.
Untouched-Followed :
    (s : Supervisor) (w v : World)
    → Followed s w
    → Untouched w v
    → Followed (deliver (published w v) s v).0 (deliver (published w v) s v).1
Untouched-Followed s w v before e = rw (published-none w v (ap (λ (x : World). x.sent) e)) (record {
  sound = before.sound;
  healthy =
      IsHealthy-of w v (ap (λ (x : World). x.outage) e) (ap (λ (x : World). x.http_status) e)
        before.healthy;
  tracks = λ i.
      before.tracks i
      ∙ ap (λ ms. wanted (first (has_monitor_id i) ms)) (sym (ap (λ (x : World). x.monitors) e));
})

-- An edit of the dashboard, and the messages that it publishes.
edit-Followed :
    (scheme : String → Option String) (e : Edit) (s : Supervisor) (w : World)
    → Followed s w
    → let v = apply_edit scheme e w in
      Followed (deliver (published w v) s v).0 (deliver (published w v) s v).1
edit-Followed scheme (create user input) s w before =
    let v = apply_edit scheme (create user input) w in
    elim (create_cases w before.healthy scheme user input) [
      | inl same ↦ Untouched-Followed s w v before same
      | inr e ↦
          let row : Monitor = record (new_monitor input) {
            id = w.serial;
            status = status_unknown;
            created_at = w.now;
          } in
          let rows : v.monitors ≡ row ∷ w.monitors = ap (λ (x : World). x.monitors) e in
          stored-Followed s w v w.serial before
            (IsHealthy-of w v (ap (λ (x : World). x.outage) e) (ap (λ (x : World). x.http_status) e)
              before.healthy)
            (λ i h. ap (first (has_monitor_id i)) rows ∙ ground (arith, h)) none row
            (ap (first (has_monitor_id w.serial)) rows ∙ ground arith) "monitor.created" (inl refl)
            (ap (λ (x : World). x.sent) e)
    ]
edit-Followed scheme (update user id input) s w before =
    let v = apply_edit scheme (update user id input) w in
    elim (update_cases w before.healthy scheme user id input) [
      | inl same ↦ Untouched-Followed s w v before same
      | inr (m, found, e) ↦
          let new = merge_monitor input m in
          let rows = ap (λ (x : World). x.monitors) e in
          let mine = ap (λ k. stored_monitor k w) (first-id id m w.monitors found) ∙ found in
          stored-Followed s w v m.id before
            (IsHealthy-of w v (ap (λ (x : World). x.outage) e) (ap (λ (x : World). x.http_status) e)
              before.healthy)
            (λ i h. ap (first (has_monitor_id i)) rows ∙ first-update_other new i m.id w.monitors h)
            none (set_columns new m)
            (ap (first (has_monitor_id m.id)) rows ∙ first-update_self new m.id m w.monitors mine)
            "monitor.updated" (inr refl) (ap (λ (x : World). x.sent) e)
    ]
edit-Followed scheme (delete user id) s w before =
    let v = apply_edit scheme (delete user id) w in
    elim (delete_cases w before.healthy user id) [
      | inl same ↦ Untouched-Followed s w v before same
      | inr e ↦
          let rows = ap (λ (x : World). x.monitors) e in
          deleted-Followed s w v id before
            (IsHealthy-of w v (ap (λ (x : World). x.outage) e) (ap (λ (x : World). x.http_status) e)
              before.healthy)
            (λ i h. ap (first (has_monitor_id i)) rows ∙ first-delete_other i id w.monitors h) none
            (ap (first (has_monitor_id id)) rows ∙ first-delete_self id w.monitors)
            (ap (λ (x : World). x.sent) e)
    ]

run_edits-Followed :
    (scheme : String → Option String) (edits : List Edit) (s : Supervisor) (w : World)
    → Followed s w
    → Followed (run_edits scheme edits s w).0 (run_edits scheme edits s w).1
run_edits-Followed scheme [] s w before = before
run_edits-Followed scheme (e ∷ rest) s w before =
    let v = apply_edit scheme e w in
    run_edits-Followed scheme rest (deliver (published w v) s v).0 (deliver (published w v) s v).1
      (edit-Followed scheme e s w before)

-- Each monitor has its own id.
abbrev pub Distinct : List Monitor → Type 0
Distinct [] = Unit {0}
Distinct (m ∷ ms) = (first (has_monitor_id m.id) ms ≡ none) × Distinct ms

abbrev or_before : Option Monitor → List Monitor → List Monitor
or_before none old = old
or_before (some m) old = config m ∷ []

or_before-spawn :
    (i : ℕ) (m : Monitor) (ms : List Monitor) (s : Supervisor)
    → IsSound s
    → first (has_monitor_id m.id) ms ≡ none
    → or_before
        (first (has_monitor_id i) ms)
        (map checked_config (checkers i (spawn m s).goroutines))
      ≡ or_before (first (has_monitor_id i) (m ∷ ms)) (map checked_config (checkers i s.goroutines))
or_before-spawn i m ms s sound alone = elim (Bool-cases (i == m.id)) [
  | inl this ↦
      let here : i ≡ m.id = ground arith in
      let later : first (has_monitor_id i) ms ≡ none =
        ap (λ k. first (has_monitor_id k) ms) here ∙ alone in
      let now : first (has_monitor_id i) (m ∷ ms) ≡ some m = ground (arith, here) in
      rw (now, checkers-spawn i m s sound, this, later) refl
  | inr other ↦
      let next : first (has_monitor_id i) (m ∷ ms) ≡ first (has_monitor_id i) ms =
        ground (arith, other) in
      rw (next, checkers-spawn i m s sound, other) refl
]

spawn_all-Tracks :
    (ms : List Monitor) (s : Supervisor)
    → IsSound s
    → Distinct ms
    → IsSound (spawn_all ms s)
      × ((i : ℕ)
          → map checked_config (checkers i (spawn_all ms s).goroutines)
            ≡ or_before
                (first (has_monitor_id i) ms)
                (map checked_config (checkers i s.goroutines)))
unfolding spawn_all
spawn_all-Tracks [] s sound d = (sound, λ i. refl)
spawn_all-Tracks (m ∷ ms) s sound d =
    let rest = spawn_all-Tracks ms (spawn m s) (spawn-IsSound m s sound) d.1 in
    (rest.0, λ i. rest.1 i ∙ or_before-spawn i m ms s sound d.0)

or_before-none : (o : Option Monitor) → or_before o [] ≡ wanted o
or_before-none none = refl
or_before-none (some m) = refl

start-Followed :
    (w : World)
    → IsHealthy w
    → Distinct w.monitors
    → ((start new_supervisor w).0 ≡ ok (spawn_all w.monitors new_supervisor))
      × Followed (spawn_all w.monitors new_supervisor) (start new_supervisor w).1
unfolding start Monitors.list_all new_supervisor
start-Followed w h d =
    let all = spawn_all-Tracks w.monitors new_supervisor ((λ i k e. absurd (cc)), tt) d in
    rw (h.up w.calls) (
      refl,
      record {
        sound = all.0;
        healthy = record { up = h.up; accepted = h.accepted };
        tracks = λ i. all.1 i ∙ or_before-none (first (has_monitor_id i) w.monitors);
      },
    )

-- The worker from its start: the supervisor, and then edits of the dashboard with their messages.
abbrev pub after_start :
    (String → Option String) → List Edit → Result Supervisor × World → Result (Supervisor × World)
after_start scheme edits (err e, w) = err e
after_start scheme edits (ok s, w) = ok (run_edits scheme edits s w)

abbrev pub run_worker : (String → Option String) → List Edit → World → Result (Supervisor × World)
run_worker scheme edits w = after_start scheme edits (start new_supervisor w)

-- The worker started, and every monitor is tracked.
abbrev pub Tracking : Result (Supervisor × World) → Type 0
Tracking (err e) = ⊥
Tracking (ok (s, w)) = (i : ℕ) → Tracks i s w

-- Where no call fails and the identifiers of the monitors differ, the worker starts; and after any
-- creations, updates and deletions of monitors by users, permitted or refused, each with its messages
-- delivered, every stored monitor has one running checker, with the monitor's columns but for the
-- status, and no other monitor has one.
pub worker_follows :
    (scheme : String → Option String) (edits : List Edit) (w : World)
    → IsHealthy w
    → Distinct w.monitors
    → Tracking (run_worker scheme edits w)
worker_follows scheme edits w h d =
    let begun = start-Followed w h d in
    let v = (start new_supervisor w).1 in
    let s = spawn_all w.monitors new_supervisor in
    rw begun.0 (run_edits-Followed scheme edits s v begun.1).tracks
