-- ===== src/Checker/Automaton.antt =====
-- The specification of uptime status: a status and a count of failures in a row, with no history.
use sentinelix_backend.Base.{
  ℕ, suc, String, ◌≡◌, refl, ◌∙◌, inl, inr, some, Bool, Bool-cases, str_eq, true, false, List, [],
  ◌∷◌, arith, leb, eq_iff, take, select, if◌then◌else◌, IsDesc, Bounded, order_desc-IsDesc,
}
use sentinelix_backend.Base.Int.{ℤ, pos}
use sentinelix_backend.Domain.Errors.{Result, ok, err}
use sentinelix_backend.Domain.Monitor.{Monitor, MonitorCheck, status_up, status_down}
use sentinelix_backend.World.{World, IsHealthy, trip, swallow}
use sentinelix_backend.World.Monitors.{
  of_monitor, create_check, update_status, list_recent_by_monitor_id,
}
use sentinelix_backend.Notifier.{notify_monitor_down, publish}
use sentinelix_backend.Checker.{
  Reply, Checked, ping, evaluate_status, check, announce, settle, finish,
}
use sentinelix_backend.Checker.Recent.{at, fail_run, select-IsDesc, judge-fail_run}

pub record Health : Type 0 where
  pub status : String
  pub failures : ℕ

-- One success is up at once; `n` failures in a row are down.
unfoldable pub observe : ℕ → Bool → Health → Health
observe n true h = record { status = status_up; failures = 0 }
observe n false h = record {
  status = if leb n (suc h.failures) then status_down else h.status;
  failures = suc h.failures;
}

unfoldable pub observe_all : ℕ → List (ℕ × Reply) → Health → Health
unfolding observe
observe_all n [] h = h
observe_all n ((delay, reply) ∷ rest) h = observe_all n rest (observe n (ping reply).is_up h)

abbrev pub own_checks : ℕ → World → List MonitorCheck
own_checks id w = select (of_monitor id) w.checks

abbrev pub health : Monitor → World → Health
health m w = record { status = m.status; failures = fail_run (own_checks m.id w) }

-- The table is in order of time, and the clock is not behind it.
pub record IsOrdered (w : World) : Type 0 where
  pub desc : IsDesc at w.checks
  pub past : Bounded at w.now w.checks

-- What one check leaves as it was.
pub record IsFramed (w v : World) : Type 0 where
  pub now : v.now ≡ w.now
  pub outage : v.outage ≡ w.outage
  pub http_status : v.http_status ≡ w.http_status
  pub checks : v.checks ≡ w.checks

notify-IsFramed :
    (m : Monitor) (failures : ℤ) (w : World) → IsFramed w (notify_monitor_down m failures w).1
unfolding notify_monitor_down trip
notify-IsFramed m failures w = ground arith

published : Monitor → World → World
published m w = (swallow (publish (some m.project_id) "monitor.status_changed" m.id) w).1

published-IsFramed : (m : Monitor) (w : World) → IsFramed w (published m w)
unfolding published publish trip
published-IsFramed m w = ground arith

update_status-IsFramed :
    (id : ℕ) (status : String) (w : World) → IsFramed w (update_status id status w).1
unfolding update_status trip
update_status-IsFramed id status w = ground arith

IsFramed-trans : (u v w : World) → IsFramed u v → IsFramed v w → IsFramed u w
IsFramed-trans u v w f g = record {
  now = g.now ∙ f.now;
  outage = g.outage ∙ f.outage;
  http_status = g.http_status ∙ f.http_status;
  checks = g.checks ∙ f.checks;
}

finish_world :
    (c : MonitorCheck) (m : Monitor) (r : Result (Unit {0})) (w : World)
    → (finish c m (r, w)).world ≡ w
finish_world c m (ok u) w = refl
finish_world c m (err e) w = refl

announced-IsFramed :
    (c : MonitorCheck) (m : Monitor) (status : String) (r : Result (Unit {0})) (w : World)
    → IsFramed w (announce c m status (r, w)).world
unfolding published
announced-IsFramed c m status (err e) w = record {
  now = refl;
  outage = refl;
  http_status = refl;
  checks = refl;
}
announced-IsFramed c m status (ok u) w =
    let m' = record m { status = status } in
    let v = published m w in
    let after = notify_monitor_down m' m'.failure_threshold v in
    elim (Bool-cases (str_eq status status_down)) [
      | inl down ↦
          rw (down, finish_world c m' after.0 after.1)
            (IsFramed-trans w v after.1 (published-IsFramed m w)
              (notify-IsFramed m' m'.failure_threshold v))
      | inr other ↦ rw other (published-IsFramed m w)
    ]

announce-IsFramed :
    (c : MonitorCheck) (m : Monitor) (status : String) (w : World)
    → IsFramed w (announce c m status (update_status m.id status w)).world
announce-IsFramed c m status w =
    let u = update_status m.id status w in
    IsFramed-trans w u.1 (announce c m status u).world (update_status-IsFramed m.id status w)
      (announced-IsFramed c m status u.0 u.1)

settle_status :
    (c : MonitorCheck) (m : Monitor) (status : String) (w : World)
    → IsHealthy w
    → (settle c m (ok status, w)).monitor ≡ record m { status = status }
unfolding update_status notify_monitor_down publish trip
settle_status c m status w h = ground (arith, h.up w.calls, eq_iff status m.status)

abbrev pub row : Monitor → Reply → World → MonitorCheck
row m reply w = record {
  id = w.serial;
  monitor_id = m.id;
  status_code = (ping reply).status_code;
  latency_ms = (ping reply).latency_ms;
  is_up = (ping reply).is_up;
  checked_at = w.now;
}

abbrev pub stamp : Monitor → Reply → World → World
stamp m reply w = record w {
  calls = suc w.calls;
  serial = suc w.serial;
  checks = row m reply w ∷ w.checks;
}

stamp-IsOrdered :
    (m : Monitor) (reply : Reply) (w : World) → IsOrdered w → IsOrdered (stamp m reply w)
stamp-IsOrdered m reply w o = record { desc = (o.past, o.desc); past = (omega arith, o.past) }

pub stamp-IsHealthy :
    (m : Monitor) (reply : Reply) (w : World) → IsHealthy w → IsHealthy (stamp m reply w)
stamp-IsHealthy m reply w h = record { up = h.up; accepted = h.accepted }

stamp_failures :
    (m : Monitor) (reply : Reply) (w : World)
    → fail_run (own_checks m.id (stamp m reply w))
      ≡ (if (ping reply).is_up then 0 else suc (fail_run (own_checks m.id w)))
stamp_failures m reply w = ground arith

recent_lem :
    (id n : ℕ) (w : World)
    → IsHealthy w
    → IsOrdered w
    → list_recent_by_monitor_id id (pos n) w
      ≡ (ok (take n (own_checks id w)), record w { calls = suc w.calls })
unfolding list_recent_by_monitor_id trip
recent_lem id n w h o = rw (
  h.up w.calls,
  order_desc-IsDesc at (own_checks id w) (select-IsDesc (of_monitor id) w.checks o.desc),
)

-- With no failing call, the query and its tests are one step of the specification.
evaluate_status_lem :
    (m : Monitor) (n : ℕ) (up : Bool) (w : World)
    → m.failure_threshold ≡ pos n
    → IsHealthy w
    → IsOrdered w
    → evaluate_status m up w ≡ (
      ok (
          if up
          then status_up
          else if leb n (fail_run (own_checks m.id w))
          then status_down
          else m.status),
      if up then w else record w { calls = suc w.calls },
    )
unfolding evaluate_status
evaluate_status_lem m n true w t h o = refl
evaluate_status_lem m n false w t h o =
    ground (arith, recent_lem m.id n w h o, judge-fail_run m n (own_checks m.id w) t)

-- One check is one step of the automaton, and leaves the world ready for the next.
pub record IsStep (m : Monitor) (n : ℕ) (up : Bool) (w : World) (c : Checked) : Type 0 where
  pub monitor : c.monitor ≡ record m { status = (observe n up (health m w)).status }
  pub failures : fail_run (own_checks m.id c.world) ≡ (observe n up (health m w)).failures
  pub ordered : IsOrdered c.world
  pub healthy : IsHealthy c.world

pub framed-IsOrdered : {w v : World} → IsFramed w v → IsOrdered w → IsOrdered v
framed-IsOrdered f o = record { desc = rw f.checks o.desc; past = rw (f.checks, f.now) o.past }

pub framed-IsHealthy : {w v : World} → IsFramed w v → IsHealthy w → IsHealthy v
framed-IsHealthy f h = record {
  up = λ k. rw f.outage (h.up k);
  accepted = λ k. rw f.http_status (h.accepted k);
}

settle-IsFramed :
    (c : MonitorCheck) (m : Monitor) (status : String) (w : World)
    → IsFramed w (settle c m (ok status, w)).world
settle-IsFramed c m status w = ground (arith, announce-IsFramed c m status w)

pub after_query : Bool → World → World
after_query up w = if up then w else record w { calls = suc w.calls }

pub after_query_sent : (up : Bool) (w : World) → (after_query up w).sent ≡ w.sent
unfolding after_query
after_query_sent up w = ground arith

pub check_lem :
    (m : Monitor) (n : ℕ) (reply : Reply) (w : World)
    → m.failure_threshold ≡ pos n
    → IsHealthy w
    → IsOrdered w
    → check m reply w
      ≡ settle (row m reply w) m (
        ok (observe n (ping reply).is_up (health m w)).status,
        after_query (ping reply).is_up (stamp m reply w),
      )
unfolding check create_check trip observe after_query
check_lem m n reply w t h o = ground (
  arith,
  h.up w.calls,
  evaluate_status_lem m n (ping reply).is_up (stamp m reply w) t (stamp-IsHealthy m reply w h)
      (stamp-IsOrdered m reply w o),
  stamp_failures m reply w,
)

pub after_query-IsFramed : (up : Bool) (w : World) → IsFramed w (after_query up w)
unfolding after_query
after_query-IsFramed up w = ground arith

pub check-IsStep :
    (m : Monitor) (n : ℕ) (reply : Reply) (w : World)
    → m.failure_threshold ≡ pos n
    → IsHealthy w
    → IsOrdered w
    → IsStep m n (ping reply).is_up w (check m reply w)
check-IsStep m n reply w t h o =
    let up = (ping reply).is_up in
    let v = after_query up (stamp m reply w) in
    let s = (observe n up (health m w)).status in
    let fv = after_query-IsFramed up (stamp m reply w) in
    let hv = framed-IsHealthy fv (stamp-IsHealthy m reply w h) in
    let f = settle-IsFramed (row m reply w) m s v in
    rw (check_lem m n reply w t h o) (record {
      monitor = settle_status (row m reply w) m s v hv;
      failures =
          rw (f.checks, fv.checks) (unfold observe in ground (arith, stamp_failures m reply w));
      ordered = framed-IsOrdered f (framed-IsOrdered fv (stamp-IsOrdered m reply w o));
      healthy = framed-IsHealthy f hv;
    })
