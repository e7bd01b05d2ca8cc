-- ===== src/Checker/Refinement.antt =====
-- The checker over its table of checks against the automaton that keeps a count.
use sentinelix_backend.Base.{
  ℕ, suc, ◌+◌, String, ◌≡◌, refl, true, false, List, [], ◌∷◌, ◌++◌, some, ◌⊎◌, arith, str_eq,
  eq_refl, take, select, order_desc, if◌then◌else◌,
}
use sentinelix_backend.Base.Int.{ℤ, pos, negsuc}
use sentinelix_backend.Domain.Alert.{known_channel}
use sentinelix_backend.Domain.Errors.{Result, ok, err, other}
use sentinelix_backend.Domain.Monitor.{Monitor, MonitorCheck, status_down}
use sentinelix_backend.World.{World, monitor_down, broadcast, IsHealthy, trip}
use sentinelix_backend.World.Monitors.{
  of_monitor, create_check, update_status, list_recent_by_monitor_id,
}
use sentinelix_backend.Notifier.{notify_monitor_down, publish}
use sentinelix_backend.Checker.{Reply, ping, judge, evaluate_status, check, watch, settle}
use sentinelix_backend.Checker.Automaton.{
  after_query_sent, observe, observe_all, health, IsOrdered, check-IsStep, check_lem, after_query,
  row, stamp, stamp-IsHealthy, after_query-IsFramed, framed-IsHealthy,
}
use sentinelix_backend.Checker.Recent.{at, Bounded-mono}

later-IsOrdered : (d : ℕ) (w : World) → IsOrdered w → IsOrdered (record w { now = w.now + d })
later-IsOrdered d w o = record {
  desc = o.desc;
  past = Bounded-mono w.now (w.now + d) w.checks (omega arith) o.past;
}

-- Where no call fails and the table of checks is in order of time, a monitor with failure
-- threshold n that is checked again and again ends as itself with the status of the automaton,
-- which goes up at one success and down at n failures in a row; no other field changes.
pub watch-eq-observe_all :
    (m : Monitor) (n : ℕ) (replies : List (ℕ × Reply)) (w : World)
    → m.failure_threshold ≡ pos n
    → IsHealthy w
    → IsOrdered w
    → (watch m replies w).0 ≡ record m { status = (observe_all n replies (health m w)).status }
unfolding watch observe_all
watch-eq-observe_all m n [] w t h o = refl
watch-eq-observe_all m n ((delay, reply) ∷ rest) w t h o =
    let w' = record w { now = w.now + delay } in
    let s =
      check-IsStep m n reply w' t (record { up = h.up; accepted = h.accepted })
        (later-IsOrdered delay w o) in
    let m' = record m { status = (observe n (ping reply).is_up (health m w)).status } in
    let next = watch-eq-observe_all m' n rest (check m reply w').world t s.healthy s.ordered in
    rw (s.monitor, watch) (rw s.failures at next)

settle_sent :
    (c : MonitorCheck) (m : Monitor) (status : String) (w : World)
    → IsHealthy w
    → known_channel m.channel ≡ true
    → (settle c m (ok status, w)).world.sent ≡ (
        if str_eq status m.status
        then w.sent
        else (if str_eq status status_down then monitor_down m.id m.channel_target ∷ [] else [])
          ++ broadcast (some m.project_id) "monitor.status_changed" m.id ∷ w.sent)
unfolding update_status notify_monitor_down publish trip known_channel
settle_sent c m status w h k = ground (
  arith,
  h.up w.calls,
  h.up (suc w.calls),
  h.up (suc (suc w.calls)),
  h.accepted (suc (suc (suc w.calls))),
)

-- Where no call fails, one check of a monitor on a known channel sends a broadcast exactly if the
-- automaton's status differs from the monitor's, and the "down" notification to the monitor's
-- target exactly if, besides, the new status is down.
pub sent-check :
    (m : Monitor) (n : ℕ) (reply : Reply) (w : World)
    → m.failure_threshold ≡ pos n
    → known_channel m.channel ≡ true
    → IsHealthy w
    → IsOrdered w
    → let status = (observe n (ping reply).is_up (health m w)).status in
      (check m reply w).world.sent ≡ (
        if str_eq status m.status
        then w.sent
        else (if str_eq status status_down then monitor_down m.id m.channel_target ∷ [] else [])
          ++ broadcast (some m.project_id) "monitor.status_changed" m.id ∷ w.sent)
sent-check m n reply w t k h o =
    let up = (ping reply).is_up in
    let v = after_query up (stamp m reply w) in
    let hv =
      framed-IsHealthy (after_query-IsFramed up (stamp m reply w)) (stamp-IsHealthy m reply w h) in
    rw (check_lem m n reply w t h o) (
      rw (settle_sent (row m reply w) m (observe n up (health m w)).status v hv k)
        (rw (after_query_sent up (stamp m reply w)) refl))

judge_down : (m : Monitor) (l : List MonitorCheck) → m.status ≡ status_down → judge m l ≡ m.status
unfolding judge
judge_down m l d = ground arith

-- The verdict on a failing check of a monitor that is down is an error or its own status.
evaluate_down :
    (m : Monitor) (t : ℤ) (w : World)
    → m.status ≡ status_down
    → m.failure_threshold ≡ t
    → ((evaluate_status m false w).1.sent ≡ w.sent)
      × (((evaluate_status m false w).0 ≡ err other)
          ⊎ ((evaluate_status m false w).0 ≡ ok m.status))
unfolding evaluate_status list_recent_by_monitor_id trip
evaluate_down m (pos n) w d e =
    ground (arith, judge_down m (take n (order_desc at (select (of_monitor m.id) w.checks))) d)
evaluate_down m (negsuc n) w d e = ground arith

settle_same :
    (c : MonitorCheck) (m : Monitor) (r : Result String) (w : World)
    → ((r ≡ err other) ⊎ (r ≡ ok m.status))
    → ((settle c m (r, w)).world.sent ≡ w.sent) × ((settle c m (r, w)).monitor ≡ m)
settle_same c m r w h = ground (arith, eq_refl m.status)

-- Whatever calls fail, a failing check of a monitor that is down already sends nothing and
-- leaves the monitor as it was, whether or not it was ever notified of.
pub check_still_down :
    (m : Monitor) (reply : Reply) (w : World)
    → m.status ≡ status_down
    → (ping reply).is_up ≡ false
    → ((check m reply w).world.sent ≡ w.sent) × ((check m reply w).monitor ≡ m)
unfolding check create_check trip
check_still_down m reply w d f =
    let e = evaluate_down m m.failure_threshold (stamp m reply w) d refl in
    let r = evaluate_status m false (stamp m reply w) in
    ground (arith, e.0, settle_same (row m reply w) m r.0 r.1 e.1)
