-- ===== src/World/Monitors.antt =====
-- internal/repository/postgres/monitor_repo.go.
use sentinelix_backend.Base.{
  ℕ, String, Bool, true, not, ◌&&◌, Option, none, some, List, ◌∷◌, ◌==◌, leb, first, select, take,
  update_where, order_desc,
}
use sentinelix_backend.Base.Int.{ℤ, pos, negsuc}
use sentinelix_backend.Domain.Errors.{Result, ok, err, monitor_not_found, other}
use sentinelix_backend.Domain.Monitor.{name_of, Monitor, MonitorCheck, status_unknown}
use sentinelix_backend.World.{micros, Act, query, exec, insert, trip, ◌>>=◌}
use sentinelix_backend.World.Projects.{or_fail}

-- The status column has the default 'unknown'.
unfoldable pub create : Monitor → Act ℕ
unfolding trip
create m = insert λ id w. record w {
  monitors = record m { id = id; status = status_unknown; created_at = w.now } ∷ w.monitors;
}

unfoldable pub get_by_id : ℕ → Act Monitor
unfolding trip
get_by_id id = query λ w. or_fail (first (λ (m : Monitor). m.id == id) w.monitors) monitor_not_found

unfoldable pub list_by_project_id : ℕ → Act (List Monitor)
unfolding trip
list_by_project_id p = query λ w. ok (
    order_desc (λ (m : Monitor). m.created_at)
      (select (λ (m : Monitor). m.project_id == p) w.monitors))

unfoldable pub list_all : Act (List Monitor)
unfolding trip
list_all = query λ w. ok w.monitors

abbrev pub set_columns : Monitor → Monitor → Monitor
set_columns new old = record old {
  url = new.url;
  name = some (name_of new);
  interval_sec = new.interval_sec;
  channel = new.channel;
  channel_target = new.channel_target;
  failure_threshold = new.failure_threshold;
}

unfoldable pub update : Monitor → Act (Unit {0})
unfolding trip
update m = exec λ w. record w {
  monitors = update_where (λ (x : Monitor). x.id == m.id) (set_columns m) w.monitors;
}

unfoldable pub update_status : ℕ → String → Act (Unit {0})
unfolding trip
update_status id status = exec λ w. record w {
  monitors =
      update_where (λ (x : Monitor). x.id == id) (λ x. record x { status = status }) w.monitors;
}

-- DELETE, with the cascade to monitor_checks.
unfoldable pub delete : ℕ → Act (Unit {0})
unfolding trip
delete id = exec λ w. record w {
  monitors = select (λ (x : Monitor). not (x.id == id)) w.monitors;
  checks = select (λ (c : MonitorCheck). not (c.monitor_id == id)) w.checks;
}

unfoldable pub create_check : ℕ → ℕ → ℕ → Bool → Act MonitorCheck
unfolding trip
create_check monitor status_code latency_ms is_up = do
  id ← insert λ id w. record w {
    checks =
        record {
          id = id;
          monitor_id = monitor;
          status_code = status_code;
          latency_ms = latency_ms;
          is_up = is_up;
          checked_at = w.now;
        }
        ∷ w.checks;
  }
  λ w. (
    ok (record {
      id = id;
      monitor_id = monitor;
      status_code = status_code;
      latency_ms = latency_ms;
      is_up = is_up;
      checked_at = w.now;
    }),
    w,
  )

-- LIMIT: Postgres refuses a negative one.
abbrev pub limit_rows {ℓ} : {A : Type ℓ} → ℤ → List A → Result (List A)
limit_rows (pos n) rows = ok (take n rows)
limit_rows (negsuc n) rows = err other

abbrev pub of_monitor : ℕ → MonitorCheck → Bool
of_monitor id c = c.monitor_id == id

-- ORDER BY checked_at DESC LIMIT n
unfoldable pub list_recent_by_monitor_id : ℕ → ℤ → Act (List MonitorCheck)
unfolding trip
list_recent_by_monitor_id id n = query λ w.
    limit_rows n (order_desc (λ (c : MonitorCheck). c.checked_at) (select (of_monitor id) w.checks))

abbrev pub since : Option ℕ → ℕ → Bool
since none t = true
since (some from) t = leb from t

abbrev pub until : Option ℕ → ℕ → Bool
until none t = true
until (some to) t = leb t to

-- A bound as the driver sends it.
abbrev pub sent : Option ℕ → Option ℕ
sent none = none
sent (some t) = some (micros t)

unfoldable pub list_by_monitor_id : ℕ → Option ℕ → Option ℕ → Act (List MonitorCheck)
unfolding trip
list_by_monitor_id id from to = query λ w. ok (
    order_desc (λ (c : MonitorCheck). c.checked_at)
      (select
        (λ (c : MonitorCheck).
          of_monitor id c && since (sent from) c.checked_at && until (sent to) c.checked_at)
        w.checks))
