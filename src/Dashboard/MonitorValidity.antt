-- ===== src/Dashboard/MonitorValidity.antt =====
-- The table of monitors holds validated ones only.
use sentinelix_backend.Base.{
  ℕ, String, Bool, true, false, not, ◌&&◌, ◌||◌, str_eq, ◌≡◌, Option, none, some, List, [], ◌∷◌,
  arith, ◌==◌, All, update_where, Bool-cases, inl, inr,
}
use sentinelix_backend.Domain.Errors.{ok}
use sentinelix_backend.Domain.Monitor.{Monitor, http_scheme}
use sentinelix_backend.Domain.Alert.{known_channel}
use sentinelix_backend.Base.Int.{pos, ltb_ℤ, leb_ℤ}
use sentinelix_backend.Domain.Monitor
use sentinelix_backend.World.{World, trip, swallow}
use sentinelix_backend.World.Projects.{get_by_id}
use sentinelix_backend.World.Monitors as Table
use sentinelix_backend.World.Monitors.{set_columns}
use sentinelix_backend.Notifier.{publish}
use sentinelix_backend.Dashboard.{owned_project}
use sentinelix_backend.Dashboard.Keeps.{Keeps, bind-Keeps, checked-Keeps}
use sentinelix_backend.Dashboard.Monitors
use sentinelix_backend.Dashboard.Monitors.{
  CreateMonitorInput, UpdateMonitorInput, new_monitor, merge_monitor, get_owned_monitor,
}

module _ (scheme : String → Option String) where
  -- What the API allows in a monitor.
  abbrev allowed : Monitor → Bool
  allowed m =
      not (str_eq m.url "")
      && elim (scheme m.url) [ none ↦ false | some s ↦ str_eq s "http" || str_eq s "https" ]
      && leb_ℤ (pos 60) m.interval_sec
      && (str_eq m.channel "email" || str_eq m.channel "slack")
      && not (str_eq m.channel_target "")
      && ltb_ℤ (pos 0) m.failure_threshold

  abbrev IsValidMonitor : Monitor → Type 0
  IsValidMonitor m = allowed m ≡ true

  validate-IsValidMonitor : (m : Monitor) → Monitor.validate scheme m ≡ ok tt → IsValidMonitor m
  unfolding Monitor.validate known_channel http_scheme
  validate-IsValidMonitor m h = ground (arith, h)

  pub record ValidMonitors (w : World) : Type 0 where
    pub valid : All IsValidMonitor w.monitors

  same_monitors : (w v : World) → v.monitors ≡ w.monitors → ValidMonitors w → ValidMonitors v
  same_monitors w v e h = record { valid = rw e h.valid }

  set_columns-IsValidMonitor :
      (m : Monitor) (monitors : List Monitor)
      → IsValidMonitor m
      → All IsValidMonitor monitors
      → All IsValidMonitor (update_where (λ (x : Monitor). x.id == m.id) (set_columns m) monitors)
  set_columns-IsValidMonitor m [] v h = tt
  set_columns-IsValidMonitor m (x ∷ monitors) v h = elim (Bool-cases (x.id == m.id)) [
    | inl e ↦ (rw e v, set_columns-IsValidMonitor m monitors v h.1)
    | inr e ↦ (rw e h.0, set_columns-IsValidMonitor m monitors v h.1)
  ]

  owned_project-monitors : (user id : ℕ) → Keeps ValidMonitors (owned_project user id)
  unfolding owned_project get_by_id trip
  owned_project-monitors user id w h = same_monitors w (owned_project user id w).1 (ground arith) h

  get_owned_monitor-monitors : (user id : ℕ) → Keeps ValidMonitors (get_owned_monitor user id)
  unfolding get_owned_monitor owned_project get_by_id Table.get_by_id trip
  get_owned_monitor-monitors user id w h =
      same_monitors w (get_owned_monitor user id w).1 (ground arith) h

  publish-monitors :
      (room : Option ℕ) (what : String) (id : ℕ)
      → Keeps ValidMonitors (swallow (publish room what id))
  unfolding publish trip
  publish-monitors room what id w h =
      same_monitors w (swallow (publish room what id) w).1 (ground arith) h

  create-monitors : (m : Monitor) → IsValidMonitor m → Keeps ValidMonitors (Table.create m)
  unfolding Table.create trip
  create-monitors m v w h = elim (Bool-cases (w.outage w.calls)) [
    | inl e ↦ rw e (record { valid = h.valid })
    | inr e ↦ rw e (record { valid = (v, h.valid) })
  ]

  update-monitors : (m : Monitor) → IsValidMonitor m → Keeps ValidMonitors (Table.update m)
  unfolding Table.update trip
  update-monitors m v w h = elim (Bool-cases (w.outage w.calls)) [
    | inl e ↦ rw e (record { valid = h.valid })
    | inr e ↦ rw e (record { valid = set_columns-IsValidMonitor m w.monitors v h.valid })
  ]

  -- Whoever creates or updates a monitor, and whichever calls fail: if every stored monitor is valid
  -- before, every stored monitor is valid after. A monitor is valid if its URL has the scheme http or
  -- https, its interval is at least 60 seconds, its channel is "email" or "slack" with a target, and
  -- its failure threshold is more than 0.
  pub monitors_stay_valid :
      (user id : ℕ) (new : CreateMonitorInput) (change : UpdateMonitorInput) (w : World)
      → ValidMonitors w
      → ValidMonitors (Monitors.create scheme user new w).1
        × ValidMonitors (Monitors.update scheme user id change w).1
  unfolding Monitors.create Monitors.update Monitors.update_owned
  monitors_stay_valid user id new change w h =
      let made =
        bind-Keeps ValidMonitors (owned_project user new.project_id) _
          (owned_project-monitors user new.project_id)
          (λ p. checked-Keeps ValidMonitors (Monitor.validate scheme (new_monitor new)) _ (λ v.
            bind-Keeps ValidMonitors (Table.create (new_monitor new)) _
              (create-monitors (new_monitor new) (validate-IsValidMonitor (new_monitor new) v))
              (λ i. publish-monitors none "monitor.created" i))) in
      let changed =
        bind-Keeps ValidMonitors (get_owned_monitor user id) _ (get_owned_monitor-monitors user id)
          (λ m.
            checked-Keeps ValidMonitors (Monitor.validate scheme (merge_monitor change m)) _ (λ v.
              bind-Keeps ValidMonitors (Table.update (merge_monitor change m)) _
                (update-monitors (merge_monitor change m)
                  (validate-IsValidMonitor (merge_monitor change m) v))
                (λ i. publish-monitors none "monitor.updated" m.id))) in
      (made w h, changed w h)
