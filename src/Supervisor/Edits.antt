-- ===== src/Supervisor/Edits.antt =====
-- What an edit of a monitor in the dashboard does to the table of monitors, and what it broadcasts.
use sentinelix_backend.Base.{
  ℕ, suc, ◌≡◌, refl, String, Bool, false, not, Option, none, some, List, [], ◌∷◌, ◌==◌, first,
  select, update_where, ◌⊎◌, inl, inr, arith, Option-cases,
}
use sentinelix_backend.Domain.Monitor.{Monitor, status_unknown}
use sentinelix_backend.World.{World, broadcast, IsHealthy}
use sentinelix_backend.World.Monitors.{set_columns}
use sentinelix_backend.World.Monitors
use sentinelix_backend.World.Projects
use sentinelix_backend.Notifier.{publish}
use sentinelix_backend.Dashboard.{owned_project}
use sentinelix_backend.Dashboard.Monitors as MonitorUsecase
use sentinelix_backend.Dashboard.Monitors.{
  CreateMonitorInput, UpdateMonitorInput, new_monitor, merge_monitor, get_owned_monitor,
}

abbrev pub has_monitor_id : ℕ → Monitor → Bool
has_monitor_id id m = m.id == id

abbrev pub stored_monitor : ℕ → World → Option Monitor
stored_monitor id w = first (has_monitor_id id) w.monitors

pub data Edit : Type 0 where
  create : ℕ → CreateMonitorInput → Edit
  update : ℕ → ℕ → UpdateMonitorInput → Edit
  delete : ℕ → ℕ → Edit

abbrev pub apply_edit : (String → Option String) → Edit → World → World
apply_edit scheme (create user input) w = (MonitorUsecase.create scheme user input w).1
apply_edit scheme (update user id input) w = (MonitorUsecase.update scheme user id input w).1
apply_edit scheme (delete user id) w = (MonitorUsecase.delete user id w).1

-- Nothing but the number of calls.
abbrev pub Untouched : World → World → Type 0
Untouched w v = v ≡ record w { calls = v.calls }

module _ (w : World) (h : IsHealthy w) where
  pub create_cases :
      (scheme : String → Option String) (user : ℕ) (input : CreateMonitorInput)
      → let v = (MonitorUsecase.create scheme user input w).1 in
        Untouched w v
        ⊎ (v ≡ record w {
          calls = v.calls;
          serial = suc w.serial;
          monitors =
              record (new_monitor input) {
                id = w.serial;
                status = status_unknown;
                created_at = w.now;
              }
              ∷ w.monitors;
          sent = broadcast none "monitor.created" w.serial ∷ w.sent;
        })
  unfolding MonitorUsecase.create owned_project Projects.get_by_id Monitors.create publish
  create_cases scheme user input =
      ground (arith, h.up w.calls, h.up (suc w.calls), h.up (suc (suc w.calls)))

  pub delete_cases :
      (user id : ℕ)
      → let v = (MonitorUsecase.delete user id w).1 in
        Untouched w v
        ⊎ (v ≡ record w {
          calls = v.calls;
          monitors = select (λ m. not (has_monitor_id id m)) w.monitors;
          checks = v.checks;
          sent = broadcast none "monitor.deleted" id ∷ w.sent;
        })
  unfolding MonitorUsecase.delete get_owned_monitor owned_project Projects.get_by_id
      Monitors.get_by_id Monitors.delete publish
  delete_cases user id = ground (
    arith,
    h.up w.calls,
    h.up (suc w.calls),
    h.up (suc (suc w.calls)),
    h.up (suc (suc (suc w.calls))),
  )

  abbrev pub Updated : UpdateMonitorInput → Monitor → World → Type 0
  Updated input m v = v ≡ record w {
    calls = v.calls;
    monitors = update_where (has_monitor_id m.id) (set_columns (merge_monitor input m)) w.monitors;
    sent = broadcast none "monitor.updated" m.id ∷ w.sent;
  }

  pub update_cases :
      (scheme : String → Option String) (user id : ℕ) (input : UpdateMonitorInput)
      → let v = (MonitorUsecase.update scheme user id input w).1 in
        Untouched w v ⊎ ((m : Monitor) × (stored_monitor id w ≡ some m) × Updated input m v)
  unfolding MonitorUsecase.update MonitorUsecase.update_owned get_owned_monitor owned_project
      Projects.get_by_id Monitors.get_by_id Monitors.update publish
  update_cases scheme user id input = elim (Option-cases (stored_monitor id w)) [
    | inl e ↦ inl (ground (arith, h.up w.calls, e))
    | inr (m, e) ↦
        let v = (MonitorUsecase.update scheme user id input w).1 in
        let found : Untouched w v ⊎ Updated input m v = ground (
          arith,
          h.up w.calls,
          h.up (suc w.calls),
          h.up (suc (suc w.calls)),
          h.up (suc (suc (suc w.calls))),
          e,
        ) in
        elim found [ inl same ↦ inl same | inr changed ↦ inr (m, e, changed) ]
  ]

-- What a row's lookup finds after an UPDATE and a DELETE of another row, and of this one.
module _ (new : Monitor) where
  pub first-update_other :
      (i k : ℕ) (ms : List Monitor)
      → (i == k) ≡ false
      → first (has_monitor_id i) (update_where (has_monitor_id k) (set_columns new) ms)
        ≡ first (has_monitor_id i) ms
  first-update_other i k [] h = refl
  first-update_other i k (m ∷ ms) h = ground (arith, first-update_other i k ms h)

  pub first-update_self :
      (k : ℕ) (m : Monitor) (ms : List Monitor)
      → first (has_monitor_id k) ms ≡ some m
      → first (has_monitor_id k) (update_where (has_monitor_id k) (set_columns new) ms)
        ≡ some (set_columns new m)
  first-update_self k m [] h = cc
  first-update_self k m (x ∷ ms) h = ground (arith, first-update_self k m ms)

pub first-delete_other :
    (i k : ℕ) (ms : List Monitor)
    → (i == k) ≡ false
    → first (has_monitor_id i) (select (λ m. not (has_monitor_id k m)) ms)
      ≡ first (has_monitor_id i) ms
first-delete_other i k [] h = refl
first-delete_other i k (m ∷ ms) h = ground (arith, first-delete_other i k ms h)

pub first-delete_self :
    (k : ℕ) (ms : List Monitor)
    → first (has_monitor_id k) (select (λ m. not (has_monitor_id k m)) ms) ≡ none
first-delete_self k [] = refl
first-delete_self k (m ∷ ms) = ground (arith, first-delete_self k ms)

pub first-id :
    (k : ℕ) (m : Monitor) (ms : List Monitor) → first (has_monitor_id k) ms ≡ some m → m.id ≡ k
first-id k m [] h = absurd (cc)
first-id k m (x ∷ ms) h = ground (arith, first-id k m ms)
