-- ===== src/Supervisor/Orphans.antt =====
-- The monitors of a deleted project, whose rows the cascade of the schema takes.
use sentinelix_backend.Base.{
  inl, inr, ℕ, suc, ◌≡◌, refl, ap, sym, ◌∙◌, Bool, true, not, none, some, List, [], ◌∷◌, ◌==◌, map,
  first, select, arith, Bool-cases,
}
use sentinelix_backend.Domain.Account.{Project}
use sentinelix_backend.Domain.Monitor.{Monitor}
use sentinelix_backend.World.{World, IsHealthy}
use sentinelix_backend.World.Projects as ProjectTable
use sentinelix_backend.Dashboard.{owned_project, write_audit_log}
use sentinelix_backend.Dashboard.Projects
use sentinelix_backend.Supervisor.{Supervisor}
use sentinelix_backend.Supervisor.Table.{checkers}
use sentinelix_backend.Supervisor.Edits.{has_monitor_id, stored_monitor}
use sentinelix_backend.Supervisor.Tracking.{
  Followed, published, deliver, published-none, checked_config, config, wanted,
}
use sentinelix_backend.Supervisor.Following.{Distinct}

first-select-none {ℓ} :
    {A : Type ℓ} (p q : A → Bool) (xs : List A) → first p xs ≡ none → first p (select q xs) ≡ none
first-select-none p q [] h = refl
first-select-none p q (x ∷ xs) h = ground (arith, first-select-none p q xs)

abbrev of_project : ℕ → Monitor → Bool
of_project id m = m.project_id == id

cascade-none :
    (i id : ℕ) (m : Monitor) (ms : List Monitor)
    → Distinct ms
    → first (has_monitor_id i) ms ≡ some m
    → of_project id m ≡ true
    → first (has_monitor_id i) (select (λ x. not (of_project id x)) ms) ≡ none
cascade-none i id m [] d found own = refl
cascade-none i id m (x ∷ ms) d found own = elim (Bool-cases (has_monitor_id i x)) [
  | inl this ↦
      let same : x.id ≡ i = ground arith in
      let gone = first-select-none (has_monitor_id x.id) (λ y. not (of_project id y)) ms d.0 in
      let hit : some x ≡ some m = ground (arith, found, this) in
      let mine : of_project id x ≡ true = ground (arith, hit, own) in
      rw mine (
        ap (λ k. first (has_monitor_id k) (select (λ y. not (of_project id y)) ms)) (sym same)
        ∙ gone)
  | inr other ↦ ground (arith, other, found, own, cascade-none i id m ms d.1)
]

module _ (user id : ℕ) (p : Project) (w : World) where
  delete-effect :
      IsHealthy w
      → first (λ (x : Project). x.id == id) w.projects ≡ some p
      → (p.user_id == user) ≡ true
      → let v = (Projects.delete user id w).1 in
        (v.sent ≡ w.sent) × (v.monitors ≡ select (λ x. not (of_project id x)) w.monitors)
  unfolding Projects.delete owned_project write_audit_log ProjectTable.get_by_id ProjectTable.delete
      ProjectTable.create_audit_log
  delete-effect h found own =
      ground (arith, h.up w.calls, h.up (suc w.calls), h.up (suc (suc w.calls)), found, own)

  -- Where no call fails and the identifiers of the monitors differ: after its owner deleted a project,
  -- with every message delivered, a monitor of the project is stored no more, and its checker runs on.
  pub checker_outlives_project :
      (i : ℕ) (m : Monitor) (s : Supervisor)
      → Followed s w
      → Distinct w.monitors
      → first (λ (x : Project). x.id == id) w.projects ≡ some p
      → (p.user_id == user) ≡ true
      → stored_monitor i w ≡ some m
      → (m.project_id == id) ≡ true
      → let v = (Projects.delete user id w).1 in
        (stored_monitor i v ≡ none)
        × (map checked_config (checkers i (deliver (published w v) s v).0.goroutines)
            ≡ config m ∷ [])
  checker_outlives_project i m s before d found own stored of =
      let v = (Projects.delete user id w).1 in
      let e = delete-effect before.healthy found own in
      let silent = published-none w v e.0 in
      (
        ap (first (has_monitor_id i)) e.1 ∙ cascade-none i id m w.monitors d stored of,
        rw silent (before.tracks i ∙ ap wanted stored),
      )
