-- ===== src/World/Projects.antt =====
-- internal/repository/postgres/project_repo.go, user_repo.go and audit_log_repo.go.
use sentinelix_backend.Base.{
  ℕ, suc, String, Bool, not, Option, none, some, List, ◌∷◌, ◌==◌, str_eq, first, any_of, select,
  order_desc,
}
use sentinelix_backend.Domain.Errors.{Result, ok, err, Error, project_not_found, other}
use sentinelix_backend.Domain.Account.{Project, Action, ResourceType}
use sentinelix_backend.Domain.Alert.{AlertRule, AlertLog}
use sentinelix_backend.Domain.Event.{Issue}
use sentinelix_backend.Domain.Monitor.{Monitor, MonitorCheck}
use sentinelix_backend.World.{Act, query, exec, insert, trip, ◌>>◌}

abbrev pub or_fail {ℓ} : {A : Type ℓ} → Option A → Error → Result A
or_fail none e = err e
or_fail (some a) e = ok a

unfoldable pub get_by_api_key_hash : String → Act Project
unfolding trip
get_by_api_key_hash h =
    query
      λ w. or_fail (first (λ (p : Project). str_eq p.api_key_hash h) w.projects) project_not_found

unfoldable pub get_by_id : ℕ → Act Project
unfolding trip
get_by_id id = query λ w. or_fail (first (λ (p : Project). p.id == id) w.projects) project_not_found

-- The identifier and the creation time of the argument are not read. The column slug is UNIQUE.
unfoldable pub create : Project → Act ℕ
unfolding trip
create p = trip >> λ w. elim (first (λ (x : Project). str_eq x.slug p.slug) w.projects) [
  | some x ↦ (err other, w)
  | none ↦ (
    ok w.serial,
    record w {
      serial = suc w.serial;
      projects = record p { id = w.serial; created_at = w.now } ∷ w.projects;
    },
  )
]

unfoldable pub list_by_user_id : ℕ → Act (List Project)
unfolding trip
list_by_user_id u = query λ w. ok (
    order_desc (λ (p : Project). p.created_at)
      (select (λ (p : Project). p.user_id == u) w.projects))

-- DELETE, with the cascades of the schema: issues, rules with their logs, monitors with their checks.
abbrev pub rule_of : List AlertRule → AlertLog → Bool
rule_of rules l = any_of (λ (r : AlertRule). r.id == l.alert_rule_id) rules

abbrev pub monitor_of : List Monitor → MonitorCheck → Bool
monitor_of monitors c = any_of (λ (m : Monitor). m.id == c.monitor_id) monitors

unfoldable pub delete : ℕ → Act (Unit {0})
unfolding trip
delete id = exec λ w.
    let rules = select (λ (r : AlertRule). not (r.project_id == id)) w.rules in
    let monitors = select (λ (m : Monitor). not (m.project_id == id)) w.monitors in
    record w {
      projects = select (λ (p : Project). not (p.id == id)) w.projects;
      issues = select (λ (i : Issue). not (i.project_id == id)) w.issues;
      rules = rules;
      alert_logs = select (rule_of rules) w.alert_logs;
      monitors = monitors;
      checks = select (monitor_of monitors) w.checks;
    }

-- AuditLogRepository.Create
unfoldable pub create_audit_log : ℕ → Action → ResourceType → ℕ → List String → Act ℕ
unfolding trip
create_audit_log actor action kind resource metadata = insert λ id w. record w {
  audit_logs =
      record {
        id = id;
        actor_user_id = actor;
        action = action;
        resource_type = kind;
        resource_id = resource;
        metadata = metadata;
        created_at = w.now;
      }
      ∷ w.audit_logs;
}
