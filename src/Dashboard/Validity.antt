-- ===== src/Dashboard/Validity.antt =====
-- The tables hold validated rules and monitors only.
use sentinelix_backend.Base.{
  ℕ, String, Bool, true, not, ◌&&◌, ◌||◌, str_eq, ◌≡◌, List, [], ◌∷◌, arith, ◌==◌, All,
  update_where, Bool-cases, inl, inr,
}
use sentinelix_backend.Base.Int.{pos, ltb_ℤ}
use sentinelix_backend.Domain.Errors.{ok}
use sentinelix_backend.Domain.Account.{Action, ResourceType}
use sentinelix_backend.Domain.Alert.{AlertRule, known_channel, known_condition}
use sentinelix_backend.Domain.Alert
use sentinelix_backend.World.{World, trip}
use sentinelix_backend.World.Projects.{get_by_id, create_audit_log}
use sentinelix_backend.World.Alerts as AlertsTable
use sentinelix_backend.World.Alerts.{set_columns}
use sentinelix_backend.Dashboard.{owned_project, write_audit_log}
use sentinelix_backend.Dashboard.Keeps.{Keeps, bind-Keeps, checked-Keeps}
use sentinelix_backend.Dashboard.Rules
use sentinelix_backend.Dashboard.Rules.{
  CreateAlertRuleInput, UpdateAlertRuleInput, new_rule, merge_rule, get_owned_alert_rule,
}

-- What the API allows in a rule.
abbrev allowed : AlertRule → Bool
allowed r =
    (str_eq r.condition_type "new_issue" || str_eq r.condition_type "threshold")
    && (str_eq r.channel "email" || str_eq r.channel "slack")
    && not (str_eq r.channel_target "")
    && (not (str_eq r.condition_type "threshold") || ltb_ℤ (pos 0) r.window_minutes)
    && ltb_ℤ (pos 0) r.cooldown_minutes

abbrev IsValidRule : AlertRule → Type 0
IsValidRule r = allowed r ≡ true

validate-IsValidRule : (r : AlertRule) → Alert.validate r ≡ ok tt → IsValidRule r
unfolding Alert.validate known_channel known_condition
validate-IsValidRule r h = ground (arith, h)

pub record ValidRules (w : World) : Type 0 where
  pub valid : All IsValidRule w.rules

same_rules : (w v : World) → v.rules ≡ w.rules → ValidRules w → ValidRules v
same_rules w v e h = record { valid = rw e h.valid }

set_columns-IsValidRule :
    (r : AlertRule) (rules : List AlertRule)
    → IsValidRule r
    → All IsValidRule rules
    → All IsValidRule (update_where (λ (x : AlertRule). x.id == r.id) (set_columns r) rules)
set_columns-IsValidRule r [] v h = tt
set_columns-IsValidRule r (x ∷ rules) v h = elim (Bool-cases (x.id == r.id)) [
  | inl e ↦ (rw e v, set_columns-IsValidRule r rules v h.1)
  | inr e ↦ (rw e h.0, set_columns-IsValidRule r rules v h.1)
]

owned_project-rules : (user id : ℕ) → Keeps ValidRules (owned_project user id)
unfolding owned_project get_by_id trip
owned_project-rules user id w h = same_rules w (owned_project user id w).1 (ground arith) h

get_owned_alert_rule-rules : (user id : ℕ) → Keeps ValidRules (get_owned_alert_rule user id)
unfolding get_owned_alert_rule owned_project get_by_id AlertsTable.get_by_id trip
get_owned_alert_rule-rules user id w h =
    same_rules w (get_owned_alert_rule user id w).1 (ground arith) h

write_audit_log-rules :
    (actor : ℕ) (action : Action) (kind : ResourceType) (id : ℕ) (keys : List String)
    → Keeps ValidRules (write_audit_log actor action kind id keys)
unfolding write_audit_log create_audit_log trip
write_audit_log-rules actor action kind id keys w h =
    same_rules w (write_audit_log actor action kind id keys w).1 (ground arith) h

create-rules : (r : AlertRule) → IsValidRule r → Keeps ValidRules (AlertsTable.create r)
unfolding AlertsTable.create trip
create-rules r v w h = elim (Bool-cases (w.outage w.calls)) [
  | inl e ↦ rw e (record { valid = h.valid })
  | inr e ↦ rw e (record { valid = (v, h.valid) })
]

update-rules : (r : AlertRule) → IsValidRule r → Keeps ValidRules (AlertsTable.update r)
unfolding AlertsTable.update trip
update-rules r v w h = elim (Bool-cases (w.outage w.calls)) [
  | inl e ↦ rw e (record { valid = h.valid })
  | inr e ↦ rw e (record { valid = set_columns-IsValidRule r w.rules v h.valid })
]

-- Whoever creates or updates an alert rule, and whichever calls fail: if every stored rule is valid
-- before, every stored rule is valid after. A rule is valid if its condition is "new_issue" or
-- "threshold", its channel "email" or "slack" with a target, its cooldown more than 0 minutes and, for
-- "threshold", its window too.
pub rules_stay_valid :
    (user id : ℕ) (new : CreateAlertRuleInput) (change : UpdateAlertRuleInput) (w : World)
    → ValidRules w
    → ValidRules (Rules.create user new w).1 × ValidRules (Rules.update user id change w).1
unfolding Rules.create Rules.update Rules.update_owned
rules_stay_valid user id new change w h =
    let made =
      bind-Keeps ValidRules (owned_project user new.project_id) _
        (owned_project-rules user new.project_id)
        (λ p. checked-Keeps ValidRules (Alert.validate (new_rule new)) _ (λ v.
          bind-Keeps ValidRules (AlertsTable.create (new_rule new)) _
            (create-rules (new_rule new) (validate-IsValidRule (new_rule new) v))
            (λ i. bind-Keeps ValidRules _ _ (write_audit_log-rules user _ _ i _) (λ u x q. q)))) in
    let changed =
      bind-Keeps ValidRules (get_owned_alert_rule user id) _ (get_owned_alert_rule-rules user id)
        (λ r. checked-Keeps ValidRules (Alert.validate (merge_rule change r)) _ (λ v.
          bind-Keeps ValidRules (AlertsTable.update (merge_rule change r)) _
            (update-rules (merge_rule change r) (validate-IsValidRule (merge_rule change r) v))
            (λ i.
              bind-Keeps ValidRules _ _ (write_audit_log-rules user _ _ r.id _) (λ u x q. q)))) in
    (made w h, changed w h)
