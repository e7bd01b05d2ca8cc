-- ===== src/Dashboard/Rules.antt =====
-- internal/usecase/alert_rule.go.
use sentinelix_backend.Base.{ℕ, String, Bool, Option, List, [], ◌∷◌, ◌++◌, if◌then◌else◌}
use sentinelix_backend.Base.Int.{ℤ}
use sentinelix_backend.Domain.Account.{
  alert_rule, alert_rule_created, alert_rule_updated, alert_rule_deleted,
}
use sentinelix_backend.Domain.Alert.{AlertRule, validate}
use sentinelix_backend.World.{Act, pure, lift, ◌>>=◌, ◌>>◌}
use sentinelix_backend.World.Alerts
use sentinelix_backend.Dashboard.{owned_project, write_audit_log, merge, present}

-- CreateAlertRuleInput, and the rule that is built from it.
pub record CreateAlertRuleInput : Type 0 where
  pub project_id : ℕ
  pub condition_type : String
  pub threshold : ℤ
  pub window_minutes : ℤ
  pub cooldown_minutes : ℤ
  pub channel : String
  pub channel_target : String

abbrev pub new_rule : CreateAlertRuleInput → AlertRule
new_rule input = record {
  id = 0;
  project_id = input.project_id;
  condition_type = input.condition_type;
  threshold = input.threshold;
  window_minutes = input.window_minutes;
  cooldown_minutes = input.cooldown_minutes;
  channel = input.channel;
  channel_target = input.channel_target;
  created_at = 0;
}

unfoldable pub create : ℕ → CreateAlertRuleInput → Act ℕ
create user input = do
  owned_project user input.project_id
  lift (validate (new_rule input))
  id ← Alerts.create (new_rule input)
  write_audit_log user alert_rule_created alert_rule id
      ("condition_type" ∷ "threshold" ∷ "channel" ∷ [])
  pure id

unfoldable pub list : ℕ → ℕ → Act (List AlertRule)
list user project = do owned_project user project; Alerts.list_by_project_id project

unfoldable pub get_owned_alert_rule : ℕ → ℕ → Act AlertRule
get_owned_alert_rule user id = do
  rule ← Alerts.get_by_id id
  owned_project user rule.project_id
  pure rule

pub record UpdateAlertRuleInput : Type 0 where
  pub condition_type : Option String
  pub threshold : Option ℤ
  pub window_minutes : Option ℤ
  pub cooldown_minutes : Option ℤ
  pub channel : Option String
  pub channel_target : Option String

abbrev pub merge_rule : UpdateAlertRuleInput → AlertRule → AlertRule
merge_rule input rule = record rule {
  condition_type = merge input.condition_type rule.condition_type;
  threshold = merge input.threshold rule.threshold;
  window_minutes = merge input.window_minutes rule.window_minutes;
  cooldown_minutes = merge input.cooldown_minutes rule.cooldown_minutes;
  channel = merge input.channel rule.channel;
  channel_target = merge input.channel_target rule.channel_target;
}

abbrev named : Bool → String → List String
named present key = if present then key ∷ [] else []

abbrev pub changed_fields : UpdateAlertRuleInput → List String
changed_fields input =
    named (present input.condition_type) "condition_type"
    ++ named (present input.threshold) "threshold"
    ++ named (present input.window_minutes) "window_minutes"
    ++ named (present input.cooldown_minutes) "cooldown_minutes"
    ++ named (present input.channel) "channel"
    ++ named (present input.channel_target) "channel_target"

-- The part of Update behind the ownership check.
unfoldable pub update_owned : ℕ → UpdateAlertRuleInput → AlertRule → Act AlertRule
update_owned user input rule = do
  lift (validate (merge_rule input rule))
  Alerts.update (merge_rule input rule)
  write_audit_log user alert_rule_updated alert_rule rule.id (changed_fields input)
  pure (merge_rule input rule)

unfoldable pub update : ℕ → ℕ → UpdateAlertRuleInput → Act AlertRule
update user id input = do rule ← get_owned_alert_rule user id; update_owned user input rule

unfoldable pub delete : ℕ → ℕ → Act (Unit {0})
delete user id = do
  rule ← get_owned_alert_rule user id
  Alerts.delete id
  write_audit_log user alert_rule_deleted alert_rule rule.id
      ("condition_type" ∷ "threshold" ∷ "channel" ∷ [])
