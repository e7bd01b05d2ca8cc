-- ===== src/Http/Rules.antt =====
-- internal/delivery/http/handler_alert.go. A time in an answer is not formatted.
use sentinelix_backend.Base.{ℕ, String, Option, map}
use sentinelix_backend.Base.Int.{ℤ, pos, negsuc}
use sentinelix_backend.Domain.Errors.{
  Error, ok, alert_rule_not_found, project_not_found, forbidden, condition_type_invalid,
  alert_channel_invalid, threshold_invalid, window_minutes_invalid, cooldown_minutes_invalid,
  alert_channel_target_required,
}
use sentinelix_backend.Domain.Alert.{AlertRule}
use sentinelix_backend.World.{Act, ◌>>=◌}
use sentinelix_backend.Dashboard.Rules
use sentinelix_backend.Dashboard.Rules.{CreateAlertRuleInput, UpdateAlertRuleInput, new_rule}
use sentinelix_backend.Http.{
  Response, Handler, AlertRuleResponse, write_json, write_error, authenticated, decoded, answer,
  no_content, rule_detail, rule_list,
}

pub record CreateAlertRuleRequest : Type 0 where
  pub condition_type : String
  pub threshold : ℤ
  pub window_minutes : ℤ
  pub cooldown_minutes : ℤ
  pub channel : String
  pub channel_target : String

abbrev pub to_alert_rule_response : AlertRule → AlertRuleResponse
to_alert_rule_response r = record {
  id = r.id;
  project_id = r.project_id;
  condition_type = r.condition_type;
  threshold = r.threshold;
  window_minutes = r.window_minutes;
  cooldown_minutes = r.cooldown_minutes;
  channel = r.channel;
  channel_target = r.channel_target;
  created_at = r.created_at;
}

-- `if req.CooldownMinutes == 0`
unfoldable pub default_cooldown : ℤ → ℤ
default_cooldown (pos ℕ.zero) = pos 60
default_cooldown (pos (ℕ.suc n)) = pos (ℕ.suc n)
default_cooldown (negsuc n) = negsuc n

abbrev pub create_input : ℕ → CreateAlertRuleRequest → CreateAlertRuleInput
unfolding default_cooldown
create_input project req = record {
  project_id = project;
  condition_type = req.condition_type;
  threshold = req.threshold;
  window_minutes = req.window_minutes;
  cooldown_minutes = default_cooldown req.cooldown_minutes;
  channel = req.channel;
  channel_target = req.channel_target;
}

-- The rule with the columns that the insertion returned.
abbrev pub created_rule : ℕ → CreateAlertRuleInput → Act AlertRule
created_rule user input = Rules.create user input >>= λ id.
    λ w. (ok (record (new_rule input) { id = id; created_at = w.now }), w)

abbrev pub create_error : Error → Response
create_error project_not_found = write_error 404 "PROJECT_NOT_FOUND"
create_error forbidden = write_error 403 "FORBIDDEN"
create_error condition_type_invalid = write_error 400 "VALIDATION_ERROR"
create_error alert_channel_invalid = write_error 400 "VALIDATION_ERROR"
create_error threshold_invalid = write_error 400 "VALIDATION_ERROR"
create_error window_minutes_invalid = write_error 400 "VALIDATION_ERROR"
create_error cooldown_minutes_invalid = write_error 400 "VALIDATION_ERROR"
create_error alert_channel_target_required = write_error 400 "VALIDATION_ERROR"
create_error _ = write_error 500 "INTERNAL_ERROR"

unfoldable pub create : Option ℕ → ℕ → Option CreateAlertRuleRequest → Handler
unfolding default_cooldown
create user project body = authenticated user λ id. decoded body λ req.
    answer create_error (λ r. write_json 201 (rule_detail (to_alert_rule_response r)))
      (created_rule id (create_input project req))

abbrev pub list_error : Error → Response
list_error project_not_found = write_error 404 "PROJECT_NOT_FOUND"
list_error forbidden = write_error 403 "FORBIDDEN"
list_error _ = write_error 500 "INTERNAL_ERROR"

unfoldable pub list : Option ℕ → ℕ → Handler
list user project = authenticated user λ id.
    answer list_error (λ rs. write_json 200 (rule_list (map to_alert_rule_response rs)))
      (Rules.list id project)

abbrev pub update_error : Error → Response
update_error alert_rule_not_found = write_error 404 "ALERT_RULE_NOT_FOUND"
update_error e = create_error e

-- updateAlertRuleRequest has the fields of the use case's input.
unfoldable pub update : Option ℕ → ℕ → Option UpdateAlertRuleInput → Handler
update user rule body = authenticated user λ id. decoded body λ req.
    answer update_error (λ r. write_json 200 (rule_detail (to_alert_rule_response r)))
      (Rules.update id rule req)

abbrev pub delete_error : Error → Response
delete_error alert_rule_not_found = write_error 404 "ALERT_RULE_NOT_FOUND"
delete_error project_not_found = write_error 404 "PROJECT_NOT_FOUND"
delete_error forbidden = write_error 403 "FORBIDDEN"
delete_error _ = write_error 500 "INTERNAL_ERROR"

unfoldable pub delete : Option ℕ → ℕ → Handler
delete user rule =
    authenticated user
      λ id. answer delete_error (λ u. write_json 204 no_content) (Rules.delete id rule)
