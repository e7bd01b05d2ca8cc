-- ===== src/Domain/Alert.antt =====
-- internal/domain/alert.go.
use sentinelix_backend.Base.{ℕ, String, Bool, not, ◌||◌, str_eq}
use sentinelix_backend.Base.Int.{ℤ, pos, ltb_ℤ}
use sentinelix_backend.Domain.Errors.{
  Result, require, condition_type_invalid, alert_channel_invalid, alert_channel_target_required,
  window_minutes_invalid, cooldown_minutes_invalid, ◌>>◌,
}

pub record AlertRule : Type 0 where
  pub id : ℕ
  pub project_id : ℕ
  pub condition_type : String
  pub threshold : ℤ
  pub window_minutes : ℤ
  pub cooldown_minutes : ℤ
  pub channel : String
  pub channel_target : String
  pub created_at : ℕ

pub record AlertLog : Type 0 where
  pub id : ℕ
  pub alert_rule_id : ℕ
  pub issue_id : ℕ
  pub sent_at : ℕ

unfoldable pub known_channel : String → Bool
known_channel c = str_eq c "email" || str_eq c "slack"

unfoldable pub known_condition : String → Bool
known_condition c = str_eq c "new_issue" || str_eq c "threshold"

-- AlertRule.Validate
unfoldable pub validate : AlertRule → Result (Unit {0})
unfolding known_channel known_condition
validate r = do
  require (known_condition r.condition_type) condition_type_invalid
  require (known_channel r.channel) alert_channel_invalid
  require (not (str_eq r.channel_target "")) alert_channel_target_required
  require (not (str_eq r.condition_type "threshold") || ltb_ℤ (pos 0) r.window_minutes)
      window_minutes_invalid
  require (ltb_ℤ (pos 0) r.cooldown_minutes) cooldown_minutes_invalid
