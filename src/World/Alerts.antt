-- ===== src/World/Alerts.antt =====
-- internal/repository/postgres/alert_repo.go.
use sentinelix_backend.Base.{
  ℕ, Bool, not, ◌&&◌, Option, none, some, List, [], ◌∷◌, ◌==◌, str_eq, first, select, update_where,
  order_desc,
}
use sentinelix_backend.Domain.Errors.{ok, alert_rule_not_found}
use sentinelix_backend.Domain.Alert.{AlertRule, AlertLog}
use sentinelix_backend.World.{Act, query, exec, insert, trip}
use sentinelix_backend.World.Projects.{or_fail}

unfoldable pub create : AlertRule → Act ℕ
unfolding trip
create r = insert λ id w. record w { rules = record r { id = id; created_at = w.now } ∷ w.rules }

unfoldable pub get_by_id : ℕ → Act AlertRule
unfolding trip
get_by_id id =
    query λ w. or_fail (first (λ (r : AlertRule). r.id == id) w.rules) alert_rule_not_found

unfoldable pub list_by_project_id : ℕ → Act (List AlertRule)
unfolding trip
list_by_project_id p = query λ w. ok (select (λ (r : AlertRule). r.project_id == p) w.rules)

unfoldable pub list_active_new_issue_rules : ℕ → Act (List AlertRule)
unfolding trip
list_active_new_issue_rules p = query λ w.
    ok
      (select (λ (r : AlertRule). r.project_id == p && str_eq r.condition_type "new_issue") w.rules)

unfoldable pub list_active_threshold_rules : Act (List AlertRule)
unfolding trip
list_active_threshold_rules =
    query λ w. ok (select (λ (r : AlertRule). str_eq r.condition_type "threshold") w.rules)

-- UPDATE … WHERE id = $1: the columns of the statement.
abbrev pub set_columns : AlertRule → AlertRule → AlertRule
set_columns new old = record old {
  condition_type = new.condition_type;
  threshold = new.threshold;
  window_minutes = new.window_minutes;
  cooldown_minutes = new.cooldown_minutes;
  channel = new.channel;
  channel_target = new.channel_target;
}

unfoldable pub update : AlertRule → Act (Unit {0})
unfolding trip
update r =
    exec λ w. record w {
      rules = update_where (λ (x : AlertRule). x.id == r.id) (set_columns r) w.rules;
    }

-- DELETE, with the cascade to alert_logs.
unfoldable pub delete : ℕ → Act (Unit {0})
unfolding trip
delete id = exec λ w. record w {
  rules = select (λ (x : AlertRule). not (x.id == id)) w.rules;
  alert_logs = select (λ (l : AlertLog). not (l.alert_rule_id == id)) w.alert_logs;
}

-- AlertLogRepository.Create: `sent_at` is the database's now().
unfoldable pub create_log : ℕ → ℕ → Act ℕ
unfolding trip
create_log rule issue = insert λ id w. record w {
  alert_logs =
      record { id = id; alert_rule_id = rule; issue_id = issue; sent_at = w.now } ∷ w.alert_logs;
}

abbrev pub about : ℕ → ℕ → AlertLog → Bool
about rule issue l = l.alert_rule_id == rule && l.issue_id == issue

abbrev pub head_sent_at : List AlertLog → Option ℕ
head_sent_at [] = none
head_sent_at (l ∷ rest) = some l.sent_at

-- ORDER BY sent_at DESC LIMIT 1
unfoldable pub last_sent : ℕ → ℕ → List AlertLog → Option ℕ
last_sent rule issue logs =
    head_sent_at (order_desc (λ (l : AlertLog). l.sent_at) (select (about rule issue) logs))

unfoldable pub get_last_sent_at : ℕ → ℕ → Act (Option ℕ)
unfolding trip
get_last_sent_at rule issue = query λ w. ok (last_sent rule issue w.alert_logs)
