-- ===== src/Examples/Tenants.antt =====
-- The theorems on the dashboard, the project cache and the status page at concrete inputs.
use sentinelix_backend.Base.{◌^◌, ◌≡◌, refl, none, some, [], ◌∷◌}
use sentinelix_backend.Base.Int.{pos}
use sentinelix_backend.Domain.Errors.{ok}
use sentinelix_backend.Domain.Account.{Project}
use sentinelix_backend.Domain.Alert
use sentinelix_backend.Domain.Monitor
use sentinelix_backend.World.{World, Cached, IsHealthy}
use sentinelix_backend.World.Cache.{find_cached}
use sentinelix_backend.Dashboard.Rules
use sentinelix_backend.Dashboard.Rules.{CreateAlertRuleInput, UpdateAlertRuleInput}
use sentinelix_backend.Dashboard.Monitors
use sentinelix_backend.Dashboard.Monitors.{
  CreateMonitorInput, UpdateMonitorInput, get_owned_monitor,
}
use sentinelix_backend.Dashboard.Issues
use sentinelix_backend.Dashboard.Issues.{get_owned_issue}
use sentinelix_backend.Dashboard.Projects
use sentinelix_backend.Dashboard.Ownership.{
  Refused, rules_private, monitors_private, issues_private,
}
use sentinelix_backend.Dashboard.Validity.{ValidRules, rules_stay_valid}
use sentinelix_backend.Dashboard.MonitorValidity.{ValidMonitors, monitors_stay_valid}
use sentinelix_backend.Dashboard.Caching.{with_id, delete_leaves_key}
use sentinelix_backend.Examples.{quiet, rule, issue, site}

abbrev pub owned : Project
owned = record {
  id = 1;
  user_id = 2;
  name = "shop";
  slug = "shop-a1b2c3";
  api_key_hash = "hash";
  created_at = 0;
}

abbrev pub entry : Cached
entry = record { key_hash = "hash"; project = owned; expires_at = 10 ^ 13 }

abbrev pub shop : World
shop = record quiet {
  projects = owned ∷ [];
  rules = rule ∷ [];
  monitors = site ∷ [];
  issues = issue ∷ [];
  cache = entry ∷ [];
}

pub shop-IsHealthy : IsHealthy shop
shop-IsHealthy = record { up = λ n. refl; accepted = λ n. refl }

abbrev new_rule_input : CreateAlertRuleInput
new_rule_input = record {
  project_id = 1;
  condition_type = "new_issue";
  threshold = pos 0;
  window_minutes = pos 0;
  cooldown_minutes = pos 60;
  channel = "email";
  channel_target = "ops@a.example";
}

abbrev rule_change : UpdateAlertRuleInput
rule_change = record {
  condition_type = none;
  threshold = none;
  window_minutes = none;
  cooldown_minutes = some (pos 0);
  channel = none;
  channel_target = none;
}

abbrev pub new_monitor_input : CreateMonitorInput
new_monitor_input = record {
  project_id = 1;
  url = "https://a.example";
  name = "";
  interval_sec = pos 60;
  channel = "email";
  channel_target = "ops@a.example";
  failure_threshold = pos 2;
}

abbrev pub monitor_change : UpdateMonitorInput
monitor_change = record {
  url = none;
  name = some "A";
  interval_sec = none;
  channel = none;
  channel_target = none;
  failure_threshold = none;
}

rules_private_example :
    Refused shop (Rules.create 3 new_rule_input shop)
    × Refused shop (Rules.list 3 1 shop)
    × Refused shop (Rules.update 3 7 rule_change shop)
    × Refused shop (Rules.delete 3 7 shop)
rules_private_example = rules_private 3 7 1 new_rule_input rule_change shop refl refl refl

monitors_private_example :
    Refused shop (Monitors.create (λ s. some "https") 3 new_monitor_input shop)
    × Refused shop (Monitors.list 3 1 shop)
    × Refused shop (get_owned_monitor 3 3 shop)
    × Refused shop (Monitors.update (λ s. some "https") 3 3 monitor_change shop)
    × Refused shop (Monitors.delete 3 3 shop)
    × Refused shop (Monitors.list_checks 3 3 none none shop)
monitors_private_example =
    monitors_private (λ s. some "https") 3 3 1 none none new_monitor_input monitor_change shop refl
      refl refl

issues_private_example :
    Refused shop (Issues.list 3 1 "" 1 20 shop)
    × Refused shop (get_owned_issue 3 9 shop)
    × Refused shop (Issues.list_events 3 9 (pos 10) shop)
    × Refused shop (Projects.verify_ownership 3 1 shop)
    × Refused shop (Projects.delete 3 1 shop)
issues_private_example = issues_private 3 9 1 1 20 "" (pos 10) shop refl refl

shop-ValidRules : ValidRules shop
unfolding Alert.validate
shop-ValidRules = record { valid = (refl, tt) }

rules_stay_valid_example :
    ValidRules (Rules.create 2 new_rule_input shop).1
    × ValidRules (Rules.update 2 7 rule_change shop).1
rules_stay_valid_example = rules_stay_valid 2 7 new_rule_input rule_change shop shop-ValidRules

delete_leaves_key_example :
    (with_id 1 (Projects.delete 2 1 shop).1.projects ≡ none)
    × ((find_cached "hash" (Projects.delete 2 1 shop).1).0 ≡ ok owned)
delete_leaves_key_example =
    delete_leaves_key 2 1 "hash" owned entry shop shop-IsHealthy refl refl refl

shop-ValidMonitors : ValidMonitors (λ s. some "https") shop
unfolding Monitor.validate
shop-ValidMonitors = record { valid = (refl, tt) }

monitors_stay_valid_example :
    ValidMonitors
      (λ s. some "https")
      (Monitors.create (λ s. some "https") 2 new_monitor_input shop).1
    × ValidMonitors
        (λ s. some "https")
        (Monitors.update (λ s. some "https") 2 3 monitor_change shop).1
monitors_stay_valid_example =
    monitors_stay_valid (λ s. some "https") 2 3 new_monitor_input monitor_change shop
      shop-ValidMonitors
