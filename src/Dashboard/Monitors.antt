-- ===== src/Dashboard/Monitors.antt =====
-- internal/usecase/monitor.go. The scheme of a URL is an argument, as in the monitor's validation.
use sentinelix_backend.Base.{some, ℕ, String, Option, none, List}
use sentinelix_backend.Base.Int.{ℤ}
use sentinelix_backend.Domain.Monitor.{name_of, Monitor, MonitorCheck, validate}
use sentinelix_backend.World.{Act, pure, lift, swallow, ◌>>=◌, ◌>>◌}
use sentinelix_backend.World.Monitors
use sentinelix_backend.Notifier.{publish}
use sentinelix_backend.Dashboard.{owned_project, merge}

pub record CreateMonitorInput : Type 0 where
  pub project_id : ℕ
  pub url : String
  pub name : String
  pub interval_sec : ℤ
  pub channel : String
  pub channel_target : String
  pub failure_threshold : ℤ

abbrev pub new_monitor : CreateMonitorInput → Monitor
new_monitor input = record {
  id = 0;
  project_id = input.project_id;
  url = input.url;
  name = some input.name;
  interval_sec = input.interval_sec;
  channel = input.channel;
  channel_target = input.channel_target;
  failure_threshold = input.failure_threshold;
  status = "";
  created_at = 0;
}

pub record UpdateMonitorInput : Type 0 where
  pub url : Option String
  pub name : Option String
  pub interval_sec : Option ℤ
  pub channel : Option String
  pub channel_target : Option String
  pub failure_threshold : Option ℤ

abbrev pub merge_monitor : UpdateMonitorInput → Monitor → Monitor
merge_monitor input m = record m {
  url = merge input.url m.url;
  name = some (merge input.name (name_of m));
  interval_sec = merge input.interval_sec m.interval_sec;
  channel = merge input.channel m.channel;
  channel_target = merge input.channel_target m.channel_target;
  failure_threshold = merge input.failure_threshold m.failure_threshold;
}

unfoldable pub get_owned_monitor : ℕ → ℕ → Act Monitor
get_owned_monitor user id = do m ← Monitors.get_by_id id; owned_project user m.project_id; pure m

unfoldable pub list : ℕ → ℕ → Act (List Monitor)
list user project = do owned_project user project; Monitors.list_by_project_id project

unfoldable pub delete : ℕ → ℕ → Act (Unit {0})
delete user id = do
  get_owned_monitor user id
  Monitors.delete id
  swallow (publish none "monitor.deleted" id)

unfoldable pub list_checks : ℕ → ℕ → Option ℕ → Option ℕ → Act (List MonitorCheck)
list_checks user id from to = do get_owned_monitor user id; Monitors.list_by_monitor_id id from to

module _ (scheme : String → Option String) where
  unfoldable pub create : ℕ → CreateMonitorInput → Act ℕ
  create user input = do
    owned_project user input.project_id
    lift (validate scheme (new_monitor input))
    id ← Monitors.create (new_monitor input)
    swallow (publish none "monitor.created" id)
    pure id

  -- The part of Update behind the ownership check.
  unfoldable pub update_owned : UpdateMonitorInput → Monitor → Act Monitor
  update_owned input m = do
    lift (validate scheme (merge_monitor input m))
    Monitors.update (merge_monitor input m)
    swallow (publish none "monitor.updated" m.id)
    pure (merge_monitor input m)

  unfoldable pub update : ℕ → ℕ → UpdateMonitorInput → Act Monitor
  update user id input = do m ← get_owned_monitor user id; update_owned input m
