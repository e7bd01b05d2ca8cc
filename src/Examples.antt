-- ===== src/Examples.antt =====
-- Concrete worlds for the theorems: a quiet one, in which no call fails, and some that break.
pub mod Accounts
pub mod Workers
pub mod Limits
pub mod Api
pub mod Alerting
pub mod Uptime
pub mod Sessions
pub mod Stream
pub mod Tenants
pub mod Pages
pub mod Rooms
pub mod Wiring
use sentinelix_backend.Base.{
  ℕ, ◌≡◌, refl, ◌*◌, ◌^◌, Bool, true, false, Option, none, some, List, [], ◌∷◌, any_of, ◌==◌,
}
use sentinelix_backend.Base.Int.{pos}
use sentinelix_backend.Domain.Alert.{AlertRule, AlertLog}
use sentinelix_backend.Domain.Event.{Event, Issue, nil}
use sentinelix_backend.Domain.Monitor.{Monitor}
use sentinelix_backend.World.{World, IsHealthy}
use sentinelix_backend.Notifier.Requests.{MultiNotifier}

abbrev pub resend : MultiNotifier
resend = record {
  resend_api_key = "re_key";
  email_from = "alerts@a.example";
  decimal = λ n. "2";
  rfc3339 = λ t. "1970-01-01T00:00:00Z";
}

-- The calls with these numbers fail.
abbrev pub breaking : List ℕ → World
breaking calls = record {
  outage = λ n. any_of (λ k. k == n) calls;
  calls = 0;
  http_status = λ n. 200;
  now = 10 ^ 12;
  serial = 100;
  users = [];
  projects = [];
  issues = [];
  events = [];
  rules = [];
  alert_logs = [];
  monitors = [];
  checks = [];
  tokens = [];
  audit_logs = [];
  cache = [];
  counters = [];
  stream = record { backlog = []; pending = []; dlq = [] };
  sent = [];
  notifier = resend;
  requests = [];
}

abbrev pub quiet : World
quiet = breaking []

pub quiet-IsHealthy : IsHealthy quiet
quiet-IsHealthy = record { up = λ n. refl; accepted = λ n. refl }

abbrev pub rule : AlertRule
rule = record {
  id = 7;
  project_id = 1;
  condition_type = "new_issue";
  threshold = pos 0;
  window_minutes = pos 5;
  cooldown_minutes = pos 30;
  channel = "slack";
  channel_target = "https://hooks.slack.com/x";
  created_at = 0;
}

abbrev pub issue : Issue
issue = record {
  id = 9;
  project_id = 1;
  fingerprint = "f";
  title = "boom";
  level = "error";
  status = "unresolved";
  first_seen = 5;
  last_seen = 5;
  count = 1;
}

abbrev pub log : AlertLog
log = record { id = 8; alert_rule_id = 7; issue_id = 9; sent_at = 10 ^ 12 }

abbrev pub boom : Event
boom = record {
  id = none;
  issue_id = none;
  project_id = 1;
  level = "error";
  message = "boom";
  stack_trace = "main.go:3";
  context = nil;
  occurred_at = 5;
}

abbrev pub site : Monitor
site = record {
  id = 3;
  project_id = 1;
  url = "https://a.example";
  name = some "";
  interval_sec = pos 60;
  channel = "email";
  channel_target = "ops@a.example";
  failure_threshold = pos 2;
  status = "up";
  created_at = 0;
}
