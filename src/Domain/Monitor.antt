-- ===== src/Domain/Monitor.antt =====
-- internal/domain/monitor.go. What url.Parse makes of a text is an argument, `scheme`: `none`
-- where it returns an error.
use sentinelix_backend.Base.{
  ℕ, String, Bool, false, not, ◌||◌, Option, none, some, str_eq, if◌then◌else◌,
}
use sentinelix_backend.Base.Int.{ℤ, pos, ltb_ℤ, leb_ℤ}
use sentinelix_backend.Domain.Errors.{
  Result, require, url_required, url_invalid, interval_invalid, monitor_channel_invalid,
  monitor_channel_target_required, failure_threshold_invalid, ◌>>◌,
}
use sentinelix_backend.Domain.Alert.{known_channel}

pub record Monitor : Type 0 where
  pub id : ℕ
  pub project_id : ℕ
  pub url : String
  -- `none` where the column is NULL; the struct then has the empty text
  pub name : Option String
  pub interval_sec : ℤ
  pub channel : String
  pub channel_target : String
  pub failure_threshold : ℤ
  pub status : String
  pub created_at : ℕ

pub record MonitorCheck : Type 0 where
  pub id : ℕ
  pub monitor_id : ℕ
  pub status_code : ℕ
  pub latency_ms : ℕ
  pub is_up : Bool
  pub checked_at : ℕ

abbrev pub status_unknown : String
status_unknown = "unknown"

abbrev pub status_up : String
status_up = "up"

abbrev pub status_down : String
status_down = "down"

abbrev pub min_interval_sec : ℤ
min_interval_sec = pos 60

abbrev pub text_of : Option String → String
text_of none = ""
text_of (some s) = s

abbrev pub name_of : Monitor → String
name_of m = text_of m.name

-- Monitor.DisplayName
unfoldable pub display_name : Monitor → String
display_name m = if str_eq (name_of m) "" then m.url else name_of m

unfoldable pub http_scheme : Option String → Bool
http_scheme none = false
http_scheme (some s) = str_eq s "http" || str_eq s "https"

module _ (scheme : String → Option String) where
  -- Monitor.Validate, with validateMonitorURL
  unfoldable pub validate : Monitor → Result (Unit {0})
  unfolding known_channel http_scheme
  validate m = do
    require (not (str_eq m.url "")) url_required
    require (http_scheme (scheme m.url)) url_invalid
    require (leb_ℤ min_interval_sec m.interval_sec) interval_invalid
    require (known_channel m.channel) monitor_channel_invalid
    require (not (str_eq m.channel_target "")) monitor_channel_target_required
    require (ltb_ℤ (pos 0) m.failure_threshold) failure_threshold_invalid
