-- ===== src/Http/Monitors.antt =====
-- internal/delivery/http/handler_monitor.go. A time in an answer is not formatted.
use sentinelix_backend.Base.{ℕ, String, Option, none, some, map, str_eq, if◌then◌else◌}
use sentinelix_backend.Base.Int.{ℤ, pos, negsuc}
use sentinelix_backend.Domain.Errors.{
  Result, ok, err, Error, monitor_not_found, project_not_found, forbidden, url_required,
  url_invalid, interval_invalid, monitor_channel_invalid, monitor_channel_target_required,
  failure_threshold_invalid, other,
}
use sentinelix_backend.Domain.Monitor.{name_of, Monitor, MonitorCheck, status_unknown}
use sentinelix_backend.World.{Act, ◌>>=◌}
use sentinelix_backend.Dashboard.Monitors
use sentinelix_backend.Dashboard.Monitors.{
  CreateMonitorInput, UpdateMonitorInput, new_monitor, get_owned_monitor,
}
use sentinelix_backend.Http.{
  Library, Response, Handler, MonitorResponse, MonitorCheckResponse, write_json, write_error, reply,
  authenticated, decoded, answer, no_content, monitor_detail, monitor_list, check_list,
}

pub record CreateMonitorRequest : Type 0 where
  pub url : String
  pub name : String
  pub interval_sec : ℤ
  pub channel : String
  pub channel_target : String
  pub failure_threshold : ℤ

abbrev pub to_monitor_response : Monitor → MonitorResponse
to_monitor_response m = record {
  id = m.id;
  project_id = m.project_id;
  url = m.url;
  name = name_of m;
  interval_sec = m.interval_sec;
  channel = m.channel;
  channel_target = m.channel_target;
  failure_threshold = m.failure_threshold;
  status = m.status;
  created_at = m.created_at;
}

unfoldable pub write_monitor_error : Error → Response
write_monitor_error monitor_not_found = write_error 404 "MONITOR_NOT_FOUND"
write_monitor_error project_not_found = write_error 404 "PROJECT_NOT_FOUND"
write_monitor_error forbidden = write_error 403 "FORBIDDEN"
write_monitor_error url_required = write_error 400 "VALIDATION_ERROR"
write_monitor_error url_invalid = write_error 400 "VALIDATION_ERROR"
write_monitor_error interval_invalid = write_error 400 "VALIDATION_ERROR"
write_monitor_error monitor_channel_invalid = write_error 400 "VALIDATION_ERROR"
write_monitor_error monitor_channel_target_required = write_error 400 "VALIDATION_ERROR"
write_monitor_error failure_threshold_invalid = write_error 400 "VALIDATION_ERROR"
write_monitor_error _ = write_error 500 "INTERNAL_ERROR"

abbrev pub default_failure_threshold : ℤ
default_failure_threshold = pos 3

-- `if req.FailureThreshold == 0`
unfoldable pub default_threshold : ℤ → ℤ
default_threshold (pos ℕ.zero) = default_failure_threshold
default_threshold (pos (ℕ.suc n)) = pos (ℕ.suc n)
default_threshold (negsuc n) = negsuc n

abbrev pub create_input : ℕ → CreateMonitorRequest → CreateMonitorInput
unfolding default_threshold
create_input project req = record {
  project_id = project;
  url = req.url;
  name = req.name;
  interval_sec = req.interval_sec;
  channel = req.channel;
  channel_target = req.channel_target;
  failure_threshold = default_threshold req.failure_threshold;
}

module _ (scheme : String → Option String) where
  -- The monitor with the columns that the insertion returned.
  abbrev pub created_monitor : ℕ → CreateMonitorInput → Act Monitor
  created_monitor user input = Monitors.create scheme user input >>= λ id. λ w.
      (ok (record (new_monitor input) { id = id; status = status_unknown; created_at = w.now }), w)

  unfoldable pub create : Option ℕ → ℕ → Option CreateMonitorRequest → Handler
  unfolding write_monitor_error default_threshold
  create user project body = authenticated user λ id. decoded body λ req.
      answer write_monitor_error (λ m. write_json 201 (monitor_detail (to_monitor_response m)))
        (created_monitor id (create_input project req))

  -- updateMonitorRequest has the fields of the use case's input.
  unfoldable pub update : Option ℕ → ℕ → Option UpdateMonitorInput → Handler
  unfolding write_monitor_error
  update user monitor body = authenticated user λ id. decoded body λ req.
      answer write_monitor_error (λ m. write_json 200 (monitor_detail (to_monitor_response m)))
        (Monitors.update scheme id monitor req)

unfoldable pub list : Option ℕ → ℕ → Handler
unfolding write_monitor_error
list user project = authenticated user λ id.
    answer write_monitor_error (λ ms. write_json 200 (monitor_list (map to_monitor_response ms)))
      (Monitors.list id project)

unfoldable pub get_by_id : Option ℕ → ℕ → Handler
unfolding write_monitor_error
get_by_id user monitor = authenticated user λ id.
    answer write_monitor_error (λ m. write_json 200 (monitor_detail (to_monitor_response m)))
      (get_owned_monitor id monitor)

unfoldable pub delete : Option ℕ → ℕ → Handler
unfolding write_monitor_error
delete user monitor =
    authenticated user
      λ id. answer write_monitor_error (λ u. write_json 204 no_content) (Monitors.delete id monitor)

abbrev pub to_check_response : MonitorCheck → MonitorCheckResponse
to_check_response c = record {
  id = c.id;
  status_code = c.status_code;
  latency_ms = c.latency_ms;
  is_up = c.is_up;
  checked_at = c.checked_at;
}

abbrev some_time : Option ℕ → Result (Option ℕ)
some_time none = err other
some_time (some t) = ok (some t)

module _ (lib : Library) where
  unfoldable pub parse_time_query : String → Result (Option ℕ)
  parse_time_query raw = if str_eq raw "" then ok none else some_time (lib.parse_rfc3339 raw)

  -- The answer to a bound that is no time.
  abbrev bounded : Result (Option ℕ) → (Option ℕ → Handler) → Handler
  bounded (err e) rest = reply (write_error 400 "INVALID_QUERY")
  bounded (ok bound) rest = rest bound

  unfoldable pub list_checks : Option ℕ → ℕ → String → String → Handler
  unfolding write_monitor_error parse_time_query
  list_checks user monitor from_query to_query = authenticated user λ id.
      bounded (parse_time_query from_query) λ from. bounded (parse_time_query to_query) λ to.
        answer write_monitor_error (λ cs. write_json 200 (check_list (map to_check_response cs)))
          (Monitors.list_checks id monitor from to)
