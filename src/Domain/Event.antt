-- ===== src/Domain/Event.antt =====
-- internal/domain/event.go and issue.go.
use Prim.Native.String.{len}
use sentinelix_backend.Base.{ℕ, ◌*◌, String, Bool, not, ◌||◌, Option, leb, str_eq, if◌then◌else◌}
use sentinelix_backend.Domain.Errors.{
  Result, ok, err, require, message_required, level_invalid, message_too_long, stack_trace_too_long,
  context_too_large, other, ◌>>◌,
}

-- A `map[string]any`: nil, or what json.Marshal makes of it, a text or an error.
pub data Context : Type 0 where
  nil : Context
  marshals : String → Context
  unmarshalable : Context

pub record Event : Type 0 where
  pub id : Option ℕ
  pub issue_id : Option ℕ
  pub project_id : ℕ
  pub level : String
  pub message : String
  pub stack_trace : String
  pub context : Context
  pub occurred_at : ℕ

abbrev pub max_message_length : ℕ
max_message_length = 2000

abbrev pub max_stack_trace_length : ℕ
max_stack_trace_length = 20000

abbrev pub max_context_bytes : ℕ
max_context_bytes = 10 * 1024

unfoldable pub valid_level : String → Bool
valid_level l = str_eq l "error" || str_eq l "warning" || str_eq l "info"

unfoldable pub check_context : Context → Result (Unit {0})
check_context nil = ok tt
check_context (marshals s) = require (leb (len s) max_context_bytes) context_too_large
check_context unmarshalable = err other

unfoldable pub default_level : String → String
default_level l = if str_eq l "" then "error" else l

-- Event.Validate: the event with its default level, or the first failure.
unfoldable pub validate : Event → Result Event
unfolding check_context default_level valid_level
validate e = do
  require (not (str_eq e.message "")) message_required
  require (leb (len e.message) max_message_length) message_too_long
  require (leb (len e.stack_trace) max_stack_trace_length) stack_trace_too_long
  check_context e.context
  let level = default_level e.level
  require (valid_level level) level_invalid
  ok (record e { level = level })

pub record Issue : Type 0 where
  pub id : ℕ
  pub project_id : ℕ
  pub fingerprint : String
  pub title : String
  pub level : String
  pub status : String
  pub first_seen : ℕ
  pub last_seen : ℕ
  pub count : ℕ
