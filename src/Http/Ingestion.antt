-- ===== src/Http/Ingestion.antt =====
-- internal/delivery/http/handler_ingest.go.
use sentinelix_backend.Base.{String, Bool, str_eq, if◌then◌else◌}
use sentinelix_backend.Domain.Account.{Project}
use sentinelix_backend.Domain.Errors.{
  Error, invalid_api_key, rate_limited, message_required, level_invalid, message_too_long,
  stack_trace_too_long, context_too_large,
}
use sentinelix_backend.Domain.Event.{Event, Context}
use sentinelix_backend.World.{Act}
use sentinelix_backend.Ingest.{ingest}
use sentinelix_backend.Http.{Response, Handler, write_json, write_error, reply, answer, accepted}

pub record IngestEventRequest : Type 0 where
  pub level : String
  pub message : String
  pub stack_trace : String
  pub context : Context

-- What decoding the body gives, read through a MaxBytesReader of 256 KB.
pub data Payload : Type 0 where
  too_large malformed : Payload
  event : IngestEventRequest → Payload

abbrev pub ingest_error : Error → Response
ingest_error invalid_api_key = write_error 401 "INVALID_API_KEY"
ingest_error rate_limited = write_error 429 "RATE_LIMITED"
ingest_error message_required = write_error 400 "INVALID_PAYLOAD"
ingest_error level_invalid = write_error 400 "INVALID_PAYLOAD"
ingest_error message_too_long = write_error 400 "INVALID_PAYLOAD"
ingest_error stack_trace_too_long = write_error 400 "INVALID_PAYLOAD"
ingest_error context_too_large = write_error 400 "INVALID_PAYLOAD"
ingest_error _ = write_error 500 "INTERNAL_ERROR"

module _ (sha256_hex : String → String) (limiter : String → Act Bool) (find : String → Act Project)
    (push : Event → Act (Unit {0})) where
  abbrev pub handle_payload : String → Payload → Handler
  handle_payload raw_key too_large = reply (write_error 413 "PAYLOAD_TOO_LARGE")
  handle_payload raw_key malformed = reply (write_error 400 "INVALID_BODY")
  handle_payload raw_key (event req) =
      answer ingest_error (λ u. write_json 202 accepted)
        (ingest sha256_hex limiter find push (record {
          raw_api_key = raw_key;
          level = req.level;
          message = req.message;
          stack_trace = req.stack_trace;
          context = req.context;
        }))

  -- An absent header is the empty string.
  unfoldable pub handle_ingest_event : String → Payload → Handler
  handle_ingest_event raw_key payload =
      let handled = handle_payload raw_key payload in
      if str_eq raw_key "" then reply (write_error 401 "UNAUTHORIZED") else handled
