-- ===== src/Ingest.antt =====
-- internal/usecase/ingest_event.go, group_issue.go and pkg/apikey: from an API call to the queue,
-- and from the queue to an issue.
pub mod Grouping
pub mod Retry
pub mod Acceptance
pub mod Counts
pub mod Room
use sentinelix_backend.Base.{ℕ, String, ◌≡◌, Bool, true, false, Option, none, some, if◌then◌else◌}
use sentinelix_backend.Domain.Errors.{
  Result, ok, err, Error, project_not_found, invalid_api_key, rate_limited,
}
use sentinelix_backend.Domain.Account.{Project}
use sentinelix_backend.Domain.Event.{Event, Issue, Context, validate}
use sentinelix_backend.World.{World, Act, pure, fail, lift, attempt, ◌>>=◌, ◌>>◌}
use sentinelix_backend.World.Issues.{upsert, insert_event}
use sentinelix_backend.Fingerprint.{compute}

pub record IngestEventInput : Type 0 where
  pub raw_api_key : String
  pub level : String
  pub message : String
  pub stack_trace : String
  pub context : Context

-- The rate limiter fails open.
abbrev pub fail_open : Result Bool → Bool
fail_open (ok allowed) = allowed
fail_open (err e) = true

abbrev pub admit : Bool → Act (Unit {0})
admit true = pure tt
admit false = fail rate_limited

abbrev pub hide_project : Result Project → Result Project
hide_project (ok p) = ok p
hide_project (err project_not_found) = err invalid_api_key
hide_project (err e) = err e

module _ (sha256_hex : String → String) where
  -- IngestEventUsecase.Execute over its three interfaces: the limiter, the lookup and the queue.
  unfoldable pub ingest :
      (String → Act Bool)
      → (String → Act Project)
      → (Event → Act (Unit {0}))
      → IngestEventInput
      → Act (Unit {0})
  ingest limiter find push input = do
    allowed ← attempt (limiter (sha256_hex input.raw_api_key))
    admit (fail_open allowed)
    found ← attempt (find (sha256_hex input.raw_api_key))
    project ← lift (hide_project found)
    now ← λ w. (ok w.now, w)
    event ← lift (
        validate (record {
          id = none;
          issue_id = none;
          project_id = project.id;
          level = input.level;
          message = input.message;
          stack_trace = input.stack_trace;
          context = input.context;
          occurred_at = now;
        }))
    push event

  -- GroupIssueUsecase.Execute
  unfoldable pub group_issue : Event → Act (Issue × Bool)
  group_issue e = do
    found ←
        upsert e.project_id (compute sha256_hex e.message e.stack_trace) e.message e.level
          e.occurred_at
    insert_event (record e { issue_id = some found.0.id })
    pure found
