-- ===== src/Http.antt =====
-- internal/delivery/http: the JSON API. A request comes as chi and encoding/json deliver it, with
-- path parameters that are identifiers and a body that is decoded or not; an answer is its status,
-- its body before encoding, without the wording of a message, and the cookies it sets.
-- What the code takes from Go's library and the JWT package is the argument `lib`.
pub mod Middleware
pub mod Sessions
pub mod Projects
pub mod Issues
pub mod Rules
pub mod Monitors
pub mod Ingestion
pub mod Router
pub mod Cookies
pub mod Access
pub mod Isolation
use sentinelix_backend.Base.{ℕ, String, Bool, Option, none, some, List, []}
use sentinelix_backend.Base.Int.{ℤ}
use sentinelix_backend.Domain.Errors.{Result, ok, err, Error}
use sentinelix_backend.Domain.Event.{Context}
use sentinelix_backend.World.{World, Act}
use sentinelix_backend.Dashboard.Projects.{CreateProjectOutput, ProjectSummary}

pub record Library : Type 0 where
  -- strconv.Atoi, time.Parse(time.RFC3339, …) and the host of net.SplitHostPort; `none` is an error
  pub atoi : String → Option ℤ
  pub parse_rfc3339 : String → Option ℕ
  pub split_host_port : String → Option String
  -- jwt.ParseWithClaims at a time: the claimed user, and `token.Valid`
  pub parse_with_claims : ℕ → String → Option (ℕ × Bool)
  -- Upgrade, by what CheckOrigin said: `none` where the connection is a WebSocket from then on,
  -- else the status that the library answered
  pub upgrade : Bool → Option ℕ

pub data SameSite : Type 0 where
  lax_mode none_mode : SameSite

pub record Cookie : Type 0 where
  pub name : String
  pub value : String
  pub path : String
  pub http_only : Bool
  pub secure : Bool
  pub same_site : SameSite
  pub max_age : ℤ

pub record IssueResponse : Type 0 where
  pub id : ℕ
  pub title : String
  pub level : String
  pub status : String
  pub count : ℕ
  pub last_seen : ℕ

pub record IssueDetailResponse : Type 0 where
  pub id : ℕ
  pub title : String
  pub level : String
  pub status : String
  pub count : ℕ
  pub first_seen : ℕ
  pub last_seen : ℕ

pub record EventResponse : Type 0 where
  pub id : Option ℕ
  pub occurred_at : ℕ
  pub stack_trace : String
  pub context : Context

pub record AlertRuleResponse : Type 0 where
  pub id : ℕ
  pub project_id : ℕ
  pub condition_type : String
  pub threshold : ℤ
  pub window_minutes : ℤ
  pub cooldown_minutes : ℤ
  pub channel : String
  pub channel_target : String
  pub created_at : ℕ

pub record MonitorResponse : Type 0 where
  pub id : ℕ
  pub project_id : ℕ
  pub url : String
  pub name : String
  pub interval_sec : ℤ
  pub channel : String
  pub channel_target : String
  pub failure_threshold : ℤ
  pub status : String
  pub created_at : ℕ

pub record MonitorCheckResponse : Type 0 where
  pub id : ℕ
  pub status_code : ℕ
  pub latency_ms : ℕ
  pub is_up : Bool
  pub checked_at : ℕ

pub data Body : Type 0 where
  no_content switched logged_out accepted : Body
  error_response : String → Body
  registered : ℕ → String → Body
  session : String → ℕ → Body
  project_created : CreateProjectOutput → Body
  project_list : List ProjectSummary → Body
  issue_list : List IssueResponse → ℕ → ℕ → Body
  issue_detail : IssueDetailResponse → Body
  event_list : List EventResponse → Body
  rule_detail : AlertRuleResponse → Body
  rule_list : List AlertRuleResponse → Body
  monitor_detail : MonitorResponse → Body
  monitor_list : List MonitorResponse → Body
  check_list : List MonitorCheckResponse → Body

pub record Response : Type 0 where
  pub status : ℕ
  pub body : Body
  pub cookies : List Cookie

abbrev pub Handler : Type 0
Handler = World → Response × World

abbrev pub write_json : ℕ → Body → Response
write_json status payload = record { status = status; body = payload; cookies = [] }

abbrev pub write_error : ℕ → String → Response
write_error status code = write_json status (error_response code)

abbrev pub reply : Response → Handler
reply r w = (r, w)

-- UserIDFromContext, and the answer where no middleware has set a user.
abbrev pub authenticated : Option ℕ → (ℕ → Handler) → Handler
authenticated none rest = reply (write_error 401 "UNAUTHORIZED")
authenticated (some user) rest = rest user

module _ {ℓ} {A : Type ℓ} where
  -- `if err := json.NewDecoder(r.Body).Decode(&req); err != nil`
  abbrev pub decoded : Option A → (A → Handler) → Handler
  decoded none rest = reply (write_error 400 "INVALID_BODY")
  decoded (some req) rest = rest req

  abbrev pub choose : (Error → Response) → (A → Response) → Result A → Response
  choose refused done (err e) = refused e
  choose refused done (ok a) = done a

  -- `if err != nil { … return }` after the use case, and the answer to its result.
  abbrev pub answer : (Error → Response) → (A → Response) → Act A → Handler
  answer refused done call w = (choose refused done (call w).0, (call w).1)

  -- What holds of every refusal and of every success holds of the answer.
  pub choose_cases {κ} :
      (P : Response → Type κ) (refused : Error → Response) (done : A → Response) (r : Result A)
      → ((e : Error) → P (refused e))
      → ((a : A) → P (done a))
      → P (choose refused done r)
  choose_cases P refused done (err e) f g = f e
  choose_cases P refused done (ok a) f g = g a
