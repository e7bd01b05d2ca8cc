-- ===== src/Domain/Account.antt =====
-- internal/domain/user.go, project.go, refresh_token.go and audit_log.go. An identifier is a UUID
-- that is only compared for equality: a number here. A time is in nanoseconds.
use sentinelix_backend.Base.{ℕ, String, Bool, true, false, ◌&&◌, Option, none, some, List, ltb}

pub record User : Type 0 where
  pub id : ℕ
  pub email : String
  pub password_hash : String
  pub created_at : ℕ

pub record Project : Type 0 where
  pub id : ℕ
  pub user_id : ℕ
  pub name : String
  pub slug : String
  pub api_key_hash : String
  pub created_at : ℕ

pub record RefreshToken : Type 0 where
  pub id : ℕ
  pub user_id : ℕ
  pub token_hash : String
  pub expires_at : ℕ
  pub revoked_at : Option ℕ
  pub created_at : ℕ

abbrev pub is_none {ℓ} : {A : Type ℓ} → Option A → Bool
is_none none = true
is_none (some a) = false

-- RefreshToken.IsValid, at the time `now`.
pub token_valid : ℕ → RefreshToken → Bool
token_valid now rt = is_none rt.revoked_at && ltb now rt.expires_at

pub data Action : Type 0 where
  alert_rule_created alert_rule_updated alert_rule_deleted : Action
  api_key_created project_deleted : Action

pub data ResourceType : Type 0 where
  alert_rule project : ResourceType

-- The metadata's keys; their values are those of the resource.
pub record AuditLog : Type 0 where
  pub id : ℕ
  pub actor_user_id : ℕ
  pub action : Action
  pub resource_type : ResourceType
  pub resource_id : ℕ
  pub metadata : List String
  pub created_at : ℕ
