-- ===== src/Dashboard.antt =====
-- internal/usecase/project.go, alert_rule.go, monitor.go and issue.go: what a user does with the
-- projects, rules, monitors and issues of the dashboard. Every operation on a resource first looks
-- up the project that it belongs to, and the project's owner.
pub mod Rules
pub mod Monitors
pub mod Issues
pub mod Projects
pub mod Ownership
pub mod Keeps
pub mod Validity
pub mod MonitorValidity
pub mod Caching
use sentinelix_backend.Base.{
  ℕ, String, Bool, true, false, Option, none, some, List, ◌==◌, if◌then◌else◌,
}
use sentinelix_backend.Domain.Errors.{Result, ok, err, Error, forbidden}
use sentinelix_backend.Domain.Account.{Project, Action, ResourceType}
use sentinelix_backend.World.{World, Act, pure, fail, swallow, ◌>>=◌, ◌>>◌}
use sentinelix_backend.World.Projects.{get_by_id, create_audit_log}

-- `if project.UserID != userID { return ErrForbidden }`
abbrev pub check_owner : ℕ → Project → Act Project
check_owner user p = if p.user_id == user then pure p else fail forbidden

-- The project, if it is the user's.
unfoldable pub owned_project : ℕ → ℕ → Act Project
owned_project user id = do p ← get_by_id id; check_owner user p

-- writeAuditLog: a failure is only logged.
unfoldable pub write_audit_log : ℕ → Action → ResourceType → ℕ → List String → Act (Unit {0})
write_audit_log actor action kind resource keys =
    swallow (create_audit_log actor action kind resource keys >> pure tt)

-- A field of an update request: the old value where it is absent.
abbrev pub merge {ℓ} : {A : Type ℓ} → Option A → A → A
merge none old = old
merge (some new) old = new

abbrev pub present {ℓ} : {A : Type ℓ} → Option A → Bool
present none = false
present (some a) = true
