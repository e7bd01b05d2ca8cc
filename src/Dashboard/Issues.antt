-- ===== src/Dashboard/Issues.antt =====
-- internal/usecase/issue.go.
use sentinelix_backend.Base.{ℕ, String, ◌||◌, List, if◌then◌else◌}
use sentinelix_backend.Base.Int.{ℤ, pos, leb_ℤ, ltb_ℤ, to_nat}
use sentinelix_backend.Domain.Event.{Event, Issue}
use sentinelix_backend.World.{Act, pure, ◌>>=◌, ◌>>◌}
use sentinelix_backend.World.Issues
use sentinelix_backend.Dashboard.{owned_project}

unfoldable pub list : ℕ → ℕ → String → ℕ → ℕ → Act (List Issue × ℕ)
list user project status page limit = do
  owned_project user project
  Issues.list project status page limit

unfoldable pub get_owned_issue : ℕ → ℕ → Act Issue
get_owned_issue user id = do
  issue ← Issues.get_by_id id
  owned_project user issue.project_id
  pure issue

-- At most 50 events, and 50 for a limit out of range.
unfoldable pub event_limit : ℤ → ℕ
event_limit limit = if leb_ℤ limit (pos 0) || ltb_ℤ (pos 50) limit then 50 else to_nat limit

unfoldable pub list_events : ℕ → ℕ → ℤ → Act (List Event)
list_events user id limit = do
  get_owned_issue user id
  Issues.list_by_issue_id id (event_limit limit)
