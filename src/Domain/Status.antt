-- ===== src/Domain/Status.antt =====
-- internal/domain/status.go: the public status of a project, from the raw status of its monitors.
use sentinelix_backend.Base.{ℕ, ◌+◌, String, Bool, not, List, [], ◌∷◌, str_eq, ◌==◌, if◌then◌else◌}
use sentinelix_backend.Domain.Monitor.{status_up, status_down}

pub data OverallStatus : Type 0 where
  operational degraded_performance major_outage : OverallStatus

unfoldable pub monitor_is_up : String → Bool
monitor_is_up s = not (str_eq s status_down)

-- The loop of ComputeOverallStatus, over the counts of `up` and `down`.
unfoldable pub tally : List String → ℕ → ℕ → ℕ × ℕ
tally [] up down = (up, down)
tally (s ∷ rest) up down =
    tally rest (if str_eq s status_up then up + 1 else up)
      (if str_eq s status_up then down else if str_eq s status_down then down + 1 else down)

abbrev pub judge : ℕ × ℕ → OverallStatus
judge (up, down) =
    let total = up + down in
    if total == 0
    then operational
    else if down == total
    then major_outage
    else if down == 0
    then operational
    else degraded_performance

unfoldable pub compute_overall_status : List String → OverallStatus
unfolding tally
compute_overall_status raw = judge (tally raw 0 0)
