-- ===== src/Dashboard/Ownership.antt =====
-- What a user can do with resources that are not the user's.
use sentinelix_backend.Base.{
  ℕ, String, ◌≡◌, refl, Bool, false, Option, none, some, arith, ◌==◌, first,
}
use sentinelix_backend.Base.Int.{ℤ}
use sentinelix_backend.Domain.Errors.{Result, ok, err, is_ok}
use sentinelix_backend.Domain.Account.{Project}
use sentinelix_backend.Domain.Alert.{AlertRule}
use sentinelix_backend.Domain.Event.{Issue}
use sentinelix_backend.Domain.Monitor.{Monitor}
use sentinelix_backend.World.{World, Act, trip, continue}
use sentinelix_backend.World.Projects.{get_by_id}
use sentinelix_backend.World.Alerts as AlertsTable
use sentinelix_backend.World.Monitors as MonitorsTable
use sentinelix_backend.World.Issues as IssuesTable
use sentinelix_backend.Dashboard.{owned_project}
use sentinelix_backend.Dashboard.Rules
use sentinelix_backend.Dashboard.Rules.{
  CreateAlertRuleInput, UpdateAlertRuleInput, get_owned_alert_rule, update_owned,
}
use sentinelix_backend.Dashboard.Monitors
use sentinelix_backend.Dashboard.Monitors.{
  CreateMonitorInput, UpdateMonitorInput, get_owned_monitor,
}
use sentinelix_backend.Dashboard.Issues
use sentinelix_backend.Dashboard.Issues.{get_owned_issue}
use sentinelix_backend.Dashboard.Projects

-- Is there such a project, and is it the user's?
abbrev owner_is : ℕ → Option Project → Bool
owner_is user none = false
owner_is user (some p) = p.user_id == user

abbrev pub owns : ℕ → ℕ → World → Bool
owns user id w = owner_is user (first (λ (p : Project). p.id == id) w.projects)

abbrev owns_some_rule : ℕ → World → Option AlertRule → Bool
owns_some_rule user w none = false
owns_some_rule user w (some r) = owns user r.project_id w

abbrev pub owns_rule : ℕ → ℕ → World → Bool
owns_rule user id w = owns_some_rule user w (first (λ (r : AlertRule). r.id == id) w.rules)

abbrev owns_some_monitor : ℕ → World → Option Monitor → Bool
owns_some_monitor user w none = false
owns_some_monitor user w (some m) = owns user m.project_id w

abbrev pub owns_monitor : ℕ → ℕ → World → Bool
owns_monitor user id w = owns_some_monitor user w (first (λ (m : Monitor). m.id == id) w.monitors)

abbrev owns_some_issue : ℕ → World → Option Issue → Bool
owns_some_issue user w none = false
owns_some_issue user w (some i) = owns user i.project_id w

abbrev pub owns_issue : ℕ → ℕ → World → Bool
owns_issue user id w = owns_some_issue user w (first (λ (i : Issue). i.id == id) w.issues)

-- An error, and a world with nothing changed but the number of calls made.
abbrev pub Refused {ℓ} : {A : Type ℓ} → World → Result A × World → Type 0
Refused w (r, v) = (is_ok r ≡ false) × (v ≡ record w { calls = v.calls })

pub continue-Refused {ℓ κ} :
    {A : Type ℓ} {B : Type κ} (w : World) (r : Result A × World) (f : A → Act B)
    → Refused w r
    → Refused w (continue r.0 f r.1)
continue-Refused w (ok a, v) f h = absurd (cc h.0)
continue-Refused w (err e, v) f h = (refl, h.1)

pub owned_project-Refused :
    (user id : ℕ) (w : World) → owns user id w ≡ false → Refused w (owned_project user id w)
unfolding owned_project get_by_id trip
owned_project-Refused user id w h = ground (arith, h)

pub get_owned_alert_rule-Refused :
    (user id : ℕ) (w : World)
    → owns_rule user id w ≡ false
    → Refused w (get_owned_alert_rule user id w)
unfolding get_owned_alert_rule owned_project get_by_id AlertsTable.get_by_id trip
get_owned_alert_rule-Refused user id w h = ground (arith, h)

pub get_owned_monitor-Refused :
    (user id : ℕ) (w : World)
    → owns_monitor user id w ≡ false
    → Refused w (get_owned_monitor user id w)
unfolding get_owned_monitor owned_project get_by_id MonitorsTable.get_by_id trip
get_owned_monitor-Refused user id w h = ground (arith, h)

pub get_owned_issue-Refused :
    (user id : ℕ) (w : World) → owns_issue user id w ≡ false → Refused w (get_owned_issue user id w)
unfolding get_owned_issue owned_project get_by_id IssuesTable.get_by_id trip
get_owned_issue-Refused user id w h = ground (arith, h)

-- A user who does not own the rule's project, nor the project that is listed or that a new rule
-- is for (or these do not exist), gets an error from the creation, the list, the update and the
-- deletion of alert rules, and nothing changes but the number of calls made, whichever calls
-- fail.
pub rules_private :
    (user id project : ℕ) (new : CreateAlertRuleInput) (change : UpdateAlertRuleInput) (w : World)
    → owns_rule user id w ≡ false
    → owns user project w ≡ false
    → owns user new.project_id w ≡ false
    → Refused w (Rules.create user new w)
      × Refused w (Rules.list user project w)
      × Refused w (Rules.update user id change w)
      × Refused w (Rules.delete user id w)
unfolding Rules.create Rules.list Rules.update Rules.delete
rules_private user id project new change w r p q = (
  continue-Refused w (owned_project user new.project_id w) _
      (owned_project-Refused user new.project_id w q),
  continue-Refused w (owned_project user project w) _ (owned_project-Refused user project w p),
  continue-Refused w (get_owned_alert_rule user id w) _ (get_owned_alert_rule-Refused user id w r),
  continue-Refused w (get_owned_alert_rule user id w) _ (get_owned_alert_rule-Refused user id w r),
)

-- A user who does not own the monitor's project, nor the project that is listed or that a new
-- monitor is for (or these do not exist), gets an error from each operation on monitors, and
-- nothing changes but the number of calls made, whichever calls fail.
pub monitors_private :
    (scheme : String → Option String) (user id project : ℕ) (from to : Option ℕ)
    (new : CreateMonitorInput) (change : UpdateMonitorInput) (w : World)
    → owns_monitor user id w ≡ false
    → owns user project w ≡ false
    → owns user new.project_id w ≡ false
    → Refused w (Monitors.create scheme user new w)
      × Refused w (Monitors.list user project w)
      × Refused w (get_owned_monitor user id w)
      × Refused w (Monitors.update scheme user id change w)
      × Refused w (Monitors.delete user id w)
      × Refused w (Monitors.list_checks user id from to w)
unfolding Monitors.create Monitors.list Monitors.update Monitors.delete Monitors.list_checks
monitors_private scheme user id project from to new change w m p q =
    let refused = get_owned_monitor-Refused user id w m in
    (
      continue-Refused w (owned_project user new.project_id w) _
          (owned_project-Refused user new.project_id w q),
      continue-Refused w (owned_project user project w) _ (owned_project-Refused user project w p),
      refused,
      continue-Refused w (get_owned_monitor user id w) _ refused,
      continue-Refused w (get_owned_monitor user id w) _ refused,
      continue-Refused w (get_owned_monitor user id w) _ refused,
    )

-- A user who does not own the issue's project, nor the project that is named (or these do not
-- exist), gets an error from the list of issues, the lookup of the issue, the list of its
-- events, the check of the project's ownership and the project's deletion, and nothing changes
-- but the number of calls made, whichever calls fail.
pub issues_private :
    (user id project page limit : ℕ) (status : String) (events : ℤ) (w : World)
    → owns_issue user id w ≡ false
    → owns user project w ≡ false
    → Refused w (Issues.list user project status page limit w)
      × Refused w (get_owned_issue user id w)
      × Refused w (Issues.list_events user id events w)
      × Refused w (Projects.verify_ownership user project w)
      × Refused w (Projects.delete user project w)
unfolding Issues.list Issues.list_events Projects.verify_ownership Projects.delete
issues_private user id project page limit status events w i p =
    let refused = owned_project-Refused user project w p in
    (
      continue-Refused w (owned_project user project w) _ refused,
      get_owned_issue-Refused user id w i,
      continue-Refused w (get_owned_issue user id w) _ (get_owned_issue-Refused user id w i),
      continue-Refused w (owned_project user project w) _ refused,
      continue-Refused w (owned_project user project w) _ refused,
    )
