-- ===== src/Alerts.antt =====
-- internal/usecase/evaluate_alert.go: when an alert rule notifies about an issue.
-- The order in which Go ranges over the map of counts is an argument.
pub mod Cooldown
pub mod Spacing
use sentinelix_backend.Base.{
  ℕ, ◌*◌, ◌^◌, String, ◌≡◌, Bool, true, false, ◌&&◌, Option, none, some, List, [], ◌∷◌, ltb, ◌==◌,
  if◌then◌else◌,
}
use sentinelix_backend.Base.Int.{ℤ, pos, ltb_ℤ, leb_ℤ, neg_ℤ, ◌+ℤ◌, times_int64}
use sentinelix_backend.Domain.Errors.{Result, ok, err, Error}
use sentinelix_backend.Domain.Alert.{AlertRule}
use sentinelix_backend.Domain.Event.{Issue}
use sentinelix_backend.World.{World, Act, pure, swallow, ◌>>=◌, ◌>>◌}
use sentinelix_backend.World.Alerts.{
  get_last_sent_at, create_log, list_active_new_issue_rules, list_active_threshold_rules,
}
use sentinelix_backend.World.Issues.{count_grouped_by_issue_since, get_by_id}
use sentinelix_backend.Notifier.{notify}

-- time.Minute, in nanoseconds
abbrev pub minute : ℕ
minute = 60 * 10 ^ 9

-- `time.Now().Before(lastSent.Add(time.Duration(minutes) * time.Minute))`; the product is an int64.
unfoldable pub cooling : ℕ → ℤ → Option ℕ → Bool
cooling now minutes none = false
cooling now minutes (some last) = ltb_ℤ (pos now) (pos last +ℤ times_int64 minutes minute)

abbrev send_and_log : AlertRule → Issue → Act (Unit {0})
send_and_log rule issue = do notify rule issue; create_log rule.id issue.id; pure tt

unfoldable pub notify_if_not_cooldown : AlertRule → Issue → Act (Unit {0})
notify_if_not_cooldown rule issue = do
  last ← get_last_sent_at rule.id issue.id
  λ w. if cooling w.now rule.cooldown_minutes last then (ok tt, w) else send_and_log rule issue w

-- A rule that fails does not stop the next.
unfoldable pub notify_each : List AlertRule → Issue → Act (Unit {0})
notify_each [] issue = pure tt
notify_each (rule ∷ rest) issue =
    swallow (notify_if_not_cooldown rule issue) >> notify_each rest issue

unfoldable pub evaluate_new_issue : Issue → Act (Unit {0})
unfolding notify_each
evaluate_new_issue issue = do
  rules ← list_active_new_issue_rules issue.project_id
  notify_each rules issue

abbrev eq_ℤ : ℤ → ℤ → Bool
eq_ℤ a b = leb_ℤ a b && leb_ℤ b a

-- countCache, by project and window.
abbrev pub CountCache : Type 0
CountCache = List (ℕ × ℤ × List (ℕ × ℕ))

unfoldable pub cached_counts : ℕ → ℤ → CountCache → Option (List (ℕ × ℕ))
cached_counts p window [] = none
cached_counts p window ((q, v, counts) ∷ rest) =
    if q == p && eq_ℤ v window then some counts else cached_counts p window rest

-- `time.Now().Add(-time.Duration(window) * time.Minute)`
unfoldable pub window_start : ℕ → ℤ → ℤ
window_start now window = pos now +ℤ times_int64 (neg_ℤ window) minute

abbrev pub with_issue : AlertRule → Result Issue → Act (Unit {0})
with_issue rule (ok issue) = swallow (notify_if_not_cooldown rule issue)
with_issue rule (err e) = pure tt

unfoldable pub visit_count : AlertRule → ℕ × ℕ → Act (Unit {0})
visit_count rule (issue, n) w =
    if leb_ℤ (pos n) rule.threshold
    then (ok tt, w)
    else (let (r, w') = get_by_id issue w in with_issue rule r w')

unfoldable pub visit_counts : AlertRule → List (ℕ × ℕ) → Act (Unit {0})
unfolding visit_count
visit_counts rule [] = pure tt
visit_counts rule (c ∷ rest) = visit_count rule c >> visit_counts rule rest

module _ (order : List (ℕ × ℕ) → List (ℕ × ℕ)) where
  unfoldable pub evaluate_rules : List AlertRule → CountCache → Act (Unit {0})
  unfolding cached_counts visit_counts window_start
  evaluate_rules [] cache w = (ok tt, w)
  evaluate_rules (rule ∷ rest) cache w =
      elim (cached_counts rule.project_id rule.window_minutes cache) [
        | some counts ↦ evaluate_rules rest cache (visit_counts rule (order counts) w).1
        | none ↦
            elim (count_grouped_by_issue_since rule.project_id
              (window_start w.now rule.window_minutes) w).0 [
                | err e ↦
                    evaluate_rules rest cache
                      (count_grouped_by_issue_since rule.project_id
                        (window_start w.now rule.window_minutes) w).1
                | ok counts ↦
                    evaluate_rules rest ((rule.project_id, rule.window_minutes, counts) ∷ cache)
                      (visit_counts rule (order counts)
                        (count_grouped_by_issue_since rule.project_id
                          (window_start w.now rule.window_minutes) w).1).1
              ]
      ]

  unfoldable pub evaluate_thresholds : Act (Unit {0})
  unfolding evaluate_rules
  evaluate_thresholds = do rules ← list_active_threshold_rules; evaluate_rules rules []
