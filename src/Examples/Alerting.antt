-- ===== src/Examples/Alerting.antt =====
-- The theorems on alerts and on issues at concrete inputs.
use sentinelix_backend.Base.{◌*◌, ◌^◌, ◌≡◌, refl, true, false, some, [], ◌∷◌, arith, length}
use sentinelix_backend.Base.Int.{pos}
use sentinelix_backend.Domain.Errors.{ok, project_not_found, invalid_api_key, err, other}
use sentinelix_backend.World.{World, alert, monitor_down}
use sentinelix_backend.Notifier.{notify, notify_monitor_down}
use sentinelix_backend.Notifier.Secrets.{Notifies, notifications_confined}
use sentinelix_backend.Alerts.{minute, cooling, notify_if_not_cooldown}
use sentinelix_backend.Alerts.Cooldown.{cooldown_silences, cooling_overflow}
use sentinelix_backend.Alerts.Spacing.{IsSpaced, evaluate_often, evaluate_often-IsSpaced}
use sentinelix_backend.Ingest.{IngestEventInput, ingest, group_issue}
use sentinelix_backend.Ingest.Acceptance.{ingest_lem}
use sentinelix_backend.Domain.Event.{nil}
use sentinelix_backend.Ingest.Grouping.{times_seen}
use sentinelix_backend.Ingest.Retry.{reports_new, group_issue_retry, key}
use sentinelix_backend.Fingerprint.{normalize_frame}
use sentinelix_backend.Fingerprint.Normal.{no_line_number, normalize_frame_lem}
use sentinelix_backend.Examples.{resend, quiet, breaking, rule, issue, log, boom, site}

abbrev just_sent : World
just_sent = record quiet { alert_logs = log ∷ [] }

cooldown_silences_example : (notify_if_not_cooldown rule issue just_sent).1.sent ≡ []
cooldown_silences_example =
    cooldown_silences rule issue (10 ^ 12) 30 just_sent refl (omega arith) refl (omega arith)

-- 160 million minutes
cooling_overflow_example : cooling (10 ^ 12) (pos 160000000) (some (10 ^ 12)) ≡ false
cooling_overflow_example =
    cooling_overflow (10 ^ 12) (10 ^ 12) 160000000 (omega arith) (omega arith) (omega arith)

just_sent-IsSpaced : IsSpaced (30 * minute) rule issue just_sent
just_sent-IsSpaced = record { spaced = tt; desc = (tt, tt); past = (omega arith, tt) }

evaluate_often-IsSpaced_example :
    IsSpaced
      (30 * minute)
      rule
      issue
      (evaluate_often rule issue (5 * minute ∷ 40 * minute ∷ []) just_sent)
evaluate_often-IsSpaced_example =
    evaluate_often-IsSpaced rule issue 30 (5 * minute ∷ 40 * minute ∷ []) just_sent refl
      (omega arith) just_sent-IsSpaced

group_issue_retry_example :
    let w = breaking (1 ∷ []) in
    let v = (group_issue (λ s. s) boom w).1 in
    let u = (group_issue (λ s. s) boom v).1 in
    ((group_issue (λ s. s) boom w).0 ≡ err other)
    × (reports_new (group_issue (λ s. s) boom v).0 ≡ some false)
    × (times_seen 1 (key (λ s. s) boom) u.issues ≡ 2)
    × (length u.events ≡ 1)
group_issue_retry_example = group_issue_retry (λ s. s) boom (breaking (1 ∷ [])) refl refl refl refl

normalize_frame_lem_example :
    (no_line_number (normalize_frame "a::1:2") ≡ true)
    × (normalize_frame (normalize_frame "a::1:2") ≡ normalize_frame "a::1:2")
normalize_frame_lem_example = normalize_frame_lem "a::1:2"

abbrev call : IngestEventInput
call = record {
  raw_api_key = "si_live_00";
  level = "";
  message = "boom";
  stack_trace = "";
  context = nil;
}

-- The limiter fails, and the key is unknown.
ingest_lem_example :
    ingest
      (λ s. s)
      (λ h w. (err other, w))
      (λ h w. (err project_not_found, w))
      (λ e w. (ok tt, w))
      call
      quiet
    ≡ (err invalid_api_key, quiet)
ingest_lem_example =
    ingest_lem (λ s. s) (λ h w. (err other, w)) (λ h w. (err project_not_found, w))
      (λ e w. (ok tt, w)) call quiet

notifications_confined_example :
    Notifies resend "slack" "https://hooks.slack.com/x"
      (alert 7 9 "https://hooks.slack.com/x")
      (notify rule issue quiet)
      quiet
    × Notifies resend "email" "ops@a.example"
        (monitor_down 3 "ops@a.example")
        (notify_monitor_down site (pos 2) quiet)
        quiet
notifications_confined_example = notifications_confined rule issue site (pos 2) quiet
