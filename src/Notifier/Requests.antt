-- ===== src/Notifier/Requests.antt =====
-- internal/notifier/notifier.go: the requests to Resend and to Slack, with their bodies before
-- json.Marshal. How fmt prints a number, and RFC 3339, are arguments.
use Prim.Native.String.{◌++◌}
use sentinelix_backend.Base.{ℕ, String, Option, none, some, List, [], ◌∷◌}
use sentinelix_backend.Base.Int.{ℤ, pos}
use sentinelix_backend.Domain.Event.{Issue}
use sentinelix_backend.Domain.Monitor.{Monitor}

pub record MultiNotifier : Type 0 where
  pub resend_api_key : String
  pub email_from : String
  -- %d
  pub decimal : ℤ → String
  -- UTC().Format(time.RFC3339)
  pub rfc3339 : ℕ → String

pub record ResendEmailPayload : Type 0 where
  pub from : String
  pub to : List String
  pub subject : String
  pub html : String

pub data Body : Type 0 where
  email_body : ResendEmailPayload → Body
  slack_body : String → Body

-- A POST of JSON, with the header Authorization, if any.
pub record Outgoing : Type 0 where
  pub url : String
  pub authorization : Option String
  pub body : Body

abbrev pub resend_url : String
resend_url = "https://api.resend.com/emails"

module _ (n : MultiNotifier) where
  -- The request of both functions that send an email.
  abbrev pub email_request : String → String → String → Outgoing
  email_request to subject html = record {
    url = resend_url;
    authorization = some ("Bearer " ++ n.resend_api_key);
    body =
        email_body (record { from = n.email_from; to = to ∷ []; subject = subject; html = html });
  }

  abbrev pub slack_request : String → String → Outgoing
  slack_request url text = record { url = url; authorization = none; body = slack_body text }

  unfoldable pub send_email : String → Issue → Outgoing
  send_email to issue = email_request to ("[SentinelIX] Alert: " ++ issue.title) (
      "<p>Issue <b>"
      ++ issue.title
      ++ "<b> triggered an alert.</p><p>Count: "
      ++ n.decimal (pos issue.count)
      ++ "</p><p>Last seen: "
      ++ n.rfc3339 issue.last_seen
      ++ "</p>")

  unfoldable pub send_slack : String → Issue → Outgoing
  send_slack url issue = slack_request url (
      ":rotating_light: *SentinelIX Alert*\nIssue: "
      ++ issue.title
      ++ "\nCount: "
      ++ n.decimal (pos issue.count)
      ++ "\nLast seen: "
      ++ n.rfc3339 issue.last_seen)

  unfoldable pub send_monitor_down_email : String → Monitor → ℤ → Outgoing
  send_monitor_down_email to m failures =
      email_request to ("[SentinelIX] Monitor DOWN: " ++ m.url) (
        "<p>Monitor <b>"
        ++ m.url
        ++ "</b> is currently <b>DOWN</b>.</p><p>Failed "
        ++ n.decimal failures
        ++ " consecutive checks (threshold: "
        ++ n.decimal m.failure_threshold
        ++ ").</p>")

  unfoldable pub send_monitor_down_slack : String → Monitor → ℤ → Outgoing
  send_monitor_down_slack url m failures = slack_request url (
      ":red_circle: *SentinelIX Monitor DOWN*\nURL: "
      ++ m.url
      ++ "\nConsecutive failures: "
      ++ n.decimal failures
      ++ " (threshold: "
      ++ n.decimal m.failure_threshold
      ++ ")")
