-- ===== src/Notifier/Secrets.antt =====
-- Where the notifier's requests go, and what goes with them.
use Prim.Native.String.{◌++◌}
use sentinelix_backend.Base.{
  suc, ◌≡◌, refl, ◌⊎◌, inl, inr, String, none, some, [], ◌∷◌, arith, eq_iff, str_eq, Bool-cases,
  leb, if◌then◌else◌,
}
use sentinelix_backend.Base.Int.{ℤ}
use sentinelix_backend.Domain.Errors.{Result, ok, err, other, unknown_channel, bad_status}
use sentinelix_backend.Domain.Alert.{AlertRule}
use sentinelix_backend.Domain.Event.{Issue}
use sentinelix_backend.Domain.Monitor.{Monitor}
use sentinelix_backend.World.{World, Message, alert, monitor_down, trip}
use sentinelix_backend.Notifier.{post, dispatch, notify, notify_monitor_down}
use sentinelix_backend.Notifier.Requests.{
  MultiNotifier, Outgoing, Body, email_body, slack_body, send_email, send_slack,
  send_monitor_down_email, send_monitor_down_slack,
}

-- A request to Resend with the key, whose email is from the sender to the target alone.
abbrev IsEmailTo : MultiNotifier → String → Body → Type 0
IsEmailTo n target (email_body m) = (m.from ≡ n.email_from) × (m.to ≡ target ∷ [])
IsEmailTo n target (slack_body text) = ⊥

abbrev pub EmailTo : MultiNotifier → String → Outgoing → Type 0
EmailTo n target r =
    (r.url ≡ "https://api.resend.com/emails")
    × (r.authorization ≡ some ("Bearer " ++ n.resend_api_key))
    × IsEmailTo n target r.body

-- A text to the target itself, without an authorization.
abbrev IsText : Body → Type 0
IsText (email_body m) = ⊥
IsText (slack_body text) = Unit {0}

abbrev pub TextTo : String → Outgoing → Type 0
TextTo target r = (r.url ≡ target) × (r.authorization ≡ none) × IsText r.body

-- The answer and the world where a request is made once, for a message.
abbrev pub requested : Outgoing → Message → World → Result (Unit {0}) × World
requested r msg w =
    let failed = record w { calls = suc w.calls } in
    let refused = record failed { requests = r ∷ w.requests } in
    if w.outage w.calls
    then (err other, failed)
    else if leb 300 (w.http_status (suc w.calls))
    then (err bad_status, refused)
    else (ok tt, record refused { sent = msg ∷ w.sent })

-- An email, a text, or the error of an unknown channel.
abbrev pub Notifies :
    MultiNotifier → String → String → Message → Result (Unit {0}) × World → World → Type 0
Notifies n channel target msg after w =
    ((channel ≡ "email") × ((r : Outgoing) × EmailTo n target r × (after ≡ requested r msg w)))
    ⊎ (((channel ≡ "slack") × ((r : Outgoing) × TextTo target r × (after ≡ requested r msg w)))
        ⊎ ((channel ≡ "email" → ⊥) × (channel ≡ "slack" → ⊥) × (after ≡ (err unknown_channel, w))))

post_lem : (r : Outgoing) (msg : Message) (w : World) → post r msg w ≡ requested r msg w
unfolding post trip
post_lem r msg w = ground arith

dispatch-Notifies :
    (n : MultiNotifier) (channel target : String) (email slack : Outgoing) (msg : Message)
    (w : World)
    → EmailTo n target email
    → TextTo target slack
    → Notifies n channel target msg (dispatch channel email slack msg w) w
dispatch-Notifies n channel target email slack msg w e s =
    elim (Bool-cases (str_eq channel "email")) [
      | inl to_email ↦
          let is = (eq_iff channel "email").0 to_email in
          rw to_email (inl (is, (email, e, post_lem email msg w)))
      | inr no_email ↦ elim (Bool-cases (str_eq channel "slack")) [
        | inl to_slack ↦
            let is = (eq_iff channel "slack").0 to_slack in
            rw (no_email, to_slack) (inr (inl (is, (slack, s, post_lem slack msg w))))
        | inr no_slack ↦
            rw (no_email, no_slack)
              (inr (
                inr (
                  (λ is. ground (arith, no_email, (eq_iff channel "email").1 is)),
                  (λ is. ground (arith, no_slack, (eq_iff channel "slack").1 is)),
                  refl,
                )))
      ]
    ]

-- Both notifications, in every world, by the channel. "email": one request is made, to Resend with its
-- key, and the email is from the configured sender to the target alone. "slack": one request is made,
-- to the target, with a text and without an authorization. Any other: no request is made, and the
-- error is the unknown channel. Where the call fails the request has not left; where the service
-- answers 300 or more it has, and the notification fails; else it succeeds.
pub notifications_confined :
    (rule : AlertRule) (issue : Issue) (m : Monitor) (failures : ℤ) (w : World)
    → Notifies w.notifier rule.channel rule.channel_target
        (alert rule.id issue.id rule.channel_target)
        (notify rule issue w)
        w
      × Notifies w.notifier m.channel m.channel_target
          (monitor_down m.id m.channel_target)
          (notify_monitor_down m failures w)
          w
unfolding notify notify_monitor_down send_email send_slack send_monitor_down_email
    send_monitor_down_slack
notifications_confined rule issue m failures w =
    let n = w.notifier in
    (
      dispatch-Notifies n rule.channel rule.channel_target (send_email n rule.channel_target issue)
          (send_slack n rule.channel_target issue) (alert rule.id issue.id rule.channel_target) w
          (refl, refl, (refl, refl)) (refl, refl, tt),
      dispatch-Notifies n m.channel m.channel_target
          (send_monitor_down_email n m.channel_target m failures)
          (send_monitor_down_slack n m.channel_target m failures)
          (monitor_down m.id m.channel_target) w (refl, refl, (refl, refl)) (refl, refl, tt),
    )
