-- ===== src/Pipeline/Dashboards.antt =====
-- What the open dashboards receive when the worker processes an event: the subscriber of
-- internal/delivery/ws/subscriber.go on what internal/repository/redis/broadcaster.go publishes. The
-- argument `outbound` numbers the messages by their type and the issue that their data is about.
use sentinelix_backend.Base.{
  ℕ, suc, ◌-◌, ◌≤◌, String, ◌≡◌, refl, ap, ◌∙◌, ◌⊎◌, inl, inr, Option, some, none, List, [], ◌∷◌,
  arith, first, length, take,
}
use sentinelix_backend.Domain.Alert.{AlertRule}
use sentinelix_backend.Domain.Event.{Event, Issue}
use sentinelix_backend.Stream.{Entry, event}
use sentinelix_backend.World.{IsUp, World, Message, alert, monitor_down, broadcast}
use sentinelix_backend.World.{trip}
use sentinelix_backend.World.Alerts.{get_last_sent_at, create_log, list_active_new_issue_rules}
use sentinelix_backend.World.Issues.{bump}
use sentinelix_backend.Notifier.{notify, publish}
use sentinelix_backend.Alerts.{notify_if_not_cooldown, notify_each, evaluate_new_issue}
use sentinelix_backend.Consumer.{process_message, follow_up}
use sentinelix_backend.Hub.{
  Hub, Envelope, foreign, envelope, handle_envelope, members_of, Reachable,
}
use sentinelix_backend.Hub.Members.{Fans}
use sentinelix_backend.Hub.Safety.{hub_safe}
use sentinelix_backend.Pipeline.Alerting.{
  new_issue_rules, own_project, group_of, grouped, group_issue_lem, ack-sent,
}

-- What was sent between two worlds, newest first.
abbrev pub sent_since : List Message → List Message → List Message
sent_since old new = take (length new - length old) new

module _ (outbound : String → ℕ → ℕ) where
  -- What arrives on the channel, newest first. Alerts do not go over it.
  abbrev pub envelopes : List Message → List Envelope
  envelopes [] = []
  envelopes (alert rule issue target ∷ rest) = envelopes rest
  envelopes (monitor_down id target ∷ rest) = envelopes rest
  envelopes (broadcast none kind id ∷ rest) = foreign ∷ envelopes rest
  envelopes (broadcast (some p) kind id ∷ rest) = envelope p (outbound kind id) ∷ envelopes rest

  -- RunSubscriber on the channel.
  unfoldable pub subscribe : List Envelope → Hub → Hub
  unfolding handle_envelope
  subscribe [] h = h
  subscribe (e ∷ older) h = handle_envelope e (subscribe older h)

  -- The message about an issue, by whether the group has one and by the identifier of the next one.
  abbrev pub change : ℕ → Option Issue → ℕ
  change next none = outbound "issue.created" next
  change next (some i) = outbound "issue.updated" i.id

  -- Alerts were sent at most.
  abbrev Silent : World → World → Type 0
  Silent w v =
      (length w.sent ≤ length v.sent)
      × (v.outage ≡ w.outage)
      × ((old : List Message)
          → length old ≤ length w.sent
          → envelopes (sent_since old v.sent) ≡ envelopes (sent_since old w.sent))

  alert-envelopes :
      (rule issue : ℕ) (target : String) (old new : List Message)
      → length old ≤ length new
      → envelopes (sent_since old (alert rule issue target ∷ new)) ≡ envelopes (sent_since old new)
  alert-envelopes rule issue target old new le =
      let more = alert rule issue target ∷ new in
      let one : length more - length old ≡ suc (length new - length old) = omega (arith, le) in
      ap (λ n. envelopes (take n more)) one

  alerted-Silent :
      (rule : AlertRule) (issue : Issue) (w v : World)
      → v.outage ≡ w.outage
      → (v.sent ≡ w.sent) ⊎ (v.sent ≡ alert rule.id issue.id rule.channel_target ∷ w.sent)
      → Silent w v
  alerted-Silent rule issue w v up (inl same) = rw same (omega arith, up, λ old le. refl)
  alerted-Silent rule issue w v up (inr more) = rw more (
    omega arith,
    up,
    λ old le. alert-envelopes rule.id issue.id rule.channel_target old w.sent le,
  )

  notify_if_not_cooldown-sent :
      (rule : AlertRule) (issue : Issue) (w : World)
      → let v = (notify_if_not_cooldown rule issue w).1 in
        (v.outage ≡ w.outage)
        × ((v.sent ≡ w.sent) ⊎ (v.sent ≡ alert rule.id issue.id rule.channel_target ∷ w.sent))
  unfolding notify_if_not_cooldown get_last_sent_at create_log notify trip
  notify_if_not_cooldown-sent rule issue w = ground arith

  Silent-trans : (w v u : World) → Silent w v → Silent v u → Silent w u
  Silent-trans w v u (le, up, same) (le', up', same') =
      (omega (arith, le, le'), up' ∙ up, λ old k. same' old (omega (arith, k, le)) ∙ same old k)

  notify_each-Silent :
      (rules : List AlertRule) (issue : Issue) (w : World) → Silent w (notify_each rules issue w).1
  unfolding notify_each
  notify_each-Silent [] issue w = (omega arith, refl, λ old le. refl)
  notify_each-Silent (rule ∷ rest) issue w =
      let v = (notify_if_not_cooldown rule issue w).1 in
      let one = notify_if_not_cooldown-sent rule issue w in
      let first_one = alerted-Silent rule issue w v one.0 one.1 in
      Silent-trans w v (notify_each rest issue v).1 first_one (notify_each-Silent rest issue v)

  evaluate_new_issue-Silent :
      (issue : Issue) (w : World) → IsUp w → Silent w (evaluate_new_issue issue w).1
  unfolding evaluate_new_issue list_active_new_issue_rules trip
  evaluate_new_issue-Silent issue w up = rw (up w.calls) (
      notify_each-Silent (new_issue_rules issue.project_id w) issue
        (record w { calls = suc w.calls }))

  one_broadcast :
      (p : ℕ) (kind : String) (id : ℕ) (old : List Message)
      → envelopes (sent_since old (broadcast (some p) kind id ∷ old))
        ≡ envelope p (outbound kind id) ∷ []
  one_broadcast p kind id old =
      let new = broadcast (some p) kind id ∷ old in
      let one : length new - length old ≡ 1 = omega arith in ap (λ n. envelopes (take n new)) one

  module _ (sha256_hex : String → String) where
    followed :
        (e : Event) (w v : World) (o : Option Issue)
        → first (group_of sha256_hex e) w.issues ≡ o
        → IsUp v
        → v.sent ≡ w.sent
        → let found = grouped sha256_hex e w o in
          envelopes (sent_since w.sent (follow_up found.0 found.1 v).sent)
          ≡ envelope e.project_id (change w.serial o) ∷ []
    unfolding follow_up publish trip grouped bump
    followed e w v none g up sent =
        let u = record v {
          calls = suc v.calls;
          sent = broadcast (some e.project_id) "issue.created" w.serial ∷ v.sent;
        } in
        let silent = evaluate_new_issue-Silent (grouped sha256_hex e w none).0 u up in
        rw (up v.calls) (
          silent.2 w.sent (rw sent (omega arith))
          ∙ rw sent (one_broadcast e.project_id "issue.created" w.serial w.sent))
    followed e w v (some i) g up sent =
        rw (up v.calls, sent)
          (ap
              (λ p.
                envelopes (sent_since w.sent (broadcast (some p) "issue.updated" i.id ∷ w.sent)))
              (own_project sha256_hex e w i g)
            ∙ one_broadcast e.project_id "issue.updated" i.id w.sent)

    -- While no call to Postgres or Redis fails: when the worker has processed an event and the API's
    -- subscriber has received what was published meanwhile, then from any state that the hub reaches,
    -- one message about the event's issue was offered once to each member of the room of the event's
    -- project, and no other client has received anything, whatever the notification services answer.
    pub dashboards_hear :
        (x : Entry) (e : Event) (w : World) {h : Hub}
        → x.payload ≡ event e
        → IsUp w
        → Reachable h
        → Fans
            (change w.serial (first (group_of sha256_hex e) w.issues))
            (members_of h e.project_id)
            h
            (subscribe (envelopes (sent_since w.sent (process_message sha256_hex x w).sent)) h)
    unfolding subscribe process_message
    dashboards_hear x e w {h} is up r =
        let o = first (group_of sha256_hex e) w.issues in
        let (v, done, alike) = group_issue_lem sha256_hex e w o refl up in
        let f = followed e w v o refl (λ n. rw alike.3 (up n)) alike.2 in
        let found = grouped sha256_hex e w o in
        let acked = ack-sent sha256_hex x.id (follow_up found.0 found.1 v) in
        rw (is, done) (rw (acked, f) (hub_safe e.project_id (change w.serial o) r).1)
