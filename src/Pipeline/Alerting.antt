-- ===== src/Pipeline/Alerting.antt =====
-- What leaves the worker when it processes an event.
use sentinelix_backend.Base.{
  ℕ, suc, String, ◌≡◌, refl, ap, ◌∙◌, Bool, true, false, Option, some, none, List, [], ◌∷◌, arith,
  ◌==◌, ◌&&◌, str_eq, first, first-holds, any_of, select, All,
}
use sentinelix_backend.Domain.Errors.{ok}
use sentinelix_backend.Domain.Alert.{AlertRule, AlertLog, known_channel}
use sentinelix_backend.Domain.Event.{Event, Issue}
use sentinelix_backend.Stream.{Entry, event}
use sentinelix_backend.World.{
  micros, IsUp, World, Message, alert, broadcast, IsHealthy, IsHealthy-of, trip,
}
use sentinelix_backend.World.Alerts.{
  about, last_sent, get_last_sent_at, create_log, list_active_new_issue_rules,
}
use sentinelix_backend.World.Issues.{upsert, upsert_row, insert_event, same_group, new_issue, bump}
use sentinelix_backend.Fingerprint.{compute}
use sentinelix_backend.Notifier.{notify, publish}
use sentinelix_backend.Alerts.{notify_if_not_cooldown, notify_each, evaluate_new_issue, cooling}
use sentinelix_backend.Alerts.Spacing.{notify_if_not_cooldown_lem, new_log}
use sentinelix_backend.Ingest.{group_issue}
use sentinelix_backend.Consumer.{ack, follow_up, process_message}

-- The alerts of rules about an issue, over what was sent before.
abbrev pub alerted : List AlertRule → ℕ → List Message → List Message
alerted [] issue sent = sent
alerted (rule ∷ rest) issue sent =
    alerted rest issue (alert rule.id issue rule.channel_target ∷ sent)

abbrev pub Differ : List AlertRule → Type 0
Differ [] = Unit {0}
Differ (rule ∷ rest) = (any_of (λ (r : AlertRule). r.id == rule.id) rest ≡ false) × Differ rest

abbrev pub reaches : AlertRule → Bool
unfolding known_channel
reaches rule = known_channel rule.channel

abbrev pub IsQuiet : List AlertLog → ℕ → AlertRule → Type 0
IsQuiet logs issue rule = any_of (about rule.id issue) logs ≡ false

select-none {ℓ} : {A : Type ℓ} (p : A → Bool) (xs : List A) → any_of p xs ≡ false → select p xs ≡ []
select-none p [] h = refl
select-none p (x ∷ xs) h = ground (arith, select-none p xs)

not_cooling :
    (rule : AlertRule) (issue now : ℕ) (logs : List AlertLog)
    → IsQuiet logs issue rule
    → cooling now rule.cooldown_minutes (last_sent rule.id issue logs) ≡ false
unfolding cooling last_sent
not_cooling rule issue now logs q = rw (select-none (about rule.id issue) logs q) refl

-- A log of one rule is not about the others.
IsQuiet-new_log :
    (rule : AlertRule) (issue : Issue) (w : World) (rest : List AlertRule)
    → any_of (λ (r : AlertRule). r.id == rule.id) rest ≡ false
    → All (IsQuiet w.alert_logs issue.id) rest
    → All (IsQuiet (new_log rule issue w ∷ w.alert_logs) issue.id) rest
IsQuiet-new_log rule issue w [] d q = tt
IsQuiet-new_log rule issue w (r ∷ rest) d q =
    (ground arith, IsQuiet-new_log rule issue w rest (ground arith) q.1)

notify_if_not_cooldown_rest :
    (rule : AlertRule) (issue : Issue) (w : World)
    → let v = (notify_if_not_cooldown rule issue w).1 in
      (v.outage ≡ w.outage) × (v.http_status ≡ w.http_status)
unfolding notify_if_not_cooldown get_last_sent_at create_log notify trip
notify_if_not_cooldown_rest rule issue w = ground arith

notify_each-alerted :
    (rules : List AlertRule) (issue : Issue) (w : World)
    → IsHealthy w
    → All (λ (r : AlertRule). known_channel r.channel ≡ true) rules
    → Differ rules
    → All (IsQuiet w.alert_logs issue.id) rules
    → (notify_each rules issue w).1.sent ≡ alerted rules issue.id w.sent
unfolding notify_each
notify_each-alerted [] issue w h k d q = refl
notify_each-alerted (rule ∷ rest) issue w h k d q =
    let v = (notify_if_not_cooldown rule issue w).1 in
    let cold = not_cooling rule issue.id w.now w.alert_logs q.0 in
    let one = notify_if_not_cooldown_lem rule issue w h k.0 in
    let same = notify_if_not_cooldown_rest rule issue w in
    let sent : v.sent ≡ alert rule.id issue.id rule.channel_target ∷ w.sent =
      one.0 ∙ rw cold refl in
    let logs : v.alert_logs ≡ new_log rule issue w ∷ w.alert_logs = one.1 ∙ rw cold refl in
    notify_each-alerted rest issue v (IsHealthy-of w v same.0 same.1 h) k.1 d.1
      (rw logs (IsQuiet-new_log rule issue w rest d.0 q.1))
    ∙ ap (alerted rest issue.id) sent

abbrev pub new_issue_rules : ℕ → World → List AlertRule
new_issue_rules p w =
    select (λ (r : AlertRule). r.project_id == p && str_eq r.condition_type "new_issue") w.rules

-- Nothing that the alerts depend on has changed.
abbrev pub Alike : World → World → Type 0
Alike w v =
    (v.rules ≡ w.rules)
    × (v.alert_logs ≡ w.alert_logs)
    × (v.sent ≡ w.sent)
    × (v.outage ≡ w.outage)
    × (v.http_status ≡ w.http_status)

module _ (sha256_hex : String → String) where
  abbrev pub group_of : Event → Issue → Bool
  group_of e = same_group e.project_id (compute sha256_hex e.message e.stack_trace)

  -- The issue after the event, and whether it is new.
  unfoldable pub grouped : Event → World → Option Issue → Issue × Bool
  unfolding bump
  grouped e w none = (
    new_issue w.serial e.project_id (compute sha256_hex e.message e.stack_trace) e.message e.level
        (micros e.occurred_at),
    true,
  )
  grouped e w (some i) = (bump (micros e.occurred_at) i, false)

  pub group_issue_lem :
      (e : Event) (w : World) (o : Option Issue)
      → first (group_of e) w.issues ≡ o
      → IsUp w
      → (v : World) × (group_issue sha256_hex e w ≡ (ok (grouped e w o), v)) × Alike w v
  unfolding group_issue upsert upsert_row insert_event trip grouped
  group_issue_lem e w none fresh h =
      rw (h w.calls) (rw (fresh, h (suc w.calls)) (_, refl, (refl, refl, refl, refl, refl)))
  group_issue_lem e w (some i) old h =
      rw (h w.calls) (rw (old, h (suc w.calls)) (_, refl, (refl, refl, refl, refl, refl)))

  -- What was sent after the follow-up.
  abbrev pub announced : Event → World → Option Issue → List Message
  announced e w none =
      alerted (new_issue_rules e.project_id w) w.serial
        (broadcast (some e.project_id) "issue.created" w.serial ∷ w.sent)
  announced e w (some i) = broadcast (some e.project_id) "issue.updated" i.id ∷ w.sent

  pub ack-sent : (id : ℕ) (w : World) → (ack id w).sent ≡ w.sent
  unfolding ack trip
  ack-sent id w = ground arith

  pub own_project :
      (e : Event) (w : World) (i : Issue)
      → first (group_of e) w.issues ≡ some i
      → i.project_id ≡ e.project_id
  own_project e w i h = let same = first-holds (group_of e) w.issues i h in ground arith

  followed :
      (e : Event) (w v : World) (o : Option Issue)
      → first (group_of e) w.issues ≡ o
      → IsHealthy w
      → All (λ (r : AlertRule). known_channel r.channel ≡ true) (new_issue_rules e.project_id w)
      → Differ (new_issue_rules e.project_id w)
      → All (IsQuiet w.alert_logs w.serial) (new_issue_rules e.project_id w)
      → Alike w v
      → (follow_up (grouped e w o).0 (grouped e w o).1 v).sent ≡ announced e w o
  unfolding follow_up publish evaluate_new_issue list_active_new_issue_rules trip grouped
  followed e w v none g h k d q (rules, logs, sent, up, web) =
      let h' = IsHealthy-of w v up web h in
      let rs = new_issue_rules e.project_id v in
      let eq : rs ≡ new_issue_rules e.project_id w = rw rules refl in
      let u = record v {
        calls = suc (suc v.calls);
        sent = broadcast (some e.project_id) "issue.created" w.serial ∷ v.sent;
      } in
      rw (h'.up v.calls) (
        rw (h'.up (suc v.calls)) (
          notify_each-alerted rs (grouped e w none).0 u (IsHealthy-of v u refl refl h') (rw eq k)
            (rw eq d) (rw (eq, logs) q)
          ∙ rw (eq, sent) refl))
  followed e w v (some i) g h k d q (rules, logs, sent, up, web) =
      let h' = IsHealthy-of w v up web h in
      rw (h'.up v.calls, sent)
        (ap (λ (p : ℕ). broadcast (some p) "issue.updated" i.id ∷ w.sent) (own_project e w i g))

  -- While every service answers, a message with an event of a group that has no issue sends a
  -- broadcast of the new issue to the project's room and then one alert for each new-issue rule of the
  -- project, in their order, to the rule's target; an event of a known group sends the broadcast of
  -- its issue and nothing else. The rules have known channels and different identifiers, and none of
  -- them has a log under the identifier of the issue to come.
  pub event_announced :
      (x : Entry) (e : Event) (w : World)
      → x.payload ≡ event e
      → IsHealthy w
      → All (λ (r : AlertRule). known_channel r.channel ≡ true) (new_issue_rules e.project_id w)
      → Differ (new_issue_rules e.project_id w)
      → All (IsQuiet w.alert_logs w.serial) (new_issue_rules e.project_id w)
      → (process_message sha256_hex x w).sent ≡ announced e w (first (group_of e) w.issues)
  unfolding process_message
  event_announced x e w is h k d q =
      let o = first (group_of e) w.issues in
      let (v, done, alike) = group_issue_lem e w o refl h.up in
      let f = followed e w v o refl h k d q alike in
      rw (is, done) (ack-sent x.id (follow_up (grouped e w o).0 (grouped e w o).1 v) ∙ f)
