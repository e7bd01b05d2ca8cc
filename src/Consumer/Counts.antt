-- ===== src/Consumer/Counts.antt =====
-- The counts of the issues over a message, a poll and a round of reclaiming.
use sentinelix_backend.Base.{
  true, ℕ, ◌≤◌, String, ◌≡◌, refl, Bool, Option, List, [], ◌∷◌, ltb, arith, Bool-cases, inl, inr,
}
use sentinelix_backend.Domain.Errors.{Result, ok, err}
use sentinelix_backend.Domain.Alert.{AlertRule}
use sentinelix_backend.Domain.Event.{Event, Issue}
use sentinelix_backend.Stream.{
  Entry, Pending, Payload, Reason, missing, garbage, event, data_missing, unmarshal_error,
  exceeded_max_retries,
}
use sentinelix_backend.World.{IsUp, World, trip}
use sentinelix_backend.World.Alerts.{get_last_sent_at, create_log, list_active_new_issue_rules}
use sentinelix_backend.Notifier.{notify, publish}
use sentinelix_backend.Alerts.{notify_if_not_cooldown, notify_each, evaluate_new_issue}
use sentinelix_backend.Ingest.{group_issue}
use sentinelix_backend.Ingest.Counts.{Counted, Counted-later}
use sentinelix_backend.Ingest.Room.{group_issue-Counted}
use sentinelix_backend.Consumer.{
  Config, ack, add_dead, move_to_dlq, follow_up, batch, read_new, after_group, process_payload,
  process_message, process_all, read_once, claim, claimable, retry, claim_and_retry, reclaim_each,
  listed, reclaim_once,
}
use sentinelix_backend.Consumer.Queue.{push}
use sentinelix_backend.Consumer.Progress.{message-Advances}
use sentinelix_backend.Consumer.Reclaim.{one-Stays}

-- The issues and the events are as before; identifiers may have been used.
abbrev pub Beside : World → World → Type 0
Beside w v = (v.issues ≡ w.issues) × (v.events ≡ w.events) × (w.serial ≤ v.serial)

notify_if_not_cooldown-Beside :
    (rule : AlertRule) (issue : Issue) (w : World)
    → Beside w (notify_if_not_cooldown rule issue w).1
unfolding notify_if_not_cooldown get_last_sent_at create_log notify trip
notify_if_not_cooldown-Beside rule issue w = ground arith

notify_each-Beside :
    (rules : List AlertRule) (issue : Issue) (w : World) → Beside w (notify_each rules issue w).1
unfolding notify_each
notify_each-Beside [] issue w = (refl, refl, omega arith)
notify_each-Beside (rule ∷ rest) issue w = ground (
  arith,
  notify_if_not_cooldown-Beside rule issue w,
  notify_each-Beside rest issue (notify_if_not_cooldown rule issue w).1,
)

evaluate_new_issue-Beside : (issue : Issue) (w : World) → Beside w (evaluate_new_issue issue w).1
unfolding evaluate_new_issue list_active_new_issue_rules trip
evaluate_new_issue-Beside issue w = grind (arith, notify_each-Beside)

publish-Beside :
    (room : Option ℕ) (what : String) (id : ℕ) (w : World) → Beside w (publish room what id w).1
unfolding publish trip
publish-Beside room what id w = ground arith

follow_up-Beside :
    (issue : Issue) (created : Bool) (w : World) → Beside w (follow_up issue created w)
unfolding follow_up
follow_up-Beside issue created w = grind (arith, evaluate_new_issue-Beside, publish-Beside)

ack-Beside : (id : ℕ) (w : World) → Beside w (ack id w)
unfolding ack trip
ack-Beside id w = ground arith

move_to_dlq-Beside : (x : Entry) (reason : Reason) (w : World) → Beside w (move_to_dlq x reason w)
unfolding move_to_dlq ack add_dead trip
move_to_dlq-Beside x reason w = ground arith

pub push-Beside : (e : Event) (w : World) → Beside w (push e w).1
unfolding push trip
push-Beside e w = ground arith

pub Beside-Counted : (exact : Bool) (w v : World) → Beside w v → Counted exact w → Counted exact v
Beside-Counted exact w v (issues, events, later) c =
    rw (issues, events) (Counted-later exact _ w.serial v.serial w.events w.issues later c)

-- With `exact`, no call to a service fails, and no count is too high.
module _ (exact : Bool) where
  abbrev pub Calm : World → Type 0
  Calm w = exact ≡ true → IsUp w

  dlq-Counted :
      (x : Entry) (reason : Reason) (w : World)
      → Counted exact w
      → Counted exact (move_to_dlq x reason w)
  dlq-Counted x reason w c =
      Beside-Counted exact w (move_to_dlq x reason w) (move_to_dlq-Beside x reason w) c

  module _ (sha256_hex : String → String) where
    after-Counted :
        (x : Entry) (r : Result (Issue × Bool)) (v : World)
        → Counted exact v
        → Counted exact (after_group sha256_hex x (r, v))
    after-Counted x (err e) v c = c
    after-Counted x (ok (issue, created)) v c =
        let u = follow_up issue created v in
        Beside-Counted exact u (ack x.id u) (ack-Beside x.id u)
          (Beside-Counted exact v u (follow_up-Beside issue created v) c)

    payload-Counted :
        (x : Entry) (d : Payload) (w : World)
        → Calm w
        → Counted exact w
        → Counted exact (process_payload sha256_hex x d w)
    payload-Counted x missing w up c = dlq-Counted x data_missing w c
    payload-Counted x garbage w up c = dlq-Counted x unmarshal_error w c
    payload-Counted x (event e) w up c =
        let g = group_issue sha256_hex e w in
        after-Counted x g.0 g.1 (group_issue-Counted sha256_hex exact e w up c)

    message-Calm : (x : Entry) (w : World) → Calm w → Calm (process_message sha256_hex x w)
    message-Calm x w up k n = rw (message-Advances sha256_hex x w (up k)).0 (up k n)

    all-Counted :
        (xs : List Entry) (w : World)
        → Calm w
        → Counted exact w
        → Counted exact (process_all sha256_hex xs w)
    unfolding process_all process_message
    all-Counted [] w up c = c
    all-Counted (x ∷ xs) w up c =
        all-Counted xs (process_message sha256_hex x w) (message-Calm x w up)
          (payload-Counted x x.payload w up c)

    pub read_once-Counted :
        (w : World) → Calm w → Counted exact w → Counted exact (read_once sha256_hex w)
    unfolding read_once trip
    read_once-Counted w up c = elim (Bool-cases (w.outage w.calls)) [
      | inl down ↦ rw down c
      | inr fine ↦ rw fine (all-Counted (batch w) (read_new (trip w).1) up c)
    ]

    module _ (s : Config) where
      retry-Counted :
          (p : Pending) (w : World)
          → Calm w
          → Counted exact w
          → Counted exact (retry sha256_hex s p w)
      unfolding process_message
      retry-Counted p w up c = elim (Bool-cases (ltb s.max_delivery_count p.deliveries)) [
        | inl worn ↦ rw worn (dlq-Counted p.entry exceeded_max_retries w c)
        | inr fine ↦ rw fine (payload-Counted p.entry p.entry.payload w up c)
      ]

      one-Counted :
          (p : Pending) (w : World)
          → Calm w
          → Counted exact w
          → Counted exact (claim_and_retry sha256_hex s p (trip w).0 (trip w).1)
      unfolding trip
      one-Counted p w up c =
          let v = (trip w).1 in
          elim (Bool-cases (w.outage w.calls)) [
            | inl down ↦ rw down c
            | inr fine ↦ elim (Bool-cases (claimable s p v)) [
              | inl waits ↦ rw (fine, waits) (retry-Counted p (claim s p v) up c)
              | inr gone ↦ rw (fine, gone) c
            ]
          ]

      one-Calm :
          (p : Pending) (w : World)
          → Calm w
          → Calm (claim_and_retry sha256_hex s p (trip w).0 (trip w).1)
      one-Calm p w up k n = rw (one-Stays sha256_hex s p w (up k)).0 (up k n)

      each-Counted :
          (ps : List Pending) (w : World)
          → Calm w
          → Counted exact w
          → Counted exact (reclaim_each sha256_hex s ps w)
      unfolding reclaim_each
      each-Counted [] w up c = c
      each-Counted (p ∷ ps) w up c =
          each-Counted ps (claim_and_retry sha256_hex s p (trip w).0 (trip w).1) (one-Calm p w up)
            (one-Counted p w up c)

      pub reclaim_once-Counted :
          (w : World) → Calm w → Counted exact w → Counted exact (reclaim_once sha256_hex s w)
      unfolding reclaim_once trip
      reclaim_once-Counted w up c = elim (Bool-cases (w.outage w.calls)) [
        | inl down ↦ rw down c
        | inr fine ↦ rw fine (each-Counted (listed s (trip w).1) (trip w).1 up c)
      ]
