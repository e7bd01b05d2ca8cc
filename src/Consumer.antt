-- ===== src/Consumer.antt =====
-- internal/worker/ingest_consumer.go: the reading of the stream, the retry of what stays pending, and
-- the dead-letter queue, on the streams of the world.
pub mod Aside
pub mod Delivery
pub mod Batch
pub mod Progress
pub mod Queue
pub mod Reclaim
pub mod Drain
pub mod Counts
pub mod History
use sentinelix_backend.Base.{
  ℕ, suc, ◌+◌, ◌-◌, ◌≤◌, String, ◌≡◌, Bool, true, false, not, ◌&&◌, Option, none, some, List, [],
  ◌∷◌, ◌++◌, map, ltb, leb, ◌==◌, first, select, take, update_where, any_of, if◌then◌else◌,
}
use sentinelix_backend.Domain.Errors.{Result, ok, err, Error, other}
use sentinelix_backend.Domain.Event.{Event, Issue}
use sentinelix_backend.Stream.{
  Payload, missing, garbage, event, Entry, Pending, Reason, data_missing, unmarshal_error,
  exceeded_max_retries, DeadLetter,
}
use sentinelix_backend.World.{World, swallow, trip, exec}
use sentinelix_backend.World.Issues.{drop}
use sentinelix_backend.Notifier.{publish}
use sentinelix_backend.Alerts.{evaluate_new_issue}
use sentinelix_backend.Ingest.{group_issue}

pub record Config : Type 0 where
  pub max_delivery_count : ℕ
  pub reclaim_min_idle : ℕ

abbrev pub has_id : ℕ → Pending → Bool
has_id id p = p.entry.id == id

-- XACK; an error is only logged.
unfoldable pub ack : ℕ → World → World
unfolding trip
ack id w =
    (exec
      (λ v. record v {
        stream = record v.stream { pending = select (λ p. not (has_id id p)) v.stream.pending };
      })
      w).1

-- XADD to the dead-letter stream; an error is only logged.
unfoldable pub add_dead : DeadLetter → World → World
unfolding trip
add_dead d w = (exec (λ v. record v { stream = record v.stream { dlq = d ∷ v.stream.dlq } }) w).1

-- Both steps are made, whatever comes of the first.
unfoldable pub move_to_dlq : Entry → Reason → World → World
unfolding ack add_dead
move_to_dlq entry reason w =
    ack entry.id (add_dead (record { original = entry; reason = reason }) w)

abbrev pub event_type : Bool → String
event_type true = "issue.created"
event_type false = "issue.updated"

-- buildBroadcastPayload and Publish, then the alerts of a new issue; failures are only logged.
unfoldable pub follow_up : Issue → Bool → World → World
follow_up issue created w =
    let w' = (swallow (publish (some issue.project_id) (event_type created) issue.id) w).1 in
    if created then (swallow (evaluate_new_issue issue) w').1 else w'

abbrev pub delivered : ℕ → Entry → Pending
delivered now entry = record { entry = entry; deliveries = 1; delivered_at = now }

abbrev pub batch : World → List Entry
batch w = take 10 w.stream.backlog

-- What XREADGROUP does where it succeeds: the messages of the batch are pending.
abbrev pub read_new : World → World
read_new w = record w {
  stream = record w.stream {
    backlog = drop 10 w.stream.backlog;
    pending = w.stream.pending ++ map (delivered w.now) (batch w);
  };
}

module _ (c : Config) where
  abbrev pub is_idle : ℕ → Pending → Bool
  is_idle now p = leb c.reclaim_min_idle (now - p.delivered_at)

  abbrev pub redeliver : ℕ → Pending → Pending
  redeliver now p = record p { deliveries = suc p.deliveries; delivered_at = now }

  abbrev pub is_claimed : Pending → ℕ → Pending → Bool
  is_claimed p now q = has_id p.entry.id q && is_idle now q

  -- XCLAIM of one message that is still pending and idle: one more delivery.
  abbrev pub claim : Pending → World → World
  claim p w = record w {
    stream = record w.stream {
      pending = update_where (is_claimed p w.now) (redeliver w.now) w.stream.pending;
    };
  }

  abbrev pub claimable : Pending → World → Bool
  claimable p w = any_of (is_claimed p w.now) w.stream.pending

  abbrev pub listed : World → List Pending
  listed w = take 50 (select (is_idle w.now) w.stream.pending)

module _ (sha256_hex : String → String) where
  abbrev pub after_group : Entry → Result (Issue × Bool) × World → World
  after_group entry (err e, w) = w
  after_group entry (ok (issue, created), w) = ack entry.id (follow_up issue created w)

  abbrev pub process_payload : Entry → Payload → World → World
  process_payload entry missing w = move_to_dlq entry data_missing w
  process_payload entry garbage w = move_to_dlq entry unmarshal_error w
  process_payload entry (event e) w = after_group entry (group_issue sha256_hex e w)

  unfoldable pub process_message : Entry → World → World
  process_message entry w = process_payload entry entry.payload w

  unfoldable pub process_all : List Entry → World → World
  process_all [] w = w
  process_all (entry ∷ rest) w = process_all rest (process_message entry w)

  abbrev pub read_batch : Result (Unit {0}) → World → World
  read_batch (err e) w = w
  read_batch (ok _) w = process_all (batch w) (read_new w)

  -- One round of Run: XREADGROUP with COUNT 10, then each message.
  unfoldable pub read_once : World → World
  unfolding process_all trip
  read_once w = read_batch (trip w).0 (trip w).1

  module _ (c : Config) where
    -- The message was claimed; the count is that of the listing, before the claim.
    abbrev pub retry : Pending → World → World
    retry p w =
        if ltb c.max_delivery_count p.deliveries
        then move_to_dlq p.entry exceeded_max_retries w
        else process_message p.entry w

    abbrev pub claim_and_retry : Pending → Result (Unit {0}) → World → World
    claim_and_retry p (err e) w = w
    claim_and_retry p (ok _) w = if claimable c p w then retry p (claim c p w) else w

    unfoldable pub reclaim_each : List Pending → World → World
    unfolding trip process_message
    reclaim_each [] w = w
    reclaim_each (p ∷ rest) w = reclaim_each rest (claim_and_retry p (trip w).0 (trip w).1)

    abbrev pub reclaim_listed : Result (Unit {0}) → World → World
    reclaim_listed (err e) w = w
    reclaim_listed (ok _) w = reclaim_each (listed c w) w

    -- reclaimOnce: XPENDING with IDLE and COUNT 50, then each entry.
    unfoldable pub reclaim_once : World → World
    unfolding reclaim_each
    reclaim_once w = reclaim_listed (trip w).0 (trip w).1
