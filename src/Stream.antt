-- ===== src/Stream.antt =====
-- The Redis streams of internal/repository/redis/queue.go and internal/worker/ingest_consumer.go: the
-- events that no one has read, the pending list of the consumer group, and the dead letters.
use sentinelix_backend.Base.{ℕ, List}
use sentinelix_backend.Domain.Event.{Event}

-- The field "data" of a message: not a text; a text that is no event; an event's JSON.
pub data Payload : Type 0 where
  missing garbage : Payload
  event : Event → Payload

pub record Entry : Type 0 where
  pub id : ℕ
  pub payload : Payload

-- An entry of the group's pending list, with Redis' count of its deliveries.
pub record Pending : Type 0 where
  pub entry : Entry
  pub deliveries : ℕ
  pub delivered_at : ℕ

pub data Reason : Type 0 where
  data_missing unmarshal_error exceeded_max_retries : Reason

pub record DeadLetter : Type 0 where
  pub original : Entry
  pub reason : Reason

pub record Stream : Type 0 where
  pub backlog : List Entry
  pub pending : List Pending
  pub dlq : List DeadLetter
