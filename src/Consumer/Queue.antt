-- ===== src/Consumer/Queue.antt =====
-- internal/repository/redis/queue.go, and ensureGroup of internal/worker/ingest_consumer.go.
use sentinelix_backend.Base.{suc, Bool, true, [], ◌∷◌, ◌++◌}
use sentinelix_backend.Domain.Errors.{Result, ok, err}
use sentinelix_backend.Domain.Event.{Event}
use sentinelix_backend.Stream.{event}
use sentinelix_backend.World.{World, Act, exec, trip}

-- EventQueue.Push: XADD of the event's JSON, under an identifier that Redis gives it. An event comes
-- from JSON, and so has one.
unfoldable pub push : Event → Act (Unit {0})
unfolding trip
push e = exec λ w. record w {
  serial = suc w.serial;
  stream = record w.stream {
    backlog = w.stream.backlog ++ record { id = w.serial; payload = event e } ∷ [];
  };
}

abbrev group_made : Bool → Result (Unit {0}) → Result (Unit {0}) × Bool
group_made exists (err e) = (err e, exists)
group_made exists (ok _) = (ok tt, true)

-- ensureGroup: XGROUP CREATE from the stream's start. Redis answers BUSYGROUP where the group exists,
-- which is no error.
unfoldable pub ensure_group : Bool → World → (Result (Unit {0}) × Bool) × World
unfolding trip
ensure_group exists w = (group_made exists (trip w).0, (trip w).1)
