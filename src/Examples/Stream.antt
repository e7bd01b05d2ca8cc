-- ===== src/Examples/Stream.antt =====
-- The theorems on the stream's consumer at concrete inputs.
use sentinelix_backend.Base.{true, List, ◌≡◌, refl, inl, false, [], ◌∷◌, arith}
use sentinelix_backend.Stream.{Entry, Pending, event, garbage}
use sentinelix_backend.World.{World}
use sentinelix_backend.Consumer.{Config, read_once, reclaim_once, retry}
use sentinelix_backend.Ingest.Counts.{Counted}
use sentinelix_backend.Consumer.History.{
  Round, pushes, reads, reclaims, waits, run_rounds, issues_count_events,
}
use sentinelix_backend.Consumer.Delivery.{Kept, is_pending, is_dead}
use sentinelix_backend.Consumer.Batch.{read_once-Kept, reclaim_once-Kept, retry_exhausted}
use sentinelix_backend.Examples.{breaking, boom}

abbrev message : Entry
message = record { id = 1; payload = event boom }

abbrev broken : Entry
broken = record { id = 2; payload = garbage }

-- The insertion of the event fails.
abbrev fed : World
fed = record (breaking (2 ∷ [])) {
  stream = record { backlog = message ∷ broken ∷ []; pending = []; dlq = [] };
}

read_once-Kept_example : Kept 1 boom (read_once (λ s. s) fed)
read_once-Kept_example =
    read_once-Kept (λ s. s) 1 boom fed refl refl ((λ h. refl), ((λ h. absurd (omega arith)), tt))

abbrev config : Config
config = record { max_delivery_count = 3; reclaim_min_idle = 10 }

abbrev failed_once : Pending
failed_once = record { entry = message; deliveries = 1; delivered_at = 5 }

abbrev waiting : World
waiting = record (breaking []) {
  stream = record { backlog = []; pending = failed_once ∷ []; dlq = [] };
}

reclaim_once-Kept_example : Kept 1 boom (reclaim_once (λ s. s) config waiting)
reclaim_once-Kept_example =
    reclaim_once-Kept (λ s. s) config 1 boom waiting ((λ h. (omega arith, refl)), tt) (inl refl)

abbrev worn : Pending
worn = record failed_once { deliveries = 4 }

-- The dead-letter queue cannot be reached, and the message is gone from both.
abbrev cut_off : World
cut_off = record (breaking (0 ∷ [])) {
  stream = record { backlog = []; pending = worn ∷ []; dlq = [] };
}

retry_exhausted_example :
    (is_dead 1 (retry (λ s. s) config worn cut_off) ≡ false)
    × (is_pending 1 (retry (λ s. s) config worn cut_off) ≡ false)
    × ((retry (λ s. s) config worn cut_off).events ≡ [])
retry_exhausted_example = retry_exhausted (λ s. s) config worn cut_off (omega arith)

abbrev history : List Round
history = reads ∷ waits 20 ∷ pushes boom ∷ reclaims ∷ reads ∷ []

abbrev calm : World
calm = record fed { outage = λ n. false }

issues_count_events_example : Counted true (run_rounds (λ s. s) config history calm)
issues_count_events_example =
    issues_count_events (λ s. s) config true history calm (λ k n. refl) (tt, tt, tt, tt)
