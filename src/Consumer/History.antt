-- ===== src/Consumer/History.antt =====
-- The counts of the issues over every history of the worker.
use sentinelix_backend.Base.{true, ℕ, ◌+◌, String, ◌≡◌, Bool, List, [], ◌∷◌, arith}
use sentinelix_backend.Domain.Event.{Event}
use sentinelix_backend.World.{IsUp, World, trip}
use sentinelix_backend.Ingest.Counts.{Counted}
use sentinelix_backend.Consumer.{Config, batch, read_new, read_once, reclaim_once}
use sentinelix_backend.Consumer.Queue.{push}
use sentinelix_backend.Consumer.Progress.{all-Advances}
use sentinelix_backend.Consumer.Reclaim.{reclaim_once-Stays}
use sentinelix_backend.Consumer.Counts.{
  Beside-Counted, push-Beside, read_once-Counted, reclaim_once-Counted,
}

-- What happens around the table of issues: a push of the API, a poll or a round of reclaiming of the
-- worker, and time.
pub data Round : Type 0 where
  pushes : Event → Round
  reads reclaims : Round
  waits : ℕ → Round

module _ (sha256_hex : String → String) (s : Config) where
  abbrev pub run_round : Round → World → World
  run_round (pushes e) w = (push e w).1
  run_round reads w = read_once sha256_hex w
  run_round reclaims w = reclaim_once sha256_hex s w
  run_round (waits t) w = record w { now = w.now + t }

  unfoldable pub run_rounds : List Round → World → World
  run_rounds [] w = w
  run_rounds (r ∷ rest) w = run_rounds rest (run_round r w)

  read_once-IsUp : (w : World) → IsUp w → IsUp (read_once sha256_hex w)
  unfolding read_once trip
  read_once-IsUp w up =
      rw (up w.calls) (all-Advances sha256_hex (batch w) (read_new (trip w).1) up).0

  push-outage : (e : Event) (w : World) → (push e w).1.outage ≡ w.outage
  unfolding push trip
  push-outage e w = ground arith

  round-IsUp : (r : Round) (w : World) → IsUp w → IsUp (run_round r w)
  round-IsUp (pushes e) w up = λ n. rw (push-outage e w) (up n)
  round-IsUp reads w up = read_once-IsUp w up
  round-IsUp reclaims w up = λ n. rw (reclaim_once-Stays sha256_hex s w up).0 (up n)
  round-IsUp (waits t) w up = up

  round-Counted :
      (exact : Bool) (r : Round) (w : World)
      → (exact ≡ true → IsUp w)
      → Counted exact w
      → Counted exact (run_round r w)
  round-Counted exact (pushes e) w up c = Beside-Counted exact w (push e w).1 (push-Beside e w) c
  round-Counted exact reads w up c = read_once-Counted exact sha256_hex w up c
  round-Counted exact reclaims w up c = reclaim_once-Counted exact sha256_hex s w up c
  round-Counted exact (waits t) w up c = c

  -- Over every history of pushes, polls and rounds of reclaiming, whatever the stream holds and
  -- whichever calls to Postgres, Redis or a notification service fail: if each stored issue counts at
  -- least the stored events that are attributed to it, then so it does afterwards. With `exact`, where
  -- no such call fails: if each counts exactly those, then so it does afterwards. (No two issues have
  -- one identifier or one project and fingerprint, and no identifier in use is still to come: before,
  -- and so afterwards.)
  pub issues_count_events :
      (exact : Bool) (rounds : List Round) (w : World)
      → (exact ≡ true → IsUp w)
      → Counted exact w
      → Counted exact (run_rounds rounds w)
  unfolding run_rounds
  issues_count_events exact [] w up c = c
  issues_count_events exact (r ∷ rest) w up c =
      issues_count_events exact rest (run_round r w) (λ k. round-IsUp r w (up k))
        (round-Counted exact r w up c)
