-- ===== src/Examples/Workers.antt =====
-- The theorems on the supervisor at concrete inputs.
use sentinelix_backend.Base.{List, true, false, all_of, ◌≡◌, refl, none, some, [], ◌∷◌, map, arith}
use sentinelix_backend.Dashboard.Projects
use sentinelix_backend.World.{World}
use sentinelix_backend.Supervisor.{
  Supervisor, Goroutine, Incoming, garbage, envelope, spawn_all, start, new_supervisor, shut_down,
}
use sentinelix_backend.World.Monitors.{list_all}
use sentinelix_backend.Supervisor.Shutdown.{heard, shut_down-stops}
use sentinelix_backend.Supervisor.Table.{checkers}
use sentinelix_backend.Supervisor.Edits.{create, update, delete, stored_monitor}
use sentinelix_backend.Supervisor.Tracking.{Followed, published, deliver, checked_config, config}
use sentinelix_backend.Supervisor.Following.{Tracking, run_worker, worker_follows}
use sentinelix_backend.Supervisor.Orphans.{checker_outlives_project}
use sentinelix_backend.Examples.{site}
use sentinelix_backend.Examples.Tenants.{
  shop, shop-IsHealthy, owned, new_monitor_input, monitor_change,
}

worker_follows_example : Tracking (
    run_worker
      (λ s. some "https")
      (create 2 new_monitor_input ∷ update 2 3 monitor_change ∷ delete 3 3 ∷ [])
      shop)
worker_follows_example =
    worker_follows (λ s. some "https")
      (create 2 new_monitor_input ∷ update 2 3 monitor_change ∷ delete 3 3 ∷ []) shop shop-IsHealthy
      (refl, tt)

abbrev watching : Supervisor
watching = record {
  cancels = (3, 0) ∷ [];
  goroutines = record { number = 0; monitor = site; cancelled = false } ∷ [];
}

watching-Followed : Followed watching shop
watching-Followed = record {
  sound = ((λ i k e. ground arith), ((omega arith, (λ r. refl), (λ i e. ground arith)), tt));
  healthy = shop-IsHealthy;
  tracks = λ i. ground arith;
}

checker_outlives_project_example :
    let v = (Projects.delete 2 1 shop).1 in
    (stored_monitor 3 v ≡ none)
    × (map checked_config (checkers 3 (deliver (published shop v) watching v).0.goroutines)
        ≡ config site ∷ [])
checker_outlives_project_example =
    checker_outlives_project 2 1 owned shop 3 site watching watching-Followed (refl, tt) refl refl
      refl refl

-- One message starts the checker of the monitor anew, one is of no kind that is known.
abbrev messages : List (Incoming × World)
messages =
    (envelope "monitor.updated" 3, shop)
    ∷ (envelope "monitor.paused" 3, shop)
    ∷ (garbage, shop)
    ∷ []

shut_down-stops_example :
    all_of
      (λ (g : Goroutine). g.cancelled)
      (shut_down (heard messages (spawn_all (site ∷ []) new_supervisor))).goroutines
    ≡ true
unfolding start list_all
shut_down-stops_example = shut_down-stops shop (spawn_all (site ∷ []) new_supervisor) messages refl
