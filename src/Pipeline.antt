-- ===== src/Pipeline.antt =====
-- The way of an event: the API of cmd/api/main.go as it is wired, and the consumer of
-- cmd/worker/main.go, over the one stream between them.
pub mod Intake
pub mod Passage
pub mod Alerting
pub mod Dashboards
use sentinelix_backend.Base.{ℕ, ◌+◌, suc, String, List, [], ◌∷◌}
use sentinelix_backend.World.{World}
use sentinelix_backend.Consumer.{read_once, reclaim_once}
use sentinelix_backend.Http.{Response}
use sentinelix_backend.Http.Middleware.{CorsHeaders}
use sentinelix_backend.Http.Router.{Request, post_event, serve, get_healthz}
use sentinelix_backend.Http.Ingestion.{Payload}
use sentinelix_backend.Config.{Config}
use sentinelix_backend.Programs.{Environment, Limiters, services, consumer_config}

-- A request to POST /ingest/event, with its key and body; a poll of the consumer; a round of its
-- reclaiming; or time that passes.
pub data Move : Type 0 where
  posted : Request → String → Payload → Move
  polled reclaimed : Move
  passed : ℕ → Move

module _ (e : Environment) (c : Config) (ls : Limiters) where
  abbrev pub post_to : Request → String → Payload → World → (CorsHeaders × Response) × World
  post_to r key payload = serve (services e c ls) (record r { route = post_event key payload })

  unfoldable pub run : List Move → World → World
  run [] w = w
  run (posted r key payload ∷ rest) w = run rest (post_to r key payload w).1
  run (polled ∷ rest) w = run rest (read_once e.platform.sha256_hex w)
  run (reclaimed ∷ rest) w = run rest (reclaim_once e.platform.sha256_hex consumer_config w)
  run (passed t ∷ rest) w = run rest (record w { now = w.now + t })

abbrev pub polls : List Move → ℕ
polls [] = 0
polls (posted r key payload ∷ rest) = polls rest
polls (polled ∷ rest) = suc (polls rest)
polls (reclaimed ∷ rest) = polls rest
polls (passed t ∷ rest) = polls rest
