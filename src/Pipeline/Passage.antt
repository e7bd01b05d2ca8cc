-- ===== src/Pipeline/Passage.antt =====
-- An event from the request that the API accepts to the table of events.
use sentinelix_backend.Base.{
  ℕ, ◌+◌, zero, suc, ◌*◌, ◌≤◌, ◌<◌, String, ◌≡◌, refl, sym, ◌≢◌, ◌⊎◌, inl, inr, List, [], ◌∷◌,
  arith, length, str_eq, Bool-cases,
}
use native.Mathlib.Nat.{le_refl}
use mathlib.Core.List.{append-nil}
use sentinelix_backend.Domain.Errors.{Error, Result, ok, err}
use sentinelix_backend.Domain.Event.{Event}
use sentinelix_backend.World.{IsUp, World}
use sentinelix_backend.Ingest.{IngestEventInput, ingest}
use sentinelix_backend.Limiter.{allow}
use sentinelix_backend.World.Cache.{find_cached}
use sentinelix_backend.Consumer.{read_once, reclaim_once}
use sentinelix_backend.Consumer.Queue.{push}
use sentinelix_backend.Consumer.Delivery.{IsStored}
use sentinelix_backend.Consumer.Reclaim.{Stays, reclaim_once-Stays}
use sentinelix_backend.Consumer.Drain.{Extends, Extends-Within, Within, last-Within, poll-Within}
use sentinelix_backend.Http.{Response, choose, write_json, accepted}
use sentinelix_backend.Http.Middleware.{is_options, cors_middleware}
use sentinelix_backend.Http.Ingestion.{
  IngestEventRequest, Payload, too_large, malformed, event, handle_payload, handle_ingest_event,
  ingest_error,
}
use sentinelix_backend.Http.Router.{Request, serve, serve_route}
use sentinelix_backend.Config.{Config}
use sentinelix_backend.Programs.{Environment, Limiters, services, consumer_config}
use sentinelix_backend.Pipeline.{Move, posted, polled, reclaimed, passed, post_to, run, polls}
use sentinelix_backend.Pipeline.Intake.{Apart, Taken, IsFrom, Queued, ingest-Taken}

abbrev pub to_input : String → IngestEventRequest → IngestEventInput
to_input key req = record {
  raw_api_key = key;
  level = req.level;
  message = req.message;
  stack_trace = req.stack_trace;
  context = req.context;
}

-- The answer is not 202, and the stream grew at its end at most; or the event of the request is at
-- the end of the stream.
abbrev Posted : (String → String) → String → Payload → World → Response × World → Type 0
Posted hash key payload w (r, v) =
    (Extends w v × (r.status ≢ 202))
    ⊎ ((req : IngestEventRequest) × (payload ≡ event req)
        × ((x : Event) × IsFrom (hash key) w (to_input key req) x × Queued x w v))

unmoved : (w v : World) → Apart w v → Extends w v
unmoved w v (s, rows, up) = ([], rw s (sym (append-nil w.stream.backlog)), rows, up)

ingest_error_status : (x : Error) → (ingest_error x).status ≢ 202
ingest_error_status x = ground arith

answered-Posted :
    (hash : String → String) (key : String) (req : IngestEventRequest) (w : World)
    (r : Result (Unit {0})) (v : World)
    → Taken (hash key) (to_input key req) w (r, v)
    → Posted hash key (event req) w (choose ingest_error (λ u. write_json 202 accepted) r, v)
answered-Posted hash key req w (err x) v (inl (same, _)) =
    inl (unmoved w v same, ingest_error_status x)
answered-Posted hash key req w (ok _) v (inl (same, other)) = absurd (other refl)
answered-Posted hash key req w r v (inr (x, from, queued)) = inr (req, refl, (x, from, queued))

module _ (e : Environment) (c : Config) (ls : Limiters) where
  abbrev pub hash : String → String
  hash = e.platform.sha256_hex

  handled-Posted :
      (key : String) (payload : Payload) (w : World)
      → Posted hash key payload w
          (handle_payload hash (services e c ls).ingest_limiter find_cached push key payload w)
  handled-Posted key too_large w = inl (unmoved w w (refl, refl, refl), λ h. omega arith)
  handled-Posted key malformed w = inl (unmoved w w (refl, refl, refl), λ h. omega arith)
  handled-Posted key (event req) w =
      let call =
        ingest hash (λ k. allow ls.ingest_rate k e.float64) find_cached push (to_input key req) w in
      answered-Posted hash key req w call.0 call.1
        (ingest-Taken hash ls.ingest_rate e.float64 (to_input key req) w)

  post-Posted :
      (r : Request) (key : String) (payload : Payload) (w : World)
      → let a = post_to e c ls r key payload w in Posted hash key payload w (a.0.1, a.1)
  unfolding serve serve_route cors_middleware handle_ingest_event
  post-Posted r key payload w = elim (Bool-cases (is_options r.method)) [
    | inl preflight ↦ rw preflight (inl (unmoved w w (refl, refl, refl), λ h. omega arith))
    | inr other ↦ elim (Bool-cases (str_eq key "")) [
      | inl absent ↦ rw (other, absent) (inl (unmoved w w (refl, refl, refl), λ h. omega arith))
      | inr present ↦ rw (other, present) (handled-Posted key payload w)
    ]
  ]

  Posted-Extends :
      (key : String) (payload : Payload) (w v : World) (a : Response)
      → Posted hash key payload w (a, v)
      → Extends w v
  Posted-Extends key payload w v a (inl (more, _)) = more
  Posted-Extends key payload w v a (inr (_, _, (_, _, (id, more, rows, up)))) =
      (_ ∷ [], more, rows, up)

  Stays-Within : (x : Event) (k : ℕ) (w v : World) → Stays w v → Within x k w → Within x k v
  Stays-Within x k w v stays (inl h) = inl (stays.2 x h)
  Stays-Within x k w v stays (inr h) = inr (rw stays.1 h)

  run-IsStored :
      (x : Event) (moves : List Move) (k : ℕ) (w : World)
      → k ≤ 10 * polls moves
      → IsUp w
      → Within x k w
      → IsStored x (run e c ls moves w).events
  unfolding run
  run-IsStored x [] zero w le up (inl h) = h
  run-IsStored x [] (suc k) w le up h = absurd (omega arith)
  run-IsStored x [] zero w le up (inr h) = absurd h
  run-IsStored x (posted r key payload ∷ rest) k w le up h =
      let a = post_to e c ls r key payload w in
      let more = Posted-Extends key payload w a.1 a.0.1 (post-Posted r key payload w) in
      run-IsStored x rest k a.1 le (rw more.3 up) (Extends-Within x k w a.1 more h)
  run-IsStored x (polled ∷ rest) k w le up h =
      let p = poll-Within x hash (10 * polls rest) k w (omega arith) up h in
      run-IsStored x rest (10 * polls rest) (read_once hash w) (omega arith) p.0 p.1
  run-IsStored x (reclaimed ∷ rest) k w le up h =
      let v = reclaim_once hash consumer_config w in
      let stays = reclaim_once-Stays hash consumer_config w up in
      run-IsStored x rest k v le (λ n. rw stays.0 (up n)) (Stays-Within x k w v stays h)
  run-IsStored x (passed t ∷ rest) k w le up h =
      run-IsStored x rest k (record w { now = w.now + t }) le up h

  -- While no call to Postgres or Redis fails: if a request to POST /ingest/event is answered 202, then
  -- its body holds an event that breaks no rule of the API, and that event, with the level "error" for
  -- none and the project of the request's key, has its row in the table of events (of the project, with
  -- the stack trace, the context and the time to the microsecond, attributed to an issue) after any
  -- further sequence of such requests, polls of the consumer and rounds of its reclaiming, at any
  -- times, in which the polls are enough: ten times their number is more than the entries that were
  -- unread before.
  pub accepted_reaches_table :
      (r : Request) (key : String) (payload : Payload) (w : World) (moves : List Move)
      → IsUp w
      → length w.stream.backlog < 10 * polls moves
      → (post_to e c ls r key payload w).0.1.status ≡ 202
      → (req : IngestEventRequest) × (payload ≡ event req)
        × ((x : Event) × IsFrom (hash key) w (to_input key req) x
            × IsStored x (run e c ls moves (post_to e c ls r key payload w).1).events)
  accepted_reaches_table r key payload w moves up enough done =
      let a = post_to e c ls r key payload w in
      elim (post-Posted r key payload w) [
        | inl (more, other) ↦ absurd (other done)
        | inr (req, same, (x, from, (id, more, rows, same_up))) ↦ (
          req,
          same,
          (
            x,
            from,
            run-IsStored x moves (10 * polls moves) a.1 (le_refl _) (rw same_up up)
                (last-Within x (10 * polls moves) id w a.1 more enough),
          ),
        )
      ]
