-- ===== src/Pipeline/Intake.antt =====
-- What a request to the ingestion endpoint does to the stream.
use sentinelix_backend.Base.{
  ℕ, String, ◌≡◌, refl, sym, ap, ◌∙◌, ◌≢◌, ◌⊎◌, inl, inr, Bool, true, false, Option, none, some, [],
  ◌∷◌, ◌++◌, arith, first, str_eq, Bool-cases, Option-cases,
}
use sentinelix_backend.Domain.Errors.{Result, ok, err, Error, project_not_found, invalid_api_key}
use sentinelix_backend.Domain.Account.{Project}
use sentinelix_backend.Domain.Event.{Event}
use sentinelix_backend.Stream.{Stream, event}
use sentinelix_backend.World.{World, Cached, trip}
use sentinelix_backend.World.Cache.{is_live, find_cached}
use sentinelix_backend.World.Projects.{get_by_api_key_hash}
use sentinelix_backend.Limiter.{RateLimiter, allow, incr_and_get, expire_first}
use sentinelix_backend.Limiter.Float.{Float64}
use sentinelix_backend.Ingest.{IngestEventInput, ingest}
use sentinelix_backend.Ingest.Acceptance.{
  refusal, event_of, queued, looked_up, admitted_by, ingest_lem,
}
use sentinelix_backend.Consumer.Queue.{push}

-- A call that touches neither the stream nor the event table.
abbrev pub Apart : World → World → Type 0
Apart w v = (v.stream ≡ w.stream) × (v.events ≡ w.events) × (v.outage ≡ w.outage)

-- The limiter writes its counters only.
allow-lem :
    (r : RateLimiter) (subject : String) (f : Float64) (w : World)
    → let v = (allow r subject f w).1 in
      Apart w v × (v.projects ≡ w.projects) × (v.cache ≡ w.cache) × (v.now ≡ w.now)
unfolding allow incr_and_get expire_first trip
allow-lem r subject f w = ground arith

-- A project of a key's hash: its row, or a cache entry that has not expired.
abbrev pub HasKey : String → World → Project → Type 0
HasKey h w p =
    (first (λ (x : Project). str_eq x.api_key_hash h) w.projects ≡ some p)
    ⊎ ((c : Cached) × (first (is_live h w.now) w.cache ≡ some c) × (c.project ≡ p))

find-Apart : (h : String) (w : World) → Apart w (find_cached h w).1
unfolding find_cached get_by_api_key_hash trip
find-Apart h w = ground arith

find-HasKey : (h : String) (w : World) (p : Project) → (find_cached h w).0 ≡ ok p → HasKey h w p
unfolding find_cached get_by_api_key_hash trip
find-HasKey h w p found = elim (Option-cases (first (is_live h w.now) w.cache)) [
  | inl miss ↦ inl (ground arith)
  | inr hit ↦ elim (Bool-cases (w.outage w.calls)) [
    | inl down ↦ inl (ground arith)
    | inr up ↦ inr (hit.0, hit.1, ground arith)
  ]
]

-- The event of a request that is accepted: the request breaks no rule, and the event has what it
-- says, with the level "error" for none, and is of a project of the key.
abbrev pub IsFrom : String → World → IngestEventInput → Event → Type 0
IsFrom h w input e =
    (p : Project) × HasKey h w p × (refusal input ≡ none) × ((now : ℕ) × (e ≡ event_of input p now))

-- The event is at the end of the stream.
abbrev pub Queued : Event → World → World → Type 0
Queued e w v =
    (id : ℕ) × (v.stream.backlog ≡ w.stream.backlog ++ record { id = id; payload = event e } ∷ [])
    × (v.events ≡ w.events)
    × (v.outage ≡ w.outage)

-- What an ingestion comes to: the stream is as it was, or has the event of the request at its end.
abbrev pub Taken : String → IngestEventInput → World → Result (Unit {0}) × World → Type 0
Taken h input w (r, v) =
    (Apart w v × (r ≢ ok tt)) ⊎ ((e : Event) × IsFrom h w input e × Queued e w v)

queued-Taken :
    (h : String) (input : IngestEventInput) (p : Project) (now : ℕ) (w u : World)
    → HasKey h w p
    → Apart w u
    → (o : Option Error) → refusal input ≡ o
    → Taken h input w (queued push o (event_of input p now) u)
unfolding push trip
queued-Taken h input p now w u key same (some x) v = inl (same, λ k. cc)
queued-Taken h input p now w u key (s, rows, up) none v = elim (Bool-cases (u.outage u.calls)) [
  | inl down ↦ rw down (inl ((s, rows, up), λ k. cc))
  | inr fine ↦
      let e = event_of input p now in
      rw fine (
        inr (
          e,
          (p, key, v, (now, refl)),
          (
            u.serial,
            ap (λ (t : Stream). t.backlog ++ record { id = u.serial; payload = event e } ∷ []) s,
            rows,
            up,
          ),
        ))
]

refused : Error → Error
refused project_not_found = invalid_api_key
refused x = x

looked_up-refused :
    (input : IngestEventInput) (x : Error) (u : World)
    → looked_up push input (err x, u) ≡ (err (refused x), u)
unfolding refused
looked_up-refused input x u = ground arith

looked_up-Taken :
    (h : String) (input : IngestEventInput) (w u : World) (o : Result Project)
    → ((p : Project) → o ≡ ok p → HasKey h w p)
    → Apart w u
    → Taken h input w (looked_up push input (o, u))
looked_up-Taken h input w u (ok p) key same =
    queued-Taken h input p u.now w u (key p refl) same (refusal input) refl
looked_up-Taken h input w u (err x) key same =
    rw (looked_up-refused input x u) (inl (same, λ k. cc))

-- What is so after the limiter is so from the start.
HasKey-from :
    (h : String) (w u : World) (p : Project)
    → u.projects ≡ w.projects
    → u.cache ≡ w.cache
    → u.now ≡ w.now
    → HasKey h u p
    → HasKey h w p
HasKey-from h w u p a b c key = rw (sym a, sym b, sym c) key

Apart-trans : (w u v : World) → Apart w u → Apart u v → Apart w v
Apart-trans w u v (a, b, c) (x, y, z) = (x ∙ a, y ∙ b, z ∙ c)

found-Taken :
    (h : String) (input : IngestEventInput) (w u : World)
    → Apart w u × (u.projects ≡ w.projects) × (u.cache ≡ w.cache) × (u.now ≡ w.now)
    → Taken h input w (looked_up push input (find_cached h u))
found-Taken h input w u (same, a, b, c) =
    let v = (find_cached h u).1 in
    looked_up-Taken h input w v (find_cached h u).0
      (λ p k. HasKey-from h w u p a b c (find-HasKey h u p k))
      (Apart-trans w u v same (find-Apart h u))

module _ (sha256_hex : String → String) (r : RateLimiter) (f : Float64) where
  admitted-Taken :
      (h : String) (input : IngestEventInput) (w u : World) (allowed : Result Bool)
      → Apart w u × (u.projects ≡ w.projects) × (u.cache ≡ w.cache) × (u.now ≡ w.now)
      → Taken h input w (admitted_by push input (find_cached h) (allowed, u))
  admitted-Taken h input w u (ok false) same = inl (same.0, λ k. cc)
  admitted-Taken h input w u (ok true) same = found-Taken h input w u same
  admitted-Taken h input w u (err x) same = found-Taken h input w u same

  pub ingest-Taken :
      (input : IngestEventInput) (w : World)
      → Taken
          (sha256_hex input.raw_api_key)
          input
          w
          (ingest sha256_hex (λ key. allow r key f) find_cached push input w)
  ingest-Taken input w =
      let h = sha256_hex input.raw_api_key in
      rw (ingest_lem sha256_hex (λ key. allow r key f) find_cached push input w)
        (admitted-Taken h input w (allow r h f w).1 (allow r h f w).0 (allow-lem r h f w))
