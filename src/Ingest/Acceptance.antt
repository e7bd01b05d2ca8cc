-- ===== src/Ingest/Acceptance.antt =====
-- Which events an API call puts on the queue.
use Prim.Native.String.{len}
use sentinelix_backend.Base.{
  ℕ, String, ◌≡◌, ◌∙◌, refl, inl, inr, Bool, true, false, not, ◌||◌, ◌*◌, Option, none, some, arith,
  ltb, leb, Bool-cases, str_eq, if◌then◌else◌,
}
use sentinelix_backend.Domain.Errors.{
  Result, ok, err, require, ◌>>◌, Error, project_not_found, invalid_api_key, rate_limited,
  message_required, level_invalid, message_too_long, stack_trace_too_long, context_too_large, other,
}
use sentinelix_backend.Domain.Account.{Project}
use sentinelix_backend.Domain.Event.{
  Event, Context, nil, marshals, unmarshalable, validate, check_context, default_level, valid_level,
}
use sentinelix_backend.World.{World, Act}
use sentinelix_backend.Ingest.{IngestEventInput, ingest}

-- The rules of the API for an event, as an input breaks them: a message of 1 to 2000 bytes, a stack
-- trace of at most 20000, a context that marshals to at most 10240, and a level among three, or none.
abbrev known_level : String → Bool
known_level l = str_eq l "" || str_eq l "error" || str_eq l "warning" || str_eq l "info"

abbrev level_refusal : String → Option Error
level_refusal l = if known_level l then none else some level_invalid

abbrev context_refusal : Context → String → Option Error
context_refusal nil l = level_refusal l
context_refusal (marshals s) l =
    if ltb 10240 (len s) then some context_too_large else level_refusal l
context_refusal unmarshalable l = some other

abbrev pub refusal : IngestEventInput → Option Error
refusal input =
    if str_eq input.message ""
    then some message_required
    else if ltb 2000 (len input.message)
    then some message_too_long
    else if ltb 20000 (len input.stack_trace)
    then some stack_trace_too_long
    else context_refusal input.context input.level

-- The event of an input that breaks none, for a project and a time; no level is the level "error".
abbrev pub event_of : IngestEventInput → Project → ℕ → Event
event_of input p now = record {
  id = none;
  issue_id = none;
  project_id = p.id;
  level = if str_eq input.level "" then "error" else input.level;
  message = input.message;
  stack_trace = input.stack_trace;
  context = input.context;
  occurred_at = now;
}

abbrev incoming : IngestEventInput → Project → ℕ → Event
incoming input p now = record {
  id = none;
  issue_id = none;
  project_id = p.id;
  level = input.level;
  message = input.message;
  stack_trace = input.stack_trace;
  context = input.context;
  occurred_at = now;
}

abbrev judged : Option Error → Event → Result Event
judged none e = ok e
judged (some x) e = err x

-- One check of a chain, and what the rest of the chain is.
required :
    (b c : Bool) (x : Error) (o : Option Error) (e : Event) (r : Result Event)
    → b ≡ not c
    → r ≡ judged o e
    → (require b x >> r) ≡ judged (if c then some x else o) e
required true true x o e r h k = absurd (ground (arith, h))
required true false x o e r h k = k
required false true x o e r h k = refl
required false false x o e r h k = absurd (ground (arith, h))

leb-not-ltb : (m n : ℕ) → leb m n ≡ not (ltb n m)
leb-not-ltb m n = ground arith

chosen :
    (b : Bool) (x : Error) (e : Event)
    → (require b x >> ok e) ≡ judged (if b then none else some x) e
chosen true x e = refl
chosen false x e = refl

level_lem :
    (input : IngestEventInput) (p : Project) (now : ℕ)
    → let level = default_level input.level in
      (require (valid_level level) level_invalid
        >> ok (record (incoming input p now) { level = level }))
      ≡ judged (level_refusal input.level) (event_of input p now)
unfolding default_level valid_level
level_lem input p now = elim (Bool-cases (str_eq input.level "")) [
  | inl empty ↦ rw empty refl
  | inr named ↦ rw named (
      chosen (valid_level input.level) level_invalid
        (record (event_of input p now) { level = input.level }))
]

context_lem :
    (c : Context) (l : String) (e : Event) (r : Result Event)
    → r ≡ judged (level_refusal l) e
    → (check_context c >> r) ≡ judged (context_refusal c l) e
unfolding check_context
context_lem nil l e r h = h
context_lem (marshals s) l e r h =
    required (leb (len s) (10 * 1024)) (ltb 10240 (len s)) context_too_large (level_refusal l) e r
      (leb-not-ltb (len s) 10240) h
context_lem unmarshalable l e r h = refl

validate_lem :
    (input : IngestEventInput) (p : Project) (now : ℕ)
    → validate (incoming input p now) ≡ judged (refusal input) (event_of input p now)
unfolding validate
validate_lem input p now =
    let e = event_of input p now in
    required _ _ message_required _ e _ refl (
      required _ _ message_too_long _ e _ (leb-not-ltb (len input.message) 2000) (
        required _ _ stack_trace_too_long _ e _ (leb-not-ltb (len input.stack_trace) 20000)
          (context_lem input.context input.level e _ (level_lem input p now))))

-- The specification, by cases on the answers of the three services.
abbrev pub queued :
    (Event → Act (Unit {0})) → Option Error → Event → World → Result (Unit {0}) × World
queued push (some x) e w = (err x, w)
queued push none e w = push e w

abbrev pub looked_up :
    (Event → Act (Unit {0})) → IngestEventInput → Result Project × World → Result (Unit {0}) × World
looked_up push input (ok p, w) = queued push (refusal input) (event_of input p w.now) w
looked_up push input (err project_not_found, w) = (err invalid_api_key, w)
looked_up push input (err e, w) = (err e, w)

abbrev pub admitted_by :
    (Event → Act (Unit {0}))
    → IngestEventInput
    → Act Project
    → Result Bool × World
    → Result (Unit {0}) × World
admitted_by push input find (ok false, w) = (err rate_limited, w)
admitted_by push input find (ok true, w) = looked_up push input (find w)
admitted_by push input find (err e, w) = looked_up push input (find w)

-- The same cases, with the validation of the program.
abbrev answered : (Event → Act (Unit {0})) → Result Event → World → Result (Unit {0}) × World
answered push (err x) w = (err x, w)
answered push (ok e) w = push e w

answered_lem :
    (push : Event → Act (Unit {0})) (o : Option Error) (e : Event) (w : World)
    → answered push (judged o e) w ≡ queued push o e w
answered_lem push none e w = refl
answered_lem push (some x) e w = refl

abbrev steps_found :
    (Event → Act (Unit {0})) → IngestEventInput → Result Project × World → Result (Unit {0}) × World
steps_found push input (err project_not_found, w) = (err invalid_api_key, w)
steps_found push input (err x, w) = (err x, w)
steps_found push input (ok p, w) = answered push (validate (incoming input p w.now)) w

abbrev steps :
    (Event → Act (Unit {0}))
    → IngestEventInput
    → Act Project
    → Result Bool × World
    → Result (Unit {0}) × World
steps push input find (ok false, w) = (err rate_limited, w)
steps push input find (ok true, w) = steps_found push input (find w)
steps push input find (err e, w) = steps_found push input (find w)

steps_found_lem :
    (push : Event → Act (Unit {0})) (input : IngestEventInput) (found : Result Project) (w : World)
    → steps_found push input (found, w) ≡ looked_up push input (found, w)
steps_found_lem push input (ok p) w =
    rw (steps_found, validate_lem input p w.now)
      (answered_lem push (refusal input) (event_of input p w.now) w)
steps_found_lem push input (err x) w = ground arith

module _ (sha256_hex : String → String) where
  -- Whatever the three services do, an ingestion refuses a call that the limiter refuses,
  -- without a lookup, and goes on where the limiter fails; a key of no project is
  -- ErrInvalidAPIKey, and any other error of the lookup is the result. The first rule that the
  -- input breaks is the result: no message, a message over 2000 bytes, a stack trace over 20000, a
  -- context that does not marshal or is over 10240 bytes, a level that is not error, warning or
  -- info. Where it breaks none, its event, and no other, is pushed, with the level "error" for
  -- none, the project of the key and the time after the lookup.
  pub ingest_lem :
      (limiter : String → Act Bool) (find : String → Act Project) (push : Event → Act (Unit {0}))
      (input : IngestEventInput) (w : World)
      → let h = sha256_hex input.raw_api_key in
        ingest sha256_hex limiter find push input w ≡ admitted_by push input (find h) (limiter h w)
  unfolding ingest
  ingest_lem limiter find push input w =
      let h = sha256_hex input.raw_api_key in
      let found = find h (limiter h w).1 in
      let ran : ingest sha256_hex limiter find push input w
          ≡ steps push input (find h) (limiter h w) =
        ground arith in
      ran ∙ ground (arith, steps_found_lem push input found.0 found.1)
