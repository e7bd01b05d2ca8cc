-- ===== src/World.antt =====
-- The state that the processes share: the tables of migrations/, the outbound messages, the clock
-- and the outcome of each call to Postgres, Redis or a notification service.
-- `outage n` says whether the n-th such call fails, and `http_status` what an HTTP service answers.
-- A call that fails has changed nothing; time does not pass inside an action; `serial` is the next
-- identifier that the database generates.
pub mod Projects
pub mod Issues
pub mod Alerts
pub mod Monitors
pub mod Tokens
pub mod Cache
use sentinelix_backend.Base.{
  ap, ◌∙◌, ℕ, suc, ◌+◌, ◌*◌, ◌/◌, String, ◌≡◌, refl, Bool, true, false, Option, none, some, List,
  [], ◌∷◌, leb, if◌then◌else◌,
}
use sentinelix_backend.Domain.Errors.{Result, ok, err, Error, other}
use sentinelix_backend.Domain.Account.{User, Project, RefreshToken, AuditLog}
use sentinelix_backend.Domain.Event.{Event, Issue}
use sentinelix_backend.Domain.Alert.{AlertRule, AlertLog}
use sentinelix_backend.Domain.Monitor.{Monitor, MonitorCheck}
use sentinelix_backend.Stream.{Stream}
use sentinelix_backend.Notifier.Requests.{MultiNotifier, Outgoing}

-- What leaves the system, newest first.
pub data Message : Type 0 where
  -- an alert of a rule about an issue, to the rule's channel target
  alert : ℕ → ℕ → String → Message
  -- a monitor that went down
  monitor_down : ℕ → String → Message
  -- a broadcast on the Redis channel: the project's room (none for ""), and the event's type
  broadcast : Option ℕ → String → ℕ → Message

-- An entry of the project cache in Redis: the hash of an API key, and the project until a time.
pub record Cached : Type 0 where
  pub key_hash : String
  pub project : Project
  pub expires_at : ℕ

-- A counter of the rate limiter in Redis: the parts of its key, its value, and when it expires, if
-- it does.
pub record Counter : Type 0 where
  pub prefix : String
  pub subject : String
  pub window_id : ℕ
  pub count : ℕ
  pub expires_at : Option ℕ

pub record World : Type 0 where
  pub outage : ℕ → Bool
  pub calls : ℕ
  pub http_status : ℕ → ℕ
  pub now : ℕ
  pub serial : ℕ
  pub users : List User
  pub projects : List Project
  pub issues : List Issue
  pub events : List Event
  pub rules : List AlertRule
  pub alert_logs : List AlertLog
  pub monitors : List Monitor
  pub checks : List MonitorCheck
  pub tokens : List RefreshToken
  pub audit_logs : List AuditLog
  pub cache : List Cached
  pub counters : List Counter
  pub stream : Stream
  pub sent : List Message
  -- the notifier's settings, and the requests that reached a notification service, newest first
  pub notifier : MultiNotifier
  pub requests : List Outgoing

-- A time as a TIMESTAMPTZ column keeps it: the driver cuts what it sends to microseconds.
abbrev pub micros : ℕ → ℕ
micros t = t / 1000 * 1000

-- A method that may fail. What was written before a failure stays written.
abbrev pub Act {ℓ} : Type ℓ → Type ℓ
Act A = World → Result A × World

module _ {ℓ} {A : Type ℓ} where
  abbrev pub pure : A → Act A
  pure a w = (ok a, w)

  abbrev pub fail : Error → Act A
  fail e w = (err e, w)

  abbrev pub lift : Result A → Act A
  lift r w = (r, w)

module _ {ℓ κ} {A : Type ℓ} {B : Type κ} where
  -- The rest of a method, on the result of the call before it.
  abbrev pub continue : Result A → (A → Act B) → Act B
  continue (err reason) rest w = (err reason, w)
  continue (ok value) rest w = rest value w

  infixl 5 ◌>>=◌
  abbrev pub ◌>>=◌ : Act A → (A → Act B) → Act B
  (call >>= rest) w = continue (call w).0 rest (call w).1

  infixl 5 ◌>>◌
  abbrev pub ◌>>◌ : Act A → Act B → Act B
  (call >> rest) w = continue (call w).0 (λ value. rest) (call w).1

-- Inversion of a chain that returns.
pub continue-eq-ok {ℓ κ} :
    {A : Type ℓ} {B : Type κ} (r : Result A) (f : A → Act B) (w : World) {b : B}
    → (continue r f w).0 ≡ ok b
    → (a : A) × (r ≡ ok a) × (continue r f w ≡ f a w)
continue-eq-ok (ok a) f w h = (a, refl, refl)
continue-eq-ok (err e) f w h = cc

-- `_ = f()`, and an error that is only logged: the failure does not reach the caller.
abbrev pub swallow : Act (Unit {0}) → Act (Unit {0})
swallow m w = (ok tt, (m w).1)

-- An `if err` that keeps the error as a value.
abbrev pub attempt {ℓ} : {A : Type ℓ} → Act A → Act (Result A)
attempt m w = (ok (m w).0, (m w).1)

-- One round trip to a service, and what it does where it succeeds.
unfoldable pub trip : Act (Unit {0})
trip w = (if w.outage w.calls then err other else ok tt, record w { calls = suc w.calls })

abbrev pub query {ℓ} : {A : Type ℓ} → (World → Result A) → Act A
query f = trip >> λ w. (f w, w)

abbrev pub exec : (World → World) → Act (Unit {0})
exec f = trip >> λ w. (ok tt, f w)

-- INSERT … RETURNING id: the row is built from its new identifier.
abbrev pub insert : (ℕ → World → World) → Act ℕ
insert f = trip >> λ w. (ok w.serial, f w.serial (record w { serial = suc w.serial }))

-- No call to Postgres, Redis or a notification service fails; an answer of the last may refuse.
abbrev pub IsUp : World → Type 0
IsUp w = (n : ℕ) → w.outage n ≡ false

-- No call fails, and every HTTP service accepts what it is sent.
pub record IsHealthy (w : World) : Type 0 where
  pub up : (n : ℕ) → w.outage n ≡ false
  pub accepted : (n : ℕ) → leb 300 (w.http_status n) ≡ false

pub IsHealthy-of :
    (w v : World) → v.outage ≡ w.outage → v.http_status ≡ w.http_status → IsHealthy w → IsHealthy v
IsHealthy-of w v p q h = record {
  up = λ n. ap (λ o. o n) p ∙ h.up n;
  accepted = λ n. rw q (h.accepted n);
}
