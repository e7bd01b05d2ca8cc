-- ===== src/Hub.antt =====
-- internal/delivery/ws: hub.go, the queue of client.go, and the round of subscriber.go. A client is
-- a number, as is the content of a message; a map is a function into an option, and a set of clients
-- the list of its members in the order in which Go ranges over them. The connection is gorilla's: a
-- read that fails, a ping or a write comes as the step that it leads to.
pub mod Members
pub mod Sound
pub mod Leaving
pub mod Fanout
pub mod Safety
use sentinelix_backend.Base.{
  ℕ, suc, Bool, true, false, not, Option, none, some, List, [], ◌∷◌, ◌++◌, ◌≡◌, ◌<◌, ◌==◌, ltb,
  any_of, select, length, if◌then◌else◌,
}

abbrev pub send_buffer_size : ℕ
send_buffer_size = 16

-- Client, with its channel `send`: what is buffered, oldest first, and whether it was closed.
pub record Client : Type 0 where
  pub project_id : ℕ
  pub send : List ℕ
  pub is_closed : Bool

-- Hub, with the clients made so far, the goroutines `h.unregister(client)` not yet run, and whether
-- some goroutine has sent on a closed channel or closed one again, which panics.
pub record Hub : Type 0 where
  pub rooms : ℕ → Option (List ℕ)
  pub clients : ℕ → Client
  pub made : ℕ
  pub leaving : List ℕ
  pub panicked : Bool

abbrev pub nobody : Client
nobody = record { project_id = 0; send = []; is_closed = true }

abbrev pub new_hub : Hub
new_hub = record {
  rooms = λ p. none;
  clients = λ id. nobody;
  made = 0;
  leaving = [];
  panicked = false;
}

abbrev pub new_client : ℕ → Client
new_client project = record { project_id = project; send = []; is_closed = false }

abbrev pub has : ℕ → List ℕ → Bool
has id members = any_of (λ k. k == id) members

abbrev pub set_at {ℓ} : {A : Type ℓ} → ℕ → A → (ℕ → A) → ℕ → A
set_at k a f n = if k == n then a else f n

-- A lookup in the map of rooms gives nil for a room that is not there.
abbrev pub members_in : Option (List ℕ) → List ℕ
members_in none = []
members_in (some members) = members

abbrev pub members_of : Hub → ℕ → List ℕ
members_of h project = members_in (h.rooms project)

abbrev pub with_member : ℕ → List ℕ → List ℕ
with_member id members = if has id members then members else id ∷ members

unfoldable pub register : ℕ → Hub → Hub
register id h =
    let project = (h.clients id).project_id in
    record h { rooms = set_at project (some (with_member id (members_of h project))) h.rooms }

-- delete(room, client), and delete(h.rooms, …) where nobody is left.
abbrev pub without : ℕ → List ℕ → List ℕ
without id members = select (λ k. not (k == id)) members

abbrev pub room_of : List ℕ → Option (List ℕ)
room_of [] = none
room_of (id ∷ members) = some (id ∷ members)

abbrev pub close : ℕ → Hub → Hub
close id h = record h {
  clients = set_at id (record (h.clients id) { is_closed = true }) h.clients;
  panicked = if (h.clients id).is_closed then true else h.panicked;
}

abbrev pub leave : ℕ → Hub → List ℕ → Hub
leave id h members = record (close id h) {
  rooms = set_at (h.clients id).project_id (room_of (without id members)) h.rooms;
}

-- The two early returns leave the hub as it is.
abbrev pub unregister_from : ℕ → Hub → Option (List ℕ) → Hub
unregister_from id h none = h
unregister_from id h (some members) = if has id members then leave id h members else h

unfoldable pub unregister : ℕ → Hub → Hub
unregister id h = unregister_from id h (h.rooms (h.clients id).project_id)

-- One round of the loop: a send that would block starts the goroutine that unregisters.
unfoldable pub offer : ℕ → ℕ → Hub → Hub
offer message id h =
    let c = h.clients id in
    if c.is_closed
    then record h { panicked = true }
    else if ltb (length c.send) send_buffer_size
    then record h { clients = set_at id (record c { send = c.send ++ message ∷ [] }) h.clients }
    else record h { leaving = id ∷ h.leaving }

unfoldable pub offer_all : ℕ → List ℕ → Hub → Hub
unfolding offer
offer_all message [] h = h
offer_all message (id ∷ rest) h = offer_all message rest (offer message id h)

abbrev pub broadcast_in : ℕ → Hub → Option (List ℕ) → Hub
broadcast_in message h none = h
broadcast_in message h (some members) = offer_all message members h

unfoldable pub broadcast_to_project : ℕ → ℕ → Hub → Hub
unfolding offer_all
broadcast_to_project project message h = broadcast_in message h (h.rooms project)

-- What RunSubscriber makes of a payload: not an envelope; one whose project_id is no project's, for
-- which there is no room; or one for a project, with what is sent on.
pub data Envelope : Type 0 where
  malformed foreign : Envelope
  envelope : ℕ → ℕ → Envelope

unfoldable pub handle_envelope : Envelope → Hub → Hub
unfolding broadcast_to_project
handle_envelope malformed h = h
handle_envelope foreign h = h
handle_envelope (envelope project message) h = broadcast_to_project project message h

-- HandleConnection after the upgrade: NewClient, and Register.
unfoldable pub connect : ℕ → Hub → Hub
unfolding register
connect project h =
    register h.made
      (record h { clients = set_at h.made (new_client project) h.clients; made = suc h.made })

-- WritePump takes a message from the channel.
abbrev pub tail : List ℕ → List ℕ
tail [] = []
tail (x ∷ xs) = xs

unfoldable pub take_message : ℕ → Hub → Hub
take_message id h = record h {
  clients = set_at id (record (h.clients id) { send = tail (h.clients id).send }) h.clients;
}

abbrev pub dropped : ℕ → Hub → Hub
dropped id h = record h { leaving = without id h.leaving }

-- The steps of the goroutines; the lock of the hub makes each of them atomic.
pub data Step : Hub → Hub → Type 0 where
  connects : (h : Hub) (project : ℕ) → Step h (connect project h)
  receives : (h : Hub) (e : Envelope) → Step h (handle_envelope e h)
  -- ReadPump ends
  disconnects : (h : Hub) (id : ℕ) → id < h.made → Step h (unregister id h)
  -- a goroutine that a broadcast has started
  is_dropped : (h : Hub) (id : ℕ) → has id h.leaving ≡ true → Step h (dropped id (unregister id h))
  writes : (h : Hub) (id : ℕ) → id < h.made → Step h (take_message id h)

pub data Reachable : Hub → Type 0 where
  started : Reachable new_hub
  stepped : {h k : Hub} → Reachable h → Step h k → Reachable k
