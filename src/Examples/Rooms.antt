-- ===== src/Examples/Rooms.antt =====
-- The theorems on the hub at concrete inputs.
use sentinelix_backend.Base.{◌≡◌, refl, [], ◌∷◌, arith}
use sentinelix_backend.Domain.Event.{Event}
use sentinelix_backend.Stream.{event}
use sentinelix_backend.Consumer.{process_message}
use sentinelix_backend.Pipeline.Dashboards.{sent_since, envelopes, subscribe, dashboards_hear}
use sentinelix_backend.Examples.{quiet, boom}
use sentinelix_backend.Hub.{
  Hub, Reachable, envelope, new_hub, connect, handle_envelope, unregister, connects, receives,
  disconnects, started, stepped, members_of, broadcast_to_project,
}
use sentinelix_backend.Hub.Members.{Fans}
use sentinelix_backend.Hub.Sound.{IsSound}
use sentinelix_backend.Hub.Safety.{hub_safe}

-- Two clients in the room of project 5 and one elsewhere; a message to the room, and one leaves.
abbrev busy : Hub
busy = handle_envelope (envelope 5 70) (connect 6 (connect 5 (connect 5 new_hub)))

abbrev thinned : Hub
thinned = unregister 0 busy

thinned_members : members_of thinned 5 ≡ 1 ∷ []
unfolding handle_envelope connect unregister
thinned_members = refl

thinned_buffer : (thinned.clients 1).send ≡ 70 ∷ []
unfolding handle_envelope connect unregister
thinned_buffer = refl

thinned_reachable : Reachable thinned
unfolding handle_envelope connect
thinned_reachable =
    stepped
      (stepped (stepped (stepped (stepped started (connects _ 5)) (connects _ 5)) (connects _ 6))
        (receives _ (envelope 5 70)))
      (disconnects _ 0 (omega arith))

hub_safe_example :
    IsSound thinned × Fans 71 (members_of thinned 5) thinned (broadcast_to_project 5 71 thinned)
hub_safe_example = hub_safe 5 71 thinned_reachable

abbrev report : Event
report = record boom { project_id = 5 }

dashboards_hear_example : Fans 100 (1 ∷ []) thinned (
    subscribe
      (λ kind id. id)
      (envelopes
        (λ kind id. id)
        (sent_since []
          (process_message (λ s. s) (record { id = 1; payload = event report }) quiet).sent))
      thinned)
unfolding handle_envelope connect unregister
dashboards_hear_example =
    dashboards_hear (λ kind id. id) (λ s. s) (record { id = 1; payload = event report }) report
      quiet refl (λ n. refl) thinned_reachable
