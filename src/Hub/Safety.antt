-- ===== src/Hub/Safety.antt =====
-- The hub in every interleaving of its goroutines.
use sentinelix_backend.Base.{ℕ}
use sentinelix_backend.Hub.{
  Hub, Step, Reachable, Envelope, malformed, foreign, envelope, members_of, broadcast_to_project,
  handle_envelope, connects, receives, disconnects, is_dropped, writes, started, stepped,
  unregister,
}
use sentinelix_backend.Hub.Members.{Fans}
use sentinelix_backend.Hub.Sound.{IsSound, new_hub-IsSound, connect-IsSound}
use sentinelix_backend.Hub.Leaving.{unregister-IsSound, dropped-IsSound, take_message-IsSound}
use sentinelix_backend.Hub.Fanout.{broadcast-Fans, broadcast-IsSound}

envelope-IsSound : (e : Envelope) (h : Hub) → IsSound h → IsSound (handle_envelope e h)
unfolding handle_envelope
envelope-IsSound malformed h s = s
envelope-IsSound foreign h s = s
envelope-IsSound (envelope project message) h s = broadcast-IsSound project message h s

Step-IsSound : {h k : Hub} → Step h k → IsSound h → IsSound k
Step-IsSound (connects h project) s = connect-IsSound project h s
Step-IsSound (receives h e) s = envelope-IsSound e h s
Step-IsSound (disconnects h id known) s = unregister-IsSound id h s
Step-IsSound (is_dropped h id going) s =
    dropped-IsSound id (unregister id h) (unregister-IsSound id h s)
Step-IsSound (writes h id known) s = take_message-IsSound id h s

reachable-IsSound : {h : Hub} → Reachable h → IsSound h
reachable-IsSound started = new_hub-IsSound
reachable-IsSound (stepped r step) = Step-IsSound step (reachable-IsSound r)

-- In every state that the goroutines reach, in whichever order they run: none has sent on a closed
-- channel or closed one twice; the members of a project's room are exactly its open clients, each
-- once, no buffer holds more than 16 messages and no room is kept empty. And a broadcast then offers
-- its message once to each member of the project's room: it is put at the end of a buffer that is not
-- full, and a client whose buffer is full is to be unregistered; every other client stays as it is.
pub hub_safe :
    {h : Hub} (project message : ℕ)
    → Reachable h
    → IsSound h × Fans message (members_of h project) h (broadcast_to_project project message h)
hub_safe {h} project message r =
    let s = reachable-IsSound r in (s, broadcast-Fans project message h s)
