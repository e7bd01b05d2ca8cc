-- ===== src/Examples/Uptime.antt =====
-- The theorems on the uptime checker at concrete inputs.
use sentinelix_backend.Base.{ℕ, ◌≡◌, refl, some, List, [], ◌∷◌}
use sentinelix_backend.Domain.Alert.{known_channel}
use sentinelix_backend.Domain.Monitor.{Monitor, status_down}
use sentinelix_backend.Base.Int.{pos}
use sentinelix_backend.World.{monitor_down, broadcast}
use sentinelix_backend.Checker.{Reply, bad_url, unreachable, answered, ping, check, watch}
use sentinelix_backend.Checker.Automaton.{IsOrdered, observe, observe_all}
use sentinelix_backend.Checker.Refinement.{watch-eq-observe_all, sent-check, check_still_down}
use sentinelix_backend.Examples.{quiet, breaking, quiet-IsHealthy, site}

abbrev replies : List (ℕ × Reply)
replies = (5, answered 200 3) ∷ (5, answered 503 3) ∷ (5, unreachable 9) ∷ []

quiet-IsOrdered : IsOrdered quiet
quiet-IsOrdered = record { desc = tt; past = tt }

watch-eq-observe_all_example : (watch site replies quiet).0 ≡ record site { status = status_down }
unfolding observe_all ping
watch-eq-observe_all_example =
    watch-eq-observe_all site 2 replies quiet refl quiet-IsHealthy quiet-IsOrdered

abbrev strict : Monitor
strict = record site { failure_threshold = pos 1 }

sent-check_example :
    (check strict (answered 500 3) quiet).world.sent
    ≡ monitor_down 3 "ops@a.example" ∷ broadcast (some 1) "monitor.status_changed" 3 ∷ []
unfolding observe ping known_channel
sent-check_example =
    sent-check strict 1 (answered 500 3) quiet refl refl quiet-IsHealthy quiet-IsOrdered

abbrev fallen : Monitor
fallen = record site { status = status_down }

check_still_down_example :
    ((check fallen bad_url (breaking (2 ∷ []))).world.sent ≡ [])
    × ((check fallen bad_url (breaking (2 ∷ []))).monitor ≡ fallen)
unfolding ping
check_still_down_example = check_still_down fallen bad_url (breaking (2 ∷ [])) refl refl
