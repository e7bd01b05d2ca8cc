-- ===== src/Consumer/Aside.antt =====
-- What the consumer does beside the stream and the event table: the broadcast and the alerts.
use sentinelix_backend.Base.{String, ℕ, ◌≡◌, refl, Bool, Option, List, [], ◌∷◌, arith}
use sentinelix_backend.Domain.Alert.{AlertRule}
use sentinelix_backend.Domain.Event.{Issue}
use sentinelix_backend.World.{World, trip}
use sentinelix_backend.World.Alerts.{get_last_sent_at, create_log, list_active_new_issue_rules}
use sentinelix_backend.World.Issues.{upsert, upsert_row}
use sentinelix_backend.Notifier.{notify, publish}
use sentinelix_backend.Alerts.{notify_if_not_cooldown, notify_each, evaluate_new_issue}
use sentinelix_backend.Consumer.{follow_up}

-- Neither the event table nor the stream has changed, nor which calls fail.
abbrev pub Aside : World → World → Type 0
Aside w v = (v.events ≡ w.events) × (v.stream ≡ w.stream) × (v.outage ≡ w.outage)

notify_if_not_cooldown-Aside :
    (rule : AlertRule) (issue : Issue) (w : World) → Aside w (notify_if_not_cooldown rule issue w).1
unfolding notify_if_not_cooldown get_last_sent_at create_log notify trip
notify_if_not_cooldown-Aside rule issue w = ground arith

notify_each-Aside :
    (rules : List AlertRule) (issue : Issue) (w : World) → Aside w (notify_each rules issue w).1
unfolding notify_each
notify_each-Aside [] issue w = (refl, refl, refl)
notify_each-Aside (rule ∷ rest) issue w = ground (
  arith,
  notify_if_not_cooldown-Aside rule issue w,
  notify_each-Aside rest issue (notify_if_not_cooldown rule issue w).1,
)

evaluate_new_issue-Aside : (issue : Issue) (w : World) → Aside w (evaluate_new_issue issue w).1
unfolding evaluate_new_issue list_active_new_issue_rules trip
evaluate_new_issue-Aside issue w = grind (arith, notify_each-Aside)

publish-Aside :
    (room : Option ℕ) (what : String) (id : ℕ) (w : World) → Aside w (publish room what id w).1
unfolding publish trip
publish-Aside room what id w = ground arith

pub follow_up-Aside :
    (issue : Issue) (created : Bool) (w : World) → Aside w (follow_up issue created w)
unfolding follow_up
follow_up-Aside issue created w = grind (arith, evaluate_new_issue-Aside, publish-Aside)

pub upsert-Aside :
    (p : ℕ) (fp title level : String) (at : ℕ) (w : World)
    → Aside w (upsert p fp title level at w).1
unfolding upsert upsert_row trip
upsert-Aside p fp title level at w = ground arith
