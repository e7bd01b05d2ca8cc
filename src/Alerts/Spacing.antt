-- ===== src/Alerts/Spacing.antt =====
-- The logs of a rule and an issue are at least the rule's cooldown apart, in every history.
use sentinelix_backend.Base.{
  ℕ, suc, ◌+◌, ◌*◌, ◌^◌, ◌≤◌, ◌<◌, ◌≡◌, ◌⊎◌, inl, inr, true, false, List, [], ◌∷◌, arith, select,
  if◌then◌else◌, IsDesc, Bounded, order_desc-IsDesc,
}
use sentinelix_backend.Base.Int.{pos, ◌+ℤ◌, times_int64-pos}
use sentinelix_backend.Domain.Alert.{AlertRule, AlertLog, known_channel}
use sentinelix_backend.Domain.Event.{Issue}
use sentinelix_backend.World.{World, alert, IsHealthy, trip}
use sentinelix_backend.World.Alerts.{about, last_sent, get_last_sent_at, create_log, head_sent_at}
use sentinelix_backend.Notifier.{notify}
use sentinelix_backend.Alerts.{minute, cooling, notify_if_not_cooldown}

abbrev at : AlertLog → ℕ
at l = l.sent_at

abbrev pub logs_of : AlertRule → Issue → World → List AlertLog
logs_of rule issue w = select (about rule.id issue.id) w.alert_logs

-- Newest first, each log at least `gap` after the one before it.
abbrev pub Spaced : ℕ → List AlertLog → Type 0
Spaced gap [] = Unit {0}
Spaced gap (l ∷ []) = Unit {0}
Spaced gap (l ∷ k ∷ rest) = (k.sent_at + gap ≤ l.sent_at) × Spaced gap (k ∷ rest)

pub record IsSpaced (gap : ℕ) (rule : AlertRule) (issue : Issue) (w : World) : Type 0 where
  pub spaced : Spaced gap (logs_of rule issue w)
  pub desc : IsDesc at (logs_of rule issue w)
  pub past : Bounded at w.now (logs_of rule issue w)

-- With the rows in order the query's answer is the first row's time.
last_sent-head :
    (rule : AlertRule) (issue : Issue) (w : World)
    → IsDesc at (logs_of rule issue w)
    → last_sent rule.id issue.id w.alert_logs ≡ head_sent_at (logs_of rule issue w)
unfolding last_sent
last_sent-head rule issue w h = rw (order_desc-IsDesc at (logs_of rule issue w) h)

notify_logs :
    (rule : AlertRule) (issue : Issue) (w : World)
    → ((notify rule issue w).1.alert_logs ≡ w.alert_logs) × ((notify rule issue w).1.now ≡ w.now)
unfolding notify trip
notify_logs rule issue w = ground arith

abbrev pub new_log : AlertRule → Issue → World → AlertLog
new_log rule issue w = record {
  id = w.serial;
  alert_rule_id = rule.id;
  issue_id = issue.id;
  sent_at = w.now;
}

-- What an evaluation does to the logs: nothing, or one more, and that only out of the cooldown.
abbrev IsLogged : AlertRule → Issue → World → World → Type 0
IsLogged rule issue w v =
    (v.now ≡ w.now)
    × ((v.alert_logs ≡ w.alert_logs)
        ⊎ ((v.alert_logs ≡ new_log rule issue w ∷ w.alert_logs)
            × (cooling w.now rule.cooldown_minutes (last_sent rule.id issue.id w.alert_logs)
                ≡ false)))

notify_if_not_cooldown-IsLogged :
    (rule : AlertRule) (issue : Issue) (w : World)
    → IsLogged rule issue w (notify_if_not_cooldown rule issue w).1
unfolding notify_if_not_cooldown get_last_sent_at create_log notify trip
notify_if_not_cooldown-IsLogged rule issue w = ground arith

Spaced-new :
    (rule : AlertRule) (issue : Issue) (n : ℕ) (w : World) (rows : List AlertLog)
    → n * minute < 2 ^ 63
    → cooling w.now (pos n) (head_sent_at rows) ≡ false
    → Spaced (n * minute) rows
    → Spaced (n * minute) (new_log rule issue w ∷ rows)
unfolding cooling ◌+ℤ◌
Spaced-new rule issue n w [] small c s = tt
Spaced-new rule issue n w (k ∷ rest) small c s = (ground (arith, times_int64-pos n minute small), s)

Bounded-mono : (a b : ℕ) (l : List AlertLog) → a ≤ b → Bounded at a l → Bounded at b l
Bounded-mono a b [] h k = tt
Bounded-mono a b (c ∷ l) h k = (omega arith, Bounded-mono a b l h k.1)

logs_of-new :
    (rule : AlertRule) (issue : Issue) (w v : World)
    → v.alert_logs ≡ new_log rule issue w ∷ w.alert_logs
    → logs_of rule issue v ≡ new_log rule issue w ∷ logs_of rule issue w
logs_of-new rule issue w v e = rw e (ground arith)

IsLogged-IsSpaced :
    (rule : AlertRule) (issue : Issue) (n : ℕ) (w v : World)
    → rule.cooldown_minutes ≡ pos n
    → n * minute < 2 ^ 63
    → IsLogged rule issue w v
    → IsSpaced (n * minute) rule issue w
    → IsSpaced (n * minute) rule issue v
IsLogged-IsSpaced rule issue n w v c small (t, inl e) s = record {
  spaced = rw e s.spaced;
  desc = rw e s.desc;
  past = rw (e, t) s.past;
}
IsLogged-IsSpaced rule issue n w v c small (t, inr (e, cold)) s =
    let old = logs_of rule issue w in
    let rows = logs_of-new rule issue w v e in
    let open_again : cooling w.now (pos n) (head_sent_at old) ≡ false =
      cc (cold, c, last_sent-head rule issue w s.desc) in
    record {
      spaced = rw rows (Spaced-new rule issue n w old small open_again s.spaced);
      desc = rw rows (s.past, s.desc);
      past = rw rows (omega arith, Bounded-mono w.now v.now old (omega arith) s.past);
    }

-- An evaluation of the pair after each delay, in a world where any calls may fail.
unfoldable pub evaluate_often : AlertRule → Issue → List ℕ → World → World
evaluate_often rule issue [] w = w
evaluate_often rule issue (delay ∷ rest) w =
    evaluate_often rule issue rest
      (notify_if_not_cooldown rule issue (record w { now = w.now + delay })).1

-- However often a rule is evaluated for an issue, whichever calls fail, the logs of the two stay
-- apart by the rule's cooldown at least, if they were before. The cooldown, in nanoseconds, is
-- one that an int64 holds.
pub evaluate_often-IsSpaced :
    (rule : AlertRule) (issue : Issue) (n : ℕ) (delays : List ℕ) (w : World)
    → rule.cooldown_minutes ≡ pos n
    → n * minute < 2 ^ 63
    → IsSpaced (n * minute) rule issue w
    → IsSpaced (n * minute) rule issue (evaluate_often rule issue delays w)
unfolding evaluate_often
evaluate_often-IsSpaced rule issue n [] w c small s = s
evaluate_often-IsSpaced rule issue n (delay ∷ rest) w c small s =
    let w' = record w { now = w.now + delay } in
    let s' : IsSpaced (n * minute) rule issue w' = record {
      spaced = s.spaced;
      desc = s.desc;
      past = Bounded-mono w.now (w.now + delay) (logs_of rule issue w) (omega arith) s.past;
    } in
    evaluate_often-IsSpaced rule issue n rest (notify_if_not_cooldown rule issue w').1 c small (
      IsLogged-IsSpaced rule issue n w' (notify_if_not_cooldown rule issue w').1 c small
        (notify_if_not_cooldown-IsLogged rule issue w') s')

-- Where no call fails and the channel is known, an evaluation sends one alert to the rule's target
-- and logs it exactly if the pair is not in its cooldown, and else leaves both as they were.
pub notify_if_not_cooldown_lem :
    (rule : AlertRule) (issue : Issue) (w : World)
    → IsHealthy w
    → known_channel rule.channel ≡ true
    → let hot = cooling w.now rule.cooldown_minutes (last_sent rule.id issue.id w.alert_logs) in
      let v = (notify_if_not_cooldown rule issue w).1 in
      (v.sent ≡ (if hot then w.sent else alert rule.id issue.id rule.channel_target ∷ w.sent))
      × (v.alert_logs ≡ (if hot then w.alert_logs else new_log rule issue w ∷ w.alert_logs))
unfolding notify_if_not_cooldown get_last_sent_at create_log notify trip known_channel
notify_if_not_cooldown_lem rule issue w h k = ground (
  arith,
  h.up w.calls,
  h.up (suc w.calls),
  h.up (suc (suc w.calls)),
  h.accepted (suc (suc w.calls)),
)
