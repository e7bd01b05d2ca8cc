-- ===== src/Alerts/Cooldown.antt =====
-- The cooldown of an alert rule, per issue.
use sentinelix_backend.Base.{
  ℕ, ◌+◌, ◌*◌, ◌^◌, ◌≤◌, ◌<◌, ◌≡◌, refl, sym, ◌∙◌, ◌⊎◌, Bool, true, false, ◌&&◌, Option, none, some,
  List, [], ◌∷◌, arith, leb, select, order_desc, insert_desc, any_of, inl, inr, Bool-cases,
}
use sentinelix_backend.Base.Int.{pos, ◌+ℤ◌, times_int64, times_int64-pos}
use sentinelix_backend.Domain.Alert.{AlertRule, AlertLog}
use sentinelix_backend.Domain.Event.{Issue}
use sentinelix_backend.World.{World, trip}
use sentinelix_backend.World.Alerts.{about, last_sent, get_last_sent_at, head_sent_at}
use sentinelix_backend.Alerts.{minute, cooling, notify_if_not_cooldown}

abbrev at : AlertLog → ℕ
at l = l.sent_at

-- A latest log, at or after `t`.
abbrev IsFrom : ℕ → Option ℕ → Type 0
IsFrom t none = ⊥
IsFrom t (some last) = t ≤ last

insert_desc-IsFrom :
    (t : ℕ) (x : AlertLog) (ys : List AlertLog)
    → ((t ≤ x.sent_at) ⊎ IsFrom t (head_sent_at ys))
    → IsFrom t (head_sent_at (insert_desc at x ys))
insert_desc-IsFrom t x [] h = ground arith
insert_desc-IsFrom t x (y ∷ ys) h = ground arith

order_desc-IsFrom :
    (t : ℕ) (rows : List AlertLog)
    → any_of (λ l. leb t l.sent_at) rows ≡ true
    → IsFrom t (head_sent_at (order_desc at rows))
order_desc-IsFrom t [] h = cc
order_desc-IsFrom t (x ∷ xs) h = elim (Bool-cases (leb t x.sent_at)) [
  | inl e ↦ insert_desc-IsFrom t x (order_desc at xs) (inl (ground arith))
  | inr e ↦ insert_desc-IsFrom t x (order_desc at xs) (inr (order_desc-IsFrom t xs (ground arith)))
]

any_of-select :
    (p q : AlertLog → Bool) (rows : List AlertLog)
    → any_of (λ l. p l && q l) rows ≡ any_of q (select p rows)
any_of-select p q [] = refl
any_of-select p q (x ∷ xs) = ground (arith, any_of-select p q xs)

-- Some log of the pair was written at or after `t`.
abbrev pub logged_from : ℕ → ℕ → ℕ → List AlertLog → Bool
logged_from rule issue t logs = any_of (λ l. about rule issue l && leb t l.sent_at) logs

last_sent-IsFrom :
    (rule issue t : ℕ) (logs : List AlertLog)
    → logged_from rule issue t logs ≡ true
    → IsFrom t (last_sent rule issue logs)
unfolding last_sent
last_sent-IsFrom rule issue t logs h =
    order_desc-IsFrom t (select (about rule issue) logs)
      (sym (any_of-select (about rule issue) (λ l. leb t l.sent_at) logs) ∙ h)

cooling-IsFrom :
    (now t n : ℕ) (last : Option ℕ)
    → n * minute < 2 ^ 63
    → IsFrom t last
    → now < t + n * minute
    → cooling now (pos n) last ≡ true
unfolding cooling ◌+ℤ◌
cooling-IsFrom now t n none small h k = absurd h
cooling-IsFrom now t n (some last) small h k = rw (times_int64-pos n minute small) (ground arith)

-- While a log of the pair is younger than the rule's cooldown, an evaluation sends nothing,
-- whichever calls fail. The cooldown, in nanoseconds, is one that an int64 holds.
pub cooldown_silences :
    (rule : AlertRule) (issue : Issue) (t n : ℕ) (w : World)
    → rule.cooldown_minutes ≡ pos n
    → n * minute < 2 ^ 63
    → logged_from rule.id issue.id t w.alert_logs ≡ true
    → w.now < t + n * minute
    → (notify_if_not_cooldown rule issue w).1.sent ≡ w.sent
unfolding notify_if_not_cooldown get_last_sent_at trip
cooldown_silences rule issue t n w c small logged soon =
    let last = last_sent rule.id issue.id w.alert_logs in
    let hot =
      cooling-IsFrom w.now t n last small (last_sent-IsFrom rule.id issue.id t w.alert_logs logged)
        soon in
    ground (arith, hot)

-- A cooldown whose nanoseconds reach 2 ^ 63 but not 2 ^ 64 is no cooldown at all: with a last
-- log that is not in the future, the pair is not cooling.
pub cooling_overflow :
    (now last n : ℕ)
    → 2 ^ 63 ≤ n * minute
    → n * minute < 2 ^ 64
    → last ≤ now
    → cooling now (pos n) (some last) ≡ false
unfolding cooling times_int64 ◌+ℤ◌
cooling_overflow now last n big small h = ground arith
