-- ===== src/Checker/Recent.antt =====
-- What the query over monitor_checks finds, read as a count of failures in a row.
use sentinelix_backend.Base.{
  ℕ, zero, suc, ◌≤◌, ◌≡◌, Bool, false, not, List, [], ◌∷◌, arith, ltb, leb, length, take, select,
  all_of, if◌then◌else◌, IsDesc, Bounded,
}
use sentinelix_backend.Base.Int.{pos}
use sentinelix_backend.Domain.Monitor.{Monitor, MonitorCheck, status_down}
use sentinelix_backend.Checker.{judge}

abbrev pub at : MonitorCheck → ℕ
at c = c.checked_at

-- The failures since the last success, newest first.
abbrev pub fail_run : List MonitorCheck → ℕ
fail_run [] = 0
fail_run (c ∷ rest) = if c.is_up then 0 else suc (fail_run rest)

-- The last n checks exist and all failed exactly if the run has n.
pub take-fail_run :
    (n : ℕ) (l : List MonitorCheck)
    → (if ltb (length (take n l)) n then false else all_of (λ c. not c.is_up) (take n l))
      ≡ leb n (fail_run l)
take-fail_run zero l = ground arith
take-fail_run (suc n) [] = ground arith
take-fail_run (suc n) (c ∷ l) = ground (arith, take-fail_run n l)

pub select-Bounded :
    (p : MonitorCheck → Bool) (b : ℕ) (l : List MonitorCheck)
    → Bounded at b l
    → Bounded at b (select p l)
select-Bounded p b [] h = tt
select-Bounded p b (c ∷ l) h = ground (arith, select-Bounded p b l h.1)

pub select-IsDesc :
    (p : MonitorCheck → Bool) (l : List MonitorCheck) → IsDesc at l → IsDesc at (select p l)
select-IsDesc p [] h = tt
select-IsDesc p (c ∷ l) h =
    ground (arith, select-IsDesc p l h.1, select-Bounded p c.checked_at l h.0)

pub Bounded-mono : (a b : ℕ) (l : List MonitorCheck) → a ≤ b → Bounded at a l → Bounded at b l
Bounded-mono a b [] h k = tt
Bounded-mono a b (c ∷ l) h k = (omega arith, Bounded-mono a b l h k.1)

-- The verdict on the newest checks is a test of the run of failures.
pub judge-fail_run :
    (m : Monitor) (n : ℕ) (l : List MonitorCheck)
    → m.failure_threshold ≡ pos n
    → judge m (take n l) ≡ (if leb n (fail_run l) then status_down else m.status)
unfolding judge
judge-fail_run m n l h = rw h (ground (arith, take-fail_run n l))
