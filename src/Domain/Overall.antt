-- ===== src/Domain/Overall.antt =====
-- What the overall status of a project says of its monitors.
use sentinelix_backend.Base.{
  ℕ, ◌+◌, String, ◌≡◌, refl, Bool, true, false, List, [], ◌∷◌, arith, str_eq, ◌==◌, eq_iff, any_of,
  count_of, if◌then◌else◌,
}
use sentinelix_backend.Domain.Monitor.{status_up, status_down}
use sentinelix_backend.Domain.Status.{
  operational, degraded_performance, major_outage, tally, compute_overall_status,
}

abbrev is_up : String → Bool
is_up s = str_eq s status_up

abbrev is_down : String → Bool
is_down s = str_eq s status_down

up_not_down : (s : String) → str_eq s status_up ≡ true → str_eq s status_down ≡ false
up_not_down s h = rw ((eq_iff s status_up).0 h) refl

tally_lem :
    (raw : List String) (up down : ℕ)
    → tally raw up down ≡ (up + count_of is_up raw, down + count_of is_down raw)
unfolding tally
tally_lem [] up down = ground arith
tally_lem (s ∷ raw) up down = ground (
  arith,
  up_not_down s,
  tally_lem raw (if is_up s then up + 1 else up)
      (if is_up s then down else if is_down s then down + 1 else down),
)

count_of-any_of :
    (p : String → Bool) (raw : List String)
    → (count_of p raw == 0) ≡ (if any_of p raw then false else true)
count_of-any_of p [] = refl
count_of-any_of p (s ∷ raw) = ground (arith, count_of-any_of p raw)

-- The overall status is operational exactly if no monitor is down, a major outage exactly if some
-- are down and none is up, and degraded if both occur; monitors of another status do not count.
pub compute_overall_status_lem :
    (raw : List String)
    → compute_overall_status raw ≡ (
        if any_of (λ s. str_eq s status_down) raw
        then (if any_of (λ s. str_eq s status_up) raw then degraded_performance else major_outage)
        else operational)
unfolding compute_overall_status
compute_overall_status_lem raw =
    ground (arith, tally_lem raw 0 0, count_of-any_of is_up raw, count_of-any_of is_down raw)
