-- ===== src/Ingest/Retry.antt =====
-- What a retried event does to its issue. The consumer tries an event again whose insertion failed.
use sentinelix_backend.Base.{
  ℕ, suc, String, ◌≡◌, refl, Bool, true, false, Option, none, some, arith, eq_refl, first, length,
  if◌then◌else◌,
}
use sentinelix_backend.Domain.Errors.{Result, ok, err, other}
use sentinelix_backend.Domain.Event.{Event, Issue}
use sentinelix_backend.Fingerprint.{compute}
use sentinelix_backend.World.{World, trip}
use sentinelix_backend.World.Issues.{same_group, upsert, upsert_row, insert_event}
use sentinelix_backend.Ingest.{group_issue}
use sentinelix_backend.Ingest.Grouping.{seen, times_seen, times_seen-upsert}

-- Does the result say that the issue is new?
abbrev pub reports_new : Result (Issue × Bool) → Option Bool
reports_new (ok (i, created)) = some created
reports_new (err e) = none

abbrev is_some : Option Issue → Bool
is_some none = false
is_some (some i) = true

upsert_reports :
    (project : ℕ) (fp title level : String) (at : ℕ) (w : World)
    → w.outage w.calls ≡ false
    → reports_new (upsert project fp title level at w).0
      ≡ some (if is_some (first (same_group project fp) w.issues) then false else true)
unfolding upsert upsert_row trip
upsert_reports project fp title level at w h = ground (arith, h)

seen-is_some : (o : Option Issue) (n : ℕ) → seen o ≡ suc n → is_some o ≡ true
seen-is_some none n h = absurd (omega arith)
seen-is_some (some i) n h = refl

upsert_world :
    (project : ℕ) (fp title level : String) (at : ℕ) (w : World)
    → let v = (upsert project fp title level at w).1 in
      (v.calls ≡ suc w.calls) × (v.outage ≡ w.outage) × (v.events ≡ w.events)
unfolding upsert upsert_row trip
upsert_world project fp title level at w = ground arith

module _ (sha256_hex : String → String) (e : Event) where
  abbrev pub key : String
  key = compute sha256_hex e.message e.stack_trace

  -- The upsert is done, and the insertion fails.
  half_done :
      (w : World)
      → w.outage w.calls ≡ false
      → w.outage (suc w.calls) ≡ true
      → let v = (group_issue sha256_hex e w).1 in
        ((group_issue sha256_hex e w).0 ≡ err other)
        × (v.issues ≡ (upsert e.project_id key e.message e.level e.occurred_at w).1.issues)
        × (v.events ≡ w.events)
        × (v.calls ≡ suc (suc w.calls))
        × (v.outage ≡ w.outage)
  unfolding group_issue insert_event trip upsert upsert_row
  half_done w a b = ground (arith, a, b)

  done :
      (w : World)
      → w.outage w.calls ≡ false
      → w.outage (suc w.calls) ≡ false
      → let u = (group_issue sha256_hex e w).1 in
        (reports_new (group_issue sha256_hex e w).0
          ≡ reports_new (upsert e.project_id key e.message e.level e.occurred_at w).0)
        × (u.issues ≡ (upsert e.project_id key e.message e.level e.occurred_at w).1.issues)
        × (length u.events ≡ suc (length w.events))
  unfolding group_issue insert_event trip upsert upsert_row
  done w a b = ground (arith, a, b)

  -- If the upsert succeeds, the insertion fails, and both succeed when the event is tried
  -- again, then one event is stored, its group has counted two, and the second try does not
  -- report a new issue, whether or not there was one before.
  pub group_issue_retry :
      (w : World)
      → w.outage w.calls ≡ false
      → w.outage (suc w.calls) ≡ true
      → w.outage (suc (suc w.calls)) ≡ false
      → w.outage (suc (suc (suc w.calls))) ≡ false
      → let v = (group_issue sha256_hex e w).1 in
        let u = (group_issue sha256_hex e v).1 in
        ((group_issue sha256_hex e w).0 ≡ err other)
        × (reports_new (group_issue sha256_hex e v).0 ≡ some false)
        × (times_seen e.project_id key u.issues ≡ suc (suc (times_seen e.project_id key w.issues)))
        × (length u.events ≡ suc (length w.events))
  group_issue_retry w a b c d =
      let v = (group_issue sha256_hex e w).1 in
      let (failed, issues, events, calls, outage) = half_done w a b in
      let up : v.outage v.calls ≡ false = rw (outage, calls) c in
      let up' : v.outage (suc v.calls) ≡ false = rw (outage, calls) d in
      let (new, issues', events') = done v up up' in
      let once =
        times_seen-upsert e.project_id e.project_id key key e.message e.level e.occurred_at w a in
      let twice =
        times_seen-upsert e.project_id e.project_id key key e.message e.level e.occurred_at v up in
      let again = upsert_reports e.project_id key e.message e.level e.occurred_at v up in
      let old : times_seen e.project_id key v.issues ≡ suc (times_seen e.project_id key w.issues) =
        ground (arith, once, issues, eq_refl key) in
      (
        failed,
        ground (
          arith,
          new,
          again,
          seen-is_some (first (same_group e.project_id key) v.issues)
              (times_seen e.project_id key w.issues) old,
        ),
        ground (arith, twice, old, issues', eq_refl key),
        ground (arith, events, events'),
      )
