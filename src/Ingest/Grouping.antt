-- ===== src/Ingest/Grouping.antt =====
-- Issues as counters: one row for each project and fingerprint.
use sentinelix_backend.Base.{
  ℕ, suc, String, ◌≡◌, refl, false, ◌&&◌, Option, none, some, List, [], ◌∷◌, arith, ◌==◌, str_eq,
  eq_iff, first, update_where, if◌then◌else◌,
}
use sentinelix_backend.Domain.Event.{Issue}
use sentinelix_backend.World.{World, micros, trip}
use sentinelix_backend.World.Issues.{same_group, bump, upsert, upsert_row}

-- The abstract view of the table: how often a group was seen.
abbrev pub seen : Option Issue → ℕ
seen none = 0
seen (some i) = i.count

abbrev seen_once : Option Issue → ℕ
seen_once none = 0
seen_once (some i) = suc i.count

abbrev pub times_seen : ℕ → String → List Issue → ℕ
times_seen project fp issues = seen (first (same_group project fp) issues)

first-bump :
    (project q : ℕ) (fp g : String) (at : ℕ) (issues : List Issue)
    → times_seen q g (update_where (same_group project fp) (bump at) issues) ≡ (
        if project == q && str_eq fp g
        then seen_once (first (same_group q g) issues)
        else times_seen q g issues)
unfolding bump
first-bump project q fp g at [] = ground arith
first-bump project q fp g at (i ∷ rest) = ground (
  arith,
  first-bump project q fp g at rest,
  eq_iff fp g,
  eq_iff i.fingerprint fp,
  eq_iff i.fingerprint g,
)

upserted :
    (project q : ℕ) (fp g title level : String) (at : ℕ) (o : Option Issue) (w : World)
    → first (same_group project fp) w.issues ≡ o
    → times_seen q g (upsert_row project fp title level at o w).1.issues ≡ (
        if project == q && str_eq fp g
        then suc (times_seen q g w.issues)
        else times_seen q g w.issues)
unfolding upsert_row
upserted project q fp g title level at none w e = ground (arith, eq_iff fp g)
upserted project q fp g title level at (some i) w e =
    ground (arith, eq_iff fp g, first-bump project q fp g at w.issues)

-- An upsert that reaches the database counts one more for its own group, and nothing for another.
pub times_seen-upsert :
    (project q : ℕ) (fp g title level : String) (at : ℕ) (w : World)
    → w.outage w.calls ≡ false
    → times_seen q g (upsert project fp title level at w).1.issues ≡ (
        if project == q && str_eq fp g
        then suc (times_seen q g w.issues)
        else times_seen q g w.issues)
unfolding upsert trip
times_seen-upsert project q fp g title level at w h = ground (
  arith,
  h,
  eq_iff fp g,
  first-bump project q fp g (micros at) w.issues,
  upserted project q fp g title level (micros at) (first (same_group project fp) w.issues) w refl,
)
