-- ===== src/Ingest/Counts.antt =====
-- The counts of the issues and the rows of the event table, through internal/usecase/group_issue.go.
use sentinelix_backend.Base.{
  ℕ, ◌+◌, ◌≤◌, ◌<◌, ◌≡◌, refl, sym, inl, inr, Bool, true, false, Option, some, none, List, [], ◌∷◌,
  ◌==◌, All, ltb, first, count_of, update_where, arith, Bool-cases, if◌then◌else◌, All-map,
  All-first, eq_iff, ◌||◌, String,
}
use mathlib.Core.Path.{subst}
use sentinelix_backend.Domain.Event.{Event, Issue}
use sentinelix_backend.World.{World}
use sentinelix_backend.World.Issues.{of_issue, bump, same_group}

-- The events that are attributed to an issue.
abbrev pub attributed : List Event → ℕ → ℕ
attributed events id = count_of (of_issue id) events

abbrev pub clashes : Issue → Issue → Bool
clashes i j = j.id == i.id || same_group i.project_id i.fingerprint j

-- No two issues have one id, or one project and fingerprint.
abbrev pub OneEach : List Issue → Type 0
OneEach [] = Unit {0}
OneEach (i ∷ rest) = All (λ j. clashes i j ≡ false) rest × OneEach rest

abbrev pub used : ℕ → Option ℕ → Bool
used serial none = true
used serial (some id) = ltb id serial

abbrev pub below : ℕ → Event → Bool
below serial e = used serial e.issue_id

-- An issue counts its events and `extra` more, at least; or exactly.
abbrev pub Covers : Bool → List Event → (ℕ → ℕ) → Issue → Type 0
Covers exact events extra i =
    (attributed events i.id + extra i.id ≤ i.count)
    × (exact ≡ true → i.count ≤ attributed events i.id + extra i.id)

abbrev pub CountedWith : Bool → (ℕ → ℕ) → ℕ → List Event → List Issue → Type 0
CountedWith exact extra serial events issues =
    All (λ (i : Issue). i.id < serial) issues
    × OneEach issues
    × All (λ e. below serial e ≡ true) events
    × All (Covers exact events extra) issues

-- Each issue counts at least the events that are attributed to it, or exactly those. The issues
-- differ in their identifiers and in their groups, and no identifier in use is still to come.
abbrev pub Counted : Bool → World → Type 0
Counted exact w = CountedWith exact (λ id. 0) w.serial w.events w.issues

abbrev pub one_for : ℕ → ℕ → ℕ
one_for j id = if id == j then 1 else 0

pub used-later : (n m : ℕ) (o : Option ℕ) → n ≤ m → used n o ≡ true → used m o ≡ true
used-later n m none le h = refl
used-later n m (some id) le h = ground arith

-- A later serial is as good.
pub Counted-later :
    (exact : Bool) (extra : ℕ → ℕ) (n m : ℕ) (events : List Event) (issues : List Issue)
    → n ≤ m
    → CountedWith exact extra n events issues
    → CountedWith exact extra m events issues
Counted-later exact extra n m events issues le (fresh, one, known, enough) = (
  All-map _ _ (λ i h. omega (arith, h, le)) issues fresh,
  one,
  All-map _ _ (λ e h. used-later n m e.issue_id le h) events known,
  enough,
)

-- Of the rows that are no clash with one of a group, none is of the group.
apart :
    (p : ℕ) (fp : String) (x j : Issue)
    → same_group p fp x ≡ true
    → clashes x j ≡ false
    → (j.id == x.id) ≡ same_group p fp j
apart p fp x j mine away =
    let project : x.project_id ≡ p = ground arith in
    let fingerprint : x.fingerprint ≡ fp = ground (arith, eq_iff x.fingerprint fp) in
    rw (sym project, sym fingerprint) (ground arith)

-- The row that UPDATE finds first is the only one of the group.
pub first-group :
    (p : ℕ) (fp : String) (issues : List Issue) (x : Issue)
    → OneEach issues
    → first (same_group p fp) issues ≡ some x
    → All (λ (i : Issue). (i.id == x.id) ≡ same_group p fp i) issues
first-group p fp [] x one h = tt
first-group p fp (i ∷ rest) x one h = elim (Bool-cases (same_group p fp i)) [
  | inl hit ↦
      let same : i ≡ x = ground arith in
      subst
        (λ (k : Issue).
          ((i.id == k.id) ≡ same_group p fp i)
          × All (λ (j : Issue). (j.id == k.id) ≡ same_group p fp j) rest)
        same (ground (arith, hit), All-map _ _ (λ j away. apart p fp i j hit away) rest one.0)
  | inr miss ↦
      let later : first (same_group p fp) rest ≡ some x = ground arith in
      let other = All-first (λ j. clashes i j ≡ false) (same_group p fp) rest x one.0 later in
      (ground (arith, other, miss), first-group p fp rest x one.1 later)
]

module _ (exact : Bool) (events : List Event) where
  -- The statement's update: the issue that it returns counts one more.
  pub bumped-Covers :
      (p : Issue → Bool) (at j : ℕ) (issues : List Issue)
      → All (λ (i : Issue). (i.id == j) ≡ p i) issues
      → All (Covers exact events (λ id. 0)) issues
      → All (Covers exact events (one_for j)) (update_where p (bump at) issues)
  unfolding bump
  bumped-Covers p at j [] g c = tt
  bumped-Covers p at j (i ∷ rest) g c = (
    elim (Bool-cases (p i)) [
      | inl hit ↦ rw hit (ground (arith, c.0.0, g.0, hit), λ e. ground (arith, c.0.1 e, g.0, hit))
      | inr miss ↦
          rw miss (ground (arith, c.0.0, g.0, miss), λ e. ground (arith, c.0.1 e, g.0, miss))
    ],
    bumped-Covers p at j rest g.1 c.1,
  )

-- A property of rows that the update keeps.
pub bumped-All {κ} :
    (P : Issue → Type κ) (p : Issue → Bool) (at : ℕ) (issues : List Issue)
    → ((i : Issue) → P i → P (bump at i))
    → All P issues
    → All P (update_where p (bump at) issues)
bumped-All P p at [] f a = tt
bumped-All P p at (i ∷ rest) f a = (
  elim (Bool-cases (p i)) [ inl hit ↦ rw hit (f i a.0) | inr miss ↦ rw miss a.0 ],
  bumped-All P p at rest f a.1,
)

pub bumped-OneEach :
    (p : Issue → Bool) (at : ℕ) (issues : List Issue)
    → OneEach issues
    → OneEach (update_where p (bump at) issues)
unfolding bump
bumped-OneEach p at [] one = tt
bumped-OneEach p at (i ∷ rest) one = (
  elim (Bool-cases (p i)) [
    | inl hit ↦ rw hit (bumped-All (λ j. clashes i j ≡ false) p at rest (λ j h. h) one.0)
    | inr miss ↦ rw miss (bumped-All (λ j. clashes i j ≡ false) p at rest (λ j h. h) one.0)
  ],
  bumped-OneEach p at rest one.1,
)
