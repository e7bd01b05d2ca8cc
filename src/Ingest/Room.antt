-- ===== src/Ingest/Room.antt =====
-- That internal/usecase/group_issue.go keeps the counts of the issues: the upsert makes room for the
-- row that is inserted next.
use sentinelix_backend.Base.{
  ℕ, suc, ◌<◌, String, ◌≡◌, refl, inl, inr, Bool, true, false, Option, some, none, List, [], ◌∷◌,
  ◌==◌, All, ◌||◌, first, arith, Bool-cases, Option-cases, All-map, All-first,
}
use sentinelix_backend.Domain.Errors.{Result, ok, err}
use sentinelix_backend.Domain.Event.{Event, Issue}
use sentinelix_backend.World.{IsUp, World, micros, trip, pure, continue, ◌>>◌}
use sentinelix_backend.World.Issues.{
  event_row, upsert, upsert_row, insert_event, of_issue, same_group, bump,
}
use sentinelix_backend.Fingerprint.{compute}
use sentinelix_backend.Ingest.{group_issue}
use sentinelix_backend.Ingest.Counts.{
  attributed, used, below, used-later, Covers, CountedWith, Counted, one_for, first-group,
  bumped-All, bumped-Covers, bumped-OneEach,
}

unused :
    (n : ℕ) (o : Option ℕ) → used n o ≡ true → elim o [ none ↦ false | some i ↦ i == n ] ≡ false
unused n none h = refl
unused n (some id) h = ground arith

-- No event is attributed to an identifier that is still to come.
unattributed :
    (n : ℕ) (events : List Event) → All (λ e. below n e ≡ true) events → attributed events n ≡ 0
unattributed n [] k = refl
unattributed n (e ∷ rest) k =
    let one : of_issue n e ≡ false = unused n e.issue_id k.0 in
    ground (arith, one, unattributed n rest k.1)

none-All :
    (p : Issue → Bool) (issues : List Issue) → first p issues ≡ none → All (λ i. p i ≡ false) issues
none-All p [] h = tt
none-All p (i ∷ rest) h = elim (Bool-cases (p i)) [
  | inl hit ↦ absurd (ground arith)
  | inr miss ↦ (miss, none-All p rest (ground arith))
]

-- A row with a new identifier, of a group that has none.
fresh-clashes :
    (n p : ℕ) (fp : String) (issues : List Issue)
    → All (λ (i : Issue). i.id < n) issues
    → All (λ (i : Issue). same_group p fp i ≡ false) issues
    → All (λ (i : Issue). (i.id == n || same_group p fp i) ≡ false) issues
fresh-clashes n p fp [] f g = tt
fresh-clashes n p fp (i ∷ rest) f g = (ground (arith, f.0, g.0), fresh-clashes n p fp rest f.1 g.1)

fresh-Covers :
    (exact : Bool) (n : ℕ) (events : List Event) (issues : List Issue)
    → All (λ (i : Issue). i.id < n) issues
    → All (Covers exact events (λ id. 0)) issues
    → All (Covers exact events (one_for n)) issues
fresh-Covers exact n events [] f c = tt
fresh-Covers exact n events (i ∷ rest) f c = (
  (ground (arith, f.0, c.0.0), λ e. ground (arith, f.0, c.0.1 e)),
  fresh-Covers exact n events rest f.1 c.1,
)

-- The upsert makes room for one event of its issue; where it fails, nothing has changed.
abbrev Roomy : Bool → World → Result (Issue × Bool) × World → Type 0
Roomy exact w (err e, v) = (v.issues ≡ w.issues) × (v.events ≡ w.events) × (v.serial ≡ w.serial)
Roomy exact w (ok (i, created), v) =
    (i.id < v.serial) × CountedWith exact (one_for i.id) v.serial v.events v.issues

upsert-Roomy :
    (exact : Bool) (p : ℕ) (fp title level : String) (at : ℕ) (w : World)
    → Counted exact w
    → Roomy exact w (upsert p fp title level at w)
unfolding upsert upsert_row trip bump
upsert-Roomy exact p fp title level at w c = elim (Bool-cases (w.outage w.calls)) [
  | inl down ↦ rw down (refl, refl, refl)
  | inr up ↦ elim (Option-cases (first (same_group p fp) w.issues)) [
    | inl fresh ↦
        rw (up, fresh)
          (
            omega arith,
            (
              (omega arith, All-map _ _ (λ i h. omega (arith, h)) w.issues c.0),
              (
                fresh-clashes w.serial p fp w.issues c.0
                    (none-All (same_group p fp) w.issues fresh),
                c.1,
              ),
              All-map _ _ (λ e h. used-later w.serial (suc w.serial) e.issue_id (omega arith) h)
                  w.events c.2,
              (
                (
                  ground (arith, unattributed w.serial w.events c.2),
                  λ e. ground (arith, unattributed w.serial w.events c.2),
                ),
                fresh-Covers exact w.serial w.events w.issues c.0 c.3,
              ),
            ),
          )
    | inr old ↦
        rw (up, old.1)
          (
            All-first (λ (i : Issue). i.id < w.serial) (same_group p fp) w.issues old.0 c.0 old.1,
            (
              bumped-All (λ (i : Issue). i.id < w.serial) (same_group p fp) (micros at) w.issues
                  (λ i h. h) c.0,
              bumped-OneEach (same_group p fp) (micros at) w.issues c.1,
              c.2,
              bumped-Covers exact w.events (same_group p fp) (micros at) old.0.id w.issues
                  (first-group p fp w.issues old.0 c.1 old.1) c.3,
            ),
          )
  ]
]

-- The row that is inserted takes the room.
inserted-Covers :
    (exact : Bool) (e : Event) (j : ℕ) (events : List Event) (issues : List Issue)
    → e.issue_id ≡ some j
    → All (Covers exact events (one_for j)) issues
    → All (Covers exact (e ∷ events) (λ id. 0)) issues
inserted-Covers exact e j events [] h c = tt
inserted-Covers exact e j events (i ∷ rest) h c =
    let one : of_issue i.id e ≡ (j == i.id) = rw h refl in
    (
      (ground (arith, c.0.0, one), λ k. ground (arith, c.0.1 k, one)),
      inserted-Covers exact e j events rest h c.1,
    )

-- An event that could not be inserted is counted without a row.
room_left :
    (exact : Bool) (j n : ℕ) (events : List Event) (issues : List Issue)
    → (exact ≡ true → ⊥)
    → CountedWith exact (one_for j) n events issues
    → CountedWith exact (λ id. 0) n events issues
room_left exact j n events issues loose c =
    (c.0, c.1, c.2, All-map _ _ (λ i h. (omega (arith, h.0), λ e. absurd (loose e))) issues c.3)

insert_event-Counted :
    (exact : Bool) (e : Event) (j : ℕ) (w : World)
    → (exact ≡ true → IsUp w)
    → e.issue_id ≡ some j
    → j < w.serial
    → CountedWith exact (one_for j) w.serial w.events w.issues
    → Counted exact (insert_event e w).1
unfolding insert_event trip
insert_event-Counted exact e j w up is lt c = elim (Bool-cases (w.outage w.calls)) [
  | inl down ↦
      let loose = λ (k : exact ≡ true). absurd (let u = up k w.calls in cc) in
      rw down (room_left exact j w.serial w.events w.issues loose c)
  | inr fine ↦ rw fine (
    All-map _ _ (λ i h. omega (arith, h)) w.issues c.0,
    c.1,
    (
      rw is (ground (arith, lt)),
      All-map _ _ (λ x h. used-later w.serial (suc w.serial) x.issue_id (omega arith) h) w.events
          c.2,
    ),
    inserted-Covers exact (event_row w.serial e) j w.events w.issues is c.3,
  )
]

continue-pure : (r : Result ℕ) (x : Issue × Bool) (w : World) → (continue r (λ id. pure x) w).1 ≡ w
continue-pure (ok id) x w = refl
continue-pure (err e) x w = refl

upsert-outage :
    (p : ℕ) (fp title level : String) (at : ℕ) (w : World)
    → (upsert p fp title level at w).1.outage ≡ w.outage
unfolding upsert upsert_row trip
upsert-outage p fp title level at w = ground arith

grouped-Counted :
    (exact : Bool) (e : Event) (w : World) (r : Result (Issue × Bool)) (v : World)
    → (exact ≡ true → IsUp v)
    → Counted exact w
    → Roomy exact w (r, v)
    → Counted exact
        (continue r
          (λ (found : Issue × Bool).
            insert_event (record e { issue_id = some found.0.id }) >> pure found)
          v).1
grouped-Counted exact e w (err x) v up c (issues, events, serial) = rw (issues, events, serial) c
grouped-Counted exact e w (ok (i, created)) v up c (lt, room) =
    let row : Event = record e { issue_id = some i.id } in
    let t = insert_event row v in
    rw (continue-pure t.0 (i, created) t.1) (insert_event-Counted exact row i.id v up refl lt room)

-- Whichever of its two calls fail, an issue counts its events at least; where none fails, exactly.
pub group_issue-Counted :
    (sha256_hex : String → String) (exact : Bool) (e : Event) (w : World)
    → (exact ≡ true → IsUp w)
    → Counted exact w
    → Counted exact (group_issue sha256_hex e w).1
unfolding group_issue
group_issue-Counted sha256_hex exact e w up c =
    let fp = compute sha256_hex e.message e.stack_trace in
    let u = upsert e.project_id fp e.message e.level e.occurred_at w in
    let same = upsert-outage e.project_id fp e.message e.level e.occurred_at w in
    grouped-Counted exact e w u.0 u.1 (λ k n. rw same (up k n)) c
      (upsert-Roomy exact e.project_id fp e.message e.level e.occurred_at w c)
