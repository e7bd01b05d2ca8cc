-- ===== src/Consumer/Delivery.antt =====
-- What becomes of a message that is processed.
use sentinelix_backend.Base.{
  ◌*◌, ◌/◌, ℕ, String, ◌≡◌, refl, sym, ◌∙◌, ap, ◌≢◌, ◌⊎◌, inl, inr, Bool, true, false, not, some,
  List, [], ◌∷◌, arith, ◌==◌, any_of, select, Bool-cases, if◌then◌else◌,
}
use sentinelix_backend.Domain.Errors.{Result, ok, err}
use sentinelix_backend.Domain.Event.{Event, Issue}
use sentinelix_backend.Stream.{
  Payload, missing, garbage, event, Entry, Pending, Reason, DeadLetter, data_missing,
  unmarshal_error, Stream,
}
use sentinelix_backend.World.{World, trip, pure, continue, ◌>>◌}
use sentinelix_backend.World.Issues.{upsert, insert_event}
use sentinelix_backend.Fingerprint.{compute}
use sentinelix_backend.Ingest.{group_issue}
use sentinelix_backend.Consumer.{
  has_id, ack, add_dead, move_to_dlq, follow_up, after_group, process_payload,
}
use sentinelix_backend.Consumer.Aside.{follow_up-Aside, upsert-Aside}

abbrev pub is_pending : ℕ → World → Bool
is_pending id w = any_of (has_id id) w.stream.pending

abbrev pub is_dead : ℕ → World → Bool
is_dead id w = any_of (λ d. d.original.id == id) w.stream.dlq

-- The event is in the table: a row of its project with its stack trace, its context and its time, to
-- the microsecond, that is attributed to an issue. (The level and the message have no columns.)
abbrev pub IsRowOf : Event → Event → Type 0
IsRowOf e x =
    (x.project_id ≡ e.project_id)
    × (x.stack_trace ≡ e.stack_trace)
    × (x.context ≡ e.context)
    × (x.occurred_at ≡ e.occurred_at / 1000 * 1000)
    × ((id issue : ℕ) × (x.id ≡ some id) × (x.issue_id ≡ some issue))

abbrev pub IsStored : Event → List Event → Type 0
IsStored e [] = ⊥
IsStored e (x ∷ rows) = IsRowOf e x ⊎ IsStored e rows

-- Still to be delivered again, or in the table.
abbrev pub Kept : ℕ → Event → World → Type 0
Kept id e w = (is_pending id w ≡ true) ⊎ IsStored e w.events

pub any_of-unack :
    (id k : ℕ) (ps : List Pending)
    → any_of (has_id id) (select (λ p. not (has_id k p)) ps)
      ≡ (if id == k then false else any_of (has_id id) ps)
any_of-unack id k [] = ground arith
any_of-unack id k (p ∷ ps) = ground (arith, any_of-unack id k ps)

pub ack_lem :
    (id k : ℕ) (w : World)
    → ((id ≡ k) ⊎ (is_pending id (ack k w) ≡ is_pending id w)) × ((ack k w).events ≡ w.events)
unfolding ack trip
ack_lem id k w = ground (arith, any_of-unack id k w.stream.pending)

add_dead_lem :
    (id : ℕ) (d : DeadLetter) (w : World)
    → (is_pending id (add_dead d w) ≡ is_pending id w) × ((add_dead d w).events ≡ w.events)
unfolding add_dead trip
add_dead_lem id d w = ground arith

pub move_to_dlq_lem :
    (id : ℕ) (x : Entry) (reason : Reason) (w : World)
    → ((id ≡ x.id) ⊎ (is_pending id (move_to_dlq x reason w) ≡ is_pending id w))
      × ((move_to_dlq x reason w).events ≡ w.events)
unfolding move_to_dlq
move_to_dlq_lem id x reason w =
    let d : DeadLetter = record { original = x; reason = reason } in
    ground (arith, add_dead_lem id d w, ack_lem id x.id (add_dead d w))

module _ (sha256_hex : String → String) where
  -- One row more where the event was grouped, and none where it failed.
  abbrev pub Grouped : Event → World → Result (Issue × Bool) × World → Type 0
  Grouped e w (err x, v) = (v.events ≡ w.events) × (v.stream ≡ w.stream) × (v.outage ≡ w.outage)
  Grouped e w (ok found, v) =
      ((x : Event) × IsRowOf e x × (v.events ≡ x ∷ w.events))
      × (v.stream ≡ w.stream)
      × (v.outage ≡ w.outage)

  inserted :
      (e : Event) (found : Issue × Bool) (w : World)
      → Grouped e w ((insert_event (record e { issue_id = some found.0.id }) >> pure found) w)
  unfolding insert_event trip
  inserted e found w = elim (Bool-cases (w.outage w.calls)) [
    | inl h ↦ rw h (refl, refl, refl)
    | inr h ↦
        rw h ((_, (refl, refl, refl, refl, (w.serial, found.0.id, refl, refl)), refl), refl, refl)
  ]

  -- What is so after the upsert is so from the start.
  Grouped-from :
      (e : Event) (w u : World) (r : Result (Issue × Bool) × World)
      → u.events ≡ w.events
      → u.stream ≡ w.stream
      → u.outage ≡ w.outage
      → Grouped e u r
      → Grouped e w r
  Grouped-from e w u (err x, v) p q o (a, b, c) = (a ∙ p, b ∙ q, c ∙ o)
  Grouped-from e w u (ok found, v) p q o ((x, row, a), b, c) =
      ((x, row, a ∙ ap (λ (rows : List Event). x ∷ rows) p), b ∙ q, c ∙ o)

  inserted-Grouped :
      (e : Event) (w : World) (r : Result (Issue × Bool)) (u : World)
      → u.events ≡ w.events
      → u.stream ≡ w.stream
      → u.outage ≡ w.outage
      → Grouped e w (
          continue r
            (λ found. insert_event (record e { issue_id = some found.0.id }) >> pure found)
            u)
  inserted-Grouped e w (err x) u p q o = (p, q, o)
  inserted-Grouped e w (ok found) u p q o = Grouped-from e w u _ p q o (inserted e found u)

  pub group_issue-Grouped : (e : Event) (w : World) → Grouped e w (group_issue sha256_hex e w)
  unfolding group_issue
  group_issue-Grouped e w =
      let fp = compute sha256_hex e.message e.stack_trace in
      let u = upsert e.project_id fp e.message e.level e.occurred_at w in
      let a = upsert-Aside e.project_id fp e.message e.level e.occurred_at w in
      inserted-Grouped e w u.0 u.1 a.0 a.1 a.2

  pub same_events :
      (id : ℕ) (e : Event) (w v : World)
      → is_pending id v ≡ is_pending id w
      → v.events ≡ w.events
      → Kept id e w
      → Kept id e v
  same_events id e w v p q (inl h) = inl (p ∙ h)
  same_events id e w v p q (inr h) = inr (rw q h)

  row_added :
      (id : ℕ) (e f : Event) (x : Event) (w v : World)
      → IsRowOf f x
      → v.events ≡ x ∷ w.events
      → (f ≡ e) ⊎ (is_pending id v ≡ is_pending id w)
      → Kept id e w
      → Kept id e v
  row_added id e f x w v row q (inl h) k = inr (rw q (inl (rw (sym h) row)))
  row_added id e f x w v row q (inr h) (inl k) = inl (h ∙ k)
  row_added id e f x w v row q (inr h) (inr k) = inr (rw q (inr k))

  after_group-Kept :
      (id : ℕ) (e f : Event) (x : Entry) (w : World) (r : Result (Issue × Bool) × World)
      → Grouped f w r
      → (id ≡ x.id → f ≡ e)
      → Kept id e w
      → Kept id e (after_group sha256_hex x r)
  after_group-Kept id e f x w (err y, v) (g, same, _) own k =
      same_events id e w v (ap (λ (s : Stream). any_of (has_id id) s.pending) same) g k
  after_group-Kept id e f x w (ok (issue, created), v) ((y, row, g), same, _) own k =
      let mid = follow_up issue created v in
      let aside = follow_up-Aside issue created v in
      let (p, q) = ack_lem id x.id mid in
      let kept : is_pending id mid ≡ is_pending id w =
        ap (λ (s : Stream). any_of (has_id id) s.pending) (aside.1 ∙ same) in
      row_added id e f y w (ack x.id mid) row (q ∙ aside.0 ∙ g)
        (elim p [ inl h ↦ inl (own h) | inr h ↦ inr (h ∙ kept) ]) k

  pub dead-Kept :
      (id : ℕ) (e : Event) (x : Entry) (reason : Reason) (w : World)
      → id ≢ x.id
      → Kept id e w
      → Kept id e (move_to_dlq x reason w)
  dead-Kept id e x reason w other_id k =
      let (p, q) = move_to_dlq_lem id x reason w in
      same_events id e w (move_to_dlq x reason w)
        (elim p [ inl h ↦ absurd (other_id h) | inr h ↦ h ]) q k

  pub payload-Kept :
      (id : ℕ) (e : Event) (x : Entry) (d : Payload) (w : World)
      → (id ≡ x.id → d ≡ event e)
      → Kept id e w
      → Kept id e (process_payload sha256_hex x d w)
  payload-Kept id e x missing w same k = dead-Kept id e x data_missing w (λ h. cc (same h)) k
  payload-Kept id e x garbage w same k = dead-Kept id e x unmarshal_error w (λ h. cc (same h)) k
  payload-Kept id e x (event f) w same k =
      after_group-Kept id e f x w (group_issue sha256_hex f w) (group_issue-Grouped f w)
        (λ h. cc (same h)) k
