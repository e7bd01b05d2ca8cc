-- ===== src/Consumer/Progress.antt =====
-- What one message does to the stream and to the event table while every service answers.
use sentinelix_backend.Base.{
  ℕ, suc, String, ◌≡◌, refl, sym, ap, ◌∙◌, ◌⊎◌, inl, inr, Bool, List, [], ◌∷◌, arith, Option-cases,
  first,
}
use mathlib.Core.Path.{subst}
use sentinelix_backend.Domain.Errors.{ok}
use sentinelix_backend.Domain.Event.{Event, Issue}
use sentinelix_backend.Stream.{
  Stream, Payload, missing, garbage, event, Entry, Reason, data_missing, unmarshal_error,
}
use sentinelix_backend.World.{IsUp, World, trip}
use sentinelix_backend.World.Issues.{upsert, upsert_row, insert_event, same_group}
use sentinelix_backend.Fingerprint.{compute}
use sentinelix_backend.Ingest.{group_issue}
use sentinelix_backend.Consumer.{
  ack, add_dead, move_to_dlq, follow_up, process_payload, process_message, process_all,
}
use sentinelix_backend.Consumer.Aside.{follow_up-Aside}
use sentinelix_backend.Consumer.Delivery.{
  IsStored, Grouped, group_issue-Grouped, move_to_dlq_lem, ack_lem,
}

-- Some message of the batch carries the event.
abbrev pub Carries : Event → List Entry → Type 0
Carries e [] = ⊥
Carries e (x ∷ rest) = (x.payload ≡ event e) ⊎ Carries e rest

pub move_to_dlq_rest :
    (x : Entry) (reason : Reason) (s : World)
    → ((move_to_dlq x reason s).outage ≡ s.outage)
      × ((move_to_dlq x reason s).stream.backlog ≡ s.stream.backlog)
unfolding move_to_dlq ack add_dead trip
move_to_dlq_rest x reason s = ground arith

ack_rest :
    (id : ℕ) (s : World)
    → ((ack id s).outage ≡ s.outage) × ((ack id s).stream.backlog ≡ s.stream.backlog)
unfolding ack trip
ack_rest id s = ground arith

module _ (sha256_hex : String → String) where
  group_issue_ok :
      (e : Event) (w : World)
      → IsUp w
      → (found : Issue × Bool) × (v : World) × (group_issue sha256_hex e w ≡ (ok found, v))
  unfolding group_issue upsert upsert_row insert_event trip
  group_issue_ok e w up =
      let group = same_group e.project_id (compute sha256_hex e.message e.stack_trace) in
      elim (Option-cases (first group w.issues)) [
        | inl fresh ↦ rw (up w.calls) (rw (fresh, up (suc w.calls)) (_, _, refl))
        | inr old ↦ rw (up w.calls) (rw (old.1, up (suc w.calls)) (_, _, refl))
      ]

  -- The message is in the dead-letter queue, or waits: the table is as it was.
  unchanged :
      (e : Event) (d : Payload) (rows new : List Event)
      → new ≡ rows
      → (d ≡ event e → ⊥)
      → IsStored e rows ⊎ (d ≡ event e)
      → IsStored e new
  unchanged e d rows new same other (inl h) = rw same h
  unchanged e d rows new same other (inr h) = absurd (other h)

  grown :
      (e f : Event) (w : World) (found : Issue × Bool) (v : World)
      → Grouped sha256_hex f w (ok found, v)
      → IsStored e w.events ⊎ (event f ≡ event e)
      → IsStored e v.events
  grown e f w found v ((x, row, g), _, _) (inl h) = rw g (inr h)
  grown e f w found v ((x, row, g), _, _) (inr h) =
      let same : f ≡ e = cc in rw g (inl (rw (sym same) row))

  -- The message is through: what was stored stays, and the event of the message is stored now.
  abbrev pub Advances : Payload → World → World → Type 0
  Advances d s t =
      (t.outage ≡ s.outage)
      × (t.stream.backlog ≡ s.stream.backlog)
      × ((e : Event) → IsStored e s.events ⊎ (d ≡ event e) → IsStored e t.events)

  payload-Advances :
      (x : Entry) (d : Payload) (s : World)
      → IsUp s
      → Advances d s (process_payload sha256_hex x d s)
  payload-Advances x missing s up =
      let r = move_to_dlq_rest x data_missing s in
      (
        r.0,
        r.1,
        λ e h. unchanged e missing _ _ (move_to_dlq_lem x.id x data_missing s).1 (λ k. cc) h,
      )
  payload-Advances x garbage s up =
      let r = move_to_dlq_rest x unmarshal_error s in
      (
        r.0,
        r.1,
        λ e h. unchanged e garbage _ _ (move_to_dlq_lem x.id x unmarshal_error s).1 (λ k. cc) h,
      )
  payload-Advances x (event f) s up =
      let (found, v, done) = group_issue_ok f s up in
      let g = subst (Grouped sha256_hex f s) done (group_issue-Grouped sha256_hex f s) in
      let mid = follow_up found.0 found.1 v in
      let aside = follow_up-Aside found.0 found.1 v in
      let rest = ack_rest x.id mid in
      rw done (
        rest.0 ∙ aside.2 ∙ g.2,
        rest.1 ∙ ap (λ (t : Stream). t.backlog) (aside.1 ∙ g.1),
        λ e h. rw ((ack_lem x.id x.id mid).1 ∙ aside.0) (grown e f s found v g h),
      )

  pub message-Advances :
      (x : Entry) (s : World) → IsUp s → Advances x.payload s (process_message sha256_hex x s)
  unfolding process_message
  message-Advances x s up = payload-Advances x x.payload s up

  -- After a batch the services still answer, and what was stored or in the batch is stored.
  pub all-Advances :
      (entries : List Entry) (s : World)
      → IsUp s
      → let t = process_all sha256_hex entries s in
        IsUp t
        × (t.stream.backlog ≡ s.stream.backlog)
        × ((e : Event) → IsStored e s.events ⊎ Carries e entries → IsStored e t.events)
  unfolding process_all
  all-Advances [] s up =
      (up, refl, λ e h. elim h [ inl stored ↦ stored | inr none_left ↦ absurd none_left ])
  all-Advances (x ∷ rest) s up =
      let t = process_message sha256_hex x s in
      let a = message-Advances x s up in
      let (up', same, later) = all-Advances rest t (λ n. rw a.0 (up n)) in
      (up', same ∙ a.1, λ e h. later e (through e x rest s t a.2 h))
    where
      through :
          (e : Event) (x : Entry) (rest : List Entry) (s t : World)
          → ((f : Event) → IsStored f s.events ⊎ (x.payload ≡ event f) → IsStored f t.events)
          → IsStored e s.events ⊎ Carries e (x ∷ rest)
          → IsStored e t.events ⊎ Carries e rest
      through e x rest s t a (inl h) = inl (a e (inl h))
      through e x rest s t a (inr (inl h)) = inl (a e (inr h))
      through e x rest s t a (inr (inr h)) = inr h
