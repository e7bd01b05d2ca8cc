-- ===== src/Consumer/Reclaim.antt =====
-- What a round of reclaiming leaves as it was, while the services answer.
use sentinelix_backend.Base.{suc, String, ◌≡◌, refl, ◌∙◌, inl, inr, List, [], ◌∷◌, ltb, Bool-cases}
use sentinelix_backend.Domain.Event.{Event}
use sentinelix_backend.Stream.{Pending, exceeded_max_retries}
use sentinelix_backend.World.{IsUp, World, trip}
use sentinelix_backend.Consumer.{
  Config, claim, claimable, retry, claim_and_retry, listed, reclaim_each, reclaim_once,
}
use sentinelix_backend.Consumer.Delivery.{IsStored, move_to_dlq_lem}
use sentinelix_backend.Consumer.Progress.{move_to_dlq_rest, message-Advances}

-- What was stored stays, and nothing unread is lost or read.
abbrev pub Stays : World → World → Type 0
Stays s t =
    (t.outage ≡ s.outage)
    × (t.stream.backlog ≡ s.stream.backlog)
    × ((e : Event) → IsStored e s.events → IsStored e t.events)

Stays-trans : (s t u : World) → Stays s t → Stays t u → Stays s u
Stays-trans s t u (up, same, kept) (up', same', kept') =
    (up' ∙ up, same' ∙ same, λ e h. kept' e (kept e h))

module _ (sha256_hex : String → String) (c : Config) where
  retry-Stays : (p : Pending) (s : World) → IsUp s → Stays s (retry sha256_hex c p s)
  retry-Stays p s up = elim (Bool-cases (ltb c.max_delivery_count p.deliveries)) [
    | inl worn ↦
        let r = move_to_dlq_rest p.entry exceeded_max_retries s in
        let rows = (move_to_dlq_lem 0 p.entry exceeded_max_retries s).1 in
        rw worn (r.0, r.1, λ e h. rw rows h)
    | inr fine ↦
        let a = message-Advances sha256_hex p.entry s up in rw fine (a.0, a.1, λ e h. a.2 e (inl h))
  ]

  pub one-Stays :
      (p : Pending) (s : World)
      → IsUp s
      → Stays s (claim_and_retry sha256_hex c p (trip s).0 (trip s).1)
  unfolding trip
  one-Stays p s up =
      let w = record s { calls = suc s.calls } in
      elim (Bool-cases (claimable c p w)) [
        | inl waits ↦ rw (up s.calls, waits) (retry-Stays p (claim c p w) up)
        | inr gone ↦ rw (up s.calls, gone) (refl, refl, λ e h. h)
      ]

  each-Stays : (ps : List Pending) (s : World) → IsUp s → Stays s (reclaim_each sha256_hex c ps s)
  unfolding reclaim_each
  each-Stays [] s up = (refl, refl, λ e h. h)
  each-Stays (p ∷ ps) s up =
      let t = claim_and_retry sha256_hex c p (trip s).0 (trip s).1 in
      let one = one-Stays p s up in
      Stays-trans s t (reclaim_each sha256_hex c ps t) one (each-Stays ps t (λ n. rw one.0 (up n)))

  pub reclaim_once-Stays : (s : World) → IsUp s → Stays s (reclaim_once sha256_hex c s)
  unfolding reclaim_once trip
  reclaim_once-Stays s up =
      let w = record s { calls = suc s.calls } in rw (up s.calls) (each-Stays (listed c w) w up)
