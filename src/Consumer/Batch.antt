-- ===== src/Consumer/Batch.antt =====
-- What becomes of an event that is read from the stream, whichever calls fail.
use sentinelix_backend.Base.{
  ℕ, suc, ◌<◌, ◌≤◌, String, ◌≡◌, refl, inl, inr, true, false, not, ◌&&◌, ◌||◌, List, [], ◌∷◌, ◌++◌,
  map, arith, ltb, ◌==◌, any_of, update_where, All, Bool-cases,
}
use sentinelix_backend.Domain.Errors.{Result, ok, err}
use sentinelix_backend.Domain.Event.{Event}
use sentinelix_backend.Stream.{event, exceeded_max_retries, Entry, Pending}
use sentinelix_backend.World.{World, trip}
use sentinelix_backend.Consumer.{
  Config, has_id, ack, add_dead, move_to_dlq, process_message, process_all, read_once, batch,
  delivered, retry, claim, is_claimed, redeliver, claim_and_retry, claimable, reclaim_each,
  reclaim_once, listed,
}
use sentinelix_backend.Consumer.Delivery.{
  Kept, is_pending, is_dead, payload-Kept, same_events, any_of-unack, dead-Kept,
}

module _ (sha256_hex : String → String) where
  process_all-Kept :
      (id : ℕ) (e : Event) (entries : List Entry) (s : World)
      → All (λ x. id ≡ x.id → x.payload ≡ event e) entries
      → Kept id e s
      → Kept id e (process_all sha256_hex entries s)
  unfolding process_all process_message
  process_all-Kept id e [] s same k = k
  process_all-Kept id e (x ∷ rest) s same k =
      process_all-Kept id e rest (process_message sha256_hex x s) same.1
        (payload-Kept sha256_hex id e x x.payload s same.0 k)

  now_pending :
      (id now : ℕ) (entries : List Entry) (ps : List Pending)
      → any_of (λ (x : Entry). x.id == id) entries ≡ true
      → any_of (has_id id) (ps ++ map (delivered now) entries) ≡ true
  now_pending id now [] [] h = h
  now_pending id now (x ∷ entries) [] h = ground (arith, now_pending id now entries [])
  now_pending id now entries (p ∷ ps) h = ground (arith, now_pending id now entries ps h)

  -- After a poll that reaches Redis, an event of its batch has a row in the event table, of its
  -- project, with its stack trace and context and its time to the microsecond, attributed to an
  -- issue, or its message is pending, whichever of the later calls fail. All messages of the batch
  -- with its id carry that event.
  pub read_once-Kept :
      (id : ℕ) (e : Event) (s : World)
      → s.outage s.calls ≡ false
      → any_of (λ (x : Entry). x.id == id) (batch s) ≡ true
      → All (λ x. id ≡ x.id → x.payload ≡ event e) (batch s)
      → Kept id e (read_once sha256_hex s)
  unfolding read_once trip
  read_once-Kept id e s up h same = rw up (
      process_all-Kept id e (batch s) _ same
        (inl (now_pending id s.now (batch s) s.stream.pending h)))

  module _ (c : Config) where
    -- A message that was delivered more often than the maximum is in the dead-letter queue
    -- after its retry exactly if it was before or the first of the two calls succeeds, and
    -- pending exactly if it was before and the second fails, whatever became of the first; the
    -- event table stays as it was.
    pub retry_exhausted :
        (p : Pending) (s : World)
        → c.max_delivery_count < p.deliveries
        → let t = retry sha256_hex c p s in
          let calls = s.calls in
          (is_dead p.entry.id t ≡ (not (s.outage calls) || is_dead p.entry.id s))
          × (is_pending p.entry.id t ≡ (s.outage (suc calls) && is_pending p.entry.id s))
          × (t.events ≡ s.events)
    unfolding move_to_dlq ack add_dead trip
    retry_exhausted p s h = ground (arith, any_of-unack p.entry.id p.entry.id s.stream.pending)

    claim-pending :
        (id now : ℕ) (p : Pending) (ps : List Pending)
        → any_of (has_id id) (update_where (is_claimed c p now) (redeliver c now) ps)
          ≡ any_of (has_id id) ps
    claim-pending id now p [] = refl
    claim-pending id now p (q ∷ ps) = ground (arith, claim-pending id now p ps)

    -- Not yet delivered too often, and one event for each id.
    abbrev pub IsRetryable : ℕ → Event → Pending → Type 0
    IsRetryable id e p =
        id ≡ p.entry.id → (p.deliveries ≤ c.max_delivery_count) × (p.entry.payload ≡ event e)

    retry-Kept :
        (id : ℕ) (e : Event) (p : Pending) (s : World)
        → IsRetryable id e p
        → Kept id e s
        → Kept id e (retry sha256_hex c p s)
    unfolding process_message
    retry-Kept id e p s r k = elim (Bool-cases (ltb c.max_delivery_count p.deliveries)) [
      | inl h ↦ rw h (
          dead-Kept sha256_hex id e p.entry exceeded_max_retries s
            (λ same. absurd (ground (arith, (r same).0))) k)
      | inr h ↦ rw h (payload-Kept sha256_hex id e p.entry p.entry.payload s (λ same. (r same).1) k)
    ]

    tried-Kept :
        (id : ℕ) (e : Event) (p : Pending) (r : Result (Unit {0})) (s : World)
        → IsRetryable id e p
        → Kept id e s
        → Kept id e (claim_and_retry sha256_hex c p r s)
    tried-Kept id e p (err x) s h k = k
    tried-Kept id e p (ok u) s h k =
        let claimed =
          same_events sha256_hex id e s (claim c p s) (claim-pending id s.now p s.stream.pending)
            refl k in
        elim (Bool-cases (claimable c p s)) [
          | inl q ↦ rw q (retry-Kept id e p (claim c p s) h claimed)
          | inr q ↦ rw q k
        ]

    reclaim_each-Kept :
        (id : ℕ) (e : Event) (ps : List Pending) (s : World)
        → All (IsRetryable id e) ps
        → Kept id e s
        → Kept id e (reclaim_each sha256_hex c ps s)
    unfolding reclaim_each trip
    reclaim_each-Kept id e [] s h k = k
    reclaim_each-Kept id e (p ∷ ps) s h k =
        let s' = (trip s).1 in
        reclaim_each-Kept id e ps (claim_and_retry sha256_hex c p (trip s).0 s') h.1
          (tried-Kept id e p (trip s).0 s' h.0 (same_events sha256_hex id e s s' refl refl k))

    -- An event that is in the event table or whose message is pending is so too after a round
    -- of reclaiming, whichever calls fail, if each listed message with its id carries that
    -- event and was delivered at most as often as the maximum.
    pub reclaim_once-Kept :
        (id : ℕ) (e : Event) (s : World)
        → All (IsRetryable id e) (listed c s)
        → Kept id e s
        → Kept id e (reclaim_once sha256_hex c s)
    unfolding reclaim_once trip
    reclaim_once-Kept id e s h k =
        let s' = (trip s).1 in
        let k' = same_events sha256_hex id e s s' refl refl k in
        elim (Bool-cases (s.outage s.calls)) [
          | inl q ↦ rw q k'
          | inr q ↦ rw q (reclaim_each-Kept id e (listed c s) s' h k')
        ]
