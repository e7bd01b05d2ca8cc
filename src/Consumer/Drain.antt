-- ===== src/Consumer/Drain.antt =====
-- That an event on the queue is grouped in the end.
use sentinelix_backend.Base.{
  ℕ, zero, suc, ◌+◌, ◌≤◌, ◌<◌, String, ◌≡◌, refl, ◌⊎◌, inl, inr, List, [], ◌∷◌, ◌++◌, arith, length,
  length-append, take,
}
use sentinelix_backend.Domain.Event.{Event}
use sentinelix_backend.World.{IsUp, trip}
use sentinelix_backend.World.Issues.{drop}
use sentinelix_backend.Stream.{Entry, event}
use sentinelix_backend.World.{World, trip}
use sentinelix_backend.Consumer.{read_once, batch}
use sentinelix_backend.Consumer.Delivery.{IsStored}
use sentinelix_backend.Consumer.Progress.{Carries, all-Advances}

-- Messages were added at the end of the stream, at most; the event table and the outages are as before.
abbrev pub Extends : World → World → Type 0
Extends w v =
    (added : List Entry) × (v.stream.backlog ≡ w.stream.backlog ++ added)
    × (v.events ≡ w.events)
    × (v.outage ≡ w.outage)

module _ (e : Event) where
  Carries-append :
      (n : ℕ) (xs ys : List Entry) → Carries e (take n xs) → Carries e (take n (xs ++ ys))
  Carries-append (suc n) (x ∷ xs) ys (inl h) = inl h
  Carries-append (suc n) (x ∷ xs) ys (inr h) = inr (Carries-append n xs ys h)
  Carries-append (suc n) [] ys h = absurd h
  Carries-append zero xs ys h = absurd h

  Carries-last :
      (xs : List Entry) (x : Entry)
      → x.payload ≡ event e
      → (n : ℕ) → length (xs ++ x ∷ []) ≤ n
      → Carries e (take n (xs ++ x ∷ []))
  Carries-last [] x h zero k = absurd (omega arith)
  Carries-last [] x h (suc n) k = inl h
  Carries-last (y ∷ xs) x h zero k = absurd (omega arith)
  Carries-last (y ∷ xs) x h (suc n) k = inr (Carries-last xs x h n (omega arith))

  Carries-take-le :
      (k n : ℕ) (xs : List Entry) → k ≤ n → Carries e (take k xs) → Carries e (take n xs)
  Carries-take-le zero n xs le h = absurd h
  Carries-take-le (suc k) n [] le h = absurd h
  Carries-take-le (suc k) zero (x ∷ xs) le h = absurd (omega arith)
  Carries-take-le (suc k) (suc n) (x ∷ xs) le (inl h) = inl h
  Carries-take-le (suc k) (suc n) (x ∷ xs) le (inr h) = inr (Carries-take-le k n xs (omega arith) h)

  -- A message is in the batch or behind it.
  Carries-split :
      (m n k : ℕ) (xs : List Entry)
      → k ≤ m + n
      → Carries e (take k xs)
      → Carries e (take m xs) ⊎ Carries e (take n (drop m xs))
  Carries-split m n zero xs le h = absurd h
  Carries-split m n (suc k) [] le h = absurd h
  Carries-split zero n (suc k) (x ∷ xs) le h =
      inr (Carries-take-le (suc k) n (x ∷ xs) (omega arith) h)
  Carries-split (suc m) n (suc k) (x ∷ xs) le (inl h) = inl (inl h)
  Carries-split (suc m) n (suc k) (x ∷ xs) le (inr h) =
      elim (Carries-split m n k xs (omega arith) h) [ inl a ↦ inl (inr a) | inr b ↦ inr b ]

  -- Stored, or among the first messages of the stream that no poll has read.
  abbrev pub Within : ℕ → World → Type 0
  Within n s = IsStored e s.events ⊎ Carries e (take n s.stream.backlog)

  pub Extends-Within : (n : ℕ) (w v : World) → Extends w v → Within n w → Within n v
  Extends-Within n w v (added, more, rows, up) (inl h) = inl (rw rows h)
  Extends-Within n w v (added, more, rows, up) (inr h) =
      inr (rw more (Carries-append n w.stream.backlog added h))

  -- A message at the end of the stream is read by as many polls as the stream is long by tens.
  pub last-Within :
      (n id : ℕ) (w v : World)
      → v.stream.backlog ≡ w.stream.backlog ++ record { id = id; payload = event e } ∷ []
      → length w.stream.backlog < n
      → Within n v
  last-Within n id w v same long =
      let x : Entry = record { id = id; payload = event e } in
      inr (
        rw same (
          Carries-last w.stream.backlog x refl n
            (omega (arith, length-append w.stream.backlog (x ∷ [])))))

  module _ (sha256_hex : String → String) where
    -- A poll stores what it read; the rest is what the stream still holds.
    read :
        (n : ℕ) (xs rest backlog : List Entry) (old rows : List Event)
        → backlog ≡ rest
        → ((f : Event) → IsStored f old ⊎ Carries f xs → IsStored f rows)
        → (IsStored e old ⊎ Carries e xs) ⊎ Carries e (take n rest)
        → IsStored e rows ⊎ Carries e (take n backlog)
    read n xs rest backlog old rows same stored (inl h) = inl (stored e h)
    read n xs rest backlog old rows same stored (inr h) = inr (rw same h)

    pub poll-Within :
        (n k : ℕ) (s : World)
        → k ≤ 10 + n
        → IsUp s
        → Within k s
        → let t = read_once sha256_hex s in IsUp t × Within n t
    unfolding read_once trip
    poll-Within n k s le up w = rw (up s.calls) (
        let a = all-Advances sha256_hex (batch s) _ up in
        (
          a.0,
          read n (batch s) (drop 10 s.stream.backlog) _ s.events _ a.1 a.2 (elim w [
            | inl h ↦ inl (inl h)
            | inr h ↦ elim (Carries-split 10 n k s.stream.backlog le h) [
              | inl now ↦ inl (inr now)
              | inr later ↦ inr later
            ]
          ]),
        ))
