-- ===== src/Hub/Leaving.antt =====
-- What leaves a hub as it should be: unregister, and the writes.
use sentinelix_backend.Base.{
  ℕ, ◌≡◌, ◌≤◌, refl, sym, ap, true, false, not, ◌&&◌, List, [], ◌∷◌, arith, ◌==◌, ==_iff, length,
  if◌then◌else◌, Bool-cases, Option-cases, inl, inr,
}
use mathlib.Core.Path.{subst}
use sentinelix_backend.Hub.{
  Hub, has, without, room_of, members_of, unregister, leave, take_message, tail, dropped,
}
use sentinelix_backend.Hub.Members.{
  has-without, IsDistinct-without, members_in-room_of, room_of-nonempty,
}
use sentinelix_backend.Hub.Sound.{IsSound}

abbrev project : ℕ → Hub → ℕ
project id h = (h.clients id).project_id

-- A client that is in no room stays as it is.
unregister-out :
    (id : ℕ) (h : Hub) → has id (members_of h (project id h)) ≡ false → unregister id h ≡ h
unfolding unregister
unregister-out id h out = elim (Option-cases (h.rooms (project id h))) [
  | inl missing ↦ rw missing refl
  | inr found ↦ rw found.1 (let o : has id found.0 ≡ false = ground (arith, found.1) in rw o refl)
]

unregister-in :
    (id : ℕ) (h : Hub)
    → has id (members_of h (project id h)) ≡ true
    → unregister id h ≡ leave id h (members_of h (project id h))
unfolding unregister
unregister-in id h present = elim (Option-cases (h.rooms (project id h))) [
  | inl missing ↦ absurd (ground (arith, missing))
  | inr found ↦ rw found.1 (let o : has id found.0 ≡ true = ground (arith, found.1) in rw o refl)
]

module _ (id : ℕ) (h : Hub) (s : IsSound h)
    (present : has id (members_of h (project id h)) ≡ true) where
  abbrev left : Hub
  left = leave id h (members_of h (project id h))

  left-rooms :
      (q : ℕ)
      → left.rooms q
        ≡ (if project id h == q then room_of (without id (members_of h q)) else h.rooms q)
  left-rooms q = elim (Bool-cases (project id h == q)) [
    | inl same ↦
        rw same (ap (λ x. room_of (without id (members_of h x))) ((==_iff (project id h) q).0 same))
    | inr other ↦ rw other refl
  ]

  -- The client is in no other room.
  elsewhere : (q : ℕ) → (project id h == q) ≡ false → has id (members_of h q) ≡ false
  elsewhere q other = elim (Bool-cases (has id (members_of h q))) [
    | inr out ↦ out
    | inl in_ ↦ absurd (let same = s.is_ours q id in_ in ground arith)
  ]

  left-members :
      (q : ℕ)
      → members_of left q
        ≡ (if project id h == q then without id (members_of h q) else members_of h q)
  left-members q =
      rw (left-rooms q) (ground (arith, members_in-room_of (without id (members_of h q))))

  left-has : (q k : ℕ) → has k (members_of left q) ≡ (not (k == id) && has k (members_of h q))
  left-has q k = elim (Bool-cases (project id h == q)) [
    | inl same ↦ ground (arith, left-members q, has-without k id (members_of h q))
    | inr other ↦ elim (Bool-cases (k == id)) [
      | inr differ ↦ ground (arith, left-members q)
      | inl same ↦
          let e : has k (members_of h q) ≡ false =
            subst (λ x. has x (members_of h q) ≡ false) (sym ((==_iff k id).0 same))
              (elsewhere q other) in
          ground (arith, left-members q)
    ]
  ]

  left-client :
      (k : ℕ)
      → left.clients k
        ≡ (if id == k then record (h.clients k) { is_closed = true } else h.clients k)
  left-client k = elim (Bool-cases (id == k)) [
    | inl same ↦
        rw same (ap (λ x. record (h.clients x) { is_closed = true }) ((==_iff id k).0 same))
    | inr other ↦ rw other refl
  ]

  left-IsSound : IsSound left
  left-IsSound = record {
    calm = ground (arith, s.calm, s.is_open (project id h) id present);
    is_open = λ p k m. ground (arith, left-has p k, left-client k, s.is_open p k);
    is_ours = λ p k m. ground (arith, left-has p k, left-client k, s.is_ours p k);
    joined = λ k o. ground (arith, left-has (project k h) k, left-client k, s.joined k);
    later = λ k m. ground (arith, left-client k, s.later k);
    bounded = λ k. ground (arith, left-client k, s.bounded k);
    distinct =
        λ p. ground (arith, left-members p, s.distinct p, IsDistinct-without id (members_of h p));
    inhabited = λ p ms k.
        ground (
          arith,
          left-rooms p,
          s.inhabited p ms,
          room_of-nonempty (without id (members_of h p)) ms,
        );
  }

pub unregister-IsSound : (id : ℕ) (h : Hub) → IsSound h → IsSound (unregister id h)
unregister-IsSound id h s = elim (Bool-cases (has id (members_of h (project id h)))) [
  | inl present ↦ rw (unregister-in id h present) (left-IsSound id h s present)
  | inr out ↦ rw (unregister-out id h out) s
]

pub dropped-IsSound : (id : ℕ) (h : Hub) → IsSound h → IsSound (dropped id h)
dropped-IsSound id h s = record {
  calm = s.calm;
  is_open = s.is_open;
  is_ours = s.is_ours;
  joined = s.joined;
  later = s.later;
  bounded = s.bounded;
  distinct = s.distinct;
  inhabited = s.inhabited;
}

-- A write takes at most one message away, and changes nothing else of a client.
abbrev Writes : ℕ → Hub → ℕ → Type 0
Writes id h k =
    let c = (take_message id h).clients k in
    (c.project_id ≡ (h.clients k).project_id)
    × (c.is_closed ≡ (h.clients k).is_closed)
    × (length c.send ≤ length (h.clients k).send)

length-tail : (xs : List ℕ) → length (tail xs) ≤ length xs
length-tail [] = omega arith
length-tail (x ∷ xs) = omega arith

take-itself : (id : ℕ) (h : Hub) → Writes id h id
unfolding take_message
take-itself id h = ground (arith, length-tail (h.clients id).send)

take-client : (id k : ℕ) (h : Hub) → Writes id h k
unfolding take_message
take-client id k h = elim (Bool-cases (id == k)) [
  | inr other ↦ ground arith
  | inl same ↦ subst (Writes id h) ((==_iff id k).0 same) (take-itself id h)
]

pub take_message-IsSound : (id : ℕ) (h : Hub) → IsSound h → IsSound (take_message id h)
unfolding take_message
take_message-IsSound id h s = record {
  calm = s.calm;
  is_open = λ p k m. ground (arith, take-client id k h, s.is_open p k);
  is_ours = λ p k m. ground (arith, take-client id k h, s.is_ours p k);
  joined = λ k o. rw (take-client id k h).0 (s.joined k (ground (arith, take-client id k h)));
  later = λ k m. ground (arith, take-client id k h, s.later k);
  bounded = λ k. ground (arith, take-client id k h, s.bounded k);
  distinct = s.distinct;
  inhabited = s.inhabited;
}
