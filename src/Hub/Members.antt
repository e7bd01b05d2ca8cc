-- ===== src/Hub/Members.antt =====
-- Members of a room, and what a broadcast does to each client.
use sentinelix_backend.Base.{
  ℕ, ◌≡◌, ◌≤◌, ◌<◌, refl, ◌∙◌, Bool, true, false, not, ◌&&◌, ◌||◌, some, List, [], ◌∷◌, ◌++◌, arith,
  ◌==◌, ltb, length, length-append, if◌then◌else◌, Bool-cases, ==_iff, inl, inr,
}
use mathlib.Core.Path.{subst}
use sentinelix_backend.Hub.{
  Client, Hub, has, without, room_of, members_in, offer, offer_all, send_buffer_size,
}

abbrev pub IsDistinct : List ℕ → Type 0
IsDistinct [] = Unit {0}
IsDistinct (x ∷ xs) = (has x xs ≡ false) × IsDistinct xs

pub has-without : (x id : ℕ) (xs : List ℕ) → has x (without id xs) ≡ (not (x == id) && has x xs)
has-without x id [] = ground arith
has-without x id (y ∷ xs) = ground (arith, has-without x id xs)

pub IsDistinct-without : (id : ℕ) (xs : List ℕ) → IsDistinct xs → IsDistinct (without id xs)
IsDistinct-without id [] d = tt
IsDistinct-without id (x ∷ xs) d = ground (arith, IsDistinct-without id xs d.1, has-without x id xs)

pub members_in-room_of : (xs : List ℕ) → members_in (room_of xs) ≡ xs
members_in-room_of [] = refl
members_in-room_of (x ∷ xs) = refl

pub room_of-nonempty : (xs ms : List ℕ) → room_of xs ≡ some ms → 0 < length ms
room_of-nonempty [] ms h = cc
room_of-nonempty (x ∷ xs) ms h = ground arith

abbrev pub is_full : Client → Bool
is_full c = not (ltb (length c.send) send_buffer_size)

-- The client after a message was offered to it.
abbrev pub offered : ℕ → Client → Client
offered message c = if is_full c then c else record c { send = c.send ++ message ∷ [] }

pub offered-length :
    (message : ℕ) (c : Client) → length c.send ≤ 16 → length (offered message c).send ≤ 16
offered-length message c h = ground (arith, length-append c.send (message ∷ []))

-- What a round of the loop does, and all of them.
pub record Fans (message : ℕ) (members : List ℕ) (h t : Hub) : Type 0 where
  pub rooms : t.rooms ≡ h.rooms
  pub made : t.made ≡ h.made
  pub panicked : t.panicked ≡ h.panicked
  pub clients :
      (id : ℕ)
      → t.clients id ≡ (if has id members then offered message (h.clients id) else h.clients id)
  pub leaving :
      (id : ℕ) → has id t.leaving ≡ (has id members && is_full (h.clients id) || has id h.leaving)

abbrev pub AllOpen : Hub → List ℕ → Type 0
AllOpen h members = (id : ℕ) → has id members ≡ true → (h.clients id).is_closed ≡ false

offer-rest :
    (message id : ℕ) (h : Hub)
    → (h.clients id).is_closed ≡ false
    → let t = offer message id h in
      (t.rooms ≡ h.rooms) × (t.made ≡ h.made) × (t.panicked ≡ h.panicked)
unfolding offer
offer-rest message id h open_ = ground arith

abbrev Offers : ℕ → ℕ → Hub → ℕ → Type 0
Offers message id h k =
    let t = offer message id h in
    (t.clients k ≡ (if id == k then offered message (h.clients k) else h.clients k))
    × (has k t.leaving ≡ ((id == k) && is_full (h.clients k) || has k h.leaving))

offer-itself :
    (message id : ℕ) (h : Hub) → (h.clients id).is_closed ≡ false → Offers message id h id
unfolding offer
offer-itself message id h open_ = ground arith

offer-Offers :
    (message id k : ℕ) (h : Hub) → (h.clients id).is_closed ≡ false → Offers message id h k
unfolding offer
offer-Offers message id k h open_ = elim (Bool-cases (id == k)) [
  | inr other ↦ ground arith
  | inl same ↦ subst (Offers message id h) ((==_iff id k).0 same) (offer-itself message id h open_)
]

distinct_head : (x id : ℕ) (xs : List ℕ) → has x xs ≡ false → has id xs ≡ true → (x == id) ≡ false
distinct_head x id xs absent present = elim (Bool-cases (x == id)) [
  | inr other ↦ other
  | inl same ↦
      absurd (let e = (==_iff x id).0 same in let q = subst (λ k. has k xs ≡ false) e absent in cc)
]

-- Among members that are distinct and open, each is offered the message once.
pub offer_all-Fans :
    (message : ℕ) (members : List ℕ) (h : Hub)
    → IsDistinct members
    → AllOpen h members
    → Fans message members h (offer_all message members h)
unfolding offer_all
offer_all-Fans message [] h d o = record {
  rooms = refl;
  made = refl;
  panicked = refl;
  clients = λ id. refl;
  leaving = λ id. refl;
}
offer_all-Fans message (x ∷ xs) h d o =
    let here = o x (ground arith) in
    let t = offer message x h in
    let a = offer-rest message x h here in
    let p = λ (id : ℕ). offer-Offers message x id h here in
    let b =
      offer_all-Fans message xs t d.1
        (λ id m. rw ((p id).0, distinct_head x id xs d.0 m) (o id (ground (arith, m)))) in
    record {
      rooms = b.rooms ∙ a.0;
      made = b.made ∙ a.1;
      panicked = b.panicked ∙ a.2;
      clients = λ id. ground (arith, b.clients id, p id, distinct_head x id xs d.0);
      leaving = λ id. ground (arith, b.leaving id, p id, distinct_head x id xs d.0);
    }
