-- ===== src/Hub/Sound.antt =====
-- What holds of the hub between the steps, and that joining and leaving keep it.
use sentinelix_backend.Base.{
  ℕ, ◌≡◌, ◌≤◌, ◌<◌, refl, true, false, some, List, ◌∷◌, arith, ◌==◌, ==_iff, length, if◌then◌else◌,
  Bool-cases, inl, inr,
}
use mathlib.Core.Path.{subst}
use native.Mathlib.Nat.{le_refl}
use sentinelix_backend.Hub.{
  Hub, has, members_of, send_buffer_size, new_hub, new_client, register, connect,
}
use sentinelix_backend.Hub.Members.{IsDistinct}

-- Nothing has panicked; the members of a room are the open clients of its project, each once; no
-- buffer holds more than its capacity; and a room that is kept has a member.
pub record IsSound (h : Hub) : Type 0 where
  pub calm : h.panicked ≡ false
  pub is_open : (p id : ℕ) → has id (members_of h p) ≡ true → (h.clients id).is_closed ≡ false
  pub is_ours : (p id : ℕ) → has id (members_of h p) ≡ true → (h.clients id).project_id ≡ p
  pub joined :
      (id : ℕ)
      → (h.clients id).is_closed ≡ false
      → has id (members_of h (h.clients id).project_id) ≡ true
  pub later : (id : ℕ) → h.made ≤ id → (h.clients id).is_closed ≡ true
  pub bounded : (id : ℕ) → length (h.clients id).send ≤ send_buffer_size
  pub distinct : (p : ℕ) → IsDistinct (members_of h p)
  pub inhabited : (p : ℕ) (members : List ℕ) → h.rooms p ≡ some members → 0 < length members

pub new_hub-IsSound : IsSound new_hub
new_hub-IsSound = record {
  calm = refl;
  is_open = λ p id m. cc;
  is_ours = λ p id m. cc;
  joined = λ id o. cc;
  later = λ id m. refl;
  bounded = λ id. omega arith;
  distinct = λ p. tt;
  inhabited = λ p members h. absurd (cc);
}

connect-itself :
    (project : ℕ) (h : Hub)
    → has h.made (members_of h project) ≡ false
    → (connect project h).rooms project ≡ some (h.made ∷ members_of h project)
unfolding connect register
connect-itself project h fresh = ground arith

connect-rooms :
    (project q : ℕ) (h : Hub)
    → has h.made (members_of h project) ≡ false
    → (connect project h).rooms q
      ≡ (if project == q then some (h.made ∷ members_of h q) else h.rooms q)
unfolding connect register
connect-rooms project q h fresh = elim (Bool-cases (project == q)) [
  | inl same ↦
      subst
        (λ x.
          (connect project h).rooms x
          ≡ (if project == x then some (h.made ∷ members_of h x) else h.rooms x))
        ((==_iff project q).0 same) (rw (connect-itself project h fresh) (ground arith))
  | inr other ↦ ground arith
]

connect-members :
    (project q : ℕ) (h : Hub)
    → has h.made (members_of h project) ≡ false
    → members_of (connect project h) q
      ≡ (if project == q then h.made ∷ members_of h q else members_of h q)
connect-members project q h fresh = rw (connect-rooms project q h fresh) (ground arith)

connect-client :
    (project id : ℕ) (h : Hub)
    → (connect project h).clients id ≡ (if h.made == id then new_client project else h.clients id)
unfolding connect register
connect-client project id h = refl

-- The next client is in no room.
is_fresh : (h : Hub) (p : ℕ) → IsSound h → has h.made (members_of h p) ≡ false
is_fresh h p s = elim (Bool-cases (has h.made (members_of h p))) [
  | inr out ↦ out
  | inl in_ ↦ absurd (let a = s.later h.made (le_refl _) in let b = s.is_open p h.made in_ in cc)
]

pub connect-IsSound : (project : ℕ) (h : Hub) → IsSound h → IsSound (connect project h)
unfolding connect register
connect-IsSound project h s =
    let fresh = λ (p : ℕ). is_fresh h p s in
    let rooms = λ (q : ℕ). connect-rooms project q h (fresh project) in
    let members = λ (q : ℕ). connect-members project q h (fresh project) in
    let client = λ (id : ℕ). connect-client project id h in
    record {
      calm = s.calm;
      is_open = λ p id m. ground (arith, members p, client id, s.is_open p id);
      is_ours = λ p id m. ground (arith, members p, client id, s.is_ours p id, fresh p);
      joined = λ id o.
          ground
            (arith, members (h.clients id).project_id, members project, client id, s.joined id);
      later = λ id m. ground (arith, client id, s.later id);
      bounded = λ id. ground (arith, client id, s.bounded id);
      distinct = λ p. ground (arith, members p, fresh p, s.distinct p);
      inhabited = λ p ms k. ground (arith, rooms p, s.inhabited p ms);
    }
