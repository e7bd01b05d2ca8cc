-- ===== src/Hub/Fanout.antt =====
-- A broadcast, from a hub that is as it should be.
use sentinelix_backend.Base.{ℕ, ◌≡◌, ◌≤◌, refl, ◌∙◌, List, arith, length, Option-cases, inl, inr}
use sentinelix_backend.Hub.{Client, Hub, members_of, offer_all, broadcast_to_project}
use sentinelix_backend.Hub.Members.{Fans, offered, offered-length, offer_all-Fans}
use sentinelix_backend.Hub.Sound.{IsSound}

broadcast_offers :
    (project message : ℕ) (h : Hub)
    → broadcast_to_project project message h ≡ offer_all message (members_of h project) h
unfolding broadcast_to_project offer_all
broadcast_offers project message h = elim (Option-cases (h.rooms project)) [
  | inl missing ↦ rw missing refl
  | inr found ↦ rw found.1 refl
]

-- Each member of the room is offered the message once.
pub broadcast-Fans :
    (project message : ℕ) (h : Hub)
    → IsSound h
    → Fans message (members_of h project) h (broadcast_to_project project message h)
broadcast-Fans project message h s =
    rw (broadcast_offers project message h)
      (offer_all-Fans message (members_of h project) h (s.distinct project) (s.is_open project))

offered_rest :
    (message : ℕ) (c : Client)
    → ((offered message c).project_id ≡ c.project_id)
      × ((offered message c).is_closed ≡ c.is_closed)
offered_rest message c = ground arith

Fans-client :
    (message : ℕ) (members : List ℕ) (h t : Hub) (id : ℕ)
    → Fans message members h t
    → ((t.clients id).project_id ≡ (h.clients id).project_id)
      × ((t.clients id).is_closed ≡ (h.clients id).is_closed)
      × (length (h.clients id).send ≤ 16 → length (t.clients id).send ≤ 16)
Fans-client message members h t id f =
    rw (f.clients id)
      (ground (arith, offered_rest message (h.clients id), offered-length message (h.clients id)))

-- What a broadcast changes leaves the hub as it should be.
Fans-IsSound :
    (message : ℕ) (members : List ℕ) (h t : Hub) → Fans message members h t → IsSound h → IsSound t
Fans-IsSound message members h t f s =
    let c = λ (id : ℕ). Fans-client message members h t id f in
    record {
      calm = f.panicked ∙ s.calm;
      is_open = λ p id m. ground (arith, f.rooms, c id, s.is_open p id);
      is_ours = λ p id m. ground (arith, f.rooms, c id, s.is_ours p id);
      joined = λ id o. rw (f.rooms, (c id).0) (s.joined id (ground (arith, c id)));
      later = λ id m. ground (arith, f.made, c id, s.later id);
      bounded = λ id. (c id).2 (s.bounded id);
      distinct = λ p. rw f.rooms (s.distinct p);
      inhabited = λ p ms k. ground (arith, f.rooms, s.inhabited p ms);
    }

pub broadcast-IsSound :
    (project message : ℕ) (h : Hub) → IsSound h → IsSound (broadcast_to_project project message h)
broadcast-IsSound project message h s =
    Fans-IsSound message (members_of h project) h _ (broadcast-Fans project message h s) s
