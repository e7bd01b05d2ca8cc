-- ===== src/Supervisor/Tracking.antt =====
-- The supervisor follows the table of monitors: from the start of the worker, over the edits of the
-- dashboard, each with the messages that it published.
use sentinelix_backend.Base.{
  ℕ, ◌-◌, ◌≡◌, refl, ap, ◌∙◌, String, true, false, Option, none, some, List, [], ◌∷◌, ◌==◌, length,
  take, map, ◌⊎◌, inl, inr, arith, Bool-cases,
}
use sentinelix_backend.Domain.Monitor.{Monitor}
use sentinelix_backend.World.{World, Message, alert, monitor_down, broadcast, IsHealthy}
use sentinelix_backend.World.Monitors.{set_columns}
use sentinelix_backend.World.Monitors
use sentinelix_backend.Supervisor.{
  Goroutine, Supervisor, Incoming, envelope, spawn, sync, remove, handle_message,
}
use sentinelix_backend.Supervisor.Table.{checkers}
use sentinelix_backend.Supervisor.Agreement.{
  IsSound, spawn-IsSound, remove-IsSound, checkers-spawn, checkers-remove,
}
use sentinelix_backend.Supervisor.Edits.{Edit, apply_edit, stored_monitor, first-id}

-- A monitor without its status, which the checks change.
abbrev pub config : Monitor → Monitor
config m = record m { status = "" }

abbrev pub checked_config : Goroutine → Monitor
checked_config g = config g.monitor

-- The one checker of a stored monitor, none of a monitor that is not stored.
abbrev pub wanted : Option Monitor → List Monitor
wanted none = []
wanted (some m) = config m ∷ []

-- The running checkers of a monitor check it as it is stored.
abbrev pub Tracks : ℕ → Supervisor → World → Type 0
Tracks i s w = map checked_config (checkers i s.goroutines) ≡ wanted (stored_monitor i w)

-- What is on the channel, newest first.
abbrev pub channel : List Message → List Incoming
channel [] = []
channel (alert rule issue target ∷ rest) = channel rest
channel (monitor_down id target ∷ rest) = channel rest
channel (broadcast room kind id ∷ rest) = envelope kind id ∷ channel rest

-- What was published between two worlds.
abbrev pub published : World → World → List Incoming
published w v = channel (take (length v.sent - length w.sent) v.sent)

abbrev pub deliver : List Incoming → Supervisor → World → Supervisor × World
deliver [] s w = (s, w)
deliver (m ∷ older) s w = handle_message m (deliver older s w).0 (deliver older s w).1

abbrev pub run_edits :
    (String → Option String) → List Edit → Supervisor → World → Supervisor × World
run_edits scheme [] s w = (s, w)
run_edits scheme (e ∷ rest) s w =
    let v = apply_edit scheme e w in
    let d = deliver (published w v) s v in run_edits scheme rest d.0 d.1

pub record Followed (s : Supervisor) (w : World) : Type 0 where
  pub sound : IsSound s
  pub healthy : IsHealthy w
  pub tracks : (i : ℕ) → Tracks i s w

pub take-none {ℓ} : {A : Type ℓ} (xs : List A) → take (length xs - length xs) xs ≡ []
take-none xs = let none_new : length xs - length xs ≡ 0 = omega arith in rw none_new refl

published-one :
    (w v : World) (room : Option ℕ) (kind : String) (id : ℕ)
    → v.sent ≡ broadcast room kind id ∷ w.sent
    → published w v ≡ envelope kind id ∷ []
published-one w v room kind id e =
    let one_new : length (broadcast room kind id ∷ w.sent) - length w.sent ≡ 1 = omega arith in
    rw (e, one_new) refl

pub published-none : (w v : World) → v.sent ≡ w.sent → published w v ≡ []
published-none w v e = rw e (ap channel (take-none w.sent))

spawn-Tracks :
    (i id : ℕ) (m : Monitor) (s : Supervisor) (w : World)
    → stored_monitor id w ≡ some m
    → m.id ≡ id
    → IsSound s
    → ((j : ℕ) → (j == id) ≡ false → Tracks j s w)
    → Tracks i (spawn m s) w
spawn-Tracks i id m s w found same sound others = elim (Bool-cases (i == id)) [
  | inl this ↦
      let here : i ≡ id = ground arith in
      let mine : (i == m.id) ≡ true = ground (arith, same, here) in
      let asked : stored_monitor i w ≡ some m = ap (λ j. stored_monitor j w) here ∙ found in
      rw (checkers-spawn i m s sound, mine, asked) refl
  | inr other ↦
      let apart : (i == m.id) ≡ false = ground (arith, same) in
      rw (checkers-spawn i m s sound, apart) (others i other)
]

-- A message about a stored monitor: it gets its checker, and the others keep theirs.
sync-Followed :
    (id : ℕ) (m : Monitor) (s : Supervisor) (w : World)
    → stored_monitor id w ≡ some m
    → m.id ≡ id
    → IsSound s
    → IsHealthy w
    → ((i : ℕ) → (i == id) ≡ false → Tracks i s w)
    → Followed (sync id s w).0 (sync id s w).1
unfolding sync Monitors.get_by_id
sync-Followed id m s w found same sound h others =
    rw (h.up w.calls, found)
      (record {
        sound = spawn-IsSound m s sound;
        healthy = record { up = h.up; accepted = h.accepted };
        tracks = λ i. spawn-Tracks i id m s w found same sound others;
      })

remove-Followed :
    (id : ℕ) (s : Supervisor) (w : World)
    → stored_monitor id w ≡ none
    → IsSound s
    → IsHealthy w
    → ((i : ℕ) → (i == id) ≡ false → Tracks i s w)
    → Followed (remove id s) w
remove-Followed id s w gone sound h others = record {
  sound = remove-IsSound id s sound;
  healthy = h;
  tracks = λ i. elim (Bool-cases (i == id)) [
    | inl this ↦
        let here : i ≡ id = ground arith in
        let asked : stored_monitor i w ≡ none = ap (λ j. stored_monitor j w) here ∙ gone in
        rw (checkers-remove i id s sound, this, asked) refl
    | inr other ↦ rw (checkers-remove i id s sound, other) (others i other)
  ];
}

-- The table changes at most at one monitor, and a message about it is delivered.
module _ (s : Supervisor) (w v : World) (id : ℕ) (before : Followed s w) (healthy : IsHealthy v)
    (others : (i : ℕ) → (i == id) ≡ false → stored_monitor i v ≡ stored_monitor i w) where
  Tracks-others : (i : ℕ) → (i == id) ≡ false → Tracks i s v
  Tracks-others i h = rw (others i h) (before.tracks i)

  pub stored-Followed :
      (room : Option ℕ) (m : Monitor)
      → stored_monitor id v ≡ some m
      → (kind : String) → (kind ≡ "monitor.created") ⊎ (kind ≡ "monitor.updated")
      → v.sent ≡ broadcast room kind id ∷ w.sent
      → Followed (deliver (published w v) s v).0 (deliver (published w v) s v).1
  unfolding handle_message
  stored-Followed room m found kind which e =
      let same = first-id id m v.monitors found in
      let followed = sync-Followed id m s v found same before.sound healthy Tracks-others in
      rw (published-one w v room kind id e)
        elim which [ inl created ↦ rw created followed | inr updated ↦ rw updated followed ]

  pub deleted-Followed :
      (room : Option ℕ)
      → stored_monitor id v ≡ none
      → v.sent ≡ broadcast room "monitor.deleted" id ∷ w.sent
      → Followed (deliver (published w v) s v).0 (deliver (published w v) s v).1
  unfolding handle_message
  deleted-Followed room gone e =
      rw (published-one w v room "monitor.deleted" id e)
        (remove-Followed id s v gone before.sound healthy Tracks-others)
