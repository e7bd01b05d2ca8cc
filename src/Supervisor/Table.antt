-- ===== src/Supervisor/Table.antt =====
-- The supervisor's map of cancel functions, and what cancelling does to the goroutines.
use sentinelix_backend.Base.{
  ℕ, refl, ap, ◌<◌, ◌≡◌, Bool, false, not, ◌&&◌, Option, none, some, List, [], ◌∷◌, ◌==◌, length,
  select, All, if◌then◌else◌, arith, Bool-cases, Option-cases, inl, inr,
}
use sentinelix_backend.Supervisor.{
  Goroutine, Cancels, find_cancel, delete_cancel, set_cancel, has_number, cancel,
}

pub find-delete :
    (i id : ℕ) (cs : Cancels)
    → find_cancel i (delete_cancel id cs) ≡ (if i == id then none else find_cancel i cs)
find-delete i id [] = ground arith
find-delete i id ((k, n) ∷ cs) = ground (arith, find-delete i id cs)

pub find-set :
    (i id n : ℕ) (cs : Cancels)
    → find_cancel i (set_cancel id n cs) ≡ (if i == id then some n else find_cancel i cs)
find-set i id n cs = ground (arith, find-delete i id cs)

-- The goroutines that check a monitor.
abbrev pub checks_monitor : ℕ → Goroutine → Bool
checks_monitor id g = not g.cancelled && g.monitor.id == id

abbrev pub checkers : ℕ → List Goroutine → List Goroutine
checkers id gs = select (checks_monitor id) gs

-- A running goroutine is the one that its monitor's cancel function cancels, and a cancel function
-- cancels a goroutine of its own monitor.
abbrev pub Accounted : Cancels → ℕ → Goroutine → Type 0
Accounted cs n g =
    (g.number < n)
    × (g.cancelled ≡ false → find_cancel g.monitor.id cs ≡ some g.number)
    × ((i : ℕ) → find_cancel i cs ≡ some g.number → g.monitor.id ≡ i)

abbrev pub Sound : Cancels → ℕ → List Goroutine → Type 0
Sound cs n gs = ((i k : ℕ) → find_cancel i cs ≡ some k → k < n) × All (Accounted cs n) gs

pub length-cancel : (o : Option ℕ) (gs : List Goroutine) → length (cancel o gs) ≡ length gs
length-cancel none gs = refl
length-cancel (some n) [] = refl
length-cancel (some n) (g ∷ gs) = ground (arith, length-cancel (some n) gs)

-- After the cancel function of a monitor was called, nothing checks it, and the others are as before.
checkers-none :
    (id n : ℕ) (cs : Cancels) (gs : List Goroutine)
    → find_cancel id cs ≡ none
    → All (Accounted cs n) gs
    → checkers id gs ≡ []
checkers-none id n cs [] e a = refl
checkers-none id n cs (g ∷ gs) e a =
    let rest = checkers-none id n cs gs e a.1 in
    elim (Bool-cases (checks_monitor id g)) [
      | inr idle ↦ rw idle rest
      | inl busy ↦
          let same : g.monitor.id ≡ id = ground arith in
          let running : g.cancelled ≡ false = ground arith in
          absurd (cc (a.0.1 running, ap (λ k. find_cancel k cs) same))
    ]

checkers-stopped :
    (id k n : ℕ) (cs : Cancels) (gs : List Goroutine)
    → find_cancel id cs ≡ some k
    → All (Accounted cs n) gs
    → checkers id (cancel (some k) gs) ≡ []
checkers-stopped id k n cs [] e a = refl
checkers-stopped id k n cs (g ∷ gs) e a =
    let rest = checkers-stopped id k n cs gs e a.1 in
    elim (Bool-cases (has_number k g)) [
      | inl hit ↦ rw hit rest
      | inr miss ↦ elim (Bool-cases (checks_monitor id g)) [
        | inr idle ↦ rw (miss, idle) rest
        | inl busy ↦
            let same : g.monitor.id ≡ id = ground arith in
            let running : g.cancelled ≡ false = ground arith in
            let owner : some g.number ≡ some k =
              cc (a.0.1 running, ap (λ j. find_cancel j cs) same) in
            absurd (ground (arith, owner))
      ]
    ]

pub checkers-cancel_self :
    (id n : ℕ) (cs : Cancels) (gs : List Goroutine)
    → All (Accounted cs n) gs
    → checkers id (cancel (find_cancel id cs) gs) ≡ []
checkers-cancel_self id n cs gs a = elim (Option-cases (find_cancel id cs)) [
  | inl e ↦ rw e (checkers-none id n cs gs e a)
  | inr (k, e) ↦ rw e (checkers-stopped id k n cs gs e a)
]

checkers-others :
    (i id k n : ℕ) (cs : Cancels) (gs : List Goroutine)
    → find_cancel id cs ≡ some k
    → All (Accounted cs n) gs
    → (i == id) ≡ false
    → checkers i (cancel (some k) gs) ≡ checkers i gs
checkers-others i id k n cs [] e a h = refl
checkers-others i id k n cs (g ∷ gs) e a h =
    let rest = checkers-others i id k n cs gs e a.1 h in
    elim (Bool-cases (has_number k g)) [
      | inr miss ↦ rw miss (rw rest)
      | inl hit ↦
          let owner : g.monitor.id ≡ id = a.0.2 id (ground (arith, e)) in
          rw hit (ground (arith, owner, rest))
    ]

pub checkers-cancel_other :
    (i id n : ℕ) (cs : Cancels) (gs : List Goroutine)
    → All (Accounted cs n) gs
    → (i == id) ≡ false
    → checkers i (cancel (find_cancel id cs) gs) ≡ checkers i gs
checkers-cancel_other i id n cs gs a h = elim (Option-cases (find_cancel id cs)) [
  | inl e ↦ rw e refl
  | inr (k, e) ↦ rw e (checkers-others i id k n cs gs e a h)
]
