-- ===== src/Supervisor/Agreement.antt =====
-- The supervisor's map and its goroutines agree, after every call.
use sentinelix_backend.Base.{
  ℕ, suc, refl, ap, sym, ◌∙◌, ◌≤◌, ◌≡◌, Bool, true, false, Option, none, some, List, [], ◌∷◌, ◌==◌,
  length, All, if◌then◌else◌, arith, Bool-cases, inl, inr,
}
use sentinelix_backend.Domain.Monitor.{Monitor}
use sentinelix_backend.Supervisor.{
  Goroutine, Supervisor, Cancels, find_cancel, delete_cancel, set_cancel, has_number, stopped,
  cancel, spawn, remove,
}
use sentinelix_backend.Supervisor.Table.{
  find-delete, find-set, length-cancel, checkers, Accounted, Sound, checkers-cancel_self,
  checkers-cancel_other,
}

-- The map changes at one monitor, whose goroutine is cancelled; a new cancel function is of a new
-- goroutine.
module _ (id n : ℕ) (cs : Cancels) (n' : ℕ) (cs' : Cancels) (more : n ≤ n')
    (others : (i : ℕ) → (i == id) ≡ false → find_cancel i cs' ≡ find_cancel i cs)
    (fresh : (k : ℕ) → find_cancel id cs' ≡ some k → n ≤ k) where
  -- A goroutine that is not a running one of the monitor.
  Accounted-kept :
      (g : Goroutine)
      → Accounted cs n g
      → (g.cancelled ≡ false → (g.monitor.id == id) ≡ false)
      → Accounted cs' n' g
  Accounted-kept g a apart = (
    omega (arith, a.0),
    λ running. others g.monitor.id (apart running) ∙ a.1 running,
    λ i e. elim (Bool-cases (i == id)) [
      | inr other ↦ a.2 i (sym (others i other) ∙ e)
      | inl this ↦
          let same : i ≡ id = ground arith in
          absurd (omega (arith, a.0, fresh g.number (ap (λ j. find_cancel j cs') (sym same) ∙ e)))
    ],
  )

  cancel-Accounted :
      (o : Option ℕ) (gs : List Goroutine)
      → find_cancel id cs ≡ o
      → All (Accounted cs n) gs
      → All (Accounted cs' n') (cancel o gs)
  cancel-Accounted none [] e a = tt
  cancel-Accounted (some k) [] e a = tt
  cancel-Accounted none (g ∷ gs) e a = (
    Accounted-kept g a.0 (λ running. apart running (g.monitor.id == id) refl),
    cancel-Accounted none gs e a.1,
  )
    where
      apart :
          g.cancelled ≡ false → (b : Bool) → (g.monitor.id == id) ≡ b → (g.monitor.id == id) ≡ false
      apart running false q = q
      apart running true q =
          let same : g.monitor.id ≡ id = ground arith in
          absurd (cc (a.0.1 running, ap (λ j. find_cancel j cs) same))
  cancel-Accounted (some k) (g ∷ gs) e a =
      (kept (has_number k g) refl, cancel-Accounted (some k) gs e a.1)
    where
      apart :
          (g.number == k) ≡ false
          → g.cancelled ≡ false
          → (b : Bool) → (g.monitor.id == id) ≡ b
          → (g.monitor.id == id) ≡ false
      apart miss running false q = q
      apart miss running true q =
          let same : g.monitor.id ≡ id = ground arith in
          let owner : some g.number ≡ some k =
            cc (a.0.1 running, ap (λ j. find_cancel j cs) same) in
          absurd (ground (arith, owner))

      kept :
          (b : Bool)
          → has_number k g ≡ b
          → Accounted cs' n' (if has_number k g then stopped g else g)
      kept true h =
          rw h (Accounted-kept (stopped g) (a.0.0, (λ r. absurd (cc)), a.0.2) (λ r. absurd (cc)))
      kept false h =
          rw h (Accounted-kept g a.0 (λ running. apart h running (g.monitor.id == id) refl))

-- The invariant of the supervisor.
abbrev pub IsSound : Supervisor → Type 0
IsSound s = Sound s.cancels (length s.goroutines) s.goroutines

pub spawn-IsSound : (m : Monitor) (s : Supervisor) → IsSound s → IsSound (spawn m s)
unfolding spawn
spawn-IsSound m s h =
    let n = length s.goroutines in
    let o = find_cancel m.id s.cancels in
    let len = length-cancel o s.goroutines in
    let set = λ (i : ℕ). find-set i m.id n s.cancels in
    let old =
      cancel-Accounted m.id n s.cancels (suc (length (cancel o s.goroutines)))
        (set_cancel m.id n s.cancels) (omega (arith, len)) (λ i e. set i ∙ rw e refl)
        (λ k e. ground (arith, e, set m.id)) o s.goroutines refl h.1 in
    (
      λ i k e. ground (arith, e, set i, h.0 i k, len),
      (
        (
          omega (arith, len),
          (λ r. ground (arith, set m.id)),
          λ i e. ground (arith, e, set i, h.0 i n),
        ),
        old,
      ),
    )

pub remove-IsSound : (id : ℕ) (s : Supervisor) → IsSound s → IsSound (remove id s)
unfolding remove
remove-IsSound id s h =
    let n = length s.goroutines in
    let o = find_cancel id s.cancels in
    let len = length-cancel o s.goroutines in
    let gone = λ (i : ℕ). find-delete i id s.cancels in
    (
      λ i k e. ground (arith, e, gone i, h.0 i k, len),
      cancel-Accounted id n s.cancels (length (cancel o s.goroutines)) (delete_cancel id s.cancels)
          (omega (arith, len)) (λ i e. gone i ∙ rw e refl) (λ k e. ground (arith, e, gone id)) o
          s.goroutines refl h.1,
    )

-- The checkers after a call, for the monitor that it is about and for the others.
pub checkers-spawn :
    (i : ℕ) (m : Monitor) (s : Supervisor)
    → IsSound s
    → checkers i (spawn m s).goroutines ≡ (
        if i == m.id
        then record { number = length s.goroutines; monitor = m; cancelled = false } ∷ []
        else checkers i s.goroutines)
unfolding spawn
checkers-spawn i m s h = elim (Bool-cases (i == m.id)) [
  | inl this ↦
      let same : i ≡ m.id = ground arith in
      let none_left = checkers-cancel_self m.id (length s.goroutines) s.cancels s.goroutines h.1 in
      let gone : checkers i (cancel (find_cancel m.id s.cancels) s.goroutines) ≡ [] =
        rw same none_left in
      ground (arith, gone, same)
  | inr other ↦
      let kept =
        checkers-cancel_other i m.id (length s.goroutines) s.cancels s.goroutines h.1 other in
      ground (arith, kept, other)
]

pub checkers-remove :
    (i id : ℕ) (s : Supervisor)
    → IsSound s
    → checkers i (remove id s).goroutines ≡ (if i == id then [] else checkers i s.goroutines)
unfolding remove
checkers-remove i id s h = elim (Bool-cases (i == id)) [
  | inl this ↦
      let same : i ≡ id = ground arith in
      rw (this, same) (checkers-cancel_self id (length s.goroutines) s.cancels s.goroutines h.1)
  | inr other ↦
      rw other (checkers-cancel_other i id (length s.goroutines) s.cancels s.goroutines h.1 other)
]
