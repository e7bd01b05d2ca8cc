-- ===== src/Supervisor/Shutdown.antt =====
-- The end of the supervisor's Run: no goroutine that it ever started is left running.
use sentinelix_backend.Base.{
  ℕ, refl, sym, ◌≡◌, str_eq, true, false, some, List, [], ◌∷◌, length, All, all_of, arith,
  Bool-cases, inl, inr,
}
use sentinelix_backend.Domain.Errors.{Result, ok, err}
use sentinelix_backend.Domain.Monitor.{Monitor}
use sentinelix_backend.World.{World}
use sentinelix_backend.World.Monitors.{get_by_id, list_all}
use sentinelix_backend.Supervisor.{
  Goroutine, Supervisor, Cancels, Incoming, garbage, no_id, envelope, find_cancel, has_number,
  stopped, monitor_sync_created, monitor_sync_updated, monitor_sync_deleted, cancel, cancel_all,
  spawn, spawn_all, spawn_found, sync, started, start, new_supervisor, shut_down, handle_message,
}
use sentinelix_backend.Supervisor.Table.{Accounted}
use sentinelix_backend.Supervisor.Agreement.{IsSound, spawn-IsSound, remove-IsSound}

-- The messages that RunMonitorSync hears, each in the world as it is then.
abbrev pub heard : List (Incoming × World) → Supervisor → Supervisor
heard [] s = s
heard ((m, w) ∷ rest) s = heard rest (handle_message m s w).0

spawn_found-IsSound : (r : Result Monitor) (s : Supervisor) → IsSound s → IsSound (spawn_found r s)
unfolding spawn_found
spawn_found-IsSound (ok m) s h = spawn-IsSound m s h
spawn_found-IsSound (err e) s h = h

handle_message-IsSound :
    (m : Incoming) (s : Supervisor) (w : World) → IsSound s → IsSound (handle_message m s w).0
unfolding handle_message sync
handle_message-IsSound garbage s w h = h
handle_message-IsSound (no_id kind) s w h = h
handle_message-IsSound (envelope kind id) s w h =
    let synced = spawn_found-IsSound (get_by_id id w).0 s h in
    let removed = remove-IsSound id s h in
    elim (Bool-cases (str_eq kind monitor_sync_created)) [
      | inl created ↦ rw created synced
      | inr c ↦ elim (Bool-cases (str_eq kind monitor_sync_updated)) [
        | inl updated ↦ rw (c, updated) synced
        | inr u ↦ elim (Bool-cases (str_eq kind monitor_sync_deleted)) [
          | inl deleted ↦ rw (c, u, deleted) removed
          | inr other ↦ rw (c, u, other) h
        ]
      ]
    ]

heard-IsSound : (ms : List (Incoming × World)) (s : Supervisor) → IsSound s → IsSound (heard ms s)
heard-IsSound [] s h = h
heard-IsSound ((m, w) ∷ rest) s h =
    heard-IsSound rest (handle_message m s w).0 (handle_message-IsSound m s w h)

spawn_all-IsSound : (ms : List Monitor) (s : Supervisor) → IsSound s → IsSound (spawn_all ms s)
unfolding spawn_all
spawn_all-IsSound [] s h = h
spawn_all-IsSound (m ∷ ms) s h = spawn_all-IsSound ms (spawn m s) (spawn-IsSound m s h)

started-IsSound :
    (r : Result (List Monitor)) (s : Supervisor) → started r new_supervisor ≡ ok s → IsSound s
unfolding started new_supervisor
started-IsSound (err e) s h = absurd (cc)
started-IsSound (ok ms) s h =
    let same : spawn_all ms new_supervisor ≡ s = cc in
    rw (sym same) (spawn_all-IsSound ms new_supervisor ((λ i k e. absurd (cc)), tt))

-- A goroutine that is stopped, or whose cancel function is still to be called.
abbrev Doomed : Cancels → Goroutine → Type 0
Doomed cs g = g.cancelled ≡ false → find_cancel g.monitor.id cs ≡ some g.number

cancel-Doomed :
    (id n : ℕ) (cs : Cancels) (gs : List Goroutine)
    → All (Doomed ((id, n) ∷ cs)) gs
    → All (Doomed cs) (cancel (some n) gs)
cancel-Doomed id n cs [] a = tt
cancel-Doomed id n cs (g ∷ gs) a = (
  elim (Bool-cases (has_number n g)) [
    | inl hit ↦ rw hit (λ running. absurd (cc))
    | inr miss ↦ rw miss (λ running. ground (arith, a.0 running))
  ],
  cancel-Doomed id n cs gs a.1,
)

Doomed-cancelled :
    (gs : List Goroutine) → All (Doomed []) gs → all_of (λ (g : Goroutine). g.cancelled) gs ≡ true
Doomed-cancelled [] a = refl
Doomed-cancelled (g ∷ gs) a = elim (Bool-cases g.cancelled) [
  | inl stopped ↦ rw stopped (Doomed-cancelled gs a.1)
  | inr running ↦ absurd (ground (arith, a.0 running))
]

cancel_all-cancelled :
    (cs : Cancels) (gs : List Goroutine)
    → All (Doomed cs) gs
    → all_of (λ (g : Goroutine). g.cancelled) (cancel_all cs gs) ≡ true
cancel_all-cancelled [] gs a = Doomed-cancelled gs a
cancel_all-cancelled ((id, n) ∷ cs) gs a =
    cancel_all-cancelled cs (cancel (some n) gs) (cancel-Doomed id n cs gs a)

Accounted-Doomed :
    (cs : Cancels) (n : ℕ) (gs : List Goroutine) → All (Accounted cs n) gs → All (Doomed cs) gs
Accounted-Doomed cs n [] a = tt
Accounted-Doomed cs n (g ∷ gs) a = (a.0.1, Accounted-Doomed cs n gs a.1)

-- The supervisor that Run starts, whatever messages it has heard by the end of its context, each in
-- any world and well-formed or not, stops every goroutine that it has started: those that its
-- map still holds, and the ones that a later message replaced or removed.
pub shut_down-stops :
    (w : World) (s : Supervisor) (ms : List (Incoming × World))
    → (start new_supervisor w).0 ≡ ok s
    → all_of (λ (g : Goroutine). g.cancelled) (shut_down (heard ms s)).goroutines ≡ true
unfolding start new_supervisor shut_down
shut_down-stops w s ms begun =
    let sound = started-IsSound (list_all w).0 s begun in
    let last = heard ms s in
    cancel_all-cancelled last.cancels last.goroutines (
      Accounted-Doomed last.cancels (length last.goroutines) last.goroutines
        (heard-IsSound ms s sound).1)
