-- ===== src/StatusPage/Page.antt =====
-- What the public status page says of a project.
use sentinelix_backend.Base.{
  ◌⊎◌, ℕ, suc, ◌≡◌, ◌↔◌, Bool, true, false, Option, none, some, List, [], ◌∷◌, map, all_of, any_of,
}
use sentinelix_backend.Domain.Errors.{Result, ok, err, other}
use sentinelix_backend.Domain.Account.{Project}
use sentinelix_backend.Domain.Monitor.{Monitor, status_down, display_name}
use sentinelix_backend.Domain.Status.{operational, compute_overall_status}
use sentinelix_backend.World.{World}
use sentinelix_backend.StatusPage.{
  MonitorStatusData, StatusMonitorInfo, StatusPageResponse, PageBody, info, raw, listed, page,
  page_error,
}
use sentinelix_backend.StatusPage.Uptime.{IsUptime}

abbrev pub Shows : World → Monitor → StatusMonitorInfo → Type 0
Shows w m i =
    (i.name ≡ display_name m)
    × ((i.is_up ≡ false) ↔ (m.status ≡ status_down))
    × IsUptime w m.id i.uptime_30d

abbrev pub ShowsAll : World → List Monitor → List StatusMonitorInfo → Type 0
ShowsAll w [] [] = Unit {0}
ShowsAll w (m ∷ ms) (i ∷ infos) = Shows w m i × ShowsAll w ms infos
ShowsAll w [] (i ∷ infos) = ⊥
ShowsAll w (m ∷ ms) [] = ⊥

abbrev pub shown_up : StatusMonitorInfo → Bool
shown_up i = i.is_up

abbrev pub nameless : Monitor → Bool
nameless m = elim m.name [ none ↦ true | some name ↦ false ]

-- The answer to a request for the page of a slug.
abbrev pub Answers : World → Option Project → ℕ × PageBody → Type 0
Answers w none answer = answer ≡ (404, page_error "PROJECT_NOT_FOUND")
Answers w (some p) answer =
    (any_of nameless (listed w p.id) ≡ false)
    × ((r : StatusPageResponse) × (answer ≡ (200, page r))
        × (r.project_name ≡ p.name)
        × ((r.overall_status ≡ operational) ↔ (all_of shown_up r.monitors ≡ true))
        × ShowsAll w (listed w p.id) r.monitors)

-- Either every monitor has a name, and its row is shown, or the query fails.
abbrev Scanned : World → List Monitor → Result (List MonitorStatusData) → Type 0
Scanned w ms o =
    ((ds : List MonitorStatusData) × (o ≡ ok ds)
      × ShowsAll w ms (map info ds)
      × (any_of nameless ms ≡ false))
    ⊎ ((o ≡ err other) × (any_of nameless ms ≡ true))

abbrev ScannedOne : World → Monitor → Result MonitorStatusData → Type 0
ScannedOne w m o =
    ((d : MonitorStatusData) × (o ≡ ok d) × Shows w m (info d) × (nameless m ≡ false))
    ⊎ ((o ≡ err other) × (nameless m ≡ true))

page_of : Project → List MonitorStatusData → StatusPageResponse
page_of p ds = record {
  project_name = p.name;
  overall_status = compute_overall_status (map raw ds);
  monitors = map info ds;
}

abbrev pub Nameless : World → Option Project → Type 0
Nameless w none = ⊥
Nameless w (some p) = any_of nameless (listed w p.id) ≡ true

-- A request for the page of a slug fails only if one of its two calls does, or if a monitor has no
-- name, and changes nothing.
abbrev pub Serves : World → Option Project → (ℕ × PageBody) × World → Type 0
Serves w o (answer, v) =
    (Answers w o answer
      ⊎ ((answer ≡ (500, page_error "INTERNAL_ERROR"))
          × ((w.outage w.calls ≡ true) ⊎ ((w.outage (suc w.calls) ≡ true) ⊎ Nameless w o))))
    × (v ≡ record w { calls = v.calls })
