-- ===== src/World/Issues.antt =====
-- internal/repository/postgres/issue_repo.go and event_repo.go.
use sentinelix_backend.Base.{
  ℕ, zero, suc, ◌+◌, ◌-◌, ◌*◌, String, Bool, true, false, ◌&&◌, ◌||◌, Option, none, some, List, [],
  ◌∷◌, ◌==◌, str_eq, first, select, take, length, update_where, if◌then◌else◌, order_desc,
}
use sentinelix_backend.Base.Int.{ℤ, pos, negsuc, ltb_ℤ}
use sentinelix_backend.Domain.Errors.{ok, issue_not_found}
use sentinelix_backend.Domain.Event.{Event, Issue}
use sentinelix_backend.World.{micros, Act, query, insert, trip, ◌>>◌}
use sentinelix_backend.World.Projects.{or_fail}

abbrev pub same_group : ℕ → String → Issue → Bool
same_group project fp i = i.project_id == project && str_eq i.fingerprint fp

-- ON CONFLICT (project_id, fingerprint) DO UPDATE
unfoldable pub bump : ℕ → Issue → Issue
bump occurred_at i = record i { count = i.count + 1; last_seen = occurred_at }

abbrev pub new_issue : ℕ → ℕ → String → String → String → ℕ → Issue
new_issue id project fp title level occurred_at = record {
  id = id;
  project_id = project;
  fingerprint = fp;
  title = title;
  level = level;
  status = "unresolved";
  first_seen = occurred_at;
  last_seen = occurred_at;
  count = 1;
}

unfoldable pub upsert_row : ℕ → String → String → String → ℕ → Option Issue → Act (Issue × Bool)
unfolding bump
upsert_row project fp title level occurred_at (some i) w = (
  ok (bump occurred_at i, false),
  record w { issues = update_where (same_group project fp) (bump occurred_at) w.issues },
)
upsert_row project fp title level occurred_at none w =
    let i = new_issue w.serial project fp title level occurred_at in
    (ok (i, true), record w { serial = suc w.serial; issues = i ∷ w.issues })

-- Upsert: the issue as it is after the statement, and whether it was inserted.
unfoldable pub upsert : ℕ → String → String → String → ℕ → Act (Issue × Bool)
unfolding upsert_row trip
upsert project fp title level occurred_at = trip >> λ w.
    upsert_row project fp title level (micros occurred_at) (first (same_group project fp) w.issues)
      w

unfoldable pub get_by_id : ℕ → Act Issue
unfolding trip
get_by_id id = query λ w. or_fail (first (λ (i : Issue). i.id == id) w.issues) issue_not_found

abbrev pub drop {ℓ} : {A : Type ℓ} → ℕ → List A → List A
drop zero xs = xs
drop (suc n) [] = []
drop (suc n) (x ∷ xs) = drop n xs

-- The rows of one page, and COUNT(*) OVER(), which a page with no row leaves at 0.
abbrev pub page_total : List Issue → ℕ → ℕ
page_total [] n = 0
page_total (i ∷ rest) n = n

-- List, with `$2 = '' OR status = $2`. The page and the limit are at least 1.
unfoldable pub list : ℕ → String → ℕ → ℕ → Act (List Issue × ℕ)
unfolding trip
list project status page limit = query λ w.
    let rows =
      select
        (λ (i : Issue). i.project_id == project && (str_eq status "" || str_eq i.status status))
        w.issues in
    let shown =
      take limit (drop ((page - 1) * limit) (order_desc (λ (i : Issue). i.last_seen) rows)) in
    ok (shown, page_total shown (length rows))

-- The columns of the table of events, as ListByIssueID reads them back: the level and the message are
-- none, and the struct then holds the empty text.
abbrev pub event_row : ℕ → Event → Event
event_row id e = record {
  id = some id;
  issue_id = e.issue_id;
  project_id = e.project_id;
  level = "";
  message = "";
  stack_trace = e.stack_trace;
  context = e.context;
  occurred_at = micros e.occurred_at;
}

-- EventRepository.Insert. The context of an event comes from JSON, and so marshals.
unfoldable pub insert_event : Event → Act ℕ
unfolding trip
insert_event e = insert λ id w. record w { events = event_row id e ∷ w.events }

abbrev pub of_issue : ℕ → Event → Bool
of_issue id e = elim e.issue_id [ none ↦ false | some i ↦ i == id ]

unfoldable pub list_by_issue_id : ℕ → ℕ → Act (List Event)
unfolding trip
list_by_issue_id id limit =
    query λ w.
      ok (take limit (order_desc (λ (e : Event). e.occurred_at) (select (of_issue id) w.events)))

abbrev pub in_window : ℕ → ℤ → Event → Bool
in_window project since e = e.project_id == project && ltb_ℤ since (pos e.occurred_at)

-- GROUP BY issue_id: one more event of an issue.
abbrev pub add_to : Option ℕ → List (ℕ × ℕ) → List (ℕ × ℕ)
add_to none groups = groups
add_to (some i) [] = (i, 1) ∷ []
add_to (some i) ((j, n) ∷ groups) =
    let rest = add_to (some i) groups in if i == j then (j, suc n) ∷ groups else (j, n) ∷ rest

abbrev pub group : List Event → List (ℕ × ℕ)
group [] = []
group (e ∷ rest) = add_to e.issue_id (group rest)

-- The parameter of the query, which the driver cuts downwards.
abbrev pub micros_ℤ : ℤ → ℤ
micros_ℤ (pos t) = pos (micros t)
micros_ℤ (negsuc t) = negsuc (micros t + 999)

unfoldable pub count_grouped_by_issue_since : ℕ → ℤ → Act (List (ℕ × ℕ))
unfolding trip
count_grouped_by_issue_since project since =
    query λ w. ok (group (select (in_window project (micros_ℤ since)) w.events))
