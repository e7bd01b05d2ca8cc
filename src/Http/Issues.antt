-- ===== src/Http/Issues.antt =====
-- internal/delivery/http/handler_issue.go. A time in an answer is not formatted.
use sentinelix_backend.Base.{ℕ, String, ◌||◌, Option, none, some, map, if◌then◌else◌}
use sentinelix_backend.Base.Int.{ℤ, pos, ltb_ℤ, to_nat}
use sentinelix_backend.Domain.Errors.{Error, issue_not_found, project_not_found, forbidden}
use sentinelix_backend.Domain.Event.{Event, Issue}
use sentinelix_backend.Dashboard.Issues
use sentinelix_backend.Http.{
  Library, Response, Handler, IssueResponse, IssueDetailResponse, EventResponse, write_json,
  write_error, authenticated, answer, issue_list, issue_detail, event_list,
}

-- An absent or unreadable page, and one below 1, is the first.
unfoldable pub page_number : Option ℤ → ℕ
page_number none = 1
page_number (some page) = if ltb_ℤ page (pos 1) then 1 else to_nat page

unfoldable pub page_limit : Option ℤ → ℕ
page_limit none = 20
page_limit (some limit) = if ltb_ℤ limit (pos 1) || ltb_ℤ (pos 100) limit then 20 else to_nat limit

abbrev pub to_issue_response : Issue → IssueResponse
to_issue_response i = record {
  id = i.id;
  title = i.title;
  level = i.level;
  status = i.status;
  count = i.count;
  last_seen = i.last_seen;
}

abbrev pub list_error : Error → Response
list_error project_not_found = write_error 404 "PROJECT_NOT_FOUND"
list_error forbidden = write_error 403 "FORBIDDEN"
list_error _ = write_error 500 "INTERNAL_ERROR"

module _ (lib : Library) where
  unfoldable pub list : Option ℕ → ℕ → String → String → String → Handler
  unfolding page_number page_limit
  list user project status page limit = authenticated user λ id.
      let shown = page_number (lib.atoi page) in
      answer list_error
        (λ found. write_json 200 (issue_list (map to_issue_response found.0) shown found.1))
        (Issues.list id project status shown (page_limit (lib.atoi limit)))

abbrev pub issue_error : Error → Response
issue_error issue_not_found = write_error 404 "ISSUE_NOT_FOUND"
issue_error project_not_found = write_error 404 "PROJECT_NOT_FOUND"
issue_error forbidden = write_error 403 "FORBIDDEN"
issue_error _ = write_error 500 "INTERNAL_ERROR"

abbrev pub to_issue_detail : Issue → IssueDetailResponse
to_issue_detail i = record {
  id = i.id;
  title = i.title;
  level = i.level;
  status = i.status;
  count = i.count;
  first_seen = i.first_seen;
  last_seen = i.last_seen;
}

unfoldable pub get_by_id : Option ℕ → ℕ → Handler
get_by_id user issue = authenticated user λ id.
    answer issue_error (λ i. write_json 200 (issue_detail (to_issue_detail i)))
      (Issues.get_owned_issue id issue)

abbrev pub to_event_response : Event → EventResponse
to_event_response e = record {
  id = e.id;
  occurred_at = e.occurred_at;
  stack_trace = e.stack_trace;
  context = e.context;
}

unfoldable pub events_limit : Option ℤ → ℤ
events_limit none = pos 50
events_limit (some limit) = if ltb_ℤ limit (pos 1) then pos 50 else limit

unfoldable pub list_events : Library → Option ℕ → ℕ → String → Handler
unfolding events_limit
list_events lib user issue limit = authenticated user λ id.
    answer issue_error (λ es. write_json 200 (event_list (map to_event_response es)))
      (Issues.list_events id issue (events_limit (lib.atoi limit)))
