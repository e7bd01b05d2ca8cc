-- ===== src/Http/Projects.antt =====
-- internal/delivery/http/handler_project.go, and handler_ws.go up to the registration with the hub.
use sentinelix_backend.Base.{ℕ, String, Bool, Option, none, some, str_eq, if◌then◌else◌}
use sentinelix_backend.Domain.Errors.{Error, project_not_found, forbidden}
use sentinelix_backend.Dashboard.Projects
use sentinelix_backend.Dashboard.Projects.{Keys}
use sentinelix_backend.Http.{
  Library, Response, Handler, write_json, write_error, reply, authenticated, decoded, answer,
  no_content, switched, project_created, project_list,
}

pub record CreateProjectRequest : Type 0 where
  pub name : String

unfoldable pub create : Keys → Option ℕ → Option CreateProjectRequest → Handler
create k user body = authenticated user λ id. decoded body λ req.
    let answered =
      answer (λ e. write_error 500 "INTERNAL_ERROR") (λ out. write_json 201 (project_created out))
        (Projects.create k id req.name) in
    if str_eq req.name "" then reply (write_error 400 "INVALID_BODY") else answered

unfoldable pub list : Option ℕ → Handler
list user = authenticated user λ id.
    answer (λ e. write_error 500 "INTERNAL_ERROR") (λ ps. write_json 200 (project_list ps))
      (Projects.list id)

abbrev pub delete_error : Error → Response
delete_error project_not_found = write_error 404 "NOT_FOUND"
delete_error forbidden = write_error 403 "FORBIDDEN"
delete_error _ = write_error 500 "INTERNAL_ERROR"

unfoldable pub delete : Option ℕ → ℕ → Handler
delete user project =
    authenticated user
      λ id. answer delete_error (λ u. write_json 204 no_content) (Projects.delete id project)

-- HandleConnection: every other error of VerifyOwnership is a project that is not found.
abbrev pub connection_error : Error → Response
connection_error forbidden = write_error 403 "FORBIDDEN"
connection_error _ = write_error 404 "PROJECT_NOT_FOUND"

abbrev upgraded : Option ℕ → Response
upgraded none = write_json 101 switched
upgraded (some status) = write_json status no_content

-- newUpgrader(frontendURL).CheckOrigin
unfoldable pub check_origin : String → String → Bool
check_origin frontend_url origin = str_eq origin frontend_url

-- Status 101 stands for a client that is registered with the hub, its pumps started.
unfoldable pub handle_connection : Library → String → Option ℕ → ℕ → String → Handler
unfolding check_origin
handle_connection lib frontend_url user project origin = authenticated user λ id.
    answer connection_error (λ u. upgraded (lib.upgrade (check_origin frontend_url origin)))
      (Projects.verify_ownership id project)
