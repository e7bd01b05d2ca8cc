-- ===== src/Dashboard/Projects.antt =====
-- internal/usecase/project.go. What the code takes from elsewhere is the argument `k`: SHA-256, the
-- random bytes in hexadecimal of the n-th moment, and lower case.
use Prim.Native.Char.{Char, code}
use Prim.Native.String.{[], ◌∷◌, ◌++◌}
use sentinelix_backend.Base.{
  ℕ, String, Bool, true, false, ◌&&◌, ◌||◌, Option, List, leb, ◌==◌, str_eq, map, if◌then◌else◌,
}
use sentinelix_backend.Base.Text.{trim_space}
use sentinelix_backend.Domain.Errors.{ok, other}
use sentinelix_backend.Domain.Account.{Project, project, api_key_created, project_deleted}
use sentinelix_backend.World.{Act, pure, ◌>>=◌, ◌>>◌}
use sentinelix_backend.World.Projects
use sentinelix_backend.World.Projects.{or_fail}
use sentinelix_backend.Dashboard.{owned_project, write_audit_log}

pub record Keys : Type 0 where
  pub sha256_hex : String → String
  pub random_key : ℕ → Option String
  pub random_suffix : ℕ → String
  pub to_lower : String → String

-- `[a-z0-9]`
abbrev pub is_slug_char : Char → Bool
is_slug_char c =
    (leb b'a' (code c) && leb (code c) b'z') || (leb b'0' (code c) && leb (code c) b'9')

-- ReplaceAllString of `[^a-z0-9]+` by "-". The flag says that a match is being read.
unfoldable pub sanitize : Bool → String → String
sanitize m [] = []
sanitize m (c ∷ s) =
    let kept = sanitize false s in
    let skipped = sanitize true s in
    if is_slug_char c then c ∷ kept else if m then skipped else "-" ++ skipped

abbrev pub is_dash : Char → Bool
is_dash c = code c == b'-'

unfoldable pub trim_dashes_left : String → String
trim_dashes_left [] = []
trim_dashes_left (c ∷ s) = let rest = trim_dashes_left s in if is_dash c then rest else c ∷ s

abbrev pub dash_cons : Char → String → String
dash_cons c [] = if is_dash c then [] else c ∷ []
dash_cons c (d ∷ s) = c ∷ d ∷ s

unfoldable pub trim_dashes_right : String → String
trim_dashes_right [] = []
trim_dashes_right (c ∷ s) = dash_cons c (trim_dashes_right s)

pub record CreateProjectOutput : Type 0 where
  pub id : ℕ
  pub name : String
  pub slug : String
  pub api_key : String

pub record ProjectSummary : Type 0 where
  pub id : ℕ
  pub name : String
  pub slug : String

abbrev pub summary : Project → ProjectSummary
summary p = record { id = p.id; name = p.name; slug = p.slug }

unfoldable pub list : ℕ → Act (List ProjectSummary)
list user = Projects.list_by_user_id user >>= λ ps. pure (map summary ps)

unfoldable pub verify_ownership : ℕ → ℕ → Act (Unit {0})
verify_ownership user id = owned_project user id >> pure tt

unfoldable pub delete : ℕ → ℕ → Act (Unit {0})
delete user id = do
  p ← owned_project user id
  Projects.delete id
  write_audit_log user project_deleted project p.id (List.◌∷◌ "project_name" List.[])

module _ (k : Keys) where
  unfoldable pub slugify : String → String
  unfolding sanitize trim_dashes_left trim_dashes_right trim_space
  slugify name =
      let s =
        trim_dashes_left (trim_dashes_right (sanitize false (k.to_lower (trim_space name)))) in
      if str_eq s "" then "project" else s

  abbrev pub generate_api_key : Act String
  generate_api_key w = (or_fail (k.random_key w.calls) other, w)

  abbrev pub new_project : ℕ → String → String → ℕ → Project
  new_project user name key moment = record {
    id = 0;
    user_id = user;
    name = name;
    slug = slugify name ++ ("-" ++ k.random_suffix moment);
    api_key_hash = k.sha256_hex ("si_live_" ++ key);
    created_at = 0;
  }

  unfoldable pub create : ℕ → String → Act CreateProjectOutput
  create user name = do
    key ← generate_api_key
    moment ← λ w. (ok w.calls, w)
    id ← Projects.create (new_project user name key moment)
    write_audit_log user api_key_created project id (List.◌∷◌ "project_name" List.[])
    pure (record {
      id = id;
      name = name;
      slug = (new_project user name key moment).slug;
      api_key = "si_live_" ++ key;
    })
