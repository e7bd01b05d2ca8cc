-- ===== src/Dashboard/Caching.antt =====
-- The project cache after a project is deleted, by the cache's own Delete and by the one that
-- cmd/api/main.go wires: ProjectUsecase works on the repository behind the cache.
use sentinelix_backend.Base.{
  ℕ, suc, String, ◌≡◌, refl, not, Option, none, some, List, [], ◌∷◌, arith, ◌==◌, str_eq, first,
  select,
}
use sentinelix_backend.Domain.Errors.{ok, err, project_not_found}
use sentinelix_backend.Domain.Account.{Project}
use sentinelix_backend.World.{World, Cached, IsHealthy, trip}
use sentinelix_backend.World.Projects.{get_by_api_key_hash, get_by_id, create_audit_log}
use sentinelix_backend.World.Projects as Table
use sentinelix_backend.World.Cache.{is_live, has_key, find_cached, delete_project}
use sentinelix_backend.Dashboard.{owned_project, write_audit_log}
use sentinelix_backend.Dashboard.Projects

-- The row with an identifier, and the row with the hash of an API key.
abbrev pub with_id : ℕ → List Project → Option Project
with_id id projects = first (λ (p : Project). p.id == id) projects

abbrev pub with_key : String → List Project → Option Project
with_key h projects = first (λ (p : Project). str_eq p.api_key_hash h) projects

abbrev pub without : ℕ → List Project → List Project
without id projects = select (λ (p : Project). not (p.id == id)) projects

select-has_key :
    (h : String) (now : ℕ) (cache : List Cached)
    → first (is_live h now) (select (λ c. not (has_key h c)) cache) ≡ none
select-has_key h now [] = refl
select-has_key h now (c ∷ cache) = ground (arith, select-has_key h now cache)

without-id : (id : ℕ) (projects : List Project) → with_id id (without id projects) ≡ none
without-id id [] = refl
without-id id (p ∷ projects) = ground (arith, without-id id projects)

-- Where no call fails, an API key is refused at once after its project was deleted through the
-- cache, if no other project has the same key hash.
pub delete_project_refuses :
    (id : ℕ) (p : Project) (w : World)
    → IsHealthy w
    → with_id id w.projects ≡ some p
    → with_key p.api_key_hash (without id w.projects) ≡ none
    → (find_cached p.api_key_hash (delete_project id w).1).0 ≡ err project_not_found
unfolding find_cached delete_project get_by_id Table.delete get_by_api_key_hash trip
delete_project_refuses id p w h found unique = ground (
  arith,
  h.up w.calls,
  h.up (suc w.calls),
  h.up (suc (suc w.calls)),
  h.up (suc (suc (suc w.calls))),
  h.up (suc (suc (suc (suc w.calls)))),
  select-has_key p.api_key_hash w.now w.cache,
)

-- Where no call fails and the user owns the project, its deletion through the dashboard removes
-- its row, and a lookup right after it by a key whose cache entry has not expired still returns
-- the cached project.
pub delete_leaves_key :
    (user id : ℕ) (h : String) (p : Project) (c : Cached) (w : World)
    → IsHealthy w
    → with_id id w.projects ≡ some p
    → p.user_id ≡ user
    → first (is_live h w.now) w.cache ≡ some c
    → let v = (Projects.delete user id w).1 in
      (with_id id v.projects ≡ none) × ((find_cached h v).0 ≡ ok c.project)
unfolding Projects.delete find_cached owned_project write_audit_log create_audit_log get_by_id
    Table.delete trip
delete_leaves_key user id h p c w healthy found own live = ground (
  arith,
  healthy.up w.calls,
  healthy.up (suc w.calls),
  healthy.up (suc (suc w.calls)),
  healthy.up (suc (suc (suc w.calls))),
  without-id id w.projects,
)
