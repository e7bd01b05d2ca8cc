-- ===== src/World/Cache.antt =====
-- internal/repository/redis/cached_project_repo.go: the cache in front of the lookup by API key.
-- An entry that does not decode counts as none, and none is written that way here.
use sentinelix_backend.Base.{
  ℕ, ◌+◌, ◌*◌, ◌^◌, String, Bool, not, ◌&&◌, Option, none, some, ◌∷◌, ltb, str_eq, first, select,
}
use sentinelix_backend.Domain.Errors.{Result, ok, err}
use sentinelix_backend.Domain.Account.{Project}
use sentinelix_backend.World.{Cached, Act, pure, attempt, query, exec, swallow, trip, ◌>>=◌, ◌>>◌}
use sentinelix_backend.World.Projects.{get_by_api_key_hash, get_by_id}
use sentinelix_backend.World.Projects

-- 5 minutes, in nanoseconds
abbrev pub project_cache_ttl : ℕ
project_cache_ttl = 5 * 60 * 10 ^ 9

-- A GET finds an entry until it expires.
abbrev pub is_live : String → ℕ → Cached → Bool
is_live h now c = str_eq c.key_hash h && ltb now c.expires_at

abbrev pub has_key : String → Cached → Bool
has_key h c = str_eq c.key_hash h

abbrev pub cached_project : Option Cached → Option Project
cached_project none = none
cached_project (some c) = some c.project

-- GET
abbrev pub get_cached : String → Act (Option Project)
get_cached h = query λ w. ok (cached_project (first (is_live h w.now) w.cache))

-- SET with the time to live
abbrev pub set_cached : String → Project → Act (Unit {0})
set_cached h p = exec λ w. record w {
  cache =
      record { key_hash = h; project = p; expires_at = w.now + project_cache_ttl }
      ∷ select (λ c. not (has_key h c)) w.cache;
}

-- DEL
abbrev pub delete_cached : String → Act (Unit {0})
delete_cached h = exec λ w. record w { cache = select (λ c. not (has_key h c)) w.cache }

-- A hit is the answer; a miss, or an error of the cache, asks the repository, and caches what it finds.
abbrev pub or_lookup : String → Result (Option Project) → Act Project
or_lookup h (ok (some p)) = pure p
or_lookup h (ok none) = get_by_api_key_hash h >>= λ p. swallow (set_cached h p) >> pure p
or_lookup h (err e) = get_by_api_key_hash h >>= λ p. swallow (set_cached h p) >> pure p

-- CachedProjectRepository.GetByAPIKeyHash
unfoldable pub find_cached : String → Act Project
unfolding trip
find_cached h w = or_lookup h (get_cached h w).0 (get_cached h w).1

abbrev pub invalidate : Result Project → Act (Unit {0})
invalidate (ok p) = swallow (delete_cached p.api_key_hash)
invalidate (err e) = pure tt

-- CachedProjectRepository.Delete
unfoldable pub delete_project : ℕ → Act (Unit {0})
unfolding trip
delete_project id = do found ← attempt (get_by_id id); invalidate found; Projects.delete id
