-- ===== src/Examples/Api.antt =====
-- The theorems on the JSON API at concrete inputs.
use sentinelix_backend.Base.{◌≡◌, refl, true, some, none, all_of}
use sentinelix_backend.Domain.Errors.{err, project_not_found}
use sentinelix_backend.World.{pure}
use sentinelix_backend.Dashboard.Projects.{Keys}
use sentinelix_backend.Http.{Library, write_error}
use sentinelix_backend.Http.Middleware.{Method, cors_headers, verify}
use sentinelix_backend.Http.Router.{
  Services, Request, Route, protected, get_rules, post_refresh, serve,
}
use sentinelix_backend.Http.Access.{no_session}
use sentinelix_backend.Http.Cookies.{is_guarded, cookies_guarded}
use sentinelix_backend.Http.Isolation.{Denied, stranger_refused}
use sentinelix_backend.Examples.Sessions.{platform, fresh_world}
use sentinelix_backend.Examples.Tenants.{shop}

-- Every token is user 3's.
abbrev pub library : Library
library = record {
  atoi = λ s. none;
  parse_rfc3339 = λ s. none;
  split_host_port = λ s. some s;
  parse_with_claims = λ now token. some (3, true);
  upgrade = λ same. none;
}

abbrev pub keys : Keys
keys = record {
  sha256_hex = λ s. s;
  random_key = λ n. some "00";
  random_suffix = λ n. "a1b2c3";
  to_lower = λ s. s;
}

abbrev services : Services
services = record {
  lib = library;
  platform = platform;
  keys = keys;
  scheme = λ s. some "https";
  secure_cookie = true;
  frontend_url = "https://app.example";
  ip_limiter = λ key. pure true;
  email_limiter = λ key. pure true;
  ingest_limiter = λ key. pure true;
  dashboard_limiter = λ user. pure true;
  find_project = λ hash w. (err project_not_found, w);
  push = λ event. pure tt;
}

abbrev request : Route → Request
request route = record {
  method = Method.get;
  path = "/api/v1/projects/1/alert-rules";
  route = route;
  access_token = some "jwt";
  refresh_token = some "raw";
}

stranger_refused_example : Denied shop (
  (serve services (request (protected (get_rules 1))) shop).0.1,
  (serve services (request (protected (get_rules 1))) shop).1,
)
unfolding verify
stranger_refused_example =
    stranger_refused services (request (protected (get_rules 1))) (get_rules 1) 3 shop refl refl
      refl refl

abbrev anonymous : Request
anonymous = record (request (protected (get_rules 1))) { access_token = none }

no_session_example :
    serve services anonymous shop
    ≡ ((cors_headers "https://app.example" anonymous.path, write_error 401 "UNAUTHORIZED"), shop)
no_session_example = no_session services anonymous (get_rules 1) shop refl refl refl

cookies_guarded_example :
    all_of is_guarded (serve services (request post_refresh) fresh_world).0.1.cookies ≡ true
cookies_guarded_example = cookies_guarded services (request post_refresh) fresh_world
