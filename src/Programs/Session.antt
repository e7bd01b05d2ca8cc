-- ===== src/Programs/Session.antt =====
-- How long a login lasts, in the API as it is wired, and that the wiring is by pkg/jwt.
use sentinelix_backend.Base.{
  ℕ, ◌+◌, ◌*◌, ◌/◌, String, ◌≡◌, refl, Bool, true, false, Option, none, some, arith, ltb,
  Bool-cases, Option-cases, inl, inr, if◌then◌else◌,
}
use sentinelix_backend.World.{World}
use sentinelix_backend.Auth.{access_seconds}
use sentinelix_backend.Jwt
use sentinelix_backend.Jwt.{Claims, generate, new_claims, nanoseconds}
use sentinelix_backend.Http.Middleware
use sentinelix_backend.Http.{write_error, reply}
use sentinelix_backend.Http.Middleware.{auth_middleware, verify, dashboard_rate_limit}
use sentinelix_backend.Http.Router.{Request, Protected, protected, serve_route, serve_protected}
use sentinelix_backend.Config.{Config}
use sentinelix_backend.Programs.{
  Environment, Limiters, services, jwt_manager, subject_of, token_of, minute,
}

module _ (e : Environment) (c : Config) where
  -- What is signed are the claims of the manager.
  signed :
      (user t : ℕ) (token : String)
      → token_of (generate e.jwt (jwt_manager c) user t) ≡ some token
      → e.jwt.signed_string c.jwt_secret (new_claims (jwt_manager c) user t) ≡ some token
  unfolding generate
  signed user t token h =
      elim (Option-cases (e.jwt.signed_string c.jwt_secret (new_claims (jwt_manager c) user t))) [
        | inl failed ↦ ground (arith, failed)
        | inr done ↦ ground (arith, done.1)
      ]

  abbrev user_of : Option Claims → Option ℕ
  user_of none = none
  user_of (some claims) = some claims.user_id

  verified_subject :
      (o : Option (Claims × Bool))
      → Middleware.valid_claims (subject_of o) ≡ user_of (Jwt.valid_claims o)
  verified_subject none = refl
  verified_subject (some (claims, true)) = refl
  verified_subject (some (claims, false)) = refl

  -- The middleware verifies as the manager does.
  verify-services :
      (ls : Limiters) (now : ℕ) (token : String)
      → verify (services e c ls).lib now token
        ≡ user_of (Jwt.verify e.jwt (jwt_manager c) now token)
  unfolding verify Jwt.verify
  verify-services ls now token =
      verified_subject (e.jwt.parse_with_claims (jwt_manager c).secret now token)

  -- The lifetime that a login reports is the manager's.
  generate-access_seconds :
      (user now seconds : ℕ) (token : String)
      → generate e.jwt (jwt_manager c) user now ≡ some (token, seconds)
      → seconds ≡ access_seconds
  unfolding generate
  generate-access_seconds user now seconds token h =
      elim (Option-cases (e.jwt.signed_string c.jwt_secret (new_claims (jwt_manager c) user now))) [
        | inl failed ↦ absurd (ground (arith, failed))
        | inr done ↦ ground (arith, done.1)
      ]

  -- With an access token that the API has signed for a user at a time `t`, in nanoseconds, a protected
  -- route is served as that user while the clock is before `t` and 15 minutes, cut to whole seconds,
  -- and answers 401 from then on, whoever asks and whatever else the request says. (The dashboard's
  -- rate limit comes before the route's handler.)
  pub session_lasts :
      (ls : Limiters) (r : Request) (route : Protected) (user t : ℕ) (token : String) (w : World)
      → (services e c ls).platform.sign user t ≡ some token
      → serve_route (services e c ls) (record r { access_token = some token }) (protected route) w
        ≡ (if ltb w.now ((t + 15 * minute) / nanoseconds * nanoseconds)
            then dashboard_rate_limit
                (services e c ls).dashboard_limiter
                (serve_protected (services e c ls) route)
                (some user)
                w
            else reply (write_error 401 "UNAUTHORIZED") w)
  unfolding serve_route auth_middleware verify
  session_lasts ls r route user t token w h =
      let claims = new_claims (jwt_manager c) user t in
      let s = signed user t token h in
      elim (Bool-cases (ltb w.now ((t + 15 * minute) / nanoseconds * nanoseconds))) [
        | inl before ↦
            rw (before, e.jwt.fresh c.jwt_secret token claims w.now s (ground arith)) refl
        | inr late ↦ rw (late, e.jwt.expired c.jwt_secret token claims w.now s (ground arith)) refl
      ]
