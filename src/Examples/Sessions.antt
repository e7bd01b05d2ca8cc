-- ===== src/Examples/Sessions.antt =====
-- The theorems on sessions at concrete inputs.
use sentinelix_backend.Base.{
  Bool, String, ℕ, ◌*◌, ◌^◌, ◌≡◌, refl, ◌⊎◌, true, some, none, List, [], ◌∷◌, all_of, str_eq, ◌==◌,
  if◌then◌else◌,
}
use sentinelix_backend.Domain.Errors.{
  invalid_credential, ok, is_ok, err, other, refresh_token_revoked,
}
use sentinelix_backend.Domain.Account.{RefreshToken, User}
use sentinelix_backend.Domain.Password.{validate_password, contains_rune}
use sentinelix_backend.World.{World, Act, pure, IsHealthy}
use sentinelix_backend.World.Tokens.{find_by_email, find_by_token_hash, revoke, create}
use sentinelix_backend.Base.Text.{trim_space}
use sentinelix_backend.Limiter
use sentinelix_backend.Limiter.{RateLimiter, second}
use sentinelix_backend.Examples.Limits.{coarse}
use sentinelix_backend.Auth.{
  login, register, normalize_email, Platform, LoginOutput, refresh, check_stored, issue_tokens,
  accept_token, rotate,
}
use sentinelix_backend.Auth.Credentials.{with_email, password_matches, login_sound, login_refused}
use sentinelix_backend.Auth.Roundtrip.{session, after_register, register-login}
use sentinelix_backend.Auth.Race.{refresh_race}
use sentinelix_backend.Auth.Theft.{
  Call, logs_out, logs_in, run, closed_for, refresh_single_use, refresh_reuse,
}
use sentinelix_backend.Examples.Accounts.{ascii}
use sentinelix_backend.Examples.{quiet, quiet-IsHealthy}

abbrev pub platform : Platform
platform = record {
  sha256_hex = λ s. s;
  bcrypt_hash = λ s. some s;
  bcrypt_match = λ h s. str_eq h s;
  random_token = λ n. some "fresh";
  sign = λ user now. some "jwt";
  to_lower = λ s. s;
  classes = ascii;
}

abbrev pub token : RefreshToken
token = record {
  id = 4;
  user_id = 2;
  token_hash = "raw";
  expires_at = 10 ^ 13;
  revoked_at = none;
  created_at = 0;
}

abbrev pub fresh_world : World
fresh_world = record quiet { tokens = token ∷ [] }

abbrev output : LoginOutput
output = record {
  access_token = "jwt";
  expires_in = 900;
  refresh_token = "fresh";
  refresh_expires_in = 2592000;
}

abbrev later : List (ℕ × Call)
later = (5, logs_in 2) ∷ (5, logs_out "fresh") ∷ []

refresh_single_use_example :
    let v = run platform later (refresh platform "raw" fresh_world).1 in
    ((refresh platform "raw" v).0 ≡ err refresh_token_revoked)
    ⊎ ((refresh platform "raw" v).0 ≡ err other)
unfolding refresh check_stored issue_tokens find_by_token_hash revoke create
refresh_single_use_example = refresh_single_use platform "raw" later fresh_world output refl

abbrev revoked : RefreshToken
revoked = record token { revoked_at = some 5 }

abbrev stolen : World
stolen = record quiet { tokens = record token { id = 5; token_hash = "fresh" } ∷ revoked ∷ [] }

stolen-IsHealthy : IsHealthy stolen
stolen-IsHealthy = record { up = λ n. refl; accepted = λ n. refl }

refresh_reuse_example :
    ((refresh platform "raw" stolen).0 ≡ err refresh_token_revoked)
    × (all_of (closed_for 2) (refresh platform "raw" stolen).1.tokens ≡ true)
refresh_reuse_example = refresh_reuse platform "raw" stolen revoked stolen-IsHealthy refl refl

-- Random bytes that differ from one moment to another.
abbrev varied : Platform
varied = record platform { random_token = λ n. some (if n == 3 then "third" else "other") }

fresh_world-IsHealthy : IsHealthy fresh_world
fresh_world-IsHealthy = record { up = λ n. refl; accepted = λ n. refl }

refresh_race_example :
    let two = accept_token varied "raw" (accept_token varied "raw" fresh_world).1 in
    let rotated = rotate varied token two.1 in
    (two.0 ≡ ok token) × (is_ok rotated.0 ≡ true) × (is_ok (rotate varied token rotated.1).0 ≡ true)
unfolding accept_token find_by_token_hash check_stored
refresh_race_example =
    refresh_race varied "raw" "jwt" "third" "other" token fresh_world fresh_world-IsHealthy refl
      refl refl refl refl refl refl

abbrev ada : User
ada = record { id = 2; email = "ada@a.example"; password_hash = "Secret1!"; created_at = 0 }

abbrev members : World
members = record quiet { users = ada ∷ [] }

abbrev allow : String → Act Bool
allow key = pure true

login_sound_example :
    ((allow "::1" members).0 ≡ ok true)
    × ((allow (normalize_email platform "ada@a.example") members).0 ≡ ok true)
    × (password_matches platform allow allow "ada@a.example" "Secret1!" "::1"
          (with_email (normalize_email platform "ada@a.example") members)
        ≡ true)
unfolding login find_by_email issue_tokens create normalize_email trim_space
login_sound_example =
    login_sound platform allow allow "ada@a.example" "Secret1!" "::1" members output refl

login_refused_example :
    login platform allow allow "eve@a.example" "Secret1!" "::1" members
    ≡ (err invalid_credential, record members { calls = 1 })
unfolding normalize_email trim_space
login_refused_example =
    login_refused platform allow allow "eve@a.example" "Secret1!" "::1" members refl refl refl refl

abbrev by_ip : RateLimiter
by_ip = record { prefix = "ratelimit:login:ip"; limit = 5; window = 60 * second }

abbrev by_email : RateLimiter
by_email = record { prefix = "ratelimit:login:email"; limit = 5; window = 60 * second }

register-login_example :
    let v = after_register platform " eve@a.example" "Secret1!" "Secret1!" quiet in
    (register platform " eve@a.example" "Secret1!" quiet ≡ (ok (100, "eve@a.example"), v))
    × ((login platform
          (λ key. Limiter.allow by_ip key coarse)
          (λ key. Limiter.allow by_email key coarse)
          " eve@a.example"
          "Secret1!"
          "::1"
          v).0
        ≡ ok (session "jwt" "fresh"))
unfolding normalize_email trim_space validate_password contains_rune Limiter.allow
    Limiter.incr_and_get Limiter.expire_first
register-login_example =
    register-login platform " eve@a.example" "Secret1!" "Secret1!" by_ip by_email coarse "::1" "jwt"
      "fresh" quiet quiet-IsHealthy refl refl refl refl refl refl refl refl refl
