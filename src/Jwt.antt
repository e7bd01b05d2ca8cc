-- ===== src/Jwt.antt =====
-- pkg/jwt/jwt.go. The package golang-jwt, as far as the manager calls it, is the record `Jwt`; its two
-- laws are what its documentation says of a token that it has signed: with the same key, parsing
-- returns the claims before their expiry, and an error from then on.
use sentinelix_backend.Base.{
  ℕ, ◌+◌, ◌*◌, ◌/◌, ◌^◌, ◌≤◌, ◌<◌, String, ◌≡◌, Bool, true, false, Option, none, some,
}

-- A jwt.NumericDate is in seconds.
pub record Claims : Type 0 where
  pub user_id : ℕ
  pub expires_at : ℕ
  pub issued_at : ℕ

abbrev pub nanoseconds : ℕ
nanoseconds = 10 ^ 9

pub record Jwt : Type 0 where
  -- NewWithClaims with HS256 and SignedString by a key; `none` is an error
  pub signed_string : String → Claims → Option String
  -- ParseWithClaims by a key at a time: the claims and `token.Valid`; `none` is an error
  pub parse_with_claims : String → ℕ → String → Option (Claims × Bool)
  pub fresh :
      (key token : String) (c : Claims) (now : ℕ)
      → signed_string key c ≡ some token
      → now < c.expires_at * nanoseconds
      → parse_with_claims key now token ≡ some (c, true)
  pub expired :
      (key token : String) (c : Claims) (now : ℕ)
      → signed_string key c ≡ some token
      → c.expires_at * nanoseconds ≤ now
      → parse_with_claims key now token ≡ none

pub record Manager : Type 0 where
  pub secret : String
  pub token_ttl : ℕ

abbrev pub new_manager : String → ℕ → Manager
new_manager secret ttl = record { secret = secret; token_ttl = ttl }

-- The claims of Generate, by a user and the time.
abbrev pub new_claims : Manager → ℕ → ℕ → Claims
new_claims m user now = record {
  user_id = user;
  expires_at = (now + m.token_ttl) / nanoseconds;
  issued_at = now / nanoseconds;
}

abbrev pub with_lifetime : ℕ → Option String → Option (String × ℕ)
with_lifetime seconds none = none
with_lifetime seconds (some token) = some (token, seconds)

-- The token, and its lifetime in seconds.
unfoldable pub generate : Jwt → Manager → ℕ → ℕ → Option (String × ℕ)
generate j m user now =
    with_lifetime (m.token_ttl / nanoseconds) (j.signed_string m.secret (new_claims m user now))

abbrev pub valid_claims : Option (Claims × Bool) → Option Claims
valid_claims none = none
valid_claims (some (c, true)) = some c
valid_claims (some (c, false)) = none

unfoldable pub verify : Jwt → Manager → ℕ → String → Option Claims
verify j m now token = valid_claims (j.parse_with_claims m.secret now token)
