-- ===== src/Auth.antt =====
-- internal/usecase/auth.go, with pkg/jwt: registration, login, and refresh tokens that rotate.
-- What the code takes from elsewhere is the argument `p`: SHA-256 and bcrypt, the random bytes
-- and the signed tokens of the n-th moment, lower case and the character classes.
pub mod Rotation
pub mod Sessions
pub mod Theft
pub mod Race
pub mod Credentials
pub mod Roundtrip
use sentinelix_backend.Base.{
  ℕ, ◌+◌, ◌*◌, ◌^◌, String, ◌≡◌, Bool, true, false, not, Option, none, some, List, [], ◌∷◌, ltb,
  str_eq, if◌then◌else◌,
}
use sentinelix_backend.Base.Text.{trim_space}
use sentinelix_backend.Domain.Errors.{
  Result, ok, err, Error, PasswordRule, user_not_found, email_already_exist, invalid_credential,
  weak_password, refresh_token_not_found, refresh_token_expired, refresh_token_revoked,
  rate_limited, other,
}
use sentinelix_backend.Domain.Account.{User, RefreshToken, is_none}
use sentinelix_backend.Domain.Password.{Classes, validate_password}
use sentinelix_backend.World.{World, Act, pure, fail, swallow, attempt, ◌>>=◌, ◌>>◌}
use sentinelix_backend.World.Projects.{or_fail}
use sentinelix_backend.World.Tokens.{
  find_by_email, create_user, find_by_token_hash, revoke, revoke_all_by_user_id, create,
}

pub record Platform : Type 0 where
  pub sha256_hex : String → String
  -- bcrypt.GenerateFromPassword, and CompareHashAndPassword on the hash and the password
  pub bcrypt_hash : String → Option String
  pub bcrypt_match : String → String → Bool
  -- hex of 32 bytes of crypto/rand at a moment; `none` where the read fails
  pub random_token : ℕ → Option String
  -- the JWT of a user at a moment; `none` where signing fails
  pub sign : ℕ → ℕ → Option String
  pub to_lower : String → String
  pub classes : Classes

-- 30 days and 15 minutes, in nanoseconds and in seconds
abbrev pub second : ℕ
second = 10 ^ 9

abbrev pub refresh_token_ttl : ℕ
refresh_token_ttl = 30 * 24 * 60 * 60 * second

abbrev pub access_seconds : ℕ
access_seconds = 15 * 60

pub record LoginOutput : Type 0 where
  pub access_token : String
  pub expires_in : ℕ
  pub refresh_token : String
  pub refresh_expires_in : ℕ

-- `if allowed, err := limiter.Allow(key)`: an error is returned, a refusal is ErrRateLimited.
abbrev pub admit : Bool → Act (Unit {0})
admit true = pure tt
admit false = fail rate_limited

-- ErrUserNotFound becomes ErrInvalidCredential.
abbrev pub hide_user : Result User → Result User
hide_user (ok u) = ok u
hide_user (err user_not_found) = err invalid_credential
hide_user (err e) = err e

-- The answers of FindByEmail that let a registration go on.
abbrev pub unused_email : Result User → Act (Unit {0})
unused_email (ok u) = fail email_already_exist
unused_email (err user_not_found) = pure tt
unused_email (err e) = fail e

abbrev pub logged_out : Result RefreshToken → Act (Unit {0})
logged_out (ok stored) = revoke stored.id
logged_out (err refresh_token_not_found) = pure tt
logged_out (err e) = fail e

module _ (p : Platform) where
  unfoldable pub normalize_email : String → String
  normalize_email email = p.to_lower (trim_space email)

  abbrev pub accept_password : List PasswordRule → Act (Unit {0})
  accept_password [] = pure tt
  accept_password (r ∷ rest) = fail (weak_password (r ∷ rest))

  -- Register: the identifier and the normalised email.
  unfoldable pub register : String → String → Act (ℕ × String)
  unfolding normalize_email
  register email password = do
    accept_password (validate_password p.classes password)
    existing ← attempt (find_by_email (normalize_email email))
    unused_email existing
    hash ← λ w. (or_fail (p.bcrypt_hash password) other, w)
    id ← create_user (normalize_email email) hash
    pure (id, normalize_email email)

  -- jwtManager.Generate, and generateRefreshToken
  abbrev pub signed : ℕ → Act String
  signed user w = (or_fail (p.sign user w.now) other, w)

  abbrev pub random_raw : Act String
  random_raw w = (or_fail (p.random_token w.calls) other, w)

  abbrev pub store_session : ℕ → String → String → Act LoginOutput
  store_session user access raw w =
      (create user (p.sha256_hex raw) (w.now + refresh_token_ttl)
          >> pure (record {
            access_token = access;
            expires_in = access_seconds;
            refresh_token = raw;
            refresh_expires_in = 30 * 24 * 60 * 60;
          }))
        w

  unfoldable pub issue_tokens : ℕ → Act LoginOutput
  issue_tokens user = do access ← signed user; raw ← random_raw; store_session user access raw

  unfoldable pub login :
      (String → Act Bool) → (String → Act Bool) → String → String → String → Act LoginOutput
  unfolding normalize_email
  login ip_limiter email_limiter email password ip = do
    by_ip ← ip_limiter ip
    admit by_ip
    by_email ← email_limiter (normalize_email email)
    admit by_email
    found ← attempt (find_by_email (normalize_email email))
    user ← λ w. (hide_user found, w)
    if p.bcrypt_match user.password_hash password
        then issue_tokens user.id
        else fail invalid_credential

  -- The tests on the stored token: revoked before (then all the user's sessions end), or expired.
  unfoldable pub check_stored : RefreshToken → Act (Unit {0})
  check_stored stored =
      if not (is_none stored.revoked_at)
      then (swallow (revoke_all_by_user_id stored.user_id) >> fail refresh_token_revoked)
      else λ w. (if ltb stored.expires_at w.now then err refresh_token_expired else ok tt, w)

  -- The reading half of Refresh: the stored token, found valid.
  unfoldable pub accept_token : String → Act RefreshToken
  accept_token raw = do
    stored ← find_by_token_hash (p.sha256_hex raw)
    check_stored stored
    pure stored

  -- The writing half: the old token is revoked, a new one issued.
  unfoldable pub rotate : RefreshToken → Act LoginOutput
  rotate stored = do revoke stored.id; issue_tokens stored.user_id

  unfoldable pub refresh : String → Act LoginOutput
  unfolding accept_token rotate
  refresh raw = do stored ← accept_token raw; rotate stored

  unfoldable pub logout : String → Act (Unit {0})
  logout raw =
      if str_eq raw ""
      then pure tt
      else (do stored ← attempt (find_by_token_hash (p.sha256_hex raw)); logged_out stored)
