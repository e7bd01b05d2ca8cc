-- ===== src/Auth/Credentials.antt =====
-- What a login that succeeds, or fails on its credentials, says.
use sentinelix_backend.Base.{
  suc, String, ◌≡◌, Bool, true, false, Option, none, some, arith, first, str_eq,
}
use sentinelix_backend.Domain.Errors.{ok, err, invalid_credential}
use sentinelix_backend.Domain.Account.{User}
use sentinelix_backend.World.{World, Act, trip}
use sentinelix_backend.World.Tokens.{find_by_email}
use sentinelix_backend.Auth.{Platform, LoginOutput, login, normalize_email}

-- The row with an email, as it is stored.
abbrev pub with_email : String → World → Option User
with_email email w = first (λ (u : User). str_eq u.email email) w.users

module _ (p : Platform) (ip_limiter email_limiter : String → Act Bool)
    (email password ip : String) where
  -- The world in which the user is looked up.
  abbrev pub limited : World → World
  limited w = (email_limiter (normalize_email p email) (ip_limiter ip w).1).1

  -- Is there such a user, and is it the user's password?
  abbrev pub password_matches : Option User → Bool
  password_matches none = false
  password_matches (some u) = p.bcrypt_match u.password_hash password

  -- A login succeeds only if both limiters let it pass, and the normalised email is a user's whose
  -- hash the password matches.
  pub login_sound :
      (w : World) (out : LoginOutput)
      → (login p ip_limiter email_limiter email password ip w).0 ≡ ok out
      → ((ip_limiter ip w).0 ≡ ok true)
        × ((email_limiter (normalize_email p email) (ip_limiter ip w).1).0 ≡ ok true)
        × (password_matches (with_email (normalize_email p email) (limited w)) ≡ true)
  unfolding login find_by_email trip
  login_sound w out h = ground arith

  -- An unknown email and a wrong password have the same answer and the same effect: where both
  -- limiters let the login pass and the lookup does not fail, it is ErrInvalidCredential, and the
  -- world is that of the limiters with one more call made.
  pub login_refused :
      (w : World)
      → (ip_limiter ip w).0 ≡ ok true
      → (email_limiter (normalize_email p email) (ip_limiter ip w).1).0 ≡ ok true
      → (limited w).outage (limited w).calls ≡ false
      → password_matches (with_email (normalize_email p email) (limited w)) ≡ false
      → login p ip_limiter email_limiter email password ip w
        ≡ (err invalid_credential, record (limited w) { calls = suc (limited w).calls })
  unfolding login find_by_email trip
  login_refused w a b up wrong = ground (arith, a, b, up, wrong)
