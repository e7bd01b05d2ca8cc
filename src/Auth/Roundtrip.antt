-- ===== src/Auth/Roundtrip.antt =====
-- From a registration to the login with its email and password.
use sentinelix_backend.Base.{
  ℕ, ap, ◌∙◌, suc, ◌*◌, String, ◌≡◌, Bool, true, false, none, some, [], ◌∷◌, first, str_eq, eq_refl,
  arith,
}
use sentinelix_backend.Domain.Errors.{ok}
use sentinelix_backend.Domain.Account.{User}
use sentinelix_backend.Domain.Password.{validate_password}
use sentinelix_backend.World.{World, Act, IsHealthy, trip}
use sentinelix_backend.World.Tokens.{find_by_email, create_user, create, has_hash}
use sentinelix_backend.Limiter.{RateLimiter, allow, incr_and_get, expire_first}
use sentinelix_backend.Limiter.Float.{Float64}
use sentinelix_backend.Auth.{
  Platform, LoginOutput, register, login, normalize_email, issue_tokens, access_seconds,
}

-- What a login answers.
abbrev pub session : String → String → LoginOutput
session access raw = record {
  access_token = access;
  expires_in = access_seconds;
  refresh_token = raw;
  refresh_expires_in = 30 * 24 * 60 * 60;
}

-- A login with the password of a user's email that both limiters let pass, and no later call fails.
login_lem :
    (p : Platform) (ip_limiter email_limiter : String → Act Bool) (email password ip : String)
    (u : User) (access raw : String) (w w1 v : World)
    → ip_limiter ip w ≡ (ok true, w1)
    → email_limiter (normalize_email p email) w1 ≡ (ok true, v)
    → ((n : ℕ) → v.outage n ≡ false)
    → first (λ (x : User). str_eq x.email (normalize_email p email)) v.users ≡ some u
    → p.bcrypt_match u.password_hash password ≡ true
    → p.sign u.id v.now ≡ some access
    → p.random_token (suc v.calls) ≡ some raw
    → first (has_hash (p.sha256_hex raw)) v.tokens ≡ none
    → (login p ip_limiter email_limiter email password ip w).0 ≡ ok (session access raw)
unfolding login find_by_email create trip issue_tokens
login_lem p ip_limiter email_limiter email password ip u access raw w w1 v by_ip by_email up =
    ground (arith, up v.calls, up (suc v.calls), by_ip, by_email)

-- The limiter writes its counters, and counts its calls.
allow-frame :
    (r : RateLimiter) (subject : String) (f : Float64) (w : World)
    → let v = (allow r subject f w).1 in
      (v.users ≡ w.users) × (v.tokens ≡ w.tokens) × (v.now ≡ w.now) × (v.outage ≡ w.outage)
unfolding allow incr_and_get expire_first trip
allow-frame r subject f w = ground arith

-- What a call leaves as it was, by its whole result.
pair_eta : {A B : Type 0} → (x : A × B) (a : A) → x.0 ≡ a → x ≡ (a, x.1)
pair_eta (b, v) a h = ap (λ y. (y, v)) h

module _ (p : Platform) (email password hash : String) where
  -- The row that a registration stores.
  abbrev stored : World → User
  stored w = record {
    id = w.serial;
    email = normalize_email p email;
    password_hash = hash;
    created_at = w.now;
  }

  abbrev pub after_register : World → World
  after_register w = record w {
    calls = suc (suc w.calls);
    serial = suc w.serial;
    users = stored w ∷ w.users;
  }

  register_lem :
      (w : World)
      → IsHealthy w
      → validate_password p.classes password ≡ []
      → first (λ (u : User). str_eq u.email (normalize_email p email)) w.users ≡ none
      → p.bcrypt_hash password ≡ some hash
      → register p email password w ≡ (ok (w.serial, normalize_email p email), after_register w)
  unfolding register find_by_email create_user trip
  register_lem w h strong unused hashed =
      ground (arith, h.up w.calls, h.up (suc w.calls), strong, unused, hashed)

  -- In a world where no call fails, a registration with a password that passes the rules and an
  -- email that no user has returns the new identifier and the normalised email; a login with the
  -- same email and password after it, which the program's rate limiters for the address and the
  -- email let pass, succeeds with the token signed for that identifier. It is assumed that bcrypt
  -- matches its own hash, that signing and the random bytes do not fail, and that the hash of the
  -- new refresh token is not stored.
  pub register-login :
      (by_ip by_email : RateLimiter) (f : Float64) (ip access raw : String) (w : World)
      → let v = after_register w in
        let name = normalize_email p email in
        let w1 = (allow by_ip ip f v).1 in
        IsHealthy w
        → validate_password p.classes password ≡ []
        → first (λ (u : User). str_eq u.email name) w.users ≡ none
        → p.bcrypt_hash password ≡ some hash
        → p.bcrypt_match hash password ≡ true
        → (allow by_ip ip f v).0 ≡ ok true
        → (allow by_email name f w1).0 ≡ ok true
        → p.sign w.serial w.now ≡ some access
        → p.random_token (suc (allow by_email name f w1).1.calls) ≡ some raw
        → first (has_hash (p.sha256_hex raw)) w.tokens ≡ none
        → (register p email password w ≡ (ok (w.serial, name), v))
          × ((login p
                (λ key. allow by_ip key f)
                (λ key. allow by_email key f)
                email
                password
                ip
                v).0
              ≡ ok (session access raw))
  register-login by_ip by_email f ip access raw w h strong unused hashed matches passed_ip
        passed_email signed random fresh =
      let name = normalize_email p email in
      let v = after_register w in
      let one = allow by_ip ip f v in
      let two = allow by_email name f one.1 in
      let (users1, tokens1, now1, up1) = allow-frame by_ip ip f v in
      let (users2, tokens2, now2, up2) = allow-frame by_email name f one.1 in
      let up : (n : ℕ) → two.1.outage n ≡ false = λ n. ap (λ o. o n) (up2 ∙ up1) ∙ h.up n in
      let found : first (λ (u : User). str_eq u.email name) two.1.users ≡ some (stored w) =
        rw (users2, users1) (ground (arith, eq_refl name)) in
      let signed_then : p.sign w.serial two.1.now ≡ some access = rw (now2, now1) signed in
      let fresh_then : first (has_hash (p.sha256_hex raw)) two.1.tokens ≡ none =
        rw (tokens2, tokens1) fresh in
      (
        register_lem w h strong unused hashed,
        login_lem p (λ key. allow by_ip key f) (λ key. allow by_email key f) email password ip
            (stored w) access raw v one.1 two.1 (pair_eta one (ok true) passed_ip)
            (pair_eta two (ok true) passed_email) up found matches signed_then random fresh_then,
      )
