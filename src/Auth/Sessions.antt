-- ===== src/Auth/Sessions.antt =====
-- Rotation and theft detection: what becomes of a refresh token once it is used or revoked.
use sentinelix_backend.Base.{
  ℕ, ◌+◌, String, ◌≡◌, ◌⊎◌, not, some, arith, ltb, ◌==◌, str_eq, first, if◌then◌else◌,
}
use sentinelix_backend.Domain.Errors.{
  Result, ok, err, other, refresh_token_not_found, refresh_token_expired, refresh_token_revoked,
}
use sentinelix_backend.Domain.Account.{RefreshToken, is_none}
use sentinelix_backend.World.{
  World, trip, continue-eq-ok, pure, fail, swallow, attempt, ◌>>=◌, ◌>>◌,
}
use sentinelix_backend.World.Projects.{or_fail}
use sentinelix_backend.World.Tokens.{
  has_hash, find_by_token_hash, revoke, revoke_all_by_user_id, create,
}
use sentinelix_backend.Auth.{
  Platform, LoginOutput, refresh_token_ttl, signed, random_raw, store_session, issue_tokens,
  check_stored, accept_token, rotate, refresh, logout, logged_out,
}
use sentinelix_backend.Auth.Rotation.{
  IsDead, KeepsDead, KeepsDead-map, hit_self, KeepsDead-reply, KeepsDead-if, KeepsDead-bind,
  KeepsDead-revoke, KeepsDead-revoke_all, KeepsDead-find, KeepsDead-create, hit, first-revoke,
}

module _ (p : Platform) where
  KeepsDead-store : (user : ℕ) (access raw : String) → KeepsDead (store_session p user access raw)
  KeepsDead-store user access raw = record {
    at = λ h w d.
        KeepsDead-map (create user (p.sha256_hex raw) (w.now + refresh_token_ttl)) _
          (KeepsDead-create user (p.sha256_hex raw) (w.now + refresh_token_ttl)) h w d;
  }

  pub KeepsDead-issue : (user : ℕ) → KeepsDead (issue_tokens p user)
  unfolding issue_tokens
  KeepsDead-issue user =
      KeepsDead-bind (signed p user) (λ access. random_raw p >>= store_session p user access)
        (KeepsDead-reply (λ w. or_fail (p.sign user w.now) other))
        λ access.
          KeepsDead-bind (random_raw p) (store_session p user access)
            (KeepsDead-reply (λ w. or_fail (p.random_token w.calls) other))
            (KeepsDead-store user access)

  KeepsDead-check : (t : RefreshToken) → KeepsDead (check_stored p t)
  unfolding check_stored
  KeepsDead-check t =
      KeepsDead-if (not (is_none t.revoked_at))
        (swallow (revoke_all_by_user_id t.user_id) >> fail refresh_token_revoked)
        (λ w. (if ltb t.expires_at w.now then err refresh_token_expired else ok tt, w))
        (record { at = (KeepsDead-revoke_all t.user_id).at }) (KeepsDead-reply _)

  KeepsDead-accept : (raw : String) → KeepsDead (accept_token p raw)
  unfolding accept_token
  KeepsDead-accept raw =
      KeepsDead-bind (find_by_token_hash (p.sha256_hex raw)) (λ t. check_stored p t >> pure t)
        (KeepsDead-find (p.sha256_hex raw))
        λ t.
          KeepsDead-bind (check_stored p t) (λ _. pure t) (KeepsDead-check t)
            (λ _. KeepsDead-reply (λ _. ok t))

  KeepsDead-rotate : (t : RefreshToken) → KeepsDead (rotate p t)
  unfolding rotate
  KeepsDead-rotate t =
      KeepsDead-bind (revoke t.id) (λ _. issue_tokens p t.user_id) (KeepsDead-revoke t.id)
        (λ _. KeepsDead-issue t.user_id)

  pub KeepsDead-refresh : (raw : String) → KeepsDead (refresh p raw)
  unfolding refresh
  KeepsDead-refresh raw =
      KeepsDead-bind (accept_token p raw) (rotate p) (KeepsDead-accept raw) KeepsDead-rotate

  KeepsDead-logged_out : (r : Result RefreshToken) → KeepsDead (logged_out r)
  KeepsDead-logged_out (ok t) = KeepsDead-revoke t.id
  KeepsDead-logged_out (err refresh_token_not_found) = KeepsDead-reply (λ _. ok tt)
  KeepsDead-logged_out (err e) = KeepsDead-reply (λ _. err e)

  pub KeepsDead-logout : (raw : String) → KeepsDead (logout p raw)
  unfolding logout
  KeepsDead-logout raw =
      KeepsDead-if (str_eq raw "") (pure tt)
        (attempt (find_by_token_hash (p.sha256_hex raw)) >>= logged_out)
        (KeepsDead-reply (λ _. ok tt))
        (KeepsDead-bind (attempt (find_by_token_hash (p.sha256_hex raw))) logged_out
          (record { at = (KeepsDead-find (p.sha256_hex raw)).at }) KeepsDead-logged_out)

  -- A revoked token is refused.
  pub refresh_dead :
      (raw : String) (w : World)
      → IsDead (p.sha256_hex raw) w.tokens
      → ((refresh p raw w).0 ≡ err refresh_token_revoked) ⊎ ((refresh p raw w).0 ≡ err other)
  unfolding refresh accept_token check_stored find_by_token_hash trip
  refresh_dead raw w (t, found, dead) = ground arith

  revoke-IsDead :
      (h : String) (t : RefreshToken) (w : World)
      → first (has_hash h) w.tokens ≡ some t
      → (revoke t.id w).0 ≡ ok tt
      → IsDead h (revoke t.id w).1.tokens
  unfolding revoke trip
  revoke-IsDead h t w found done = (
    hit (λ x. x.id == t.id) w.now t,
    ground (arith, first-revoke h (λ x. x.id == t.id) w.now w.tokens t found),
    hit_self t w.now,
  )

  accept-found :
      (raw : String) (w : World) (t : RefreshToken)
      → (accept_token p raw w).0 ≡ ok t
      → first (has_hash (p.sha256_hex raw)) (accept_token p raw w).1.tokens ≡ some t
  unfolding accept_token check_stored find_by_token_hash trip
  accept-found raw w t h = ground arith

  rotate-IsDead :
      (h : String) (t : RefreshToken) (w : World) (out : LoginOutput)
      → first (has_hash h) w.tokens ≡ some t
      → (rotate p t w).0 ≡ ok out
      → IsDead h (rotate p t w).1.tokens
  unfolding rotate
  rotate-IsDead h t w out found done =
      let (_, revoked, _) =
        continue-eq-ok (revoke t.id w).0 (λ _. issue_tokens p t.user_id) (revoke t.id w).1 done in
      rw (revoked, rotate)
        ((KeepsDead-issue t.user_id).at h (revoke t.id w).1 (revoke-IsDead h t w found revoked))

  -- A token that is refreshed is revoked.
  pub refresh-IsDead :
      (raw : String) (w : World) (out : LoginOutput)
      → (refresh p raw w).0 ≡ ok out
      → IsDead (p.sha256_hex raw) (refresh p raw w).1.tokens
  unfolding refresh
  refresh-IsDead raw w out done =
      let (t, accepted, e) =
        continue-eq-ok (accept_token p raw w).0 (rotate p) (accept_token p raw w).1 done in
      rw e (
        rotate-IsDead (p.sha256_hex raw) t (accept_token p raw w).1 out
          (accept-found raw w t accepted) (rw e at done))
