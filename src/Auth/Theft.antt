-- ===== src/Auth/Theft.antt =====
-- The promises of the refresh flow over whole histories of calls.
use sentinelix_backend.Base.{
  ℕ, suc, ◌+◌, String, ◌≡◌, refl, ◌⊎◌, Bool, true, false, not, ◌||◌, some, List, [], ◌∷◌, arith,
  ◌==◌, first, all_of, update_where,
}
use sentinelix_backend.Domain.Errors.{ok, err, other, refresh_token_revoked}
use sentinelix_backend.Domain.Account.{RefreshToken, is_none}
use sentinelix_backend.World.{World, IsHealthy, trip}
use sentinelix_backend.World.Tokens.{
  has_hash, find_by_token_hash, revoke_row, revoke_all_by_user_id,
}
use sentinelix_backend.Auth.{
  Platform, LoginOutput, issue_tokens, check_stored, accept_token, refresh, logout,
}
use sentinelix_backend.Auth.Rotation.{IsDead}
use sentinelix_backend.Auth.Sessions.{
  KeepsDead-issue, KeepsDead-refresh, KeepsDead-logout, refresh_dead, refresh-IsDead,
}

-- The calls that touch refresh tokens; a login ends by issuing tokens to its user.
pub data Call : Type 0 where
  refreshes logs_out : String → Call
  logs_in : ℕ → Call

-- Is the row another user's, or revoked?
abbrev pub closed_for : ℕ → RefreshToken → Bool
closed_for user t = not (t.user_id == user) || not (is_none t.revoked_at)

revoke_all_closed :
    (user now : ℕ) (tokens : List RefreshToken)
    → all_of (closed_for user) (update_where (λ t. t.user_id == user) (revoke_row now) tokens)
      ≡ true
unfolding revoke_row
revoke_all_closed user now [] = refl
revoke_all_closed user now (t ∷ rest) = ground (arith, revoke_all_closed user now rest)

module _ (p : Platform) where
  unfoldable pub step : Call → World → World
  step (refreshes raw) w = (refresh p raw w).1
  step (logs_out raw) w = (logout p raw w).1
  step (logs_in user) w = (issue_tokens p user w).1

  -- A history: each call comes some time after the one before.
  unfoldable pub run : List (ℕ × Call) → World → World
  unfolding step
  run [] w = w
  run ((delay, c) ∷ rest) w = run rest (step c (record w { now = w.now + delay }))

  step-IsDead : (h : String) (c : Call) (w : World) → IsDead h w.tokens → IsDead h (step c w).tokens
  unfolding step
  step-IsDead h (refreshes raw) w d = (KeepsDead-refresh p raw).at h w d
  step-IsDead h (logs_out raw) w d = (KeepsDead-logout p raw).at h w d
  step-IsDead h (logs_in user) w d = (KeepsDead-issue p user).at h w d

  run-IsDead :
      (h : String) (calls : List (ℕ × Call)) (w : World)
      → IsDead h w.tokens
      → IsDead h (run calls w).tokens
  unfolding run
  run-IsDead h [] w d = d
  run-IsDead h ((delay, c) ∷ rest) w d =
      run-IsDead h rest (step c (record w { now = w.now + delay }))
        (step-IsDead h c (record w { now = w.now + delay }) d)

  -- A refresh token is accepted once at most: after a refresh that returned, and any later calls,
  -- whichever of their round trips fail, a refresh with the same token is refused as revoked, or
  -- fails on a call to the database.
  pub refresh_single_use :
      (raw : String) (later : List (ℕ × Call)) (w : World) (out : LoginOutput)
      → (refresh p raw w).0 ≡ ok out
      → let v = run later (refresh p raw w).1 in
        ((refresh p raw v).0 ≡ err refresh_token_revoked) ⊎ ((refresh p raw v).0 ≡ err other)
  refresh_single_use raw later w out done =
      refresh_dead p raw (run later (refresh p raw w).1)
        (run-IsDead (p.sha256_hex raw) later (refresh p raw w).1 (refresh-IsDead p raw w out done))

  -- Theft detection: where no call fails, a refresh with a token that is stored as revoked is
  -- refused, and leaves every stored token of its user revoked.
  pub refresh_reuse :
      (raw : String) (w : World) (t : RefreshToken)
      → IsHealthy w
      → first (has_hash (p.sha256_hex raw)) w.tokens ≡ some t
      → is_none t.revoked_at ≡ false
      → ((refresh p raw w).0 ≡ err refresh_token_revoked)
        × (all_of (closed_for t.user_id) (refresh p raw w).1.tokens ≡ true)
  unfolding refresh accept_token check_stored find_by_token_hash revoke_all_by_user_id trip
  refresh_reuse raw w t h found dead =
      ground (arith, h.up w.calls, h.up (suc w.calls), revoke_all_closed t.user_id w.now w.tokens)
