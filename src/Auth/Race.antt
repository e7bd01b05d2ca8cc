-- ===== src/Auth/Race.antt =====
-- Two requests with one refresh token at the same time. Revoke does not say whether it revoked.
use sentinelix_backend.Base.{
  ℕ, suc, ◌+◌, String, ◌≡◌, refl, true, false, none, some, List, [], ◌∷◌, arith, str_eq, ◌==◌,
  first, update_where,
}
use sentinelix_backend.Domain.Errors.{ok, is_ok}
use sentinelix_backend.Domain.Account.{RefreshToken}
use sentinelix_backend.World.{World, IsHealthy, trip}
use sentinelix_backend.World.Tokens.{has_hash, find_by_token_hash, revoke, revoke_row, create}
use sentinelix_backend.Auth.{Platform, issue_tokens, accept_token, check_stored, rotate}

first-revoked :
    (id now : ℕ) (h : String) (tokens : List RefreshToken)
    → first (has_hash h) tokens ≡ none
    → first (has_hash h) (update_where (λ (t : RefreshToken). t.id == id) (revoke_row now) tokens)
      ≡ none
unfolding revoke_row
first-revoked id now h [] e = refl
first-revoked id now h (t ∷ tokens) e = ground (arith, first-revoked id now h tokens)

module _ (p : Platform) where
  rotate_ok :
      (t : RefreshToken) (access raw : String) (w : World)
      → IsHealthy w
      → p.sign t.user_id w.now ≡ some access
      → p.random_token (suc w.calls) ≡ some raw
      → first (has_hash (p.sha256_hex raw)) w.tokens ≡ none
      → is_ok (rotate p t w).0 ≡ true
  unfolding rotate revoke issue_tokens create trip
  rotate_ok t access raw w h s r fresh = ground (
    arith,
    s,
    r,
    h.up w.calls,
    h.up (suc w.calls),
    first-revoked t.id w.now (p.sha256_hex raw) w.tokens fresh,
  )

  rotate_world :
      (t : RefreshToken) (access raw h : String) (w : World)
      → IsHealthy w
      → p.sign t.user_id w.now ≡ some access
      → p.random_token (suc w.calls) ≡ some raw
      → first (has_hash (p.sha256_hex raw)) w.tokens ≡ none
      → first (has_hash h) w.tokens ≡ none
      → str_eq (p.sha256_hex raw) h ≡ false
      → let v = (rotate p t w).1 in
        (v.outage ≡ w.outage)
        × (v.http_status ≡ w.http_status)
        × (v.now ≡ w.now)
        × (v.calls ≡ suc (suc w.calls))
        × (first (has_hash h) v.tokens ≡ none)
  unfolding rotate revoke issue_tokens create trip
  rotate_world t access raw h w ok_w s r fresh other_fresh differ = ground (
    arith,
    s,
    r,
    ok_w.up w.calls,
    ok_w.up (suc w.calls),
    first-revoked t.id w.now (p.sha256_hex raw) w.tokens fresh,
    first-revoked t.id w.now h w.tokens other_fresh,
  )

  -- Accepting a valid token only reads.
  accept_reads :
      (raw : String) (t : RefreshToken) (w : World)
      → (accept_token p raw w).0 ≡ ok t
      → (accept_token p raw w).1 ≡ record w { calls = suc w.calls }
  unfolding accept_token find_by_token_hash check_stored trip
  accept_reads raw t w h = ground arith

  accept_again :
      (raw : String) (t : RefreshToken) (w : World)
      → IsHealthy w
      → (accept_token p raw w).0 ≡ ok t
      → (accept_token p raw (record w { calls = suc w.calls })).0 ≡ ok t
  unfolding accept_token find_by_token_hash check_stored trip
  accept_again raw t w healthy h = ground (arith, healthy.up w.calls, healthy.up (suc w.calls))

  -- Where no call fails, two requests that both read a valid token before either revokes it both
  -- return new tokens: the second is not refused. Signing and the random bytes succeed, and the
  -- hashes of the new tokens differ and are unused.
  pub refresh_race :
      (raw access new new' : String) (t : RefreshToken) (w : World)
      → IsHealthy w
      → (accept_token p raw w).0 ≡ ok t
      → p.sign t.user_id w.now ≡ some access
      → p.random_token (w.calls + 3) ≡ some new
      → p.random_token (w.calls + 5) ≡ some new'
      → first (has_hash (p.sha256_hex new)) w.tokens ≡ none
      → first (has_hash (p.sha256_hex new')) w.tokens ≡ none
      → str_eq (p.sha256_hex new) (p.sha256_hex new') ≡ false
      → let one = accept_token p raw w in
        let two = accept_token p raw one.1 in
        let rotated = rotate p t two.1 in
        (two.0 ≡ ok t) × (is_ok rotated.0 ≡ true) × (is_ok (rotate p t rotated.1).0 ≡ true)
  refresh_race raw access new new' t w healthy a s r r' f f' differ =
      let w1 : World = record w { calls = suc w.calls } in
      let w2 : World = record w { calls = suc (suc w.calls) } in
      let healthy1 : IsHealthy w1 = record { up = healthy.up; accepted = healthy.accepted } in
      let healthy2 : IsHealthy w2 = record { up = healthy.up; accepted = healthy.accepted } in
      let again = accept_again raw t w healthy a in
      let moment : p.random_token (suc w2.calls) ≡ some new = ground (arith, r) in
      let (o, hs, now, calls, unused) =
        rotate_world t access new (p.sha256_hex new') w2 healthy2 s moment f f' differ in
      let v = (rotate p t w2).1 in
      let healthy_v : IsHealthy v = record {
        up = rw o healthy.up;
        accepted = rw hs healthy.accepted;
      } in
      let later : p.random_token (suc v.calls) ≡ some new' = ground (arith, calls, r') in
      rw (accept_reads raw t w a) (
        rw (accept_reads raw t w1 again) (
          again,
          rotate_ok t access new w2 healthy2 s moment f,
          rotate_ok t access new' v healthy_v (rw now s) later unused,
        ))
