-- ===== src/World/Tokens.antt =====
-- internal/repository/postgres/refresh_token_repo.go and user_repo.go.
use sentinelix_backend.Base.{
  ℕ, suc, String, Bool, none, some, ◌∷◌, ◌==◌, str_eq, first, update_where, if◌then◌else◌,
}
use sentinelix_backend.Domain.Errors.{ok, err, refresh_token_not_found, user_not_found, other}
use sentinelix_backend.Domain.Account.{User, RefreshToken, is_none}
use sentinelix_backend.World.{micros, Act, query, exec, trip, ◌>>◌}
use sentinelix_backend.World.Projects.{or_fail}

abbrev pub has_hash : String → RefreshToken → Bool
has_hash h t = str_eq t.token_hash h

-- The column token_hash is UNIQUE: a second row with the hash is refused.
unfoldable pub create : ℕ → String → ℕ → Act ℕ
unfolding trip
create user hash expires_at = trip >> λ w. elim (first (has_hash hash) w.tokens) [
  | some t ↦ (err other, w)
  | none ↦ (
    ok w.serial,
    record w {
      serial = suc w.serial;
      tokens =
          record {
            id = w.serial;
            user_id = user;
            token_hash = hash;
            expires_at = micros expires_at;
            revoked_at = none;
            created_at = w.now;
          }
          ∷ w.tokens;
    },
  )
]

unfoldable pub find_by_token_hash : String → Act RefreshToken
unfolding trip
find_by_token_hash h = query λ w. or_fail (first (has_hash h) w.tokens) refresh_token_not_found

-- SET revoked_at = now() WHERE … AND revoked_at IS NULL
unfoldable pub revoke_row : ℕ → RefreshToken → RefreshToken
revoke_row now t = if is_none t.revoked_at then record t { revoked_at = some now } else t

unfoldable pub revoke : ℕ → Act (Unit {0})
unfolding trip revoke_row
revoke id = exec λ w. record w {
  tokens = update_where (λ (t : RefreshToken). t.id == id) (revoke_row w.now) w.tokens;
}

unfoldable pub revoke_all_by_user_id : ℕ → Act (Unit {0})
unfolding trip revoke_row
revoke_all_by_user_id user = exec λ w. record w {
  tokens = update_where (λ (t : RefreshToken). t.user_id == user) (revoke_row w.now) w.tokens;
}

unfoldable pub find_by_email : String → Act User
unfolding trip
find_by_email e = query λ w. or_fail (first (λ (u : User). str_eq u.email e) w.users) user_not_found

-- The column email is UNIQUE.
unfoldable pub create_user : String → String → Act ℕ
unfolding trip
create_user email hash = trip >> λ w. elim (first (λ (u : User). str_eq u.email email) w.users) [
  | some u ↦ (err other, w)
  | none ↦ (
    ok w.serial,
    record w {
      serial = suc w.serial;
      users =
          record { id = w.serial; email = email; password_hash = hash; created_at = w.now }
          ∷ w.users;
    },
  )
]
