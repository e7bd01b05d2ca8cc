-- ===== src/Auth/Rotation.antt =====
-- The table of refresh tokens: what rotation and revocation do to a row.
use sentinelix_backend.Base.{
  ℕ, String, ◌≡◌, refl, Bool, true, false, none, some, List, [], ◌∷◌, arith, ◌==◌, eq_iff, first,
  update_where, if◌then◌else◌,
}
use sentinelix_backend.Domain.Errors.{Result, ok, err}
use sentinelix_backend.Domain.Account.{RefreshToken, is_none}
use sentinelix_backend.World.{World, Act, trip, continue, ◌>>=◌, ◌>>◌}
use sentinelix_backend.World.Tokens.{
  has_hash, find_by_token_hash, revoke, revoke_row, revoke_all_by_user_id, create,
}

-- A row of the hash that is revoked.
abbrev pub IsDead : String → List RefreshToken → Type 0
IsDead h tokens =
    (t : RefreshToken) × (first (has_hash h) tokens ≡ some t) × (is_none t.revoked_at ≡ false)

abbrev pub hit : (RefreshToken → Bool) → ℕ → RefreshToken → RefreshToken
hit q now t = if q t then revoke_row now t else t

-- A revocation leaves the hash of a row, so the same row is found, revoked where the test hits it.
pub first-revoke :
    (h : String) (q : RefreshToken → Bool) (now : ℕ) (tokens : List RefreshToken) (t : RefreshToken)
    → first (has_hash h) tokens ≡ some t
    → first (has_hash h) (update_where q (revoke_row now) tokens) ≡ some (hit q now t)
unfolding revoke_row
first-revoke h q now [] t e = cc
first-revoke h q now (x ∷ xs) t e = ground (arith, first-revoke h q now xs t)

pub first-revoke_none :
    (h : String) (q : RefreshToken → Bool) (now : ℕ) (tokens : List RefreshToken)
    → first (has_hash h) tokens ≡ none
    → first (has_hash h) (update_where q (revoke_row now) tokens) ≡ none
unfolding revoke_row
first-revoke_none h q now [] e = refl
first-revoke_none h q now (x ∷ xs) e = ground (arith, first-revoke_none h q now xs)

hit_dead :
    (q : RefreshToken → Bool) (now : ℕ) (t : RefreshToken)
    → is_none t.revoked_at ≡ false
    → is_none (hit q now t).revoked_at ≡ false
unfolding revoke_row
hit_dead q now t d = ground arith

pub hit_self :
    (t : RefreshToken) (now : ℕ) → is_none (hit (λ x. x.id == t.id) now t).revoked_at ≡ false
unfolding revoke_row
hit_self t now = ground arith

-- An action after which every revoked token is still there, and revoked, whether it returns or fails.
pub record KeepsDead {ℓ} {A : Type ℓ} (m : World → Result A × World) : Type ℓ where
  pub at : (h : String) (w : World) → IsDead h w.tokens → IsDead h (m w).1.tokens

module _ {ℓ} {A : Type ℓ} where
  pub KeepsDead-reply : (f : World → Result A) → KeepsDead (λ w. (f w, w))
  KeepsDead-reply f = record { at = λ h w d. d }

  pub KeepsDead-if :
      (b : Bool) (m n : Act A) → KeepsDead m → KeepsDead n → KeepsDead (if b then m else n)
  KeepsDead-if true m n km kn = km
  KeepsDead-if false m n km kn = kn

module _ {ℓ κ} {A : Type ℓ} {B : Type κ} where
  KeepsDead-continue :
      (r : Result A) (f : A → Act B) (h : String) (w : World)
      → ((a : A) → KeepsDead (f a))
      → IsDead h w.tokens
      → IsDead h (continue r f w).1.tokens
  KeepsDead-continue (ok a) f h w k d = (k a).at h w d
  KeepsDead-continue (err e) f h w k d = d

  pub KeepsDead-bind :
      (m : Act A) (f : A → Act B) → KeepsDead m → ((a : A) → KeepsDead (f a)) → KeepsDead (m >>= f)
  KeepsDead-bind m f km kf = record {
    at = λ h w d. KeepsDead-continue (m w).0 f h (m w).1 kf (km.at h w d);
  }

  -- A result computed afterwards changes no table.
  pub KeepsDead-map :
      (m : Act A) (b : B)
      → KeepsDead m
      → (h : String) (w : World) → IsDead h w.tokens
      → IsDead h ((m >> λ v. (ok b, v)) w).1.tokens
  KeepsDead-map m b km h w d =
      (KeepsDead-bind m (λ _ v. (ok b, v)) km (λ _. KeepsDead-reply (λ _. ok b))).at h w d

pub KeepsDead-trip : KeepsDead trip
unfolding trip
KeepsDead-trip = record { at = λ h w d. d }

revoke_where-IsDead :
    (q : RefreshToken → Bool) (h : String) (w : World)
    → IsDead h w.tokens
    → IsDead h (update_where q (revoke_row w.now) w.tokens)
revoke_where-IsDead q h w (t, found, dead) =
    (hit q w.now t, first-revoke h q w.now w.tokens t found, hit_dead q w.now t dead)

abbrev revoking : (RefreshToken → Bool) → Act (Unit {0})
revoking q w = (ok tt, record w { tokens = update_where q (revoke_row w.now) w.tokens })

KeepsDead-revoking : (q : RefreshToken → Bool) → KeepsDead (revoking q)
KeepsDead-revoking q = record { at = λ h w d. revoke_where-IsDead q h w d }

pub KeepsDead-revoke : (id : ℕ) → KeepsDead (revoke id)
unfolding revoke
KeepsDead-revoke id =
    KeepsDead-bind trip (λ _. revoking (λ t. t.id == id)) KeepsDead-trip
      (λ _. KeepsDead-revoking (λ t. t.id == id))

pub KeepsDead-revoke_all : (user : ℕ) → KeepsDead (revoke_all_by_user_id user)
unfolding revoke_all_by_user_id
KeepsDead-revoke_all user =
    KeepsDead-bind trip (λ _. revoking (λ t. t.user_id == user)) KeepsDead-trip
      (λ _. KeepsDead-revoking (λ t. t.user_id == user))

pub KeepsDead-find : (hash : String) → KeepsDead (find_by_token_hash hash)
unfolding find_by_token_hash trip
KeepsDead-find hash = record { at = λ h w d. d_of h w d }
  where
    d_of :
        (h : String) (w : World) → IsDead h w.tokens → IsDead h (find_by_token_hash hash w).1.tokens
    d_of h w (t, found, dead) = (t, ground arith, dead)

pub KeepsDead-create :
    (user : ℕ) (hash : String) (expires_at : ℕ) → KeepsDead (create user hash expires_at)
unfolding create trip
KeepsDead-create user hash expires_at = record { at = λ h w d. d_of h w d }
  where
    d_of :
        (h : String) (w : World)
        → IsDead h w.tokens
        → IsDead h (create user hash expires_at w).1.tokens
    d_of h w (t, found, dead) = (t, ground (arith, eq_iff hash h), dead)
