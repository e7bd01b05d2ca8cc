-- ===== src/Dashboard/Keeps.antt =====
-- Properties of the world that last under an action, step by step.
use sentinelix_backend.Base.{◌≡◌, refl}
use sentinelix_backend.Domain.Errors.{Result, ok, err}
use sentinelix_backend.World.{World, Act, lift, continue, ◌>>=◌, ◌>>◌}

-- An action under which a property of the world lasts.
abbrev pub Keeps {ℓ} : {A : Type ℓ} → (World → Type 0) → Act A → Type 0
Keeps P m = (w : World) → P w → P (m w).1

module _ (P : World → Type 0) where
  continue-Keeps {ℓ κ} :
      {A : Type ℓ} {B : Type κ} (r : Result A) (f : A → Act B) (w : World)
      → ((a : A) → Keeps P (f a))
      → P w
      → P (continue r f w).1
  continue-Keeps (ok a) f w h p = h a w p
  continue-Keeps (err e) f w h p = p

  pub bind-Keeps {ℓ κ} :
      {A : Type ℓ} {B : Type κ} (m : Act A) (f : A → Act B)
      → Keeps P m
      → ((a : A) → Keeps P (f a))
      → Keeps P (m >>= f)
  bind-Keeps m f h k w p = continue-Keeps (m w).0 f (m w).1 k (h w p)

  -- Behind a test, what follows may use that it passed.
  pub checked-Keeps {κ} :
      {B : Type κ} (r : Result (Unit {0})) (k : Act B)
      → (r ≡ ok tt → Keeps P k)
      → Keeps P (lift r >> k)
  checked-Keeps (ok u) k h w p = h refl w p
  checked-Keeps (err e) k h w p = p
