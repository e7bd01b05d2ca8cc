-- ===== src/Base/Sort.antt =====
-- ORDER BY … DESC and ASC: insertion sorts by a key.
use sentinelix_backend.Base.Tests.{leb, if◌then◌else◌}
use Prim.Native.Nat.{ℕ, ◌≤◌}
use mathlib.Core.Path.{◌≡◌, refl}
use mathlib.Core.List.{List, [], ◌∷◌}
use native.Mathlib.Omega.{arith}

module _ {ℓ} {A : Type ℓ} (key : A → ℕ) where
  abbrev pub insert_desc : A → List A → List A
  insert_desc x [] = x ∷ []
  insert_desc x (y ∷ ys) =
      let rest = insert_desc x ys in if leb (key y) (key x) then x ∷ y ∷ ys else y ∷ rest

  abbrev pub order_desc : List A → List A
  order_desc [] = []
  order_desc (x ∷ xs) = insert_desc x (order_desc xs)

  -- ORDER BY … ASC
  abbrev pub insert_asc : A → List A → List A
  insert_asc x [] = x ∷ []
  insert_asc x (y ∷ ys) =
      let rest = insert_asc x ys in if leb (key x) (key y) then x ∷ y ∷ ys else y ∷ rest

  abbrev pub order_asc : List A → List A
  order_asc [] = []
  order_asc (x ∷ xs) = insert_asc x (order_asc xs)

  -- Each element's key is at most the bound.
  abbrev pub Bounded : ℕ → List A → Type 0
  Bounded b [] = Unit {0}
  Bounded b (x ∷ xs) = (key x ≤ b) × Bounded b xs

  -- Newest first.
  abbrev pub IsDesc : List A → Type 0
  IsDesc [] = Unit {0}
  IsDesc (x ∷ xs) = Bounded (key x) xs × IsDesc xs

  -- A list in order stays as it is.
  pub insert_desc-top : (x : A) (ys : List A) → Bounded (key x) ys → insert_desc x ys ≡ x ∷ ys
  insert_desc-top x [] h = refl
  insert_desc-top x (y ∷ ys) h = ground arith

  pub order_desc-IsDesc : (xs : List A) → IsDesc xs → order_desc xs ≡ xs
  order_desc-IsDesc [] h = refl
  order_desc-IsDesc (x ∷ xs) h = rw (order_desc-IsDesc xs h.1) (insert_desc-top x xs h.0)
