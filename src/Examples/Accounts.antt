-- ===== src/Examples/Accounts.antt =====
-- The theorem on passwords at a concrete input.
use Prim.Native.Char.{code}
use sentinelix_backend.Base.{◌≡◌, ◌&&◌, true, leb}
use sentinelix_backend.Domain.Password.{Classes, contains_rune, validate_password}
use sentinelix_backend.Domain.Strength.{accepts, validate_password_lem}

-- The classes of ASCII.
abbrev pub ascii : Classes
ascii = record {
  upper = λ c. leb 65 (code c) && leb (code c) 90;
  lower = λ c. leb 97 (code c) && leb (code c) 122;
  digit = λ c. leb 48 (code c) && leb (code c) 57;
}

-- Six characters in eight bytes.
validate_password_lem_example : accepts ascii (validate_password ascii "Aa1!éé") ≡ true
unfolding contains_rune
validate_password_lem_example = validate_password_lem ascii "Aa1!éé"
