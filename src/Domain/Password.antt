-- ===== src/Domain/Password.antt =====
-- internal/domain/password.go. Go's unicode.IsUpper, IsLower and IsDigit are arguments: their
-- tables are the language's.
use Prim.Native.Char.{Char, code}
use Prim.Native.String.{String, [], ◌∷◌, len}
use mathlib.Core.List.{List, ◌++◌}
use sentinelix_backend.Base.{ℕ, Bool, true, false, ◌||◌, ltb, ◌==◌, if◌then◌else◌}
use sentinelix_backend.Domain.Errors.{
  PasswordRule, too_short, needs_uppercase, needs_lowercase, needs_digit, needs_special_char,
}

abbrev pub password_min_length : ℕ
password_min_length = 8

-- strings.ContainsRune
unfoldable pub contains_rune : String → Char → Bool
contains_rune [] r = false
contains_rune (c ∷ s) r = code c == code r || contains_rune s r

abbrev pub special_chars : String
special_chars = "!@#$%^&*()_+-=[]{}|;:'\",.<>?/~`\\"

pub record Classes : Type 0 where
  pub upper : Char → Bool
  pub lower : Char → Bool
  pub digit : Char → Bool

pub record Seen : Type 0 where
  pub has_upper : Bool
  pub has_lower : Bool
  pub has_digit : Bool
  pub has_special : Bool

abbrev pub unseen : Seen
unseen = record { has_upper = false; has_lower = false; has_digit = false; has_special = false }

module _ (u : Classes) where
  -- One round of the loop: the switch takes the first class that fits.
  unfoldable pub see : Char → Seen → Seen
  see r s =
      if u.upper r
      then record s { has_upper = true }
      else if u.lower r
      then record s { has_lower = true }
      else if u.digit r
      then record s { has_digit = true }
      else if contains_rune special_chars r
      then record s { has_special = true }
      else s

  unfoldable pub scan : String → Seen → Seen
  scan [] s = s
  scan (r ∷ rest) s = scan rest (see r s)

  abbrev report : Bool → PasswordRule → List PasswordRule
  report true rule = List.[]
  report false rule = List.◌∷◌ rule List.[]

  -- ValidatePassword: every rule that fails, in the order of the checks.
  unfoldable pub validate_password : String → List PasswordRule
  unfolding scan see
  validate_password p =
      let seen = scan p unseen in
      (if ltb (len p) password_min_length then List.◌∷◌ too_short List.[] else List.[])
      ++ report seen.has_upper needs_uppercase
      ++ report seen.has_lower needs_lowercase
      ++ report seen.has_digit needs_digit
      ++ report seen.has_special needs_special_char
