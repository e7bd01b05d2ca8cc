-- ===== src/Domain/Strength.antt =====
-- Which passwords ValidatePassword accepts.
use Prim.Native.Char.{Char, code}
use Prim.Native.String.{String, [], ◌∷◌, len}
use mathlib.Core.List.{List}
use sentinelix_backend.Domain.Errors.{PasswordRule}
use sentinelix_backend.Base.{
  ℕ, zero, suc, ◌≡◌, refl, sym, ap, ◌∙◌, ◌<◌, ◌≤◌, inl, inr, Bool, true, false, not, ◌&&◌, ◌||◌,
  arith, leb, ltb, ◌==◌, Bool-cases,
}
use sentinelix_backend.Domain.Password.{
  Classes, Seen, unseen, see, scan, contains_rune, special_chars, validate_password,
}

abbrev pub some_char : (Char → Bool) → String → Bool
some_char q [] = false
some_char q (c ∷ s) = q c || some_char q s

-- The punctuation of ASCII.
abbrev pub punctuation : ℕ → Bool
punctuation n =
    (leb 33 n && leb n 47)
    || (leb 58 n && leb n 64)
    || (leb 91 n && leb n 96)
    || (leb 123 n && leb n 126)

abbrev has_code : String → ℕ → Bool
has_code [] n = false
has_code (c ∷ s) n = code c == n || has_code s n

contains_rune_lem : (s : String) (r : Char) → contains_rune s r ≡ has_code s (code r)
unfolding contains_rune
contains_rune_lem [] r = refl
contains_rune_lem (c ∷ s) r = ap (λ b. code c == code r || b) (contains_rune_lem s r)

abbrev codes_below : ℕ → String → Bool
codes_below m [] = true
codes_below m (c ∷ s) = ltb (code c) m && codes_below m s

no_code : (m n : ℕ) (s : String) → codes_below m s ≡ true → m ≤ n → has_code s n ≡ false
no_code m n [] h k = refl
no_code m n (c ∷ s) h k = ground (arith, no_code m n s)

-- Two tests that agree below a bound.
abbrev same_bool : Bool → Bool → Bool
same_bool true b = b
same_bool false b = not b

same_bool_lem : (a b : Bool) → same_bool a b ≡ true → a ≡ b
same_bool_lem true b h = sym h
same_bool_lem false b h = ground (arith, h)

abbrev agree_below : (ℕ → Bool) → (ℕ → Bool) → ℕ → Bool
agree_below p q zero = true
agree_below p q (suc n) = same_bool (p n) (q n) && agree_below p q n

agree_below_lem : (p q : ℕ → Bool) (m n : ℕ) → agree_below p q m ≡ true → n < m → p n ≡ q n
agree_below_lem p q zero n h k = absurd (omega (arith, k))
agree_below_lem p q (suc m) n h k = elim (Bool-cases (n == m)) [
  | inl at ↦
      let here : n ≡ m = ground (arith, at) in
      rw here (same_bool_lem (p m) (q m) (ground (arith, h)))
  | inr off ↦ agree_below_lem p q m n (ground (arith, h)) (ground (arith, off, k))
]

-- The special characters are the punctuation of ASCII.
special_chars_lem : (c : Char) → contains_rune special_chars c ≡ punctuation (code c)
special_chars_lem c = contains_rune_lem special_chars c ∙ elim (Bool-cases (ltb (code c) 127)) [
  | inl low ↦
      agree_below_lem (has_code special_chars) punctuation 127 (code c) refl (ground (arith, low))
  | inr high ↦
      let far : 127 ≤ code c = ground (arith, high) in
      no_code 127 (code c) special_chars refl far ∙ ground (arith, far)
]

module _ (u : Classes) where
  -- The classes as the switch sees them: the first that fits.
  abbrev pub counts_lower : Char → Bool
  counts_lower c = not (u.upper c) && u.lower c

  abbrev pub counts_digit : Char → Bool
  counts_digit c = not (u.upper c) && not (u.lower c) && u.digit c

  abbrev pub counts_special : Char → Bool
  counts_special c = not (u.upper c) && not (u.lower c) && not (u.digit c) && punctuation (code c)

  scan_lem :
      (p : String) (s : Seen)
      → scan u p s ≡ record {
        has_upper = s.has_upper || some_char u.upper p;
        has_lower = s.has_lower || some_char counts_lower p;
        has_digit = s.has_digit || some_char counts_digit p;
        has_special = s.has_special || some_char counts_special p;
      }
  unfolding scan see
  scan_lem [] s = ground arith
  scan_lem (c ∷ p) s = ground (arith, scan_lem p (see u c s), special_chars_lem c)

  abbrev pub accepts : List PasswordRule → Bool
  accepts List.[] = true
  accepts (List.◌∷◌ r rest) = false

  -- A password is accepted exactly if it has at least eight bytes, which need not be eight
  -- characters, and a character of each class: upper case, lower case, digit, and the punctuation of
  -- ASCII, where a character counts for the first of these that fits.
  pub validate_password_lem :
      (p : String)
      → accepts (validate_password u p) ≡ (
          leb 8 (len p)
          && some_char u.upper p
          && some_char counts_lower p
          && some_char counts_digit p
          && some_char counts_special p)
  unfolding validate_password
  validate_password_lem p = rw (scan_lem p unseen) (ground arith)
