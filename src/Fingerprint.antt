-- ===== src/Fingerprint.antt =====
-- pkg/fingerprint/hash.go: the key under which events are grouped into issues.
-- SHA-256 in hexadecimal is an argument.
pub mod Normal
use Prim.Native.Char.{Char, code}
use Prim.Native.String.{String, [], ◌∷◌, ◌++◌}
use mathlib.Core.List
use mathlib.Core.List.{List}
use sentinelix_backend.Base.{ℕ, ◌≡◌, Bool, true, false, ◌&&◌, leb, ◌==◌, str_eq, if◌then◌else◌}
use sentinelix_backend.Base.Text.{trim_space}

-- `\d` of the regular expression is an ASCII digit.
abbrev pub is_digit : Char → Bool
is_digit c = leb b'0' (code c) && leb (code c) b'9'

abbrev pub is_colon : Char → Bool
is_colon c = code c == b':'

abbrev pub starts_digit : String → Bool
starts_digit [] = false
starts_digit (c ∷ s) = is_digit c

-- ReplaceAllString of `:\d+` by nothing. The flag says that a match is being read.
unfoldable pub strip : Bool → String → String
strip m [] = []
strip m (c ∷ s) =
    let skipped = strip true s in
    let kept = strip false s in
    if m && is_digit c then skipped else if is_colon c && starts_digit s then skipped else c ∷ kept

unfoldable pub normalize_frame : String → String
unfolding strip
normalize_frame frame = strip false frame

abbrev pub push_char : Char → List String → List String
push_char c List.[] = List.◌∷◌ (c ∷ []) List.[]
push_char c (List.◌∷◌ line rest) = List.◌∷◌ (c ∷ line) rest

-- strings.Split(stackTrace, "\n")
unfoldable pub split_lines : String → List String
split_lines [] = List.◌∷◌ [] List.[]
split_lines (c ∷ s) =
    let rest = split_lines s in if code c == 10 then List.◌∷◌ [] rest else push_char c rest

-- The loop: the first line with something left after TrimSpace.
unfoldable pub first_frame : List String → String
first_frame List.[] = []
first_frame (List.◌∷◌ line rest) =
    let later = first_frame rest in
    let trimmed = trim_space line in if str_eq trimmed "" then later else trimmed

unfoldable pub extract_top_frame : String → String
unfolding split_lines first_frame trim_space
extract_top_frame trace = first_frame (split_lines trace)

-- The text that is hashed.
unfoldable pub raw_key : String → String → String
raw_key message normalized = message ++ ("|" ++ normalized)

unfoldable pub compute : (String → String) → String → String → String
compute sha256_hex message trace =
    sha256_hex (raw_key message (normalize_frame (extract_top_frame trace)))
