-- ===== src/Fingerprint/Normal.antt =====
-- What normalising a stack frame promises.
use Prim.Native.Char.{Char}
use Prim.Native.String.{String, [], ◌∷◌, ◌++◌}
use text.Mathlib.TextLemmas.{cons-append, nil-append, append_assoc}
use sentinelix_backend.Base.{◌≡◌, refl, ap, ◌∙◌, Bool, true, false, ◌&&◌, arith, if◌then◌else◌}
use sentinelix_backend.Fingerprint.{
  is_digit, is_colon, starts_digit, strip, normalize_frame, raw_key,
}

-- No colon with a digit behind it.
abbrev pub no_line_number : String → Bool
no_line_number [] = true
no_line_number (c ∷ s) = if is_colon c && starts_digit s then false else no_line_number s

abbrev pub all_digits : String → Bool
all_digits [] = true
all_digits (c ∷ s) = is_digit c && all_digits s

-- A match is read to its end.
strip-true_head : (s : String) → starts_digit (strip true s) ≡ false
unfolding strip
strip-true_head [] = refl
strip-true_head (c ∷ s) = ground (arith, strip-true_head s)

strip-false_head : (s : String) → starts_digit s ≡ false → starts_digit (strip false s) ≡ false
unfolding strip
strip-false_head [] h = refl
strip-false_head (c ∷ s) h = ground (arith, strip-true_head s)

strip_clean : (m : Bool) (s : String) → no_line_number (strip m s) ≡ true
unfolding strip
strip_clean m [] = refl
strip_clean m (c ∷ s) = ground (arith, strip_clean true s, strip_clean false s, strip-false_head s)

strip_fixed : (s : String) → no_line_number s ≡ true → strip false s ≡ s
unfolding strip
strip_fixed [] h = refl
strip_fixed (c ∷ s) h = ground (arith, strip_fixed s)

-- A normalised frame has no line number left, and normalising it again changes nothing.
pub normalize_frame_lem :
    (frame : String)
    → (no_line_number (normalize_frame frame) ≡ true)
      × (normalize_frame (normalize_frame frame) ≡ normalize_frame frame)
unfolding normalize_frame
normalize_frame_lem frame =
    (strip_clean false frame, strip_fixed (strip false frame) (strip_clean false frame))

strip_digits : (d t : String) → all_digits d ≡ true → strip true (d ++ t) ≡ strip true t
unfolding strip
strip_digits [] t h = rw (nil-append t)
strip_digits (c ∷ d) t h = rw (cons-append c d t) (ground (arith, strip_digits d t))

strip_flag : (t : String) → starts_digit t ≡ false → strip true t ≡ strip false t
unfolding strip
strip_flag [] h = refl
strip_flag (c ∷ t) h = ground arith

-- A colon in front of the number hides it from what stands before.
same_start :
    (s d t : String) (k e : Char)
    → is_colon k ≡ true
    → starts_digit t ≡ false
    → starts_digit (s ++ k ∷ e ∷ (d ++ t)) ≡ starts_digit (s ++ t)
same_start [] d t k e hk ht = rw (nil-append (k ∷ e ∷ (d ++ t)), nil-append t) (ground arith)
same_start (c ∷ s) d t k e hk ht = rw (cons-append c s (k ∷ e ∷ (d ++ t)), cons-append c s t)

strip_number :
    (m : Bool) (s d t : String) (k e : Char)
    → is_colon k ≡ true
    → all_digits (e ∷ d) ≡ true
    → starts_digit t ≡ false
    → strip m (s ++ k ∷ e ∷ (d ++ t)) ≡ strip m (s ++ t)
unfolding strip
strip_number m [] d t k e hk hd ht =
    rw (nil-append (k ∷ e ∷ (d ++ t)), nil-append t)
      (ground (arith, strip_digits d t, strip_flag t ht))
strip_number m (c ∷ s) d t k e hk hd ht =
    rw (cons-append c s (k ∷ e ∷ (d ++ t)), cons-append c s t)
      (ground (
        arith,
        strip_number true s d t k e hk hd ht,
        strip_number false s d t k e hk hd ht,
        same_start s d t k e hk ht,
      ))

-- A line number anywhere in a frame, a colon with digits up to the next character that is none,
-- does not count: the frame normalises as it does without it.
pub normalize_frame-number :
    (s d t : String) (k e : Char)
    → is_colon k ≡ true
    → all_digits (e ∷ d) ≡ true
    → starts_digit t ≡ false
    → normalize_frame (s ++ k ∷ e ∷ (d ++ t)) ≡ normalize_frame (s ++ t)
unfolding normalize_frame
normalize_frame-number s d t k e hk hd ht = strip_number false s d t k e hk hd ht

-- The separator does not tell where the message ends: a message with a "|" of its own has the
-- key of the shorter message with the longer frame.
pub raw_key_collision : (a b c : String) → raw_key (a ++ ("|" ++ b)) c ≡ raw_key a (b ++ ("|" ++ c))
unfolding raw_key
raw_key_collision a b c =
    append_assoc a ("|" ++ b) ("|" ++ c) ∙ ap (λ s. a ++ s) (append_assoc "|" b ("|" ++ c))
