-- ===== src/Validation/Chars.antt =====
-- The character tests and lengths of Rust's standard library that the program relies on, over
-- Unicode scalar values.
use vectis.Base.{
  List, All, refl, true, ◌<◌, ◌/◌, ◌%◌, ℕ, ◌+◌, ◌≡◌, Bool, false, ◌&&◌, ◌||◌, [], ◌∷◌, ◌++◌, arith,
  ltb, leb, ◌==◌, if◌then◌else◌, Text, all, inl, inr, Bool-cases,
}

-- `char::is_control`: the general category Cc.
unfoldable pub is_control : ℕ → Bool
is_control c = leb c 0x1f || (leb 0x7f c && leb c 0x9f)

-- `char::is_whitespace`: the property White_Space.
unfoldable pub is_whitespace : ℕ → Bool
is_whitespace c =
    (leb 0x09 c && leb c 0x0d)
    || c == 0x20
    || c == 0x85
    || c == 0xa0
    || c == 0x1680
    || (leb 0x2000 c && leb c 0x200a)
    || c == 0x2028
    || c == 0x2029
    || c == 0x202f
    || c == 0x205f
    || c == 0x3000

-- `str::trim().is_empty()`: no character survives the trimming.
unfoldable pub is_blank : Text → Bool
unfolding is_whitespace
is_blank = all is_whitespace

unfoldable pub is_ascii_digit : ℕ → Bool
is_ascii_digit c = leb b'0' c && leb c b'9'

unfoldable pub is_ascii_uppercase : ℕ → Bool
is_ascii_uppercase c = leb b'A' c && leb c b'Z'

unfoldable pub is_ascii_lowercase : ℕ → Bool
is_ascii_lowercase c = leb b'a' c && leb c b'z'

unfoldable pub is_ascii_alphanumeric : ℕ → Bool
unfolding is_ascii_digit is_ascii_uppercase is_ascii_lowercase
is_ascii_alphanumeric c = is_ascii_digit c || is_ascii_uppercase c || is_ascii_lowercase c

unfoldable pub is_ascii_hexdigit : ℕ → Bool
unfolding is_ascii_digit
is_ascii_hexdigit c = is_ascii_digit c || (leb b'A' c && leb c b'F') || (leb b'a' c && leb c b'f')

-- The UTF-8 bytes of one scalar value, and `str::len`.
unfoldable pub utf8_len : ℕ → ℕ
utf8_len c = if ltb c 0x80 then 1 else if ltb c 0x800 then 2 else if ltb c 0x10000 then 3 else 4

unfoldable pub byte_len : Text → ℕ
unfolding utf8_len
byte_len [] = 0
byte_len (c ∷ s) = utf8_len c + byte_len s

pub byte_len-append : (s t : Text) → byte_len (s ++ t) ≡ byte_len s + byte_len t
unfolding byte_len
byte_len-append [] t = omega arith
byte_len-append (c ∷ s) t = omega (arith, byte_len-append s t)

-- A text with a character that is no white space is not blank.
pub is_blank-append :
    (s : Text) (c : ℕ) (t : Text) → is_whitespace c ≡ false → is_blank (s ++ c ∷ t) ≡ false
unfolding is_blank
is_blank-append [] c t h = rw h
is_blank-append (x ∷ s) c t h = elim (Bool-cases (is_whitespace x)) [
  | inl e ↦ rw e (is_blank-append s c t h)
  | inr e ↦ rw e
]

-- `str::as_bytes`: the UTF-8 encoding.
unfoldable pub utf8_char : ℕ → List ℕ
utf8_char c =
    if ltb c 0x80
    then c ∷ []
    else if ltb c 0x800
    then (0xc0 + c / 64) ∷ (0x80 + c % 64) ∷ []
    else if ltb c 0x10000
    then (0xe0 + c / 4096) ∷ (0x80 + c / 64 % 64) ∷ (0x80 + c % 64) ∷ []
    else (0xf0 + c / 262144) ∷ (0x80 + c / 4096 % 64) ∷ (0x80 + c / 64 % 64) ∷ (0x80 + c % 64) ∷ []

unfoldable pub as_bytes : Text → List ℕ
unfolding utf8_char
as_bytes [] = []
as_bytes (c ∷ s) = utf8_char c ++ as_bytes s

abbrev pub IsAscii : Text → Type 0
IsAscii = All (λ c. c < 128)

-- An ASCII text is its own encoding.
pub as_bytes-ascii : (s : Text) → IsAscii s → as_bytes s ≡ s
unfolding as_bytes
as_bytes-ascii [] h = refl
as_bytes-ascii (c ∷ s) h = ground (arith, as_bytes-ascii s h.1)

pub all-is_ascii_hexdigit-IsAscii : (s : Text) → all is_ascii_hexdigit s ≡ true → IsAscii s
unfolding is_ascii_hexdigit
all-is_ascii_hexdigit-IsAscii [] h = tt
all-is_ascii_hexdigit-IsAscii (c ∷ s) h =
    (ground arith, all-is_ascii_hexdigit-IsAscii s (ground arith))
