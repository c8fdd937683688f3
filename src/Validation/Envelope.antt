-- ===== src/Validation/Envelope.antt =====
-- The envelope of three base64 segments (src/core/validation.rs).
use vectis.Base.{
  ℕ, Bool, true, false, not, ◌&&◌, ◌||◌, List, [], ◌∷◌, Option, some, none, ltb, ◌==◌,
  if◌then◌else◌, String, Text, all, length,
}
use vectis.Error.{DynError}
use vectis.Error.Result.{Result, ok, err, ◌>>=◌, ◌>>◌, reject}
use vectis.Validation.Chars.{is_blank, byte_len}
use vectis.Validation.Fields.{invalid}
use vectis.Validation.Split.{split, join}

-- `u8::is_ascii_whitespace` and `u8::is_ascii_control`
unfoldable pub is_ascii_whitespace : ℕ → Bool
is_ascii_whitespace c = c == 0x20 || c == 0x09 || c == 0x0a || c == 0x0c || c == 0x0d

unfoldable pub is_ascii_control : ℕ → Bool
is_ascii_control c = ltb c 0x20 || c == 0x7f

-- The engine STANDARD of the crate base64, and `str::from_utf8`.
pub record Base64 : Type 0 where
  pub encode : List ℕ → Text
  pub decode : Text → Option (List ℕ)
  pub from_utf8 : List ℕ → Option Text

-- A byte of a segment: ASCII without white space, controls and the separator.
unfoldable pub is_segment_char : ℕ → Bool
unfolding is_ascii_whitespace is_ascii_control
is_segment_char c =
    ltb c 0x80 && not (is_ascii_whitespace c || is_ascii_control c) && not (c == b'.')

unfoldable pub is_envelope_char : ℕ → Bool
unfolding is_ascii_whitespace is_ascii_control
is_envelope_char c = ltb c 0x80 && not (is_ascii_whitespace c || is_ascii_control c)

abbrev pub Segments : Type 0
Segments = Text × Text × Text

abbrev pub is_empty_text : Text → Bool
is_empty_text [] = true
is_empty_text (_ ∷ _) = false

unfoldable pub sections_error : String → DynError
sections_error field = invalid field " must have ciphertext.nonce.aad base64 sections"

unfoldable pub three_parts : String → List Text → Result DynError Segments
unfolding sections_error
three_parts field (ciphertext ∷ nonce ∷ aad ∷ []) =
    if is_empty_text ciphertext || is_empty_text nonce || is_empty_text aad
    then err (sections_error field)
    else ok (ciphertext, nonce, aad)
three_parts field _ = err (sections_error field)

unfoldable pub split_base64_standard_envelope_segments :
    String → Text → ℕ → Result DynError Segments
unfolding three_parts is_envelope_char
split_base64_standard_envelope_segments field value max_chars = do
  reject (is_empty_text value) (invalid field " must not be empty")
  reject (ltb max_chars (byte_len value)) (invalid field " exceeds maximum allowed length")
  reject (not (all is_envelope_char value)) (invalid field " contains invalid base64")
  three_parts field (split b'.' value)

unfoldable pub decode_part : Base64 → String → Text → Result DynError (List ℕ)
decode_part base64 field part = elim (base64.decode part) [
  | none ↦ err (invalid field " contains invalid base64")
  | some bytes ↦ ok bytes
]

unfoldable pub validate_base64_standard_envelope_segments :
    Base64 → String → Text → ℕ → Result DynError Segments
unfolding split_base64_standard_envelope_segments decode_part
validate_base64_standard_envelope_segments base64 field value max_chars = do
  parts ← split_base64_standard_envelope_segments field value max_chars
  _ ← decode_part base64 field parts.0
  _ ← decode_part base64 field parts.1
  _ ← decode_part base64 field parts.2
  ok parts

pub record DecodedBase64Envelope : Type 0 where
  pub ciphertext : List ℕ
  pub nonce : List ℕ
  pub aad : List ℕ

unfoldable pub decode_base64_standard_envelope :
    Base64 → String → Text → ℕ → ℕ → Result DynError DecodedBase64Envelope
unfolding split_base64_standard_envelope_segments decode_part
decode_base64_standard_envelope base64 field value max_chars nonce_size_bytes = do
  parts ← split_base64_standard_envelope_segments field value max_chars
  ciphertext ← decode_part base64 field parts.0
  nonce ← decode_part base64 field parts.1
  aad ← decode_part base64 field parts.2
  reject (ltb (length ciphertext) 16)
      (invalid field ".ciphertext must include at least a 16-byte authentication tag")
  reject (not (length nonce == nonce_size_bytes)) (invalid field ".nonce has the wrong length")
  elim (base64.from_utf8 aad) [
    | none ↦ err (invalid field ".aad is not valid UTF-8")
    | some aad_text ↦ do
      reject (is_blank aad_text) (invalid field ".aad must not be empty")
      ok (record { ciphertext = ciphertext; nonce = nonce; aad = aad })
  ]

-- `format!("{ciphertext}.{nonce}.{aad}")` of three encoded parts.
unfoldable pub seal : Base64 → List ℕ → List ℕ → List ℕ → Text
unfolding join
seal base64 ciphertext nonce aad =
    join b'.' (base64.encode ciphertext ∷ base64.encode nonce ∷ base64.encode aad ∷ [])
