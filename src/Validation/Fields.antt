-- ===== src/Validation/Fields.antt =====
-- src/core/validation.rs: checks of one text field.
use vectis.Base.{
  ℕ, ◌*◌, ◌%◌, Bool, not, ◌||◌, List, ltb, ◌==◌, if◌then◌else◌, Text, String, all, any, length,
  contains, contains_char,
}
use vectis.Error.{DynError, invalid_input, concat}
use vectis.Error.Result.{Result, ok, err, ◌>>◌, reject}
use vectis.Validation.Chars.{
  is_control, is_blank, is_ascii_alphanumeric, is_ascii_hexdigit, byte_len,
}

-- `Result<(), DynError>`
abbrev pub Checked : Type 0
Checked = Result DynError (Unit {0})

-- `invalid_input(format!("{field}{problem}"))`
abbrev pub invalid : String → String → DynError
invalid field problem = invalid_input (concat field problem)

abbrev pub config_name_max_chars : ℕ
config_name_max_chars = 128

abbrev pub internal_ref_max_chars : ℕ
internal_ref_max_chars = 128

unfoldable pub validate_text_field : String → Text → Checked
validate_text_field field value = do
  reject (is_blank value) (invalid field " must not be empty")
  reject (any is_control value) (invalid field " must not contain control characters")

unfoldable pub validate_bounded_text_field : String → Text → ℕ → Checked
validate_bounded_text_field field value max_chars = do
  validate_text_field field value
  reject (ltb max_chars (length value)) (invalid field " exceeds maximum allowed length")

unfoldable pub validate_config_name : String → Text → Checked
validate_config_name field value = do
  validate_text_field field value
  reject (ltb config_name_max_chars (length value))
      (invalid field " exceeds maximum allowed length")

-- `reject_aad_delimiters`
unfoldable pub reject_aad_delimiters : String → Text → Checked
reject_aad_delimiters field value =
    reject (contains_char value b';' || contains_char value b'=')
      (invalid field " must not contain ';' or '='")

unfoldable pub validate_aad_config_name : String → Text → Checked
validate_aad_config_name field value = do
  validate_config_name field value
  reject_aad_delimiters field value

unfoldable pub validate_aad_value : String → Text → Checked
validate_aad_value field value = do
  validate_text_field field value
  reject_aad_delimiters field value

-- The characters of a key: letters, digits, `_`, `.` and `-`.
unfoldable pub is_key_char : ℕ → Bool
unfolding is_ascii_alphanumeric
is_key_char c = is_ascii_alphanumeric c || (c == b'_' || c == b'.' || c == b'-')

unfoldable pub validate_aad_key : String → Text → Checked
validate_aad_key field key = do
  validate_text_field field key
  if all is_key_char key then ok tt else err (invalid field " contains invalid characters")

unfoldable pub validate_ref : Text → Result DynError Text
validate_ref value = do validate_bounded_text_field "ref" value internal_ref_max_chars; ok value

unfoldable pub validate_allowed_value : String → Text → List Text → Checked
validate_allowed_value field value allowed_values = do
  validate_text_field field value
  if contains allowed_values value
      then ok tt
      else err (invalid field " must be one of the allowed values")

-- `str::len` counts bytes, and a byte of a multi-byte character is no hexadecimal digit.
unfoldable pub validate_hex_field : String → Text → Checked
validate_hex_field field value = do
  reject (length value == 0) (invalid field " must not be empty")
  reject (not (byte_len value % 2 == 0))
      (invalid field " must have an even number of hex characters")
  reject (not (all is_ascii_hexdigit value))
      (invalid field " must contain only hexadecimal characters")

unfoldable pub validate_symmetric_key : String → Text → ℕ → Checked
validate_symmetric_key field key_hex key_size_bytes = do
  validate_hex_field field key_hex
  reject (not (byte_len key_hex == key_size_bytes * 2))
      (invalid field " must be a hex symmetric key")
