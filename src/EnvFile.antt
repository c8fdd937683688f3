-- ===== src/EnvFile.antt =====
-- src/core/config_loader/env_file.rs: the grammar of environment files.
pub mod Lines
pub mod Written
pub mod RoundTrip
use vectis.Base.{
  ℕ, zero, suc, ◌+◌, ◌-◌, ◌*◌, ◌/◌, ◌%◌, ◌^◌, ◌≤◌, ◌<◌, ◌≡◌, ◌≢◌, ◌↔◌, ◌⊎◌, inl, inr, refl, sym, ap,
  ◌∙◌, Bool, true, false, not, ◌&&◌, ◌||◌, List, [], ◌∷◌, ◌++◌, map, append-nil, append_assoc,
  Option, some, none, arith, ltb, leb, ltb→lt, lt→ltb, leb→le, le→leb, ltb-false, le→ltb-false,
  tests, ◌==◌, ==_iff, if◌then◌else◌, Bool-cases, Option-cases, &&_true, String, Text, codes,
  text_eq, text_eq_iff, text_eq_refl, contains, contains_char, all, any, find, All, length,
  get_elem?, set, take, drop, replicate, length-append, length-take, length-drop, length-replicate,
  length-map, min, max, get_elem?-append_left, get_elem?-append_end, length-set, get_elem?-set_self,
}
use vectis.Error.{
  DynError, foreign, invalid_input, invalid_signature, not_found, conflict, forbidden, internal,
  overloaded, concat, with_prefix,
}
use vectis.Error.Result.{
  Result, ok, err, ◌>>=◌, ◌>>◌, reject, map_err, is_ok, >>=-eq-ok, Result-cases, reject-ok,
  >>-eq-ok, with_ok, map_err-ok, reject-then, not-false, if-ok, ok-injective,
}
use vectis.Validation.Chars.{is_ascii_uppercase, is_ascii_digit, byte_len}
use vectis.Validation.Fields.{Checked}
use vectis.Validation.Split.{strip_prefix}

-- ENV_FILE_MAX_SIZE_BYTES, ENV_NAME_MAX_SIZE_BYTES and ENV_VALUE_MAX_SIZE_BYTES
abbrev pub file_max_size_bytes : ℕ
file_max_size_bytes = 65536

abbrev pub name_max_size_bytes : ℕ
name_max_size_bytes = 128

abbrev pub env_value_max_size_bytes : ℕ
env_value_max_size_bytes = 4096

-- An entry of the two maps: the value, and the line of its name.
pub record FileValue : Type 0 where
  pub key : Text
  pub value : Text
  pub line : ℕ

-- `split_inclusive('\n')`
unfoldable pub split_inclusive : Text → List Text
split_inclusive [] = []
split_inclusive (c ∷ s) =
    let records = split_inclusive s in
    if c == 10
    then (c ∷ []) ∷ records
    else elim records [ [] ↦ (c ∷ []) ∷ [] | r ∷ rs ↦ (c ∷ r) ∷ rs ]

-- `strip_suffix` of one character.
unfoldable pub strip_suffix : ℕ → Text → Option Text
strip_suffix c [] = none
strip_suffix c (d ∷ []) = if d == c then some [] else none
strip_suffix c (d ∷ e ∷ s) = elim (strip_suffix c (e ∷ s)) [
  | none ↦ none
  | some rest ↦ some (d ∷ rest)
]

abbrev pub is_env_space : ℕ → Bool
is_env_space c = c == 32 || c == 9

unfoldable pub trim_start : Text → Text
trim_start [] = []
trim_start (c ∷ s) = let rest = trim_start s in if is_env_space c then rest else c ∷ s

unfoldable pub trim_end : Text → Text
trim_end [] = []
trim_end (c ∷ s) = elim (trim_end s) [
  | [] ↦ if is_env_space c then [] else c ∷ []
  | d ∷ rest ↦ c ∷ d ∷ rest
]

unfoldable pub trim_env_whitespace : Text → Text
unfolding trim_start trim_end
trim_env_whitespace value = trim_end (trim_start value)

-- `split_once`
unfoldable pub split_once : ℕ → Text → Option (Text × Text)
split_once sep [] = none
split_once sep (c ∷ s) =
    let rest = split_once sep s in
    if c == sep
    then some ([], s)
    else elim rest [ none ↦ none | some parts ↦ some (c ∷ parts.0, parts.1) ]

unfoldable pub record_line : Text → Text
unfolding strip_suffix
record_line content = elim (strip_suffix 10 content) [
  | none ↦ content
  | some line ↦ elim (strip_suffix 13 line) [ none ↦ line | some stripped ↦ stripped ]
]

abbrev pub is_name_char : ℕ → Bool
is_name_char c = is_ascii_uppercase c || is_ascii_digit c || c == b'_'

abbrev pub starts_uppercase : Text → Bool
starts_uppercase [] = false
starts_uppercase (c ∷ _) = is_ascii_uppercase c

unfoldable pub is_valid_name : Text → Bool
unfolding strip_prefix
is_valid_name key = elim (strip_prefix (codes "VECTIS_") key) [
  | none ↦ false
  | some suffix ↦ starts_uppercase suffix && all is_name_char suffix
]

unfoldable pub env_parse_error : String → DynError
env_parse_error reason = invalid_input (concat ".env line: " reason)

-- The end of a quoted value.
unfoldable pub quoted_value : ℕ → Text → Result DynError Text
unfolding split_once trim_env_whitespace env_parse_error
quoted_value quote remainder = elim (split_once quote remainder) [
  | none ↦ err (env_parse_error "unterminated quoted value")
  | some parts ↦ do
    reject (not (length (trim_env_whitespace parts.1) == 0))
        (env_parse_error "unexpected content after closing quote")
    ok parts.0
]

unfoldable pub unquoted : Text → Result DynError Text
unfolding quoted_value
unquoted [] = ok []
unquoted (c ∷ s) = if c == b'\'' || c == b'"' then quoted_value c s else ok (c ∷ s)

-- An assignment of the line, which is neither empty nor a comment.
unfoldable pub add_assignment : Text → ℕ → List FileValue → Result DynError (List FileValue)
unfolding split_once trim_env_whitespace is_valid_name unquoted env_parse_error
add_assignment line line_number values = elim (split_once b'=' line) [
  | none ↦ err (env_parse_error "expected KEY=VALUE assignment")
  | some parts ↦ do
    reject (ltb name_max_size_bytes (byte_len (trim_env_whitespace parts.0)))
        (env_parse_error "variable name exceeds the maximum")
    reject (not (is_valid_name (trim_env_whitespace parts.0)))
        (env_parse_error "invalid VECTIS_ variable name")
    reject (any (λ (v : FileValue). text_eq v.key (trim_env_whitespace parts.0)) values)
        (env_parse_error "duplicate variable")
    value ← unquoted (trim_env_whitespace parts.1)
    reject (ltb env_value_max_size_bytes (byte_len value))
        (env_parse_error "variable value exceeds the maximum")
    ok (
        values
        ++ record { key = trim_env_whitespace parts.0; value = value; line = line_number } ∷ [])
]

abbrev pub is_ignored : Text → Bool
is_ignored [] = true
is_ignored (c ∷ _) = c == b'#'

unfoldable pub add_record : Text → ℕ → List FileValue → Result DynError (List FileValue)
unfolding record_line trim_env_whitespace add_assignment env_parse_error
add_record content line_number values = do
  reject (any (λ c. c == 0) (record_line content) || any (λ c. c == 13) (record_line content))
      (env_parse_error "NUL or isolated carriage return")
  if is_ignored (trim_env_whitespace (record_line content))
      then ok values
      else add_assignment (trim_env_whitespace (record_line content)) line_number values

unfoldable pub add_records : List Text → ℕ → List FileValue → Result DynError (List FileValue)
unfolding add_record
add_records [] line_number values = ok values
add_records (content ∷ records) line_number values = do
  next ← add_record content line_number values
  add_records records (suc line_number) next

unfoldable pub parse_protected_env_content : Text → Result DynError (List FileValue)
unfolding add_records split_inclusive
parse_protected_env_content content = do
  reject (ltb file_max_size_bytes (byte_len content))
      (invalid_input ".env exceeds maximum file size")
  add_records (split_inclusive content) 1 []
