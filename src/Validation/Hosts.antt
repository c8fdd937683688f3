-- ===== src/Validation/Hosts.antt =====
-- Host names and addresses (src/core/validation.rs).
use vectis.Base.{
  ℕ, ◌+◌, Bool, not, ◌||◌, [], ◌∷◌, map, Option, some, none, ◌==◌, if◌then◌else◌, String, Text,
  codes, text_eq,
}
use vectis.Error.{DynError, concat}
use vectis.Error.Result.{Result, ok, err, ◌>>◌, reject}
use vectis.Validation.Chars.{is_ascii_uppercase}
use vectis.Validation.Fields.{Checked, invalid, validate_text_field}

-- What the standard library and the crate addr parse.
pub record Parsers : Type 0 where
  pub is_ip_address : Text → Bool
  pub is_socket_address : Text → Bool
  pub is_domain_name : Text → Bool
  pub parse_u16 : Text → Option ℕ

-- `eq_ignore_ascii_case`
unfoldable pub to_ascii_lowercase : ℕ → ℕ
unfolding is_ascii_uppercase
to_ascii_lowercase c = if is_ascii_uppercase c then c + 32 else c

unfoldable pub eq_ignore_ascii_case : Text → Text → Bool
unfolding to_ascii_lowercase
eq_ignore_ascii_case s t = text_eq (map to_ascii_lowercase s) (map to_ascii_lowercase t)

-- The texts before and after the last separator.
unfoldable pub rsplit_once : ℕ → Text → Option (Text × Text)
rsplit_once sep [] = none
rsplit_once sep (c ∷ s) = elim (rsplit_once sep s) [
  | some parts ↦ some (c ∷ parts.0, parts.1)
  | none ↦ if c == sep then some ([], s) else none
]

unfoldable pub validate_hostname : Parsers → String → Text → Checked
unfolding eq_ignore_ascii_case
validate_hostname parsers field value = do
  validate_text_field field value
  if eq_ignore_ascii_case value (codes "localhost") || parsers.is_ip_address value
      then ok tt
      else reject (not (parsers.is_domain_name value))
          (invalid field " must be a valid hostname or IP address")

unfoldable pub validate_host_port : Parsers → String → Text → Result DynError Text
unfolding validate_hostname rsplit_once
validate_host_port parsers field value = do
  validate_text_field field value
  if parsers.is_socket_address value then ok value else elim (rsplit_once b':' value) [
    | none ↦ err (invalid field " must be a valid host:port value")
    | some parts ↦ do
      validate_hostname parsers (concat field ".host") parts.0
      elim (parsers.parse_u16 parts.1) [
        | none ↦ err (invalid field ".port must be a valid TCP port")
        | some port ↦ do reject (port == 0) (invalid field ".port must be greater than 0"); ok value
      ]
  ]
