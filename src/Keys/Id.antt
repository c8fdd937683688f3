-- ===== src/Keys/Id.antt =====
-- src/ops/keys.rs: `KeyId`, the hexadecimal hash that names a key.
use vectis.Base.{◌*◌, not, some, none, ◌==◌, String, Text, codes}
use vectis.Error.{invalid_input}
use vectis.Error.Result.{err, ◌>>◌, reject}
use vectis.Crypto.{hash_algorithms, hash_output_size_bytes}
use vectis.Validation.Chars.{byte_len}
use vectis.Validation.Fields.{Checked, invalid, validate_allowed_value, validate_hex_field}

-- INTERNAL_KEYS_HASH
unfoldable pub internal_keys_hash : Text
unfolding codes
internal_keys_hash = codes "BLAKE2b(256)"

-- src/core/validation.rs: `validate_hash_hex_field`
unfoldable pub validate_hash_hex_field : String → Text → Text → Checked
unfolding hash_algorithms hash_output_size_bytes
validate_hash_hex_field field value hash_algorithm = do
  validate_allowed_value "hash_algorithm" hash_algorithm hash_algorithms
  validate_hex_field field value
  elim (hash_output_size_bytes hash_algorithm) [
    | none ↦ err (invalid_input "hash_algorithm is not supported")
    | some size ↦ reject (not (byte_len value == size * 2)) (invalid field " has the wrong length")
  ]

-- `KeyId::parse` and `validate_key_id`: both check the same; the parsed value is the text.
unfoldable pub validate_key_id : Text → Checked
unfolding internal_keys_hash
validate_key_id id = validate_hash_hex_field "id" id internal_keys_hash
