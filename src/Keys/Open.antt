-- ===== src/Keys/Open.antt =====
-- Opening the row of a key (src/ops/keys.rs).
use vectis.Base.{ℕ, not, List, some, none, String, Text, text_eq}
use vectis.Error.{DynError, foreign, invalid_input}
use vectis.Error.Result.{Result, ok, err, ◌>>=◌, ◌>>◌, reject}
use vectis.Keys.Id.{validate_key_id}
use vectis.Keys.Lifecycle.{OpsKeyProperties, validate_ops_key_properties}
use vectis.Keys.State.{LoadedOpsKey}
use vectis.Validation.Fields.{Checked, invalid}
use vectis.Validation.Envelope.{
  decode_base64_standard_envelope, validate_base64_standard_envelope_segments,
}
use vectis.Keys.Record.{
  internal_keys_cipher, nonce_size_bytes, envelope_max_chars, KeyServices, InternalDerivedKeys,
  OpsKeyRow, Decrypted, create_key_id, validate_loaded_ops_key_binding,
}

module _ {M : Type 0} (services : KeyServices M) where
  unfoldable pub validate_kid_matches_keys : Text → Text → Checked
  unfolding create_key_id
  validate_kid_matches_keys kid keys = do
    validate_key_id kid
    parts ←
        validate_base64_standard_envelope_segments services.base64 "opskeys.keys" keys
          envelope_max_chars
    expected_kid ← create_key_id services parts.0
    reject (not (text_eq kid expected_kid))
        (invalid_input "kid does not match INTERNAL_KEYS_HASH(keys payload)")

  unfoldable pub utf8_text : List ℕ → DynError → Result DynError Text
  utf8_text bytes error = elim (services.base64.from_utf8 bytes) [
    | none ↦ err error
    | some text ↦ ok text
  ]

  -- The text of an envelope's AAD and its plaintext.
  unfoldable pub open_envelope : String → Text → List ℕ → Result DynError (Text × Text)
  unfolding utf8_text internal_keys_cipher
  open_envelope field value key = do
    envelope ←
        decode_base64_standard_envelope services.base64 field value envelope_max_chars
          nonce_size_bytes
    aad_text ← utf8_text envelope.aad (invalid field ".aad is not valid UTF-8")
    plaintext_bytes ←
        services.decrypt internal_keys_cipher envelope.ciphertext key envelope.nonce envelope.aad
    plaintext ← utf8_text plaintext_bytes (foreign "invalid utf-8")
    ok (aad_text, plaintext)

  unfoldable pub decrypt_ops_keys_payload :
      InternalDerivedKeys → Text → Result DynError (Decrypted M)
  unfolding open_envelope
  decrypt_ops_keys_payload internal_keys keys = do
    opened ← open_envelope "opskeys.keys" keys internal_keys.db_key
    elim (services.keys_from_json opened.1) [
      | none ↦ err (invalid_input "opskeys.keys payload is not valid JSON")
      | some output ↦ ok (record { aad = opened.0; output = output })
    ]

  unfoldable pub decrypt_ops_key_properties_payload :
      InternalDerivedKeys → Text → Result DynError (Decrypted OpsKeyProperties)
  unfolding open_envelope
  decrypt_ops_key_properties_payload internal_keys properties = do
    opened ← open_envelope "opskeys.properties" properties internal_keys.properties_key
    elim (services.properties_from_json opened.1) [
      | none ↦ err (invalid_input "opskeys.properties payload is not valid JSON")
      | some output ↦ ok (record { aad = opened.0; output = output })
    ]

  -- What a row holds: its keys, its properties and the texts that bind them.
  unfoldable pub open_row :
      InternalDerivedKeys → OpsKeyRow → Result DynError (Decrypted M × Decrypted OpsKeyProperties)
  unfolding validate_kid_matches_keys decrypt_ops_keys_payload decrypt_ops_key_properties_payload
      validate_loaded_ops_key_binding
  open_row internal_keys row = do
    validate_kid_matches_keys row.kid row.keys
    decrypted ← decrypt_ops_keys_payload internal_keys row.keys
    properties ← decrypt_ops_key_properties_payload internal_keys row.properties
    validate_ops_key_properties properties.output
    validate_loaded_ops_key_binding row.kid decrypted properties
    ok (decrypted, properties)

  unfoldable pub load_ops_key_from_row :
      InternalDerivedKeys → OpsKeyRow → Result DynError (LoadedOpsKey M)
  unfolding open_row
  load_ops_key_from_row internal_keys row = do
    opened ← open_row internal_keys row
    ok (record {
      id = row.kid;
      aad = opened.0.aad;
      properties_aad = opened.1.aad;
      key_material = opened.0.output;
      properties = opened.1.output;
    })
