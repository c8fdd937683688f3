-- ===== src/Keys/RoundTrip.antt =====
-- src/ops/keys.rs: proofs about creating a key's row and loading it.
use vectis.Base.{ℕ, ◌≤◌, ◌≡◌, refl, true, List, Text, all, length}
use vectis.Error.{DynError}
use vectis.Error.Result.{Result, ok}
use mathlib.Core.Path.{subst}
use vectis.Keys.Lifecycle.{OpsKeyProperties, validate_ops_key_properties}
use vectis.Keys.State.{LoadedOpsKey}
use vectis.Keys.Record.{
  AppConfig, ResolvedKeysInput, KeyServices, InternalDerivedKeys, OpsKeyRow, Decrypted,
  nonce_size_bytes, envelope_max_chars, ops_keys_fields, ops_keys_aad, ops_key_properties_fields,
  ops_key_properties_aad, create_ops_key_properties, create_ops_key_record,
  validate_loaded_ops_key_binding,
}
use vectis.Keys.Open.{
  validate_kid_matches_keys, open_envelope, decrypt_ops_keys_payload,
  decrypt_ops_key_properties_payload, open_row, load_ops_key_from_row,
}
use vectis.Keys.Sealing.{IsKeyServices, open_envelope-seal}
use vectis.Keys.Created.{
  IsStrings, all-build_aad, parse-not_blank, build_validated_aad-eq, binding, properties_valid,
  validate_kid_matches_keys-seal, create_key_id-scalar,
}
use vectis.Keys.Parts.{
  create_ops_key_record-IsCreated, ops_keys_fields-IsScalarField,
  ops_key_properties_fields-IsScalarField,
}
use vectis.Keys.Policy.{resolve_keys_input-IsResolved}
use vectis.Keys.Resolve.{CreateKeysInput, resolve_keys_input}
use vectis.Validation.Chars.{as_bytes, byte_len}
use vectis.Validation.Aad.{parse_aad_fields}
use vectis.Validation.Aad.RoundTrip.{parse-build}
use vectis.Validation.Envelope.{seal}
use vectis.Validation.Sealed.{is_scalar}

parse-ops_keys_aad :
    (config : AppConfig) (input : ResolvedKeysInput) (aad : Text)
    → ops_keys_aad config input ≡ ok aad
    → parse_aad_fields aad ≡ ok (ops_keys_fields config input)
unfolding ops_keys_aad ops_keys_fields
parse-ops_keys_aad config input aad h = parse-build _ _ aad h

parse-ops_key_properties_aad :
    (config : AppConfig) (input : ResolvedKeysInput) (kid aad : Text)
    → ops_key_properties_aad config input kid ≡ ok aad
    → parse_aad_fields aad ≡ ok (ops_key_properties_fields config input kid)
unfolding ops_key_properties_aad ops_key_properties_fields
parse-ops_key_properties_aad config input kid aad h = parse-build _ _ aad h

ops_keys_aad-scalar :
    (config : AppConfig) (input : ResolvedKeysInput) (aad : Text)
    → IsStrings config input
    → ops_keys_aad config input ≡ ok aad
    → all is_scalar aad ≡ true
unfolding ops_keys_aad
ops_keys_aad-scalar config input aad s h =
    rw (build_validated_aad-eq (ops_keys_fields config input) aad h)
      (all-build_aad _ (ops_keys_fields-IsScalarField config input s))

ops_key_properties_aad-scalar :
    (config : AppConfig) (input : ResolvedKeysInput) (kid aad : Text)
    → IsStrings config input
    → all is_scalar kid ≡ true
    → ops_key_properties_aad config input kid ≡ ok aad
    → all is_scalar aad ≡ true
unfolding ops_key_properties_aad
ops_key_properties_aad-scalar config input kid aad s k h =
    rw (build_validated_aad-eq (ops_key_properties_fields config input kid) aad h)
      (all-build_aad _ (ops_key_properties_fields-IsScalarField config input kid s k))

module _ {M : Type 0} (services : KeyServices M) (laws : IsKeyServices services)
    (internal_keys : InternalDerivedKeys) where
  decrypt_ops_keys_payload-seal :
      (keys : M) (plaintext aad : Text) (nonce ciphertext : List ℕ)
      → services.keys_to_json keys ≡ ok plaintext
      → open_envelope services "opskeys.keys"
          (seal services.base64 ciphertext nonce (as_bytes aad))
          internal_keys.db_key
        ≡ ok (aad, plaintext)
      → decrypt_ops_keys_payload services internal_keys
          (seal services.base64 ciphertext nonce (as_bytes aad))
        ≡ ok (record { aad = aad; output = keys })
  unfolding decrypt_ops_keys_payload
  decrypt_ops_keys_payload-seal keys plaintext aad nonce ciphertext h e =
      rw (e, (laws.keys_from_to keys plaintext h).0) refl

  pub decrypt_ops_key_properties_payload-seal :
      (properties : OpsKeyProperties) (plaintext aad : Text) (nonce ciphertext : List ℕ)
      → services.properties_to_json properties ≡ ok plaintext
      → open_envelope services "opskeys.properties"
          (seal services.base64 ciphertext nonce (as_bytes aad))
          internal_keys.properties_key
        ≡ ok (aad, plaintext)
      → decrypt_ops_key_properties_payload services internal_keys
          (seal services.base64 ciphertext nonce (as_bytes aad))
        ≡ ok (record { aad = aad; output = properties })
  unfolding decrypt_ops_key_properties_payload
  decrypt_ops_key_properties_payload-seal properties plaintext aad nonce ciphertext h e =
      rw (e, (laws.properties_from_to properties plaintext h).0) refl

  pub open_row-parts :
      (row : OpsKeyRow) (decrypted : Decrypted M) (properties : Decrypted OpsKeyProperties)
      → validate_kid_matches_keys services row.kid row.keys ≡ ok tt
      → decrypt_ops_keys_payload services internal_keys row.keys ≡ ok decrypted
      → decrypt_ops_key_properties_payload services internal_keys row.properties ≡ ok properties
      → validate_ops_key_properties properties.output ≡ ok tt
      → validate_loaded_ops_key_binding row.kid decrypted properties ≡ ok tt
      → load_ops_key_from_row services internal_keys row
        ≡ ok (record {
          id = row.kid;
          aad = decrypted.aad;
          properties_aad = properties.aad;
          key_material = decrypted.output;
          properties = properties.output;
        })
  unfolding load_ops_key_from_row open_row
  open_row-parts row decrypted properties a b c d e = rw (a, b, c, d, e) refl

  -- Where the services are as documented and the input was resolved from a request: where
  -- `create_ops_key_record` returns a row with 12-byte nonces whose two envelopes are no longer
  -- than the maximum, `load_ops_key_from_row` loads from it the identifier, the generated keys and
  -- the active properties of the input.
  pub load-create :
      (config : AppConfig) (now : Result DynError Text) (request : CreateKeysInput)
      (input : ResolvedKeysInput) (nonce properties_nonce : List ℕ) (row : OpsKeyRow)
      → resolve_keys_input now request config ≡ ok input
      → IsStrings config input
      → length nonce ≡ nonce_size_bytes
      → length properties_nonce ≡ nonce_size_bytes
      → create_ops_key_record services config internal_keys input (ok nonce) (ok properties_nonce)
        ≡ ok row
      → byte_len row.keys ≤ envelope_max_chars
      → byte_len row.properties ≤ envelope_max_chars
      → (loaded : LoadedOpsKey M) × (load_ops_key_from_row services internal_keys row ≡ ok loaded)
        × (loaded.id ≡ row.kid)
        × (services.create_key_material input ≡ ok loaded.key_material)
        × (loaded.properties ≡ create_ops_key_properties input)
  load-create config now request input nonce properties_nonce row resolved s n m h kb pb =
      let r = resolve_keys_input-IsResolved now request config input resolved in
      let c =
        create_ops_key_record-IsCreated services config internal_keys input nonce properties_nonce
          row h in
      let aad_fields = parse-ops_keys_aad config input c.aad c.aad_ok in
      let properties_aad_fields =
        parse-ops_key_properties_aad config input row.kid c.properties_aad c.properties_aad_ok in
      let aad_not_blank = parse-not_blank c.aad _ aad_fields in
      let keys_open =
        open_envelope-seal services laws "opskeys.keys" c.plaintext c.aad internal_keys.db_key nonce
          c.ciphertext c.encrypted n aad_not_blank
          (ops_keys_aad-scalar config input c.aad s c.aad_ok)
          (laws.keys_from_to c.keys c.plaintext c.plaintext_ok).1
          (subst (λ t. byte_len t ≤ envelope_max_chars) c.keys_sealed kb) in
      let properties_open =
        open_envelope-seal services laws "opskeys.properties" c.properties_plaintext
          c.properties_aad internal_keys.properties_key properties_nonce c.properties_ciphertext
          c.properties_encrypted m (parse-not_blank c.properties_aad _ properties_aad_fields)
          (ops_key_properties_aad-scalar config input row.kid c.properties_aad s
            (create_key_id-scalar services laws _ row.kid c.kid_ok) c.properties_aad_ok)
          (laws.properties_from_to _ c.properties_plaintext c.properties_plaintext_ok).1
          (subst (λ t. byte_len t ≤ envelope_max_chars) c.properties_sealed pb) in
      (
        record {
          id = row.kid;
          aad = c.aad;
          properties_aad = c.properties_aad;
          key_material = c.keys;
          properties = create_ops_key_properties input;
        },
        open_row-parts row (record { aad = c.aad; output = c.keys })
            (record { aad = c.properties_aad; output = create_ops_key_properties input })
            (rw c.keys_sealed (
              validate_kid_matches_keys-seal services laws row.kid c.ciphertext nonce c.aad c.kid_ok
                (laws.encrypt-length _ _ _ _ _ c.encrypted) n aad_not_blank
                (subst (λ t. byte_len t ≤ envelope_max_chars) c.keys_sealed kb)))
            (rw c.keys_sealed (
              decrypt_ops_keys_payload-seal c.keys c.plaintext c.aad nonce c.ciphertext
                c.plaintext_ok keys_open))
            (rw c.properties_sealed (
              decrypt_ops_key_properties_payload-seal (create_ops_key_properties input)
                c.properties_plaintext c.properties_aad properties_nonce c.properties_ciphertext
                c.properties_plaintext_ok properties_open))
            (properties_valid config input c.aad c.aad_ok r.properties_ok)
            (binding config input row.kid c.aad c.properties_aad c.keys aad_fields
              properties_aad_fields),
        refl,
        c.keys_ok,
        refl,
      )
