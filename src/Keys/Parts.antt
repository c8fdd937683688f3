-- ===== src/Keys/Parts.antt =====
-- src/ops/keys.rs: proofs about the parts of a new key's row.
use vectis.Base.{ℕ, ◌≡◌, refl, true, List, Text, codes, all, All}
use vectis.Error.Result.{ok, with_ok}
use vectis.Keys.Record.{
  AppConfig, ResolvedKeysInput, KeyServices, InternalDerivedKeys, OpsKeyRow, internal_keys_cipher,
  ops_keys_fields, ops_keys_aad, ops_key_properties_fields, ops_key_properties_aad,
  create_ops_key_properties, create_key_id, encrypt_internal_payload, create_ops_key_record,
}
use vectis.Keys.Created.{IsStrings, IsScalarField, dotted-seal}
use vectis.Validation.Chars.{as_bytes}
use vectis.Validation.Envelope.{seal}
use vectis.Validation.Sealed.{is_scalar}

pub ops_keys_fields-IsScalarField :
    (config : AppConfig) (input : ResolvedKeysInput)
    → IsStrings config input
    → All IsScalarField (ops_keys_fields config input)
unfolding IsScalarField ops_keys_fields internal_keys_cipher codes is_scalar
ops_keys_fields-IsScalarField config input s = (
  (refl, s.version_scalar),
  (
    (refl, s.hostname_scalar),
    (
      (refl, refl),
      (
        (refl, refl),
        ((refl, s.tag_scalar), ((refl, s.profile_scalar), ((refl, s.timestamp_scalar), tt))),
      ),
    ),
  ),
)

pub ops_key_properties_fields-IsScalarField :
    (config : AppConfig) (input : ResolvedKeysInput) (kid : Text)
    → IsStrings config input
    → all is_scalar kid ≡ true
    → All IsScalarField (ops_key_properties_fields config input kid)
unfolding IsScalarField ops_key_properties_fields internal_keys_cipher codes is_scalar
ops_key_properties_fields-IsScalarField config input kid s k = (
  (refl, s.version_scalar),
  (
    (refl, s.hostname_scalar),
    (
      (refl, refl),
      (
        (refl, refl),
        (
          (refl, k),
          (
            (refl, s.tag_scalar),
            ((refl, s.properties_profile_scalar), ((refl, s.timestamp_scalar), tt)),
          ),
        ),
      ),
    ),
  ),
)

-- What the parts of a new row are: the texts that bind them are validated, the two payloads are
-- encrypted, and the identifier is the hash of the encoded keys.
pub record IsCreated {M : Type 0} (services : KeyServices M) (config : AppConfig)
    (internal_keys : InternalDerivedKeys) (input : ResolvedKeysInput)
    (nonce properties_nonce : List ℕ) (row : OpsKeyRow) : Type 0 where
  pub aad : Text
  pub properties_aad : Text
  pub keys : M
  pub plaintext : Text
  pub properties_plaintext : Text
  pub ciphertext : List ℕ
  pub properties_ciphertext : List ℕ
  pub aad_ok : ops_keys_aad config input ≡ ok aad
  pub keys_ok : services.create_key_material input ≡ ok keys
  pub plaintext_ok : services.keys_to_json keys ≡ ok plaintext
  pub encrypted :
      services.encrypt internal_keys_cipher
        (as_bytes plaintext)
        internal_keys.db_key
        nonce
        (as_bytes aad)
      ≡ ok ciphertext
  pub kid_ok : create_key_id services (services.base64.encode ciphertext) ≡ ok row.kid
  pub properties_plaintext_ok :
      services.properties_to_json (create_ops_key_properties input) ≡ ok properties_plaintext
  pub properties_aad_ok : ops_key_properties_aad config input row.kid ≡ ok properties_aad
  pub properties_encrypted :
      services.encrypt internal_keys_cipher
        (as_bytes properties_plaintext)
        internal_keys.properties_key
        properties_nonce
        (as_bytes properties_aad)
      ≡ ok properties_ciphertext
  pub keys_sealed : row.keys ≡ seal services.base64 ciphertext nonce (as_bytes aad)
  pub properties_sealed :
      row.properties
      ≡ seal services.base64 properties_ciphertext properties_nonce (as_bytes properties_aad)

module _ {M : Type 0} (services : KeyServices M) where
  pub encrypt_internal_payload-ok :
      (plaintext : Text) (key nonce : List ℕ) (aad encoded : Text)
      → encrypt_internal_payload services plaintext key nonce aad ≡ ok encoded
      → (ciphertext : List ℕ) × (services.encrypt internal_keys_cipher
            (as_bytes plaintext)
            key
            nonce
            (as_bytes aad)
          ≡ ok ciphertext)
        × (services.base64.encode ciphertext ≡ encoded)
  unfolding encrypt_internal_payload
  encrypt_internal_payload-ok plaintext key nonce aad encoded h =
      with_ok (services.encrypt internal_keys_cipher (as_bytes plaintext) key nonce (as_bytes aad))
        _ h (λ ciphertext e h. (ciphertext, e, cc (h)))

  pub create_ops_key_record-IsCreated :
      (config : AppConfig) (internal_keys : InternalDerivedKeys) (input : ResolvedKeysInput)
      (nonce properties_nonce : List ℕ) (row : OpsKeyRow)
      → create_ops_key_record services config internal_keys input (ok nonce) (ok properties_nonce)
        ≡ ok row
      → IsCreated services config internal_keys input nonce properties_nonce row
  unfolding create_ops_key_record
  create_ops_key_record-IsCreated config internal_keys input nonce properties_nonce row h =
      with_ok (ops_keys_aad config input) _ h (λ aad aad_ok h.
        with_ok (services.create_key_material input) _ h (λ keys keys_ok h.
          with_ok (services.keys_to_json keys) _ h (λ plaintext plaintext_ok h.
            with_ok (encrypt_internal_payload services plaintext internal_keys.db_key nonce aad) _ h
              (λ keys_b64 keys_b64_ok h.
                with_ok (create_key_id services keys_b64) _ h (λ kid kid_ok h.
                  with_ok (services.properties_to_json (create_ops_key_properties input)) _ h
                    (λ properties_plaintext properties_plaintext_ok h.
                      with_ok (ops_key_properties_aad config input kid) _ h
                        (λ properties_aad properties_aad_ok h.
                          with_ok
                            (encrypt_internal_payload services properties_plaintext
                              internal_keys.properties_key properties_nonce properties_aad)
                            _ h
                            (λ properties_b64 properties_b64_ok h.
                              let (ciphertext, encrypted, encoded) =
                                encrypt_internal_payload-ok plaintext _ nonce aad keys_b64
                                  keys_b64_ok in
                              let (
                                properties_ciphertext, properties_encrypted, properties_encoded,
                              ) =
                                encrypt_internal_payload-ok properties_plaintext _ properties_nonce
                                  properties_aad properties_b64 properties_b64_ok in
                              let keys_seal =
                                dotted-seal services.base64 ciphertext nonce (as_bytes aad) in
                              let properties_seal =
                                dotted-seal services.base64 properties_ciphertext properties_nonce
                                  (as_bytes properties_aad) in
                              record {
                                aad = aad;
                                properties_aad = properties_aad;
                                keys = keys;
                                plaintext = plaintext;
                                properties_plaintext = properties_plaintext;
                                ciphertext = ciphertext;
                                properties_ciphertext = properties_ciphertext;
                                aad_ok = aad_ok;
                                keys_ok = keys_ok;
                                plaintext_ok = plaintext_ok;
                                encrypted = encrypted;
                                kid_ok = cc (kid_ok, encoded, h);
                                properties_plaintext_ok = properties_plaintext_ok;
                                properties_aad_ok = cc (properties_aad_ok, h);
                                properties_encrypted = properties_encrypted;
                                keys_sealed = cc (h, encoded, keys_seal);
                                properties_sealed = cc (h, properties_encoded, properties_seal);
                              }))))))))
