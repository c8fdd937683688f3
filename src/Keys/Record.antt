-- ===== src/Keys/Record.antt =====
-- The record of a key (src/ops/keys.rs): how a new one is sealed and how a row is opened.
use vectis.Base.{ℕ, not, List, [], ◌∷◌, ◌++◌, Option, String, Text, codes, text_eq}
use vectis.Error.{DynError}
use vectis.Error.Result.{Result, ok, ◌>>=◌, ◌>>◌, reject}
use vectis.Crypto.{hash_algorithms}
use vectis.Keys.Id.{internal_keys_hash}
use vectis.Keys.Lifecycle.{OpsKeyProperties}
use vectis.Validation.Chars.{as_bytes}
use vectis.Validation.Fields.{Checked, invalid, validate_allowed_value}
use vectis.Validation.Aad.{Field, build_validated_aad, parse_aad_fields, aad_field}
use vectis.Validation.Envelope.{Base64}

-- `AppConfig`, the fields that key creation reads.
pub record AppConfig : Type 0 where
  pub protocol_version : Text
  pub sender_hostname : Text
  pub default_crypto_profile : Text
  pub crypto_policy : Text

pub record ResolvedKeysInput : Type 0 where
  pub tag : Text
  pub timestamp : Text
  pub profile : Text
  pub properties_profile : Text
  pub hash_algorithm : Text
  pub symmetric_algorithm : Text
  pub eddsa_algorithm : Text
  pub xecdh_algorithm : Text
  pub ml_dsa_variant : Text
  pub ml_kem_variant : Text

-- INTERNAL_KEYS_CIPHER, INTERNAL_KEYS_NONCE_SIZE_BYTES and STORAGE_ENVELOPE_MAX_CHARS
unfoldable pub internal_keys_cipher : Text
internal_keys_cipher = codes "AES-256/GCM"

abbrev pub nonce_size_bytes : ℕ
nonce_size_bytes = 12

abbrev pub envelope_max_chars : ℕ
envelope_max_chars = 32768

-- What key records take from outside: Botan's cipher, hash and key generation, serde_json and the
-- crates hex and base64.
pub record KeyServices (M : Type 0) : Type 0 where
  pub base64 : Base64
  pub hex_encode : List ℕ → Text
  pub hash : Text → List ℕ → Result DynError (List ℕ)
  pub encrypt : Text → List ℕ → List ℕ → List ℕ → List ℕ → Result DynError (List ℕ)
  pub decrypt : Text → List ℕ → List ℕ → List ℕ → List ℕ → Result DynError (List ℕ)
  pub create_key_material : ResolvedKeysInput → Result DynError M
  pub keys_to_json : M → Result DynError Text
  pub keys_from_json : Text → Option M
  pub properties_to_json : OpsKeyProperties → Result DynError Text
  pub properties_from_json : Text → Option OpsKeyProperties

-- `InternalDerivedKeysState`, the two keys that encrypt rows.
pub record InternalDerivedKeys : Type 0 where
  pub db_key : List ℕ
  pub properties_key : List ℕ

-- `OpsKeyRow` and `CreatedOpsKeyRecord`, which have the same fields.
pub record OpsKeyRow : Type 0 where
  pub kid : Text
  pub keys : Text
  pub properties : Text

pub record Decrypted (O : Type 0) : Type 0 where
  pub aad : Text
  pub output : O

unfoldable pub ops_keys_fields : AppConfig → ResolvedKeysInput → List Field
unfolding internal_keys_cipher
ops_keys_fields config input =
    (codes "version", config.protocol_version)
    ∷ (codes "hostname", config.sender_hostname)
    ∷ (codes "type", codes "ops-keys")
    ∷ (codes "cipher", internal_keys_cipher)
    ∷ (codes "tag", input.tag)
    ∷ (codes "profile", input.profile)
    ∷ (codes "timestamp", input.timestamp)
    ∷ []

unfoldable pub ops_keys_aad : AppConfig → ResolvedKeysInput → Result DynError Text
unfolding ops_keys_fields
ops_keys_aad config input = build_validated_aad (ops_keys_fields config input)

unfoldable pub ops_key_properties_fields : AppConfig → ResolvedKeysInput → Text → List Field
unfolding internal_keys_cipher
ops_key_properties_fields config input kid =
    (codes "version", config.protocol_version)
    ∷ (codes "hostname", config.sender_hostname)
    ∷ (codes "type", codes "ops-key-properties")
    ∷ (codes "cipher", internal_keys_cipher)
    ∷ (codes "kid", kid)
    ∷ (codes "tag", input.tag)
    ∷ (codes "profile", input.properties_profile)
    ∷ (codes "timestamp", input.timestamp)
    ∷ []

unfoldable pub ops_key_properties_aad : AppConfig → ResolvedKeysInput → Text → Result DynError Text
unfolding ops_key_properties_fields
ops_key_properties_aad config input kid =
    build_validated_aad (ops_key_properties_fields config input kid)

unfoldable pub create_ops_key_properties : ResolvedKeysInput → OpsKeyProperties
create_ops_key_properties input = record {
  version = 1;
  profile = input.properties_profile;
  tag = input.tag;
  created_at = input.timestamp;
  lifecycle = record {
    status = codes "active";
    reason = codes "initial creation";
    changed_at = input.timestamp;
  };
}

-- `format!("{ciphertext}.{nonce}.{aad}")`
unfoldable pub dotted : Text → Text → Text → Text
dotted ciphertext nonce aad = ciphertext ++ (b'.' ∷ (nonce ++ (b'.' ∷ aad)))

unfoldable pub validate_aad_field : String → Text → Text → Checked
validate_aad_field field actual expected =
    reject (not (text_eq actual expected)) (invalid field " does not match expected value")

-- `validate_aad_field` of a field that `aad_field` finds.
unfoldable pub check_aad_field : String → List Field → Text → Text → Checked
unfolding validate_aad_field
check_aad_field label fields name expected = do
  actual ← aad_field fields name
  validate_aad_field label actual expected

-- The same of a field that both texts must have.
unfoldable pub compare_aad_field : String → List Field → List Field → Text → Checked
unfolding validate_aad_field
compare_aad_field label keys_aad properties_aad name = do
  actual ← aad_field keys_aad name
  expected ← aad_field properties_aad name
  validate_aad_field label actual expected

module _ {M : Type 0} where
  unfoldable pub validate_loaded_ops_key_binding :
      Text → Decrypted M → Decrypted OpsKeyProperties → Checked
  unfolding check_aad_field compare_aad_field internal_keys_cipher
  validate_loaded_ops_key_binding id keys properties = do
    keys_aad ← parse_aad_fields keys.aad
    properties_aad ← parse_aad_fields properties.aad
    check_aad_field "keys.aad.type" keys_aad (codes "type") (codes "ops-keys")
    check_aad_field "keys.aad.cipher" keys_aad (codes "cipher") internal_keys_cipher
    check_aad_field "properties.aad.type" properties_aad (codes "type") (codes "ops-key-properties")
    check_aad_field "properties.aad.cipher" properties_aad (codes "cipher") internal_keys_cipher
    check_aad_field "properties.aad.kid" properties_aad (codes "kid") id
    check_aad_field "properties.aad.tag" properties_aad (codes "tag") properties.output.tag
    check_aad_field "properties.aad.profile" properties_aad (codes "profile")
        properties.output.profile
    check_aad_field "properties.aad.timestamp" properties_aad (codes "timestamp")
        properties.output.created_at
    compare_aad_field "keys.aad.tag" keys_aad properties_aad (codes "tag")
    compare_aad_field "keys.aad.timestamp" keys_aad properties_aad (codes "timestamp")
    compare_aad_field "keys.aad.version" keys_aad properties_aad (codes "version")
    compare_aad_field "keys.aad.hostname" keys_aad properties_aad (codes "hostname")

  module _ (services : KeyServices M) where
    unfoldable pub create_key_id : Text → Result DynError Text
    unfolding internal_keys_hash
    create_key_id keys_b64 = do
      validate_allowed_value "INTERNAL_KEYS_HASH" internal_keys_hash hash_algorithms
      digest ← services.hash internal_keys_hash (as_bytes keys_b64)
      ok (services.hex_encode digest)

    unfoldable pub encrypt_internal_payload : Text → List ℕ → List ℕ → Text → Result DynError Text
    unfolding internal_keys_cipher
    encrypt_internal_payload plaintext key nonce aad = do
      ciphertext ←
          services.encrypt internal_keys_cipher (as_bytes plaintext) key nonce (as_bytes aad)
      ok (services.base64.encode ciphertext)

    -- The two nonces are what the random source returned.
    unfoldable pub create_ops_key_record :
        AppConfig
        → InternalDerivedKeys
        → ResolvedKeysInput
        → Result DynError (List ℕ)
        → Result DynError (List ℕ)
        → Result DynError OpsKeyRow
    unfolding ops_keys_aad encrypt_internal_payload create_key_id create_ops_key_properties
        ops_key_properties_aad dotted
    create_ops_key_record config internal_keys input random_nonce random_properties_nonce = do
      aad ← ops_keys_aad config input
      keys ← services.create_key_material input
      plaintext ← services.keys_to_json keys
      nonce ← random_nonce
      keys_b64 ← encrypt_internal_payload plaintext internal_keys.db_key nonce aad
      kid ← create_key_id keys_b64
      properties_plaintext ← services.properties_to_json (create_ops_key_properties input)
      properties_nonce ← random_properties_nonce
      properties_aad ← ops_key_properties_aad config input kid
      properties_b64 ←
          encrypt_internal_payload properties_plaintext internal_keys.properties_key
            properties_nonce properties_aad
      ok (record {
        kid = kid;
        keys =
            dotted keys_b64 (services.base64.encode nonce) (services.base64.encode (as_bytes aad));
        properties =
            dotted properties_b64 (services.base64.encode properties_nonce)
              (services.base64.encode (as_bytes properties_aad));
      })
