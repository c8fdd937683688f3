-- ===== src/Tests/Keys.antt =====
-- Keys (src/ops/keys.rs) at concrete requests and rows.
use vectis.Base.{
  ℕ, ◌≤◌, ◌≡◌, refl, true, List, [], ◌∷◌, ◌++◌, some, none, arith, Text, codes, text_eq, all,
  replicate,
}
use vectis.Error.{DynError}
use vectis.Error.Result.{Result, ok}
use vectis.Keys.Lifecycle.{OpsKeyLifecycle, OpsKeyProperties}
use vectis.Keys.State.{LoadedOpsKey}
use vectis.Keys.Record.{
  AppConfig, InternalDerivedKeys, ResolvedKeysInput, OpsKeyRow, create_ops_key_record,
  create_ops_key_properties, dotted, envelope_max_chars,
}
use vectis.Keys.Open.{load_ops_key_from_row}
use vectis.Keys.Resolve.{CreateKeysInput, resolve_keys_input}
use vectis.Keys.Created.{IsStrings}
use vectis.Keys.RoundTrip.{load-create}
use vectis.Keys.Update.{UpdateLifecycleInput, update_key_lifecycle}
use vectis.Keys.Updated.{load-update}
use vectis.Validation.Chars.{as_bytes, byte_len}
use vectis.Validation.Sealed.{is_scalar}
use vectis.Tests.Services.{services, services-IsKeyServices}

abbrev pub config : AppConfig
config = record {
  protocol_version = codes "1";
  sender_hostname = codes "h";
  default_crypto_profile = codes "hybrid-standard-v1";
  crypto_policy = codes "profile-only";
}

abbrev pub request : CreateKeysInput
request = record {
  tag = some (codes "t");
  profile = none;
  hash_algorithm = none;
  symmetric_algorithm = none;
  eddsa_algorithm = none;
  xecdh_algorithm = none;
  ml_dsa_variant = none;
  ml_kem_variant = none;
}

abbrev pub input : ResolvedKeysInput
input = record {
  tag = codes "t";
  timestamp = codes "17";
  profile = codes "hybrid-standard-v1";
  properties_profile = codes "hybrid-standard-v1";
  hash_algorithm = codes "SHA-3(256)";
  symmetric_algorithm = codes "AES-128/GCM";
  eddsa_algorithm = codes "Ed25519";
  xecdh_algorithm = codes "X25519";
  ml_dsa_variant = codes "ML-DSA-44";
  ml_kem_variant = codes "ML-KEM-512";
}

abbrev internal_keys : InternalDerivedKeys
internal_keys = record { db_key = 1 ∷ []; properties_key = 2 ∷ [] }

abbrev nonce : List ℕ
nonce = replicate 12 5

abbrev kid : Text
kid = codes "1212121212121212121212121212121212121212121212121212121212121212"

abbrev keys_aad : Text
keys_aad =
    codes
      "version=1;hostname=h;type=ops-keys;cipher=AES-256/GCM;tag=t;profile=hybrid-standard-v1;timestamp=17"

abbrev properties_aad : Text
properties_aad =
    codes
      "version=1;hostname=h;type=ops-key-properties;cipher=AES-256/GCM;kid=1212121212121212121212121212121212121212121212121212121212121212;tag=t;profile=hybrid-standard-v1;timestamp=17"

abbrev envelope : Text → Text → Text
envelope plaintext aad =
    dotted (services.base64.encode (replicate 16 7 ++ plaintext)) (services.base64.encode nonce)
      (services.base64.encode aad)

abbrev row : OpsKeyRow
row = record {
  kid = kid;
  keys = envelope (codes "t") keys_aad;
  properties =
      envelope (codes "hybrid-standard-v1\nt\n17\nactive\ninitial creation\n17") properties_aad;
}

pub resolved : resolve_keys_input (ok (codes "17")) request config ≡ ok input
unfolding resolve_keys_input vectis.Validation.Fields.validate_aad_value
    vectis.Validation.Fields.validate_text_field vectis.Validation.Chars.is_blank
    vectis.Validation.Chars.is_control vectis.Validation.Fields.reject_aad_delimiters
    vectis.Validation.Fields.validate_allowed_value text_eq
resolved = refl

created : create_ops_key_record services config internal_keys input (ok nonce) (ok nonce) ≡ ok row
unfolding create_ops_key_record vectis.Validation.Aad.build_validated_aad
    vectis.Validation.Aad.validate_fields vectis.Validation.Fields.validate_aad_key
    vectis.Validation.Fields.validate_text_field vectis.Validation.Chars.is_blank
    vectis.Validation.Chars.is_control vectis.Validation.Fields.is_key_char
    vectis.Validation.Fields.validate_aad_value vectis.Validation.Fields.reject_aad_delimiters
    vectis.Validation.Sealed.is_scalar vectis.Validation.Fields.validate_allowed_value
    vectis.Crypto.hash_algorithms text_eq as_bytes vectis.Validation.Aad.build_aad
    vectis.Validation.Split.join
created = refl

config-IsStrings : IsStrings config input
unfolding is_scalar codes
config-IsStrings = record {
  version_scalar = refl;
  hostname_scalar = refl;
  tag_scalar = refl;
  profile_scalar = refl;
  properties_profile_scalar = refl;
  timestamp_scalar = refl;
}

keys_length : byte_len row.keys ≤ envelope_max_chars
unfolding byte_len dotted codes
keys_length = omega arith

properties_length : byte_len row.properties ≤ envelope_max_chars
unfolding byte_len dotted codes
properties_length = omega arith

load-create_example :
    (loaded : LoadedOpsKey Text) × (load_ops_key_from_row services internal_keys row ≡ ok loaded)
    × (loaded.id ≡ row.kid)
    × (services.create_key_material input ≡ ok loaded.key_material)
    × (loaded.properties ≡ create_ops_key_properties input)
load-create_example =
    load-create services services-IsKeyServices internal_keys config (ok (codes "17")) request input
      nonce nonce row resolved config-IsStrings refl refl created keys_length properties_length

abbrev pub first_loaded : LoadedOpsKey Text
first_loaded = record {
  id = kid;
  aad = keys_aad;
  properties_aad = properties_aad;
  key_material = codes "t";
  properties = record {
    version = 1;
    profile = codes "hybrid-standard-v1";
    tag = codes "t";
    created_at = codes "17";
    lifecycle = record {
      status = codes "active";
      reason = codes "initial creation";
      changed_at = codes "17";
    };
  };
}

abbrev disabled : OpsKeyLifecycle
disabled = record { status = codes "disabled"; reason = codes "r"; changed_at = codes "18" }

abbrev disable : UpdateLifecycleInput
disable = record { status = codes "disabled"; reason = codes "r" }

abbrev disabled_properties : Text
disabled_properties = envelope (codes "hybrid-standard-v1\nt\n17\ndisabled\nr\n18") properties_aad

abbrev get_row : Text → Result DynError OpsKeyRow
get_row id = ok row

row_loaded : load_ops_key_from_row services internal_keys row ≡ ok first_loaded
unfolding load_ops_key_from_row vectis.Keys.Id.validate_key_id
    vectis.Keys.Id.validate_hash_hex_field vectis.Validation.Fields.validate_allowed_value
    vectis.Validation.Fields.validate_text_field vectis.Validation.Chars.is_blank
    vectis.Validation.Chars.is_control vectis.Validation.Fields.validate_hex_field byte_len
    vectis.Validation.Chars.is_ascii_hexdigit
    vectis.Validation.Envelope.validate_base64_standard_envelope_segments dotted
    vectis.Validation.Split.split as_bytes
    vectis.Validation.Envelope.decode_base64_standard_envelope
    vectis.Keys.Lifecycle.validate_ops_key_properties
    vectis.Validation.Fields.validate_bounded_text_field vectis.Validation.Aad.parse_aad_fields
    codes text_eq vectis.Crypto.hash_algorithms vectis.Crypto.hash_output_size_bytes
    vectis.Keys.Id.internal_keys_hash vectis.Keys.Lifecycle.lifecycle_statuses
    vectis.Keys.Lifecycle.property_profiles vectis.Keys.Lifecycle.validate_lifecycle_status
    vectis.Keys.Record.check_aad_field vectis.Keys.Record.compare_aad_field
    vectis.Keys.Record.create_key_id vectis.Keys.Open.decrypt_ops_key_properties_payload
    vectis.Keys.Open.decrypt_ops_keys_payload vectis.Keys.Record.internal_keys_cipher
    vectis.Keys.Open.open_envelope vectis.Keys.Open.open_row vectis.Keys.Open.utf8_text
    vectis.Keys.Record.validate_aad_field vectis.Keys.Open.validate_kid_matches_keys
    vectis.Keys.Record.validate_loaded_ops_key_binding vectis.Validation.Aad.aad_field
    vectis.Validation.Aad.parse_parts vectis.Validation.Aad.parse_pieces
    vectis.Validation.Chars.is_ascii_alphanumeric vectis.Validation.Chars.is_ascii_digit
    vectis.Validation.Chars.is_ascii_lowercase vectis.Validation.Chars.is_ascii_uppercase
    vectis.Validation.Chars.is_whitespace vectis.Validation.Chars.utf8_char
    vectis.Validation.Chars.utf8_len vectis.Validation.Envelope.decode_part
    vectis.Validation.Envelope.is_ascii_control vectis.Validation.Envelope.is_ascii_whitespace
    vectis.Validation.Envelope.is_envelope_char vectis.Validation.Envelope.sections_error
    vectis.Validation.Envelope.split_base64_standard_envelope_segments
    vectis.Validation.Envelope.three_parts vectis.Validation.Fields.is_key_char
    vectis.Validation.Fields.reject_aad_delimiters vectis.Validation.Fields.validate_aad_key
    vectis.Validation.Fields.validate_aad_value
row_loaded = refl

row_updated :
    update_key_lifecycle services get_row internal_keys kid disable (ok (codes "18")) (ok nonce)
    ≡ ok (disabled_properties, disabled)
unfolding update_key_lifecycle is_scalar vectis.Keys.Id.validate_key_id
    vectis.Keys.Id.validate_hash_hex_field vectis.Validation.Fields.validate_allowed_value
    vectis.Validation.Fields.validate_text_field vectis.Validation.Chars.is_blank
    vectis.Validation.Chars.is_control vectis.Validation.Fields.validate_hex_field byte_len
    vectis.Validation.Chars.is_ascii_hexdigit
    vectis.Validation.Envelope.validate_base64_standard_envelope_segments
    vectis.Validation.Split.split as_bytes
    vectis.Validation.Envelope.decode_base64_standard_envelope
    vectis.Keys.Lifecycle.validate_ops_key_properties
    vectis.Validation.Fields.validate_bounded_text_field vectis.Validation.Aad.parse_aad_fields
    vectis.Validation.Aad.parse_parts codes text_eq vectis.Crypto.hash_algorithms
    vectis.Crypto.hash_output_size_bytes vectis.Keys.Id.internal_keys_hash
    vectis.Keys.Lifecycle.lifecycle_statuses vectis.Keys.Lifecycle.property_profiles
    vectis.Keys.Lifecycle.validate_lifecycle_status
    vectis.Keys.Lifecycle.validate_lifecycle_transition vectis.Keys.Record.check_aad_field
    vectis.Keys.Record.compare_aad_field vectis.Keys.Record.create_key_id
    vectis.Keys.Open.decrypt_ops_key_properties_payload vectis.Keys.Open.decrypt_ops_keys_payload
    dotted vectis.Keys.Record.encrypt_internal_payload vectis.Keys.Record.internal_keys_cipher
    vectis.Keys.Open.open_envelope vectis.Keys.Open.open_row vectis.Keys.Open.utf8_text
    vectis.Keys.Record.validate_aad_field vectis.Keys.Open.validate_kid_matches_keys
    vectis.Keys.Record.validate_loaded_ops_key_binding
    vectis.Keys.Update.encrypt_ops_key_properties_payload vectis.Validation.Aad.aad_field
    vectis.Validation.Aad.parse_pieces vectis.Validation.Chars.is_ascii_alphanumeric
    vectis.Validation.Chars.is_ascii_digit vectis.Validation.Chars.is_ascii_lowercase
    vectis.Validation.Chars.is_ascii_uppercase vectis.Validation.Chars.is_whitespace
    vectis.Validation.Chars.utf8_char vectis.Validation.Chars.utf8_len
    vectis.Validation.Envelope.decode_part vectis.Validation.Envelope.is_ascii_control
    vectis.Validation.Envelope.is_ascii_whitespace vectis.Validation.Envelope.is_envelope_char
    vectis.Validation.Envelope.sections_error
    vectis.Validation.Envelope.split_base64_standard_envelope_segments
    vectis.Validation.Envelope.three_parts vectis.Validation.Fields.is_key_char
    vectis.Validation.Fields.reject_aad_delimiters vectis.Validation.Fields.validate_aad_key
    vectis.Validation.Fields.validate_aad_value vectis.Validation.Split.join
row_updated = refl

context_scalar : all is_scalar first_loaded.properties_aad ≡ true
unfolding is_scalar codes
context_scalar = refl

disabled_length : byte_len disabled_properties ≤ envelope_max_chars
unfolding byte_len dotted codes
disabled_length = omega arith

load-update_example :
    load_ops_key_from_row services internal_keys (record row { properties = disabled_properties })
    ≡ ok (record first_loaded {
      properties = record first_loaded.properties { lifecycle = disabled };
    })
load-update_example =
    load-update services services-IsKeyServices internal_keys get_row kid row disable (codes "18")
      nonce first_loaded disabled_properties disabled refl row_loaded context_scalar refl
      row_updated disabled_length
