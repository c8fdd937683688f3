-- ===== src/Keys/Created.antt =====
-- src/ops/keys.rs: proofs about a new key's row.
use vectis.Base.{
  ℕ, ◌≤◌, ◌≡◌, refl, sym, true, false, List, [], ◌∷◌, arith, ◌==◌, String, Text, codes, text_eq,
  text_eq_refl, all, All, length,
}
use vectis.Error.Result.{ok, with_ok}
use mathlib.Core.Path.{subst}
use vectis.Crypto.{hash_algorithms}
use vectis.Keys.Id.{internal_keys_hash, validate_key_id}
use vectis.Keys.Lifecycle.{
  property_profiles, lifecycle_statuses, validate_lifecycle_status, validate_ops_key_properties,
}
use vectis.Keys.Record.{
  AppConfig, ResolvedKeysInput, KeyServices, internal_keys_cipher, nonce_size_bytes,
  envelope_max_chars, ops_keys_fields, ops_keys_aad, ops_key_properties_fields,
  create_ops_key_properties, dotted, validate_aad_field, check_aad_field, compare_aad_field,
  validate_loaded_ops_key_binding, create_key_id,
}
use vectis.Keys.Open.{validate_kid_matches_keys}
use vectis.Keys.Sealing.{IsKeyServices, validate_key_id-hex}
use vectis.Validation.Chars.{
  is_blank, is_whitespace, is_control, as_bytes, byte_len, is_ascii_hexdigit, is_ascii_digit,
}
use vectis.Validation.Fields.{
  validate_allowed_value, validate_text_field, validate_aad_key, validate_aad_value,
  validate_bounded_text_field,
}
use vectis.Validation.Split.{join}
use vectis.Validation.Aad.{
  Field, assignment, build_aad, build_validated_aad, parse_aad_fields, aad_field, validate_fields,
}
use vectis.Validation.Envelope.{Base64, seal}
use vectis.Validation.Sealed.{
  is_scalar, all-append, as_bytes-nonempty, validate_base64_standard_envelope_segments-seal,
}

-- The fields of the configuration and the input that the contexts hold are strings.
pub record IsStrings (config : AppConfig) (input : ResolvedKeysInput) : Type 0 where
  pub version_scalar : all is_scalar config.protocol_version ≡ true
  pub hostname_scalar : all is_scalar config.sender_hostname ≡ true
  pub tag_scalar : all is_scalar input.tag ≡ true
  pub profile_scalar : all is_scalar input.profile ≡ true
  pub properties_profile_scalar : all is_scalar input.properties_profile ≡ true
  pub timestamp_scalar : all is_scalar input.timestamp ≡ true

unfoldable pub IsScalarField : Field → Type 0
IsScalarField (key, value) = (all is_scalar key ≡ true) × (all is_scalar value ≡ true)

all-assignment : (f : Field) → IsScalarField f → all is_scalar (assignment f) ≡ true
unfolding IsScalarField is_scalar
all-assignment (key, value) h = rw (all-append is_scalar key (b'=' ∷ value), h.0, h.1) refl

pub all-build_aad : (fs : List Field) → All IsScalarField fs → all is_scalar (build_aad fs) ≡ true
unfolding build_aad join is_scalar
all-build_aad [] h = refl
all-build_aad (f ∷ []) h = all-assignment f h.0
all-build_aad (f ∷ g ∷ fs) h =
    rw
      (
        all-append is_scalar (assignment f) (b';' ∷ build_aad (g ∷ fs)),
        all-assignment f h.0,
        all-build_aad (g ∷ fs) h.1,
      )
      refl

pub parse-not_blank : (s : Text) (fs : List Field) → parse_aad_fields s ≡ ok fs → is_blank s ≡ false
unfolding parse_aad_fields validate_text_field
parse-not_blank s fs h = ground arith

pub build_validated_aad-eq :
    (fs : List Field) (s : Text) → build_validated_aad fs ≡ ok s → s ≡ build_aad fs
unfolding build_validated_aad
build_validated_aad-eq fs s h = with_ok (validate_fields fs) _ h (λ _ _ e. sym (cc (e)))

-- The binding that a new row has.
pub binding :
    {M : Type 0} (config : AppConfig) (input : ResolvedKeysInput) (kid aad properties_aad : Text)
    (keys : M)
    → parse_aad_fields aad ≡ ok (ops_keys_fields config input)
    → parse_aad_fields properties_aad ≡ ok (ops_key_properties_fields config input kid)
    → validate_loaded_ops_key_binding kid
        (record { aad = aad; output = keys })
        (record { aad = properties_aad; output = create_ops_key_properties input })
      ≡ ok tt
unfolding validate_loaded_ops_key_binding create_ops_key_properties check_aad_field
    compare_aad_field validate_aad_field aad_field text_eq ops_keys_fields ops_key_properties_fields
    internal_keys_cipher codes
binding config input kid aad properties_aad keys h k =
    rw
      (
        h,
        k,
        text_eq_refl kid,
        text_eq_refl input.tag,
        text_eq_refl input.properties_profile,
        text_eq_refl input.timestamp,
        text_eq_refl config.protocol_version,
        text_eq_refl config.sender_hostname,
      )
      refl

-- A value that an AAD text holds passes the check of a text field.
text-aad_value :
    (field field' : String) (value : Text)
    → validate_aad_value field value ≡ ok tt
    → validate_text_field field' value ≡ ok tt
unfolding validate_aad_value validate_text_field
text-aad_value field field' value h = ground arith

IsTextValue : Field → Type 0
IsTextValue f = (field : String) → validate_text_field field f.1 ≡ ok tt

validate_fields-IsTextValue : (fs : List Field) → validate_fields fs ≡ ok tt → All IsTextValue fs
unfolding validate_fields IsTextValue
validate_fields-IsTextValue [] h = tt
validate_fields-IsTextValue ((key, value) ∷ fs) h =
    with_ok (validate_aad_key "aad key" key) _ h (λ _ _ h.
      with_ok (validate_aad_value "aad." value) _ h
        (λ _ e h. (λ field. text-aad_value "aad." field value e, validate_fields-IsTextValue fs h)))

build_validated_aad-IsTextValue :
    (fs : List Field) (s : Text) → build_validated_aad fs ≡ ok s → All IsTextValue fs
unfolding build_validated_aad
build_validated_aad-IsTextValue fs s h =
    with_ok (validate_fields fs) _ h (λ _ e _. validate_fields-IsTextValue fs e)

active_status :
    validate_allowed_value "properties.lifecycle.status" (codes "active") lifecycle_statuses ≡ ok tt
unfolding validate_allowed_value validate_text_field lifecycle_statuses is_blank is_whitespace
    is_control codes text_eq
active_status = refl

first_reason : validate_text_field "properties.lifecycle.reason" (codes "initial creation") ≡ ok tt
unfolding validate_text_field is_blank is_whitespace is_control codes
first_reason = refl

pub properties_valid :
    (config : AppConfig) (input : ResolvedKeysInput) (aad : Text)
    → ops_keys_aad config input ≡ ok aad
    → validate_allowed_value "properties.profile" input.properties_profile property_profiles ≡ ok tt
    → validate_ops_key_properties (create_ops_key_properties input) ≡ ok tt
unfolding validate_ops_key_properties create_ops_key_properties validate_lifecycle_status
    lifecycle_statuses validate_bounded_text_field IsTextValue ops_keys_aad ops_keys_fields codes
properties_valid config input aad h p =
    let (_, (_, (_, (_, (tag, (_, (timestamp, _))))))) =
      build_validated_aad-IsTextValue (ops_keys_fields config input) aad h in
    rw
      (
        p,
        tag "properties.tag",
        timestamp "properties.created_at",
        active_status,
        first_reason,
        timestamp "properties.lifecycle.changed_at",
      )
      refl

pub dotted-seal :
    (base64 : Base64) (a b c : List ℕ)
    → dotted (base64.encode a) (base64.encode b) (base64.encode c) ≡ seal base64 a b c
unfolding dotted seal join
dotted-seal base64 a b c = refl

nonempty : (bytes : List ℕ) → 12 ≤ length bytes → length bytes == 0 ≡ false
nonempty bytes h = ground arith

all-is_scalar-hex : (s : Text) → all is_ascii_hexdigit s ≡ true → all is_scalar s ≡ true
unfolding is_ascii_hexdigit is_ascii_digit is_scalar
all-is_scalar-hex [] h = refl
all-is_scalar-hex (c ∷ s) h = ground (arith, all-is_scalar-hex s)

module _ {M : Type 0} (services : KeyServices M) (laws : IsKeyServices services) where
  pub create_key_id-key_id :
      (text kid : Text) → create_key_id services text ≡ ok kid → validate_key_id kid ≡ ok tt
  unfolding create_key_id
  create_key_id-key_id text kid h =
      with_ok (validate_allowed_value "INTERNAL_KEYS_HASH" internal_keys_hash hash_algorithms) _ h
        (λ _ _ h. with_ok (services.hash internal_keys_hash (as_bytes text)) _ h (λ digest e h.
          let same : services.hex_encode digest ≡ kid = cc (h) in
          subst (λ k. validate_key_id k ≡ ok tt) same
            (validate_key_id-hex (services.hex_encode digest) (laws.hex_digits digest)
              (ground (arith, laws.hex_length digest, laws.hash-length (as_bytes text) digest e)))))

  pub create_key_id-scalar :
      (text kid : Text) → create_key_id services text ≡ ok kid → all is_scalar kid ≡ true
  unfolding create_key_id
  create_key_id-scalar text kid h =
      with_ok (validate_allowed_value "INTERNAL_KEYS_HASH" internal_keys_hash hash_algorithms) _ h
        (λ _ _ h. with_ok (services.hash internal_keys_hash (as_bytes text)) _ h (λ digest _ h.
          let same : services.hex_encode digest ≡ kid = cc (h) in
          subst (λ k. all is_scalar k ≡ true) same
            (all-is_scalar-hex (services.hex_encode digest) (laws.hex_digits digest))))

  -- The identifier that the encoded ciphertext hashes to matches the sealed keys.
  pub validate_kid_matches_keys-seal :
      (kid : Text) (ciphertext nonce : List ℕ) (aad : Text)
      → create_key_id services (services.base64.encode ciphertext) ≡ ok kid
      → 16 ≤ length ciphertext
      → length nonce ≡ nonce_size_bytes
      → is_blank aad ≡ false
      → byte_len (seal services.base64 ciphertext nonce (as_bytes aad)) ≤ envelope_max_chars
      → validate_kid_matches_keys services kid
          (seal services.base64 ciphertext nonce (as_bytes aad))
        ≡ ok tt
  unfolding validate_kid_matches_keys
  validate_kid_matches_keys-seal kid ciphertext nonce aad h c n a b =
      rw
        (
          create_key_id-key_id _ kid h,
          validate_base64_standard_envelope_segments-seal services.base64 laws.base64_laws
              "opskeys.keys" envelope_max_chars ciphertext nonce (as_bytes aad)
              (nonempty ciphertext (omega (arith, c))) (nonempty nonce (omega (arith, n)))
              (as_bytes-nonempty aad a) b,
          h,
          text_eq_refl kid,
        )
        refl
