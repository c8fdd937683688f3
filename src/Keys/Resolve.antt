-- ===== src/Keys/Resolve.antt =====
-- The input of a new key (src/ops/keys.rs): its profile, the policy and the algorithms.
use vectis.Base.{
  Bool, true, false, not, ◌&&◌, ◌||◌, List, [], ◌∷◌, map, Option, some, none, if◌then◌else◌, String,
  Text, codes, text_eq,
}
use vectis.Error.{DynError, invalid_input}
use vectis.Error.Result.{Result, ok, err, ◌>>=◌, ◌>>◌, reject}
use vectis.Crypto.{hash_algorithms}
use vectis.Keys.Lifecycle.{property_profiles}
use vectis.Keys.Record.{AppConfig, ResolvedKeysInput}
use vectis.Validation.Fields.{Checked, validate_allowed_value, validate_aad_value}

pub record CreateKeysInput : Type 0 where
  pub tag : Option Text
  pub profile : Option Text
  pub hash_algorithm : Option Text
  pub symmetric_algorithm : Option Text
  pub eddsa_algorithm : Option Text
  pub xecdh_algorithm : Option Text
  pub ml_dsa_variant : Option Text
  pub ml_kem_variant : Option Text

pub record CryptoProfile : Type 0 where
  pub name : Text
  pub hash_algorithm : Text
  pub symmetric_algorithm : Text
  pub eddsa_algorithm : Text
  pub xecdh_algorithm : Text
  pub ml_dsa_variant : Text
  pub ml_kem_variant : Text

unfoldable pub crypto_profiles : List Text
crypto_profiles = map codes (
    "hybrid-performance-v1" ∷ "hybrid-standard-v1" ∷ "hybrid-high-assurance-v1"
    ∷ "hybrid-long-term-v1" ∷ [])

unfoldable pub crypto_policies : List Text
crypto_policies = map codes ("profile-only" ∷ "allow-overrides" ∷ [])

unfoldable pub symmetric_algorithms : List Text
symmetric_algorithms =
    map codes ("ChaCha20Poly1305" ∷ "AES-128/GCM" ∷ "AES-192/GCM" ∷ "AES-256/GCM" ∷ [])

unfoldable pub crypto_profile : Text → Result DynError CryptoProfile
crypto_profile name =
    if text_eq name (codes "hybrid-performance-v1")
    then ok (record {
      name = codes "hybrid-performance-v1";
      hash_algorithm = codes "BLAKE2b(256)";
      symmetric_algorithm = codes "ChaCha20Poly1305";
      eddsa_algorithm = codes "Ed25519";
      xecdh_algorithm = codes "X25519";
      ml_dsa_variant = codes "ML-DSA-44";
      ml_kem_variant = codes "ML-KEM-512";
    })
    else if text_eq name (codes "hybrid-standard-v1")
    then ok (record {
      name = codes "hybrid-standard-v1";
      hash_algorithm = codes "SHA-3(256)";
      symmetric_algorithm = codes "AES-128/GCM";
      eddsa_algorithm = codes "Ed25519";
      xecdh_algorithm = codes "X25519";
      ml_dsa_variant = codes "ML-DSA-44";
      ml_kem_variant = codes "ML-KEM-512";
    })
    else if text_eq name (codes "hybrid-high-assurance-v1")
    then ok (record {
      name = codes "hybrid-high-assurance-v1";
      hash_algorithm = codes "SHA-3(384)";
      symmetric_algorithm = codes "AES-192/GCM";
      eddsa_algorithm = codes "Ed25519";
      xecdh_algorithm = codes "X25519";
      ml_dsa_variant = codes "ML-DSA-65";
      ml_kem_variant = codes "ML-KEM-768";
    })
    else if text_eq name (codes "hybrid-long-term-v1")
    then ok (record {
      name = codes "hybrid-long-term-v1";
      hash_algorithm = codes "SHA-3(512)";
      symmetric_algorithm = codes "AES-256/GCM";
      eddsa_algorithm = codes "Ed448";
      xecdh_algorithm = codes "X448";
      ml_dsa_variant = codes "ML-DSA-87";
      ml_kem_variant = codes "ML-KEM-1024";
    })
    else err (invalid_input "unsupported crypto profile")

unfoldable pub is_some : Option Text → Bool
is_some none = false
is_some (some _) = true

abbrev pub unwrap_or : Option Text → Text → Text
unwrap_or none default = default
unwrap_or (some value) default = value

unfoldable pub has_overrides : CreateKeysInput → Bool
unfolding is_some
has_overrides input =
    is_some input.hash_algorithm
    || is_some input.symmetric_algorithm
    || is_some input.eddsa_algorithm
    || is_some input.xecdh_algorithm
    || is_some input.ml_dsa_variant
    || is_some input.ml_kem_variant

unfoldable pub validate_crypto_policy : AppConfig → CreateKeysInput → Checked
unfolding crypto_policies has_overrides
validate_crypto_policy config input = do
  validate_allowed_value "VECTIS_CRYPTO_POLICY" config.crypto_policy crypto_policies
  if not (text_eq config.crypto_policy (codes "profile-only"))
      then ok tt
      else reject (has_overrides input) (
          invalid_input
            "individual algorithm overrides are rejected when VECTIS_CRYPTO_POLICY=profile-only")

unfoldable pub resolve_algorithm_value :
    String → Text → Option Text → Text → List Text → Result DynError Text
resolve_algorithm_value field policy requested profile_value allowed =
    let value =
      if text_eq policy (codes "allow-overrides")
      then unwrap_or requested profile_value
      else profile_value in
    do validate_allowed_value field value allowed; ok value

unfoldable pub resolve_keys_input :
    Result DynError Text → CreateKeysInput → AppConfig → Result DynError ResolvedKeysInput
unfolding crypto_profiles crypto_profile validate_crypto_policy has_overrides
    resolve_algorithm_value symmetric_algorithms hash_algorithms property_profiles
resolve_keys_input current_timestamp input config = do
  timestamp ← current_timestamp
  validate_aad_value "tag" (unwrap_or input.tag timestamp)
  validate_allowed_value "profile" (unwrap_or input.profile config.default_crypto_profile)
      crypto_profiles
  profile ← crypto_profile (unwrap_or input.profile config.default_crypto_profile)
  validate_crypto_policy config input
  hash_algorithm ←
      resolve_algorithm_value "hash_algorithm" config.crypto_policy input.hash_algorithm
        profile.hash_algorithm hash_algorithms
  symmetric_algorithm ←
      resolve_algorithm_value "symmetric_algorithm" config.crypto_policy input.symmetric_algorithm
        profile.symmetric_algorithm symmetric_algorithms
  eddsa_algorithm ←
      resolve_algorithm_value "eddsa_algorithm" config.crypto_policy input.eddsa_algorithm
        profile.eddsa_algorithm (codes "Ed25519" ∷ codes "Ed448" ∷ [])
  xecdh_algorithm ←
      resolve_algorithm_value "xecdh_algorithm" config.crypto_policy input.xecdh_algorithm
        profile.xecdh_algorithm (codes "X25519" ∷ codes "X448" ∷ [])
  ml_dsa_variant ←
      resolve_algorithm_value "ml_dsa_variant" config.crypto_policy input.ml_dsa_variant
        profile.ml_dsa_variant (codes "ML-DSA-44" ∷ codes "ML-DSA-65" ∷ codes "ML-DSA-87" ∷ [])
  ml_kem_variant ←
      resolve_algorithm_value "ml_kem_variant" config.crypto_policy input.ml_kem_variant
        profile.ml_kem_variant (codes "ML-KEM-512" ∷ codes "ML-KEM-768" ∷ codes "ML-KEM-1024" ∷ [])
  properties_profile ← ok (
      if text_eq config.crypto_policy (codes "allow-overrides") && has_overrides input
      then codes "custom"
      else profile.name)
  validate_allowed_value "properties.profile" properties_profile property_profiles
  ok (record {
    tag = unwrap_or input.tag timestamp;
    timestamp = timestamp;
    profile = profile.name;
    properties_profile = properties_profile;
    hash_algorithm = hash_algorithm;
    symmetric_algorithm = symmetric_algorithm;
    eddsa_algorithm = eddsa_algorithm;
    xecdh_algorithm = xecdh_algorithm;
    ml_dsa_variant = ml_dsa_variant;
    ml_kem_variant = ml_kem_variant;
  })
