-- ===== src/Keys/Policy.antt =====
-- src/ops/keys.rs: proofs about `resolve_keys_input`.
use vectis.Base.{
  ◌≡◌, sym, false, ◌&&◌, List, [], ◌∷◌, Option, arith, if◌then◌else◌, String, Text, codes, text_eq,
  text_eq_iff,
}
use vectis.Error.{DynError}
use vectis.Error.Result.{Result, ok, ◌>>=◌, with_ok}
use mathlib.Core.Path.{subst}
use vectis.Crypto.{hash_algorithms}
use vectis.Keys.Lifecycle.{property_profiles}
use vectis.Keys.Record.{AppConfig, ResolvedKeysInput}
use vectis.Keys.Resolve.{
  crypto_policies, CreateKeysInput, CryptoProfile, crypto_profile, crypto_profiles,
  symmetric_algorithms, has_overrides, unwrap_or, validate_crypto_policy, resolve_algorithm_value,
  resolve_keys_input,
}
use vectis.Validation.Fields.{validate_allowed_value, validate_aad_value}

-- The only other policy admits no request that names an algorithm.
policy-overrides :
    (config : AppConfig) (input : CreateKeysInput)
    → validate_crypto_policy config input ≡ ok tt
    → text_eq config.crypto_policy (codes "allow-overrides") ≡ false
    → has_overrides input ≡ false
unfolding validate_crypto_policy crypto_policies validate_allowed_value
policy-overrides config input h n = ground (
  arith,
  text_eq_iff config.crypto_policy (codes "allow-overrides"),
  text_eq_iff config.crypto_policy (codes "profile-only"),
  text_eq_iff (codes "allow-overrides") config.crypto_policy,
  text_eq_iff (codes "profile-only") config.crypto_policy,
)

-- A resolved value is allowed, and is the profile's unless the policy allows overrides.
resolve_algorithm_value-ok :
    (field : String) (policy : Text) (requested : Option Text) (profile_value : Text)
    (allowed : List Text) (value : Text)
    → resolve_algorithm_value field policy requested profile_value allowed ≡ ok value
    → value ≡ (
        if text_eq policy (codes "allow-overrides")
        then unwrap_or requested profile_value
        else profile_value)
unfolding resolve_algorithm_value
resolve_algorithm_value-ok field policy requested profile_value allowed value h =
    with_ok
      (validate_allowed_value field
        (if text_eq policy (codes "allow-overrides")
          then unwrap_or requested profile_value
          else profile_value)
        allowed)
      _ h (λ _ _ e. sym (ground (arith, e)))

-- The value that is chosen, under a policy.
abbrev choice : Text → Option Text → Text → Text
choice policy requested profile_value =
    if text_eq policy (codes "allow-overrides")
    then unwrap_or requested profile_value
    else profile_value

with_choice :
    {B : Type 0} {C : Type 0} (field : String) (policy : Text) (requested : Option Text)
    (profile_value : Text) (allowed : List Text) (next : Text → Result DynError B) (last : B)
    → (resolve_algorithm_value field policy requested profile_value allowed >>= next) ≡ ok last
    → (next (choice policy requested profile_value) ≡ ok last → C)
    → C
with_choice field policy requested profile_value allowed next last h k =
    with_ok (resolve_algorithm_value field policy requested profile_value allowed) next h
      (λ value e h. k (
        subst (λ v. next v ≡ ok last)
          (resolve_algorithm_value-ok field policy requested profile_value allowed value e) h))

-- The input that a profile and the requested algorithms stand for.
abbrev pub resolved_with : AppConfig → CreateKeysInput → Text → CryptoProfile → ResolvedKeysInput
resolved_with config input timestamp profile =
    let overriding = text_eq config.crypto_policy (codes "allow-overrides") in
    let choose : Option Text → Text → Text =
      λ requested value. if overriding then unwrap_or requested value else value in
    record {
      tag = unwrap_or input.tag timestamp;
      timestamp = timestamp;
      profile = profile.name;
      properties_profile =
          if overriding && has_overrides input then codes "custom" else profile.name;
      hash_algorithm = choose input.hash_algorithm profile.hash_algorithm;
      symmetric_algorithm = choose input.symmetric_algorithm profile.symmetric_algorithm;
      eddsa_algorithm = choose input.eddsa_algorithm profile.eddsa_algorithm;
      xecdh_algorithm = choose input.xecdh_algorithm profile.xecdh_algorithm;
      ml_dsa_variant = choose input.ml_dsa_variant profile.ml_dsa_variant;
      ml_kem_variant = choose input.ml_kem_variant profile.ml_kem_variant;
    }

-- What a resolution that succeeds has checked and computed.
pub record IsResolved (now : Result DynError Text) (input : CreateKeysInput) (config : AppConfig)
    (resolved : ResolvedKeysInput) : Type 0 where
  pub timestamp : Text
  pub profile : CryptoProfile
  pub now_ok : now ≡ ok timestamp
  pub tag_ok : validate_aad_value "tag" resolved.tag ≡ ok tt
  pub profile_ok :
      crypto_profile (unwrap_or input.profile config.default_crypto_profile) ≡ ok profile
  pub policy_ok : validate_crypto_policy config input ≡ ok tt
  pub properties_ok :
      validate_allowed_value "properties.profile" resolved.properties_profile property_profiles
      ≡ ok tt
  pub fields : resolved ≡ resolved_with config input timestamp profile

pub resolve_keys_input-IsResolved :
    (now : Result DynError Text) (input : CreateKeysInput) (config : AppConfig)
    (resolved : ResolvedKeysInput)
    → resolve_keys_input now input config ≡ ok resolved
    → IsResolved now input config resolved
unfolding resolve_keys_input
resolve_keys_input-IsResolved now input config resolved h = with_ok now _ h (λ timestamp now_ok h.
    with_ok (validate_aad_value "tag" (unwrap_or input.tag timestamp)) _ h (λ _ tag_ok h.
      with_ok
        (validate_allowed_value "profile" (unwrap_or input.profile config.default_crypto_profile)
          crypto_profiles)
        _ h
        (λ _ _ h.
          with_ok (crypto_profile (unwrap_or input.profile config.default_crypto_profile)) _ h
            (λ profile profile_ok h.
              with_ok (validate_crypto_policy config input) _ h (λ _ policy_ok h.
                with_choice "hash_algorithm" config.crypto_policy input.hash_algorithm
                  profile.hash_algorithm hash_algorithms _ resolved h
                  (λ h.
                    with_choice "symmetric_algorithm" config.crypto_policy input.symmetric_algorithm
                      profile.symmetric_algorithm symmetric_algorithms _ resolved h
                      (λ h.
                        with_choice "eddsa_algorithm" config.crypto_policy input.eddsa_algorithm
                          profile.eddsa_algorithm (codes "Ed25519" ∷ codes "Ed448" ∷ []) _ resolved
                          h
                          (λ h.
                            with_choice "xecdh_algorithm" config.crypto_policy input.xecdh_algorithm
                              profile.xecdh_algorithm (codes "X25519" ∷ codes "X448" ∷ []) _
                              resolved h
                              (λ h.
                                with_choice "ml_dsa_variant" config.crypto_policy
                                  input.ml_dsa_variant profile.ml_dsa_variant
                                  (codes "ML-DSA-44" ∷ codes "ML-DSA-65" ∷ codes "ML-DSA-87" ∷ []) _
                                  resolved h
                                  (λ h.
                                    with_choice "ml_kem_variant" config.crypto_policy
                                      input.ml_kem_variant profile.ml_kem_variant
                                      (codes "ML-KEM-512"
                                        ∷ codes "ML-KEM-768"
                                        ∷ codes "ML-KEM-1024"
                                        ∷ [])
                                      _ resolved h
                                      (λ h.
                                        with_ok
                                          (validate_allowed_value "properties.profile"
                                            (if text_eq config.crypto_policy
                                                  (codes "allow-overrides")
                                                && has_overrides input
                                              then codes "custom"
                                              else profile.name)
                                            property_profiles)
                                          _ h
                                          (λ _ properties_ok h. record {
                                            timestamp = timestamp;
                                            profile = profile;
                                            now_ok = now_ok;
                                            tag_ok = cc (tag_ok, h);
                                            profile_ok = profile_ok;
                                            policy_ok = cc (policy_ok);
                                            properties_ok = cc (properties_ok, h);
                                            fields = cc (h);
                                          }))))))))))))

-- Where the policy does not allow overrides and the input of a key resolves: the request names no
-- algorithm, and the resolved algorithms and the recorded profile are those of the profile that the
-- request names, or of the default one.
pub resolve_keys_input-profile :
    (now : Result DynError Text) (input : CreateKeysInput) (config : AppConfig)
    (resolved : ResolvedKeysInput)
    → resolve_keys_input now input config ≡ ok resolved
    → text_eq config.crypto_policy (codes "allow-overrides") ≡ false
    → (has_overrides input ≡ false)
      × ((profile : CryptoProfile) × (crypto_profile
              (unwrap_or input.profile config.default_crypto_profile)
            ≡ ok profile)
          × (resolved.properties_profile ≡ profile.name)
          × (resolved.hash_algorithm ≡ profile.hash_algorithm)
          × (resolved.symmetric_algorithm ≡ profile.symmetric_algorithm)
          × (resolved.eddsa_algorithm ≡ profile.eddsa_algorithm)
          × (resolved.xecdh_algorithm ≡ profile.xecdh_algorithm)
          × (resolved.ml_dsa_variant ≡ profile.ml_dsa_variant)
          × (resolved.ml_kem_variant ≡ profile.ml_kem_variant))
resolve_keys_input-profile now input config resolved h n =
    let r = resolve_keys_input-IsResolved now input config resolved h in
    (
      policy-overrides config input r.policy_ok n,
      (
        r.profile,
        r.profile_ok,
        cc (r.fields, n),
        cc (r.fields, n),
        cc (r.fields, n),
        cc (r.fields, n),
        cc (r.fields, n),
        cc (r.fields, n),
        cc (r.fields, n),
      ),
    )
