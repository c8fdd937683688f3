-- ===== src/TimeAttestation.antt =====
-- Time attestation (src/core/time_attestation.rs): its configuration and the evaluation of a clock.
pub mod Accept
use vectis.Base.{
  ℕ, zero, suc, ◌+◌, ◌-◌, ◌*◌, ◌/◌, ◌%◌, ◌^◌, ◌≤◌, ◌<◌, ◌≡◌, ◌≢◌, ◌↔◌, ◌⊎◌, inl, inr, refl, sym, ap,
  ◌∙◌, Bool, true, false, not, ◌&&◌, ◌||◌, List, [], ◌∷◌, ◌++◌, map, append-nil, append_assoc,
  Option, some, none, arith, ltb, leb, ltb→lt, lt→ltb, leb→le, le→leb, ltb-false, le→ltb-false,
  tests, ◌==◌, ==_iff, if◌then◌else◌, Bool-cases, Option-cases, &&_true, String, Text, codes,
  text_eq, text_eq_iff, text_eq_refl, contains, contains_char, all, any, find, All, length,
  get_elem?, set, take, drop, replicate, length-append, length-take, length-drop, length-replicate,
  length-map, min, max, get_elem?-append_left, get_elem?-append_end, length-set, get_elem?-set_self,
}
use vectis.Error.{
  DynError, foreign, invalid_input, invalid_signature, not_found, conflict, forbidden, internal,
  overloaded, concat, with_prefix,
}
use vectis.Error.Result.{
  Result, ok, err, ◌>>=◌, ◌>>◌, reject, map_err, is_ok, >>=-eq-ok, Result-cases, reject-ok,
  >>-eq-ok, with_ok, map_err-ok, reject-then, not-false, if-ok, ok-injective,
}
use vectis.Validation.Fields.{Checked, invalid, validate_config_name}
use vectis.Validation.Hosts.{Parsers, validate_hostname, validate_host_port}
use vectis.Validation.Envelope.{Base64}

-- `u64::MAX`
abbrev pub u64_max : ℕ
u64_max = 18446744073709551615

-- A signed number, the offset of an observation: `negsuc n` is `- (n + 1)`.
pub data ℤ : Type 0 where
  pos negsuc : ℕ → ℤ

abbrev pub unsigned_abs : ℤ → ℕ
unsigned_abs (pos n) = n
unsigned_abs (negsuc n) = n + 1

unfoldable pub saturating_add : ℕ → ℕ → ℕ
saturating_add a b = min (a + b) u64_max

-- On unsigned numbers `saturating_sub` is the subtraction that stops at 0.
unfoldable pub saturating_sub : ℕ → ℕ → ℕ
saturating_sub a b = a - b

unfoldable pub saturating_times : ℕ → ℕ → ℕ
saturating_times a b = min (a * b) u64_max

unfoldable pub signed_add : ℕ → ℤ → ℕ
unfolding saturating_add saturating_sub
signed_add value (pos delta) = saturating_add value delta
signed_add value (negsuc n) = saturating_sub value (n + 1)

pub record TimeAttestationConfigInput : Type 0 where
  pub provider : Option Text
  pub nts_server : Option Text
  pub roughtime_server : Option Text
  pub roughtime_public_key : Option Text
  pub max_clock_skew_ms : Option ℕ
  pub max_round_trip_ms : Option ℕ
  pub max_roughtime_radius_ms : Option ℕ

pub record EffectiveTimeAttestationConfig : Type 0 where
  pub provider : Text
  pub nts_server : Text
  pub roughtime_server : Text
  pub roughtime_public_key : Text
  pub max_clock_skew_ms : ℕ
  pub max_round_trip_ms : ℕ
  pub max_roughtime_radius_ms : ℕ

unfoldable pub defaults : EffectiveTimeAttestationConfig
defaults = record {
  provider = codes "cloudflare";
  nts_server = codes "time.cloudflare.com";
  roughtime_server = codes "roughtime.cloudflare.com:2003";
  roughtime_public_key = codes "0GD7c3yP8xEc4Zl2zeuN2SlLvDVVocjsPSL8/Rl/7zg=";
  max_clock_skew_ms = 1000;
  max_round_trip_ms = 2000;
  max_roughtime_radius_ms = 2000;
}

abbrev pub default_to : {A : Type 0} → Option A → A → A
default_to none value = value
default_to (some value) _ = value

-- One number of the loop of `validate_effective_config`.
unfoldable pub validate_milliseconds : String → ℕ → Checked
validate_milliseconds field number =
    reject (number == 0 || ltb 60000 number) (invalid field " must be between 1 and 60000")

-- The part of `validate_effective_config` for the key.
unfoldable pub validate_public_key : Base64 → Text → Checked
validate_public_key base64 value = elim (base64.decode value) [
  | none ↦ err (invalid_input "time_attestation.roughtime_public_key must be valid base64")
  | some key ↦
      reject (not (length key == 32))
        (invalid_input "time_attestation.roughtime_public_key must decode to 32 bytes")
]

unfoldable pub validate_effective_config :
    Parsers → Base64 → EffectiveTimeAttestationConfig → Checked
unfolding validate_milliseconds validate_public_key
validate_effective_config parsers base64 value = do
  validate_config_name "time_attestation.provider" value.provider
  reject (not (contains (codes "cloudflare" ∷ []) value.provider))
      (invalid_input "time_attestation.provider is not supported")
  validate_hostname parsers "time_attestation.nts_server" value.nts_server
  _ ← validate_host_port parsers "time_attestation.roughtime_server" value.roughtime_server
  validate_public_key base64 value.roughtime_public_key
  validate_milliseconds "time_attestation.max_clock_skew_ms" value.max_clock_skew_ms
  validate_milliseconds "time_attestation.max_round_trip_ms" value.max_round_trip_ms
  validate_milliseconds "time_attestation.max_roughtime_radius_ms" value.max_roughtime_radius_ms

-- `TimeAttestationConfigInput::default`
abbrev pub default_input : TimeAttestationConfigInput
default_input = record {
  provider = none;
  nts_server = none;
  roughtime_server = none;
  roughtime_public_key = none;
  max_clock_skew_ms = none;
  max_round_trip_ms = none;
  max_roughtime_radius_ms = none;
}

unfoldable pub effective_config : TimeAttestationConfigInput → EffectiveTimeAttestationConfig
unfolding defaults
effective_config input = record {
  provider = default_to input.provider defaults.provider;
  nts_server = default_to input.nts_server defaults.nts_server;
  roughtime_server = default_to input.roughtime_server defaults.roughtime_server;
  roughtime_public_key = default_to input.roughtime_public_key defaults.roughtime_public_key;
  max_clock_skew_ms = default_to input.max_clock_skew_ms defaults.max_clock_skew_ms;
  max_round_trip_ms = default_to input.max_round_trip_ms defaults.max_round_trip_ms;
  max_roughtime_radius_ms =
      default_to input.max_roughtime_radius_ms defaults.max_roughtime_radius_ms;
}

unfoldable pub resolve_time_attestation :
    Parsers
    → Base64
    → Option TimeAttestationConfigInput
    → Result DynError EffectiveTimeAttestationConfig
unfolding validate_effective_config effective_config
resolve_time_attestation parsers base64 given = do
  validate_effective_config parsers base64 (effective_config (default_to given default_input))
  ok (effective_config (default_to given default_input))

pub record NtsObservation : Type 0 where
  pub offset_us : ℤ
  pub round_trip_us : ℕ
  pub authenticated : Bool

pub record RoughtimeObservation : Type 0 where
  pub midpoint_us : ℕ
  pub radius_us : ℕ
  pub verified : Bool
  pub nonce_b64 : Text
  pub response_b64 : Text

-- `TimeAttestationOutput` with its nested records in one; the numbers that it renders as texts
-- stand here as numbers, and the skew that it renders as a floating-point number is left out.
pub record TimeAttestationOutput : Type 0 where
  pub provider : Text
  pub unix_us : ℕ
  pub nts_server : Text
  pub nts : NtsObservation
  pub roughtime_server : Text
  pub roughtime : RoughtimeObservation
  pub earliest_us : ℕ
  pub latest_us : ℕ
  pub acceptable : Bool
  pub max_allowed_skew_ms : ℕ
  pub local_within_roughtime_interval : Bool
  pub nts_within_roughtime_interval : Bool

unfoldable pub evaluate_time_attestation :
    ℕ
    → ℕ
    → EffectiveTimeAttestationConfig
    → NtsObservation
    → RoughtimeObservation
    → TimeAttestationOutput
unfolding saturating_add saturating_sub saturating_times signed_add
evaluate_time_attestation local_start_us local_end_us config nts roughtime =
    let local_sample =
      saturating_add local_start_us (saturating_sub local_end_us local_start_us / 2) in
    let earliest_us = saturating_sub roughtime.midpoint_us roughtime.radius_us in
    let latest_us = saturating_add roughtime.midpoint_us roughtime.radius_us in
    let local_within = leb local_start_us latest_us && leb earliest_us local_end_us in
    let nts_start = signed_add local_start_us nts.offset_us in
    let nts_end = signed_add local_end_us nts.offset_us in
    let nts_within = leb nts_start latest_us && leb earliest_us nts_end in
    record {
      provider = config.provider;
      unix_us = local_sample;
      nts_server = config.nts_server;
      nts = nts;
      roughtime_server = config.roughtime_server;
      roughtime = roughtime;
      earliest_us = earliest_us;
      latest_us = latest_us;
      acceptable =
          leb (unsigned_abs nts.offset_us) (saturating_times config.max_clock_skew_ms 1000)
          && leb nts.round_trip_us (saturating_times config.max_round_trip_ms 1000)
          && leb roughtime.radius_us (saturating_times config.max_roughtime_radius_ms 1000)
          && local_within
          && nts_within;
      max_allowed_skew_ms = config.max_clock_skew_ms;
      local_within_roughtime_interval = local_within;
      nts_within_roughtime_interval = nts_within;
    }

unfoldable pub output_is_acceptable : TimeAttestationOutput → Bool
output_is_acceptable output = output.acceptable
