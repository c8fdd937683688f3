-- ===== src/Tests/TimeAttestation.antt =====
-- Time attestation (src/core/time_attestation.rs) at concrete clocks.
use vectis.Base.{
  ◌+◌, ◌*◌, ◌≤◌, ◌≡◌, ◌↔◌, refl, true, false, [], some, none, arith, codes, text_eq, replicate,
}
use vectis.Error.Result.{ok}
use vectis.Validation.Envelope.{Base64}
use vectis.Validation.Hosts.{Parsers}
use vectis.TimeAttestation.{
  u64_max, negsuc, resolve_time_attestation, defaults, NtsObservation, RoughtimeObservation,
  evaluate_time_attestation, output_is_acceptable,
}
use vectis.TimeAttestation.Accept.{
  IsAcceptable, evaluate_time_attestation-IsAcceptable_iff, evaluate_time_attestation-bounds,
}

abbrev pub parsers : Parsers
parsers = record {
  is_ip_address = λ s. false;
  is_socket_address = λ s. false;
  is_domain_name = λ s. true;
  parse_u16 = λ s. some 2003;
}

-- Each text decodes to 32 bytes.
abbrev key_codec : Base64
key_codec = record {
  encode = λ bytes. bytes;
  decode = λ s. some (replicate 32 0);
  from_utf8 = some;
}

abbrev nts : NtsObservation
nts = record { offset_us = negsuc 499; round_trip_us = 30000; authenticated = true }

abbrev roughtime : RoughtimeObservation
roughtime = record {
  midpoint_us = 1000000;
  radius_us = 1000;
  verified = true;
  nonce_b64 = [];
  response_b64 = [];
}

resolved_defaults : resolve_time_attestation parsers key_codec none ≡ ok defaults
unfolding resolve_time_attestation vectis.Validation.Fields.validate_config_name
    vectis.Validation.Fields.validate_text_field vectis.Validation.Chars.is_blank codes
    vectis.Validation.Chars.is_control text_eq vectis.Validation.Hosts.validate_hostname
    vectis.Validation.Hosts.validate_host_port
resolved_defaults = refl

late_clock :
    output_is_acceptable (evaluate_time_attestation 1001200 1001900 defaults nts roughtime) ≡ false
unfolding output_is_acceptable evaluate_time_attestation defaults
late_clock = refl

evaluate_time_attestation-IsAcceptable_iff_example :
    (output_is_acceptable (evaluate_time_attestation 1000000 1000100 defaults nts roughtime) ≡ true)
    ↔ IsAcceptable 1000000 1000100 defaults nts roughtime
evaluate_time_attestation-IsAcceptable_iff_example =
    evaluate_time_attestation-IsAcceptable_iff parsers key_codec none defaults 1000000 1000100 nts
      roughtime resolved_defaults (omega arith) (omega arith) (omega arith)

evaluate_time_attestation-bounds_example :
    let output = evaluate_time_attestation 1000000 1000101 defaults nts roughtime in
    (1000000 ≤ output.unix_us)
    × (output.unix_us ≤ 1000101)
    × (2 * output.unix_us ≤ 2000101)
    × (2000101 ≤ 2 * output.unix_us + 1)
    × (output.earliest_us ≤ 1000000)
    × (1000000 ≤ output.latest_us)
    × (output.latest_us ≤ u64_max)
    × (((output.earliest_us ≤ 999000) × (999000 ≤ output.latest_us))
        ↔ ((1000000 ≤ 999000 + 1000) × (999000 ≤ 1000000 + 1000)))
evaluate_time_attestation-bounds_example =
    evaluate_time_attestation-bounds defaults 1000000 1000101 nts roughtime 999000 (omega arith)
      (omega arith) (omega arith) (omega arith)
