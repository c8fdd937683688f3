-- ===== src/TimeAttestation/Accept.antt =====
-- src/core/time_attestation.rs: proofs about `evaluate_time_attestation`.
use vectis.Base.{
  ℕ, ◌+◌, ◌-◌, ◌*◌, ◌≤◌, ◌<◌, ◌≡◌, ◌↔◌, true, not, ◌&&◌, [], ◌∷◌, Option, arith, leb, String, codes,
  contains, max,
}
use vectis.Error.Result.{ok, ◌>>◌, reject, >>-eq-ok, with_ok}
use vectis.Validation.Envelope.{Base64}
use vectis.Validation.Hosts.{Parsers, validate_host_port, validate_hostname}
use vectis.Validation.Fields.{Checked, validate_config_name}
use vectis.TimeAttestation.{
  u64_max, ℤ, pos, negsuc, unsigned_abs, saturating_add, saturating_sub, saturating_times,
  signed_add, TimeAttestationConfigInput, EffectiveTimeAttestationConfig, validate_milliseconds,
  validate_public_key, default_to, default_input, effective_config, validate_effective_config,
  resolve_time_attestation, NtsObservation, RoughtimeObservation, evaluate_time_attestation,
  output_is_acceptable,
}

-- The offset moves the instant into the interval around the midpoint.
abbrev pub InInterval : ℕ → ℕ → ℕ → ℤ → Type 0
InInterval midpoint radius t (pos d) = (midpoint ≤ t + d + radius) × (t + d ≤ midpoint + radius)
InInterval midpoint radius t (negsuc n) =
    (midpoint + n + 1 ≤ t + radius) × (t ≤ midpoint + radius + n + 1)

-- Some instant between the two local readings, with the offset, is in the interval.
abbrev pub Overlaps : ℕ → ℕ → ℕ → ℕ → ℤ → Type 0
Overlaps start end midpoint radius offset =
    (t : ℕ) × (start ≤ t) × (t ≤ end) × InInterval midpoint radius t offset

-- What an acceptable clock is, on exact integers.
pub record IsAcceptable (start end : ℕ) (config : EffectiveTimeAttestationConfig)
    (nts : NtsObservation) (roughtime : RoughtimeObservation) : Type 0 where
  pub skew : unsigned_abs nts.offset_us ≤ config.max_clock_skew_ms * 1000
  pub round_trip : nts.round_trip_us ≤ config.max_round_trip_ms * 1000
  pub radius : roughtime.radius_us ≤ config.max_roughtime_radius_ms * 1000
  pub local_overlap : Overlaps start end roughtime.midpoint_us roughtime.radius_us (pos 0)
  pub nts_overlap : Overlaps start end roughtime.midpoint_us roughtime.radius_us nts.offset_us

Overlaps-iff :
    (start end midpoint radius : ℕ) (offset : ℤ)
    → start ≤ end
    → radius < midpoint
    → midpoint + radius < u64_max
    → (leb (signed_add start offset) (saturating_add midpoint radius)
          && leb (saturating_sub midpoint radius) (signed_add end offset)
        ≡ true)
      ↔ Overlaps start end midpoint radius offset
unfolding saturating_add saturating_sub signed_add
Overlaps-iff start end midpoint radius (pos d) a b c = (
  (λ h.
      (max start (midpoint - radius - d), omega arith, ground arith, (omega arith, ground arith))),
  (λ o. let (t, from, to, (above, below)) = o in ground arith),
)
Overlaps-iff start end midpoint radius (negsuc n) a b c = (
  (λ h. (
    max start (midpoint - radius + (n + 1)),
    omega arith,
    ground arith,
    (omega arith, ground arith),
  )),
  (λ o. let (t, from, to, (above, below)) = o in ground arith),
)

local_iff :
    (start end midpoint radius : ℕ)
    → start ≤ end
    → radius < midpoint
    → midpoint + radius < u64_max
    → (leb start (saturating_add midpoint radius) && leb (saturating_sub midpoint radius) end
        ≡ true)
      ↔ Overlaps start end midpoint radius (pos 0)
unfolding saturating_add saturating_sub
local_iff start end midpoint radius a b c = (
  (λ h. (max start (midpoint - radius), omega arith, ground arith, (omega arith, ground arith))),
  (λ o. let (t, from, to, (above, below)) = o in ground arith),
)

checked : {A : Type 0} (check : A → Checked) (x y : A) → (check x >> ok x) ≡ ok y → check y ≡ ok tt
checked check x y h = with_ok (check x) _ h (λ _ e h. cc (e, h))

milliseconds_bound : (field : String) (n : ℕ) → validate_milliseconds field n ≡ ok tt → n ≤ 60000
unfolding validate_milliseconds
milliseconds_bound field n h = ground arith

effective_bounds :
    (parsers : Parsers) (base64 : Base64) (value : EffectiveTimeAttestationConfig)
    → validate_effective_config parsers base64 value ≡ ok tt
    → (value.max_clock_skew_ms ≤ 60000)
      × (value.max_round_trip_ms ≤ 60000)
      × (value.max_roughtime_radius_ms ≤ 60000)
unfolding validate_effective_config
effective_bounds parsers base64 value h =
    let (_, h) = >>-eq-ok (validate_config_name "time_attestation.provider" value.provider) _ h in
    let (_, h) =
      >>-eq-ok (reject (not (contains (codes "cloudflare" ∷ []) value.provider)) _) _ h in
    let (_, h) =
      >>-eq-ok (validate_hostname parsers "time_attestation.nts_server" value.nts_server) _ h in
    with_ok
      {C = (value.max_clock_skew_ms ≤ 60000)
        × (value.max_round_trip_ms ≤ 60000)
        × (value.max_roughtime_radius_ms ≤ 60000)}
      (validate_host_port parsers "time_attestation.roughtime_server" value.roughtime_server) _ h
      (λ _ _ h.
        let (_, h) = >>-eq-ok (validate_public_key base64 value.roughtime_public_key) _ h in
        let (skew, h) =
          >>-eq-ok
            (validate_milliseconds "time_attestation.max_clock_skew_ms" value.max_clock_skew_ms) _
            h in
        let (trip, radius) =
          >>-eq-ok
            (validate_milliseconds "time_attestation.max_round_trip_ms" value.max_round_trip_ms) _
            h in
        (
          milliseconds_bound "time_attestation.max_clock_skew_ms" value.max_clock_skew_ms skew,
          milliseconds_bound "time_attestation.max_round_trip_ms" value.max_round_trip_ms trip,
          milliseconds_bound "time_attestation.max_roughtime_radius_ms"
              value.max_roughtime_radius_ms radius,
        ))

resolved_bounds :
    (parsers : Parsers) (base64 : Base64) (given : Option TimeAttestationConfigInput)
    (config : EffectiveTimeAttestationConfig)
    → resolve_time_attestation parsers base64 given ≡ ok config
    → (config.max_clock_skew_ms ≤ 60000)
      × (config.max_round_trip_ms ≤ 60000)
      × (config.max_roughtime_radius_ms ≤ 60000)
unfolding resolve_time_attestation
resolved_bounds parsers base64 given config h = effective_bounds parsers base64 config (
    checked (validate_effective_config parsers base64)
      (effective_config (default_to given default_input)) config h)

scaled_iff : (x m : ℕ) → m ≤ 60000 → (leb x (saturating_times m 1000) ≡ true) ↔ (x ≤ m * 1000)
unfolding saturating_times
scaled_iff x m h = ground arith

-- Where the configuration resolved, the first reading is not after the second, and the interval
-- around the midpoint has no end at 0 or at the largest number: the evaluation accepts exactly
-- where the offset, the round trip and the radius are within their limits, and on exact integers
-- some instant between the readings is in the interval, both as it is and moved by the offset.
pub evaluate_time_attestation-IsAcceptable_iff :
    (parsers : Parsers) (base64 : Base64) (given : Option TimeAttestationConfigInput)
    (config : EffectiveTimeAttestationConfig) (start end : ℕ) (nts : NtsObservation)
    (roughtime : RoughtimeObservation)
    → resolve_time_attestation parsers base64 given ≡ ok config
    → start ≤ end
    → roughtime.radius_us < roughtime.midpoint_us
    → roughtime.midpoint_us + roughtime.radius_us < u64_max
    → (output_is_acceptable (evaluate_time_attestation start end config nts roughtime) ≡ true)
      ↔ IsAcceptable start end config nts roughtime
unfolding output_is_acceptable evaluate_time_attestation
evaluate_time_attestation-IsAcceptable_iff parsers base64 given config start end nts roughtime h a b
      c =
    let (skew_bound, trip_bound, radius_bound) = resolved_bounds parsers base64 given config h in
    let skew = scaled_iff (unsigned_abs nts.offset_us) config.max_clock_skew_ms skew_bound in
    let trip = scaled_iff nts.round_trip_us config.max_round_trip_ms trip_bound in
    let radius = scaled_iff roughtime.radius_us config.max_roughtime_radius_ms radius_bound in
    let local = local_iff start end roughtime.midpoint_us roughtime.radius_us a b c in
    let moved =
      Overlaps-iff start end roughtime.midpoint_us roughtime.radius_us nts.offset_us a b c in
    (
      (λ e. record {
        skew = skew.0 (ground arith);
        round_trip = trip.0 (ground arith);
        radius = radius.0 (ground arith);
        local_overlap = local.0 (ground arith);
        nts_overlap = moved.0 (ground arith);
      }),
      (λ r. ground (
        arith,
        skew.1 r.skew,
        trip.1 r.round_trip,
        radius.1 r.radius,
        local.1 r.local_overlap,
        moved.1 r.nts_overlap,
      )),
    )

-- For readings and observations that fit in 64 bits, the first reading not after the second: the
-- reported sample is between the two readings and in their middle, rounded down to a microsecond;
-- the reported interval holds the midpoint and ends within 64 bits; and an instant of 64 bits is in
-- the reported interval exactly where it is no further than the radius from the midpoint.
pub evaluate_time_attestation-bounds :
    (config : EffectiveTimeAttestationConfig) (start end : ℕ) (nts : NtsObservation)
    (roughtime : RoughtimeObservation) (t : ℕ)
    → start ≤ end
    → end ≤ u64_max
    → roughtime.midpoint_us ≤ u64_max
    → t ≤ u64_max
    → let output = evaluate_time_attestation start end config nts roughtime in
      (start ≤ output.unix_us)
      × (output.unix_us ≤ end)
      × (2 * output.unix_us ≤ start + end)
      × (start + end ≤ 2 * output.unix_us + 1)
      × (output.earliest_us ≤ roughtime.midpoint_us)
      × (roughtime.midpoint_us ≤ output.latest_us)
      × (output.latest_us ≤ u64_max)
      × (((output.earliest_us ≤ t) × (t ≤ output.latest_us)) ↔ (
          (roughtime.midpoint_us ≤ t + roughtime.radius_us)
          × (t ≤ roughtime.midpoint_us + roughtime.radius_us)))
unfolding evaluate_time_attestation saturating_add saturating_sub
evaluate_time_attestation-bounds config start end nts roughtime t a b c d = (
  omega arith,
  omega arith,
  omega arith,
  omega arith,
  omega arith,
  omega arith,
  omega arith,
  ((λ (l, u). (omega arith, omega arith)), (λ (l, u). (omega arith, omega arith))),
)
