-- ===== src/Audit/Shape.antt =====
-- The checks of one audit record: `validate_record_shape`, `validate_record` and
-- `validate_checkpoint_payload`.
use vectis.Base.{
  ℕ, ◌+◌, ◌-◌, ◌*◌, ◌^◌, Bool, true, false, not, ◌&&◌, ◌||◌, List, [], ◌∷◌, Option, some, none, ltb,
  ◌==◌, if◌then◌else◌, Text, codes, text_eq, any, length,
}
use vectis.Error.{invalid_input}
use vectis.Error.Result.{◌>>=◌, ◌>>◌, reject}
use vectis.Validation.Chars.{is_control, is_ascii_digit, byte_len}
use vectis.Validation.Fields.{Checked, validate_hex_field}
use vectis.Keys.Id.{internal_keys_hash, validate_hash_hex_field}
use vectis.Audit.{
  Services, AuditRecordBody, AuditChainRecord, AuditCheckpointPayload, hash_record, chain_version,
  checkpoint_type, init_keys_kid, record_max_bytes, reason_max_chars,
}

-- `str::parse::<u64>`: an optional plus sign, then digits of a value below 2 ^ 64.
unfoldable pub parse_digits : ℕ → Text → Option ℕ
unfolding is_ascii_digit
parse_digits n [] = some n
parse_digits n (c ∷ s) =
    let m = n * 10 + (c - b'0') in
    let rest = parse_digits m s in if is_ascii_digit c && ltb m (2 ^ 64) then rest else none

unfoldable pub parse_u64 : Text → Option ℕ
unfolding parse_digits
parse_u64 [] = none
parse_u64 (c ∷ []) = if c == b'+' then none else parse_digits 0 (c ∷ [])
parse_u64 (c ∷ d ∷ s) = if c == b'+' then parse_digits 0 (d ∷ s) else parse_digits 0 (c ∷ d ∷ s)

unfoldable pub is_u64 : Text → Bool
unfolding parse_u64
is_u64 s = elim (parse_u64 s) [ none ↦ false | some _ ↦ true ]

unfoldable pub is_empty : Text → Bool
is_empty [] = true
is_empty (_ ∷ _) = false

unfoldable pub text_fields : AuditRecordBody → List Text
text_fields b =
    b.event ∷ b.outcome ∷ b.actor ∷ b.actor_fp ∷ b.kid ∷ b.remote_kid ∷ b.action ∷ b.reason
    ∷ b.request_id ∷ []

unfoldable pub validate_record_shape : Services → AuditChainRecord → Checked
unfolding is_u64 is_empty text_fields is_control internal_keys_hash
validate_record_shape services r = do
  reject
      (not (text_eq r.body.version chain_version)
        || not (text_eq r.body.hash_alg internal_keys_hash))
      (invalid_input "record version or hash algorithm is unsupported")
  reject (not (byte_len r.body.chain_id == 32) || not (services.hex_decodes r.body.chain_id))
      (invalid_input "record chain_id is invalid")
  validate_hex_field "prev_hash" r.body.prev_hash
  validate_hex_field "event_hash" r.event_hash
  reject (not (is_u64 r.body.timestamp)) (invalid_input "record timestamp is invalid")
  reject (is_empty r.body.event || is_empty r.body.outcome)
      (invalid_input "record event and outcome must not be empty")
  reject (ltb reason_max_chars (length r.body.reason) || any (any is_control) (text_fields r.body))
      (invalid_input "record contains invalid text fields")

unfoldable pub validate_record : Services → AuditChainRecord → Checked
unfolding validate_record_shape
validate_record services r = do
  validate_record_shape services r
  validate_hash_hex_field "prev_hash" r.body.prev_hash internal_keys_hash
  validate_hash_hex_field "event_hash" r.event_hash internal_keys_hash
  serialized ← services.record_json r
  reject (ltb record_max_bytes (length serialized)) (invalid_input "record exceeds maximum size")
  digest ← hash_record services r.body
  reject (not (text_eq digest r.event_hash))
      (invalid_input "event hash does not match record content")

unfoldable pub validate_checkpoint_payload : Services → AuditCheckpointPayload → Checked
validate_checkpoint_payload services p = do
  reject
      (not (text_eq p.version (codes "v1"))
        || not (text_eq p.token_type checkpoint_type)
        || not (text_eq p.kid init_keys_kid)
        || not (text_eq p.hash_alg internal_keys_hash))
      (invalid_input "audit checkpoint payload fields are invalid")
  reject (not (byte_len p.chain_id == 32) || not (services.hex_decodes p.chain_id))
      (invalid_input "audit checkpoint chain_id is invalid")
  validate_hash_hex_field "audit checkpoint head_hash" p.head_hash internal_keys_hash
  reject (not (is_u64 p.created_at)) (invalid_input "audit checkpoint created_at is invalid")
