-- ===== src/Audit/Verify.antt =====
-- Verifying a log: `verify_file` over the chunks that its reader returns, and `VerifiedChain`.
use vectis.Base.{
  ℕ, suc, ◌+◌, Bool, not, ◌||◌, List, [], ◌∷◌, ◌++◌, Option, some, none, ltb, ◌==◌, if◌then◌else◌,
  String, Text, codes, text_eq, length, min,
}
use vectis.Error.{DynError, invalid_input, invalid_signature, concat, with_prefix}
use vectis.Error.Result.{Result, ok, err, ◌>>=◌, ◌>>◌, reject, map_err}
use vectis.Audit.{
  Services, AuditChainRecord, AuditCheckpointLine, AuditCheckpointPayload, chain_version,
  checkpoint_version, record_max_bytes, genesis_hash, chain_started,
}
use vectis.Audit.Append.{u64_max}
use vectis.Audit.Shape.{validate_record, validate_checkpoint_payload}

-- `VerifiedChain`, and `AuditChainSummary`, which has its fields.
pub record VerifiedChain : Type 0 where
  pub chain_id : Text
  pub records : ℕ
  pub last_sequence : ℕ
  pub head_hash : Text
  pub checkpoints_verified : ℕ
  pub last_checkpoint_sequence : Option ℕ
  pub last_checkpoint_head_hash : Option Text

-- `saturating_add(1)` on a `u64`
unfoldable pub saturating_inc : ℕ → ℕ
saturating_inc n = min (suc n) u64_max

unfoldable pub from_genesis : AuditChainRecord → VerifiedChain
from_genesis r = record {
  chain_id = r.body.chain_id;
  records = 1;
  last_sequence = 0;
  head_hash = r.event_hash;
  checkpoints_verified = 0;
  last_checkpoint_sequence = none;
  last_checkpoint_head_hash = none;
}

-- The assignments at the end of `push`.
unfoldable pub pushed : VerifiedChain → AuditChainRecord → VerifiedChain
unfolding saturating_inc
pushed chain r = record chain {
  records = saturating_inc chain.records;
  last_sequence = r.body.sequence;
  head_hash = r.event_hash;
}

unfoldable pub push : VerifiedChain → AuditChainRecord → Result String VerifiedChain
unfolding saturating_inc pushed
push chain r = do
  reject (not (text_eq r.body.chain_id chain.chain_id)) "chain_id changed without a genesis record"
  reject (not (r.body.sequence == saturating_inc chain.last_sequence)) "sequence is not consecutive"
  reject (not (text_eq r.body.prev_hash chain.head_hash))
      "prev_hash does not match prior event hash"
  ok (pushed chain r)

-- The assignments at the end of `checkpoint`.
unfoldable pub confirmed : VerifiedChain → AuditCheckpointPayload → VerifiedChain
unfolding saturating_inc
confirmed chain p = record chain {
  checkpoints_verified = saturating_inc chain.checkpoints_verified;
  last_checkpoint_sequence = some p.last_sequence;
  last_checkpoint_head_hash = some p.head_hash;
}

unfoldable pub checkpoint : VerifiedChain → AuditCheckpointPayload → Result String VerifiedChain
unfolding confirmed
checkpoint chain p = do
  reject (not (text_eq p.chain_id chain.chain_id)) "checkpoint chain_id does not match active chain"
  reject (not (p.last_sequence == chain.last_sequence))
      "checkpoint sequence does not match active chain"
  reject (not (text_eq p.head_hash chain.head_hash))
      "checkpoint head_hash does not match active chain"
  ok (confirmed chain p)

unfoldable pub verify_error : String → DynError
verify_error reason = invalid_input (concat "audit verification failed at record: " reason)

abbrev pub or_error {ℓ} : {A : Type ℓ} → DynError → Option A → Result DynError A
or_error e none = err e
or_error e (some a) = ok a

unfoldable pub verify_checkpoint :
    Services → AuditCheckpointLine → Result DynError AuditCheckpointPayload
unfolding validate_checkpoint_payload
verify_checkpoint services line = do
  reject (not (text_eq line.version checkpoint_version))
      (invalid_input "checkpoint version is unsupported")
  payload ←
      or_error (invalid_signature "audit checkpoint signature verification failed")
        (services.verify_signature line.signature)
  validate_checkpoint_payload services payload
  ok payload

-- The loop's state: `chains` and `current`.
pub record VerifyState : Type 0 where
  pub chains : List VerifiedChain
  pub current : Option VerifiedChain

-- `chains.push(chain.summary())` for a chain that there is.
unfoldable pub flush : VerifyState → List VerifiedChain
flush st = elim st.current [ none ↦ st.chains | some chain ↦ st.chains ++ chain ∷ [] ]

-- The checks of a chunk before it is parsed; the result is the line without its newline.
unfoldable pub ends_line : List ℕ → Option Text
ends_line [] = none
ends_line (c ∷ []) = if c == 0x0a then some [] else none
ends_line (c ∷ d ∷ s) = elim (ends_line (d ∷ s)) [ none ↦ none | some line ↦ some (c ∷ line) ]

unfoldable pub check_line : Services → List ℕ → Result DynError Text
unfolding ends_line verify_error
check_line services bytes = do
  reject (ltb (record_max_bytes + 1) (length bytes)) (verify_error "record exceeds maximum size")
  line ← or_error (verify_error "record is truncated (missing trailing newline)") (ends_line bytes)
  reject (text_eq line []) (verify_error "record is empty")
  reject (not (services.is_utf8 line)) (verify_error "record is not valid UTF-8")
  ok line

-- The branch of the loop for a record.
unfoldable pub is_genesis : AuditChainRecord → Bool
is_genesis r = text_eq r.body.event chain_started

unfoldable pub genesis_is_invalid : AuditChainRecord → Bool
genesis_is_invalid r =
    not (r.body.sequence == 0)
    || not (text_eq r.body.prev_hash genesis_hash)
    || not (text_eq r.body.outcome (codes "success"))
    || not (text_eq r.body.action (codes "chain-start"))

unfoldable pub start_chain : VerifyState → AuditChainRecord → Result DynError VerifyState
unfolding genesis_is_invalid flush from_genesis verify_error
start_chain st r = do
  reject (genesis_is_invalid r) (verify_error "chain genesis is invalid")
  ok (record { chains = flush st; current = some (from_genesis r) })

unfoldable pub continue_chain : VerifyState → AuditChainRecord → Result DynError VerifyState
unfolding push verify_error
continue_chain st r = do
  chain ← or_error (verify_error "first record must start a chain") st.current
  next ← map_err verify_error (push chain r)
  ok (record st { current = some next })

unfoldable pub add_record : VerifyState → AuditChainRecord → Result DynError VerifyState
unfolding is_genesis start_chain continue_chain
add_record st r = if is_genesis r then start_chain st r else continue_chain st r

-- `.map_err(|err| verify_error(line_index, &err.to_string()))`, which keeps the message.
unfoldable pub at_line : DynError → DynError
at_line e = with_prefix "audit verification failed at record" e

unfoldable pub verify_record_line : Services → VerifyState → Text → Result DynError VerifyState
unfolding add_record at_line
verify_record_line services st line = do
  r ← or_error (verify_error "record contains invalid JSON") (services.read_record line)
  map_err at_line (validate_record services r)
  json ← services.record_json r
  reject (not (text_eq json line)) (verify_error "record JSON is not canonical")
  add_record st r

unfoldable pub verify_checkpoint_line : Services → VerifyState → Text → Result DynError VerifyState
unfolding verify_checkpoint checkpoint
verify_checkpoint_line services st line = do
  c ← or_error (verify_error "checkpoint contains invalid JSON") (services.read_checkpoint line)
  json ← services.checkpoint_json c
  reject (not (text_eq json line)) (verify_error "checkpoint JSON is not canonical")
  chain ← or_error (verify_error "checkpoint appears before chain genesis") st.current
  payload ← map_err at_line (verify_checkpoint services c)
  next ← map_err verify_error (checkpoint chain payload)
  ok (record st { current = some next })

unfoldable pub verify_line : Services → VerifyState → List ℕ → Result DynError VerifyState
unfolding check_line verify_record_line verify_checkpoint_line
verify_line services st bytes = do
  line ← check_line services bytes
  version ← or_error (verify_error "record contains invalid JSON") (services.read_version line)
  if text_eq version chain_version
      then verify_record_line services st line
      else if text_eq version checkpoint_version
      then verify_checkpoint_line services st line
      else err (verify_error "record version is unsupported")

-- The loop, over the chunks that `read_until` returns until it returns none.
unfoldable pub verify_lines : Services → VerifyState → List (List ℕ) → Result DynError VerifyState
unfolding verify_line
verify_lines services st [] = ok st
verify_lines services st (bytes ∷ rest) = do
  next ← verify_line services st bytes
  verify_lines services next rest

unfoldable pub verify_file : Services → List (List ℕ) → Result DynError (List VerifiedChain)
unfolding verify_lines flush
verify_file services chunks = do
  st ← verify_lines services (record { chains = []; current = none }) chunks
  reject (length (flush st) == 0) (invalid_input "audit file contains no records")
  ok (flush st)
