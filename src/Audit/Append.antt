-- ===== src/Audit/Append.antt =====
-- Appending to the log: `write_event` and `append_checkpoint`. The environment of one operation
-- is what the clock, the signature and the sink answer.
use vectis.Base.{
  ℕ, suc, ◌-◌, ◌^◌, true, false, List, [], ◌∷◌, ◌++◌, some, ltb, if◌then◌else◌, String, Text, codes,
  length, take,
}
use vectis.Error.{DynError, internal}
use vectis.Error.Result.{Result, ok, err, ◌>>=◌, ◌>>◌, reject}
use vectis.Validation.Chars.{is_control}
use vectis.Keys.Id.{internal_keys_hash}
use vectis.Audit.{
  Services, AuditEvent, AuditRecordBody, AuditChainRecord, AuditChainState, AuditCheckpointPayload,
  hash_record, chain_version, checkpoint_version, checkpoint_type, init_keys_kid, record_max_bytes,
  reason_max_chars,
}

-- The largest `u64`.
abbrev pub u64_max : ℕ
u64_max = 2 ^ 64 - 1

-- `checked_add(1)` on a `u64`
unfoldable pub checked_inc : ℕ → String → Result DynError ℕ
checked_inc n message = if ltb n u64_max then ok (suc n) else err (internal message)

-- `sanitize`: the filter, then the first `max_chars` that it lets through.
unfoldable pub drop_controls : Text → Text
drop_controls [] = []
drop_controls (c ∷ s) = let rest = drop_controls s in if is_control c then rest else c ∷ rest

unfoldable pub sanitize : Text → ℕ → Text
unfolding drop_controls
sanitize value max_chars = take max_chars (drop_controls value)

-- The answers of the outside at one operation: the clock, and the sink's write.
pub record Outside : Type 0 where
  pub current_timestamp : Result DynError Text
  pub write_record : Result DynError (Unit {0})

-- The body that `write_event` builds.
unfoldable pub event_body : AuditChainState → AuditEvent → Text → AuditRecordBody
unfolding sanitize
event_body st e timestamp = record {
  version = chain_version;
  chain_id = st.chain_id;
  sequence = st.next_sequence;
  timestamp = timestamp;
  event = sanitize e.event reason_max_chars;
  outcome = sanitize e.outcome reason_max_chars;
  actor = sanitize e.actor reason_max_chars;
  actor_fp = sanitize e.actor_fp reason_max_chars;
  root = e.root;
  admin = e.admin;
  kid = sanitize e.kid reason_max_chars;
  remote_kid = sanitize e.remote_kid reason_max_chars;
  action = sanitize e.action reason_max_chars;
  reason = sanitize e.reason reason_max_chars;
  request_id = sanitize e.request_id reason_max_chars;
  hash_alg = internal_keys_hash;
  prev_hash = st.head_hash;
}

-- What an operation leaves: the lines of the log, the chain's state and the result. The state is
-- changed only after the line is written, also where the operation then fails.
pub record Written : Type 0 where
  pub lines : List Text
  pub chain : AuditChainState
  pub result : Result DynError (Unit {0})

-- The end of `write_event`, once the line is written.
unfoldable pub advance : AuditChainState → Text → AuditChainState × Result DynError (Unit {0})
unfolding checked_inc
advance st event_hash = elim (checked_inc st.next_sequence "audit sequence exhausted") [
  | err e ↦ (record st { head_hash = event_hash }, err e)
  | ok next ↦ elim (ltb 1 next) [
    | false ↦ (record st { head_hash = event_hash; next_sequence = next }, ok tt)
    | true ↦
        elim (checked_inc st.events_since_checkpoint "audit checkpoint event count exhausted") [
          | err e ↦ (record st { head_hash = event_hash; next_sequence = next }, err e)
          | ok count ↦ (
            record st {
              head_hash = event_hash;
              next_sequence = next;
              events_since_checkpoint = count;
            },
            ok tt,
          )
        ]
  ]
]

-- The part of `write_event` before the sink: the record and its line.
unfoldable pub prepare_event :
    Services → Outside → AuditChainState → AuditEvent → Result DynError (AuditChainRecord × Text)
unfolding event_body hash_record
prepare_event services outside st e = do
  timestamp ← outside.current_timestamp
  let body = event_body st e timestamp
  event_hash ← hash_record services body
  let entry : AuditChainRecord = record { body = body; event_hash = event_hash }
  serialized ← services.record_json entry
  reject (ltb record_max_bytes (length serialized)) (internal "audit record exceeds maximum size")
  outside.write_record
  ok (entry, serialized)

unfoldable pub write_event : Services → Outside → List Text → AuditChainState → AuditEvent → Written
unfolding prepare_event advance
write_event services outside lines st e = elim (prepare_event services outside st e) [
  | err m ↦ record { lines = lines; chain = st; result = err m }
  | ok p ↦ record {
    lines = lines ++ p.1 ∷ [];
    chain = (advance st p.0.event_hash).0;
    result = (advance st p.0.event_hash).1;
  }
]

unfoldable pub checkpoint_payload : AuditChainState → Text → AuditCheckpointPayload
unfolding internal_keys_hash
checkpoint_payload st created_at = record {
  version = codes "v1";
  token_type = checkpoint_type;
  kid = init_keys_kid;
  chain_id = st.chain_id;
  last_sequence = st.next_sequence - 1;
  head_hash = st.head_hash;
  hash_alg = internal_keys_hash;
  created_at = created_at;
}

unfoldable pub prepare_checkpoint : Services → Outside → AuditChainState → Result DynError Text
unfolding checkpoint_payload
prepare_checkpoint services outside st = do
  created_at ← outside.current_timestamp
  signature ← services.sign (checkpoint_payload st created_at)
  serialized ←
      services.checkpoint_json (record { version = checkpoint_version; signature = signature })
  reject (ltb record_max_bytes (length serialized))
      (internal "audit checkpoint exceeds maximum size")
  outside.write_record
  ok serialized

unfoldable pub append_checkpoint : Services → Outside → List Text → AuditChainState → Written
unfolding prepare_checkpoint
append_checkpoint services outside lines st = elim (prepare_checkpoint services outside st) [
  | err m ↦ record { lines = lines; chain = st; result = err m }
  | ok serialized ↦ record {
    lines = lines ++ serialized ∷ [];
    chain = record st {
      events_since_checkpoint = 0;
      last_checkpoint_sequence = some (st.next_sequence - 1);
    };
    result = ok tt;
  }
]
