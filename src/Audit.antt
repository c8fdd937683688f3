-- ===== src/Audit.antt =====
-- The tamper-evident audit log (src/core/audit_chain.rs): its records, and the outside services
-- that its code calls.
pub mod Append
pub mod Shape
pub mod Verify
pub mod Chain
pub mod Tamper
pub mod Writer
pub mod Logged
pub mod Durable
pub mod Rounds
pub mod Confirm
use vectis.Base.{
  ℕ, zero, suc, ◌+◌, ◌-◌, ◌*◌, ◌/◌, ◌%◌, ◌^◌, ◌≤◌, ◌<◌, ◌≡◌, ◌≢◌, ◌↔◌, ◌⊎◌, inl, inr, refl, sym, ap,
  ◌∙◌, Bool, true, false, not, ◌&&◌, ◌||◌, List, [], ◌∷◌, ◌++◌, map, append-nil, append_assoc,
  Option, some, none, arith, ltb, leb, ltb→lt, lt→ltb, leb→le, le→leb, ltb-false, le→ltb-false,
  tests, ◌==◌, ==_iff, if◌then◌else◌, Bool-cases, Option-cases, &&_true, String, Text, codes,
  text_eq, text_eq_iff, text_eq_refl, contains, contains_char, all, any, find, All, length,
  get_elem?, set, take, drop, replicate, length-append, length-take, length-drop, length-replicate,
  length-map, min, get_elem?-append_left, get_elem?-append_end, length-set, get_elem?-set_self,
}
use vectis.Error.{
  DynError, invalid_input, not_found, conflict, forbidden, internal, overloaded, concat,
  with_prefix,
}
use vectis.Error.Result.{
  Result, ok, err, ◌>>=◌, ◌>>◌, reject, map_err, is_ok, >>=-eq-ok, Result-cases, reject-ok,
  >>-eq-ok, map_err-ok, reject-then, not-false, if-ok,
}

abbrev pub chain_version : Text
chain_version = codes "audit-chain-v1"

abbrev pub checkpoint_version : Text
checkpoint_version = codes "audit-checkpoint-v1"

abbrev pub checkpoint_type : Text
checkpoint_type = codes "vectis-audit-checkpoint"

abbrev pub init_keys_kid : Text
init_keys_kid = codes "init-keys"

abbrev pub genesis_hash : Text
genesis_hash = replicate 64 b'0'

-- `b"vectis:audit-chain:v1\0"`
abbrev pub domain : Text
domain = codes "vectis:audit-chain:v1" ++ 0 ∷ []

abbrev pub chain_started : Text
chain_started = codes "audit.chain.started"

-- AUDIT_CHAIN_RECORD_MAX_BYTES, 16 * 1024
abbrev pub record_max_bytes : ℕ
record_max_bytes = 16384

-- AUDIT_CHAIN_REASON_MAX_CHARS
abbrev pub reason_max_chars : ℕ
reason_max_chars = 256

pub record AuditEvent : Type 0 where
  pub event : Text
  pub outcome : Text
  pub actor : Text
  pub actor_fp : Text
  pub root : Bool
  pub admin : Bool
  pub kid : Text
  pub remote_kid : Text
  pub action : Text
  pub reason : Text
  pub request_id : Text

pub record AuditRecordBody : Type 0 where
  pub version : Text
  pub chain_id : Text
  pub sequence : ℕ
  pub timestamp : Text
  pub event : Text
  pub outcome : Text
  pub actor : Text
  pub actor_fp : Text
  pub root : Bool
  pub admin : Bool
  pub kid : Text
  pub remote_kid : Text
  pub action : Text
  pub reason : Text
  pub request_id : Text
  pub hash_alg : Text
  pub prev_hash : Text

pub record AuditChainRecord : Type 0 where
  pub body : AuditRecordBody
  pub event_hash : Text

pub record AuditCheckpointLine : Type 0 where
  pub version : Text
  pub signature : Text

pub record AuditCheckpointPayload : Type 0 where
  pub version : Text
  pub token_type : Text
  pub kid : Text
  pub chain_id : Text
  pub last_sequence : ℕ
  pub head_hash : Text
  pub hash_alg : Text
  pub created_at : Text

-- What the code takes from serde_json, Botan and the `hex` crate, and from the signatures of
-- src/ops/sign.rs.
pub record Services : Type 0 where
  pub body_json : AuditRecordBody → Result DynError Text
  pub record_json : AuditChainRecord → Result DynError Text
  pub checkpoint_json : AuditCheckpointLine → Result DynError Text
  pub read_version : Text → Option Text
  pub read_record : Text → Option AuditChainRecord
  pub read_checkpoint : Text → Option AuditCheckpointLine
  pub hash_bytes : Text → Result DynError (List ℕ)
  pub hex_encode : List ℕ → Text
  pub hex_decodes : Text → Bool
  pub is_utf8 : Text → Bool
  pub sign : AuditCheckpointPayload → Result DynError Text
  pub verify_signature : Text → Option AuditCheckpointPayload

-- `hash_record`
unfoldable pub hash_record : Services → AuditRecordBody → Result DynError Text
hash_record services body = do
  canonical ← services.body_json body
  digest ← services.hash_bytes (domain ++ canonical)
  ok (services.hex_encode digest)

-- `AuditChainState`
pub record AuditChainState : Type 0 where
  pub chain_id : Text
  pub next_sequence : ℕ
  pub head_hash : Text
  pub events_since_checkpoint : ℕ
  pub last_checkpoint_sequence : Option ℕ

-- `AuditChainState::new`, for the hex of the 16 random bytes.
unfoldable pub new_chain : Text → AuditChainState
new_chain chain_id = record {
  chain_id = chain_id;
  next_sequence = 0;
  head_hash = genesis_hash;
  events_since_checkpoint = 0;
  last_checkpoint_sequence = none;
}

-- `AuditEvent::chain_started`
unfoldable pub chain_started_event : AuditEvent
chain_started_event = record {
  event = chain_started;
  outcome = codes "success";
  actor = [];
  actor_fp = [];
  root = false;
  admin = false;
  kid = [];
  remote_kid = [];
  action = codes "chain-start";
  reason = [];
  request_id = [];
}
