-- ===== src/Tests/Audit.antt =====
-- The audit log (src/core/audit_chain.rs) at concrete logs: a record is one byte, and its hash is
-- its sequence number written in 64 digits.
use vectis.Base.{
  ℕ, zero, suc, ◌+◌, ◌-◌, ◌≡◌, refl, true, false, List, [], ◌∷◌, ◌++◌, some, none, arith, ◌==◌,
  if◌then◌else◌, Text, codes, text_eq, drop, replicate,
}
use vectis.Error.Result.{ok}
use vectis.Keys.Id.{internal_keys_hash}
use vectis.Audit.{
  Services, AuditRecordBody, AuditChainRecord, hash_record, chain_version, genesis_hash,
  chain_started,
}
use vectis.Audit.Verify.{VerifiedChain, VerifyState, verify_lines, from_genesis, pushed}
use vectis.Audit.Tamper.{NoCollision, head_hash-determines}
use vectis.Audit.Chain.{last_chain}

abbrev number : List ℕ → Text
number [] = genesis_hash
number (n ∷ _) = replicate 63 b'0' ++ (b'1' + n) ∷ []

abbrev previous : ℕ → Text
previous zero = genesis_hash
previous (suc n) = number (n ∷ [])

abbrev sample : ℕ → AuditChainRecord
sample n = record {
  body = record {
    version = chain_version;
    chain_id = replicate 32 b'a';
    sequence = n;
    timestamp = b'7' ∷ [];
    event = if n == 0 then chain_started else b'e' ∷ [];
    outcome = codes "success";
    actor = [];
    actor_fp = [];
    root = false;
    admin = false;
    kid = [];
    remote_kid = [];
    action = if n == 0 then codes "chain-start" else b'g' ∷ [];
    reason = [];
    request_id = [];
    hash_alg = internal_keys_hash;
    prev_hash = previous n;
  };
  event_hash = number (n ∷ []);
}

abbrev pub services : Services
services = record {
  body_json = λ b. ok (b.sequence ∷ []);
  record_json = λ r. ok ((b'A' + r.body.sequence) ∷ []);
  checkpoint_json = λ c. ok c.signature;
  read_version = λ line. some chain_version;
  read_record = λ line. elim line [ [] ↦ none | (c ∷ _) ↦ some (sample (c - b'A')) ];
  read_checkpoint = λ line. none;
  hash_bytes = λ input. ok (drop 22 input);
  hex_encode = number;
  hex_decodes = λ _. true;
  is_utf8 = λ _. true;
  sign = λ _. ok [];
  verify_signature = λ _. none;
}

abbrev line : ℕ → List ℕ
line n = (b'A' + n) ∷ 0x0a ∷ []

abbrev once : List (List ℕ)
once = line 0 ∷ line 1 ∷ []

abbrev twice : List (List ℕ)
twice = line 0 ∷ line 0 ∷ line 1 ∷ []

abbrev end : VerifiedChain
end = pushed (from_genesis (sample 0)) (sample 1)

abbrev begin : VerifyState
begin = record { chains = []; current = none }

once-verified : verify_lines services begin once ≡ ok (record { chains = []; current = some end })
unfolding verify_lines text_eq codes vectis.Audit.Shape.validate_record
    vectis.Validation.Chars.byte_len vectis.Validation.Fields.validate_hex_field
    vectis.Validation.Chars.is_ascii_hexdigit vectis.Keys.Id.validate_hash_hex_field
    vectis.Validation.Fields.validate_allowed_value vectis.Validation.Fields.validate_text_field
    vectis.Validation.Chars.is_blank hash_record
once-verified = refl

twice-verified :
    verify_lines services begin twice
    ≡ ok (record { chains = from_genesis (sample 0) ∷ []; current = some end })
unfolding verify_lines text_eq codes vectis.Audit.Shape.validate_record
    vectis.Validation.Chars.byte_len vectis.Validation.Fields.validate_hex_field
    vectis.Validation.Chars.is_ascii_hexdigit vectis.Keys.Id.validate_hash_hex_field
    vectis.Validation.Fields.validate_allowed_value vectis.Validation.Fields.validate_text_field
    vectis.Validation.Chars.is_blank hash_record
twice-verified = refl

no_collision : NoCollision services (last_chain services [] once) (last_chain services [] twice)
unfolding last_chain hash_record vectis.Audit.Verify.check_line text_eq codes
    vectis.Audit.Verify.is_genesis
no_collision =
    (((λ _. refl), ((λ e. ground arith), tt)), (((λ e. ground arith), ((λ _. refl), tt)), tt))

head_hash-determines_example : last_chain services [] once ≡ last_chain services [] twice
head_hash-determines_example =
    head_hash-determines services once twice (record { chains = []; current = some end })
      (record { chains = from_genesis (sample 0) ∷ []; current = some end }) end end once-verified
      twice-verified refl refl refl no_collision
