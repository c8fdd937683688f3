-- ===== src/Audit/Chain.antt =====
-- src/core/audit_chain.rs: the links of a log's last chain, and proofs about `verify_file`.
use vectis.Base.{
  ℕ, ◌≡◌, inl, inr, refl, sym, ap, ◌∙◌, true, false, not, List, [], ◌∷◌, Option, some, none, arith,
  ◌==◌, ==_iff, if◌then◌else◌, Text, text_eq, text_eq_iff,
}
use vectis.Error.{DynError}
use vectis.Error.Result.{
  ok, err, reject, map_err, >>=-eq-ok, reject-ok, >>-eq-ok, map_err-ok, reject-then, not-false,
  if-ok, ok-injective,
}
use mathlib.Core.Path.{subst}
use vectis.Audit.{
  Services, AuditChainRecord, AuditCheckpointPayload, chain_version, checkpoint_version,
  hash_record, genesis_hash,
}
use vectis.Audit.Shape.{validate_record, validate_record_shape}
use vectis.Audit.Verify.{
  VerifiedChain, VerifyState, saturating_inc, from_genesis, push, pushed, checkpoint, confirmed,
  or_error, verify_checkpoint, check_line, is_genesis, genesis_is_invalid, start_chain,
  continue_chain, add_record, verify_record_line, verify_checkpoint_line, verify_line, verify_lines,
}

module _ (services : Services) where
  abbrev pub IsHashed : AuditChainRecord → Type 0
  IsHashed r = hash_record services r.body ≡ ok r.event_hash

  -- Each record names the one before it, down to the record that starts the chain.
  abbrev pub IsLinked : List AuditChainRecord → Type 0
  IsLinked [] = ⊥
  IsLinked (r ∷ []) = IsHashed r × (r.body.sequence ≡ 0) × (r.body.prev_hash ≡ genesis_hash)
  IsLinked (r ∷ q ∷ rs) =
      IsHashed r
      × (r.body.sequence ≡ saturating_inc q.body.sequence)
      × (r.body.prev_hash ≡ q.event_hash)
      × (r.body.chain_id ≡ q.body.chain_id)
      × IsLinked (q ∷ rs)

  -- A verified chain stands at the newest of the records.
  abbrev pub Follows : VerifiedChain → List AuditChainRecord → Type 0
  Follows c [] = ⊥
  Follows c (r ∷ rs) =
      (c.head_hash ≡ r.event_hash)
      × (c.last_sequence ≡ r.body.sequence)
      × (c.chain_id ≡ r.body.chain_id)
      × IsLinked (r ∷ rs)

  abbrev pub Tracks : Option VerifiedChain → List AuditChainRecord → Type 0
  Tracks none rs = rs ≡ []
  Tracks (some c) rs = Follows c rs

  -- The record that a chunk holds, where it holds one.
  unfoldable pub chunk_record : List ℕ → Option AuditChainRecord
  chunk_record bytes = elim (check_line services bytes) [
    | err _ ↦ none
    | ok line ↦ elim (services.read_version line) [
      | none ↦ none
      | some version ↦ if text_eq version chain_version then services.read_record line else none
    ]
  ]

  -- The records of the last chain, newest first, after one chunk and after all.
  unfoldable pub extend : List AuditChainRecord → Option AuditChainRecord → List AuditChainRecord
  extend rs none = rs
  extend rs (some r) = if is_genesis r then r ∷ [] else r ∷ rs

  unfoldable pub last_chain : List AuditChainRecord → List (List ℕ) → List AuditChainRecord
  unfolding extend chunk_record
  last_chain rs [] = rs
  last_chain rs (bytes ∷ rest) = last_chain (extend rs (chunk_record bytes)) rest

  or_error-ok :
      {A : Type 0} (e : DynError) (o : Option A) {a : A} → or_error e o ≡ ok a → o ≡ some a
  or_error-ok e none h = cc
  or_error-ok e (some b) h = cc

  validate_record-hash : (r : AuditChainRecord) → validate_record services r ≡ ok tt → IsHashed r
  unfolding validate_record
  validate_record-hash r h =
      let shape = >>-eq-ok (validate_record_shape services r) _ h in
      let prev = >>-eq-ok _ _ shape.1 in
      let event = >>-eq-ok _ _ prev.1 in
      let (json, _, size) = >>=-eq-ok (services.record_json r) _ event.1 in
      let bounded = >>-eq-ok _ _ size in
      let (digest, e, same) = >>=-eq-ok (hash_record services r.body) _ bounded.1 in
      e ∙ ap ok ((text_eq_iff digest r.event_hash).0 (not-false _ (reject-ok _ _ same)))

  push-Follows :
      (c : VerifiedChain) (r : AuditChainRecord) (rs : List AuditChainRecord) (d : VerifiedChain)
      → Follows c rs
      → IsHashed r
      → push c r ≡ ok d
      → Follows d (r ∷ rs)
  unfolding push pushed
  push-Follows c r [] d f hr h = elim f [ ]
  push-Follows c r (q ∷ rs) d f hr h =
      let (id, h1) = reject-then _ _ _ h in
      let (seq, h2) = reject-then _ _ _ h1 in
      let (prev, h3) = reject-then _ _ _ h2 in
      let id_eq = (text_eq_iff r.body.chain_id c.chain_id).0 (not-false _ id) in
      let seq_eq = (==_iff r.body.sequence (saturating_inc c.last_sequence)).0 (not-false _ seq) in
      let prev_eq = (text_eq_iff r.body.prev_hash c.head_hash).0 (not-false _ prev) in
      subst (λ x. Follows x (r ∷ q ∷ rs)) (ok-injective _ refl h3)
        (
          refl,
          refl,
          sym id_eq,
          (hr, seq_eq ∙ ap saturating_inc f.1, prev_eq ∙ f.0, id_eq ∙ f.2, f.3),
        )

  genesis-valid :
      (r : AuditChainRecord)
      → genesis_is_invalid r ≡ false
      → (r.body.sequence ≡ 0) × (r.body.prev_hash ≡ genesis_hash)
  unfolding genesis_is_invalid
  genesis-valid r h = (ground arith, (text_eq_iff r.body.prev_hash genesis_hash).0 (ground arith))

  start_chain-Tracks :
      (st next : VerifyState) (r : AuditChainRecord)
      → IsHashed r
      → start_chain st r ≡ ok next
      → Tracks next.current (r ∷ [])
  unfolding start_chain genesis_is_invalid from_genesis
  start_chain-Tracks st next r hr h =
      let (bad, h1) = reject-then _ _ _ h in
      let (seq, zero_hash) = genesis-valid r bad in
      subst (λ x. Tracks x.current (r ∷ [])) (ok-injective _ refl h1)
        (refl, sym seq, refl, (hr, seq, zero_hash))

  continue_chain-Tracks :
      (st next : VerifyState) (r : AuditChainRecord) (rs : List AuditChainRecord)
      → Tracks st.current rs
      → IsHashed r
      → continue_chain st r ≡ ok next
      → Tracks next.current (r ∷ rs)
  unfolding continue_chain
  continue_chain-Tracks st next r rs t hr h =
      let (c, e, h1) = >>=-eq-ok (or_error _ st.current) _ h in
      let (d, p, h2) = >>=-eq-ok (map_err _ (push c r)) _ h1 in
      let old : Tracks (some c) rs = subst (λ o. Tracks o rs) (or_error-ok _ st.current e) t in
      subst (λ x. Tracks x.current (r ∷ rs)) (ok-injective _ refl h2)
        (push-Follows c r rs d old hr (map_err-ok _ (push c r) p))

  add_record-Tracks :
      (st next : VerifyState) (r : AuditChainRecord) (rs : List AuditChainRecord)
      → Tracks st.current rs
      → IsHashed r
      → add_record st r ≡ ok next
      → Tracks next.current (extend rs (some r))
  unfolding add_record extend
  add_record-Tracks st next r rs t hr h = elim (if-ok (is_genesis r) _ _ h) [
    | inl p ↦ rw p.0 (start_chain-Tracks st next r hr p.1)
    | inr p ↦ rw p.0 (continue_chain-Tracks st next r rs t hr p.1)
  ]

  checkpoint-Follows :
      (c d : VerifiedChain) (p : AuditCheckpointPayload) (rs : List AuditChainRecord)
      → Follows c rs
      → checkpoint c p ≡ ok d
      → Follows d rs
  unfolding checkpoint confirmed
  checkpoint-Follows c d p [] f h = elim f [ ]
  checkpoint-Follows c d p (r ∷ rs) f h =
      let (_, h1) = >>-eq-ok (reject (not (text_eq p.chain_id c.chain_id)) _) _ h in
      let (_, h2) = >>-eq-ok (reject (not (p.last_sequence == c.last_sequence)) _) _ h1 in
      let (_, h3) = >>-eq-ok (reject (not (text_eq p.head_hash c.head_hash)) _) _ h2 in
      let same : confirmed c p ≡ d = ok-injective _ refl h3 in
      subst (λ x. Follows x (r ∷ rs)) same f

  check-verify_record_line :
      (st next : VerifyState) (line : Text)
      → verify_record_line services st line ≡ ok next
      → (r : AuditChainRecord) × (services.read_record line ≡ some r)
        × IsHashed r
        × (add_record st r ≡ ok next)
  unfolding verify_record_line
  check-verify_record_line st next line h =
      let (r, e, h1) = >>=-eq-ok (or_error _ (services.read_record line)) _ h in
      let (valid, h2) = >>-eq-ok _ _ h1 in
      let (json, _, h3) = >>=-eq-ok (services.record_json r) _ h2 in
      let (_, h4) = >>-eq-ok _ _ h3 in
      (
        r,
        or_error-ok _ _ e,
        validate_record-hash r (map_err-ok _ (validate_record services r) valid),
        h4,
      )

  verify_checkpoint_line-Tracks :
      (st next : VerifyState) (line : Text) (rs : List AuditChainRecord)
      → Tracks st.current rs
      → verify_checkpoint_line services st line ≡ ok next
      → Tracks next.current rs
  unfolding verify_checkpoint_line
  verify_checkpoint_line-Tracks st next line rs t h =
      let (c, _, h1) = >>=-eq-ok (or_error _ (services.read_checkpoint line)) _ h in
      let (json, _, h2) = >>=-eq-ok (services.checkpoint_json c) _ h1 in
      let (_, h3) = >>-eq-ok _ _ h2 in
      let (chain, e, h4) = >>=-eq-ok (or_error _ st.current) _ h3 in
      let (payload, _, h5) = >>=-eq-ok (map_err _ (verify_checkpoint services c)) _ h4 in
      let (d, p, h6) = >>=-eq-ok (map_err _ (checkpoint chain payload)) _ h5 in
      let old : Tracks (some chain) rs = subst (λ o. Tracks o rs) (or_error-ok _ st.current e) t in
      subst (λ x. Tracks x.current rs) (ok-injective _ refl h6)
        (checkpoint-Follows chain d payload rs old (map_err-ok _ (checkpoint chain payload) p))

  chunk_record-record :
      (bytes : List ℕ) (line version : Text)
      → check_line services bytes ≡ ok line
      → services.read_version line ≡ some version
      → text_eq version chain_version ≡ true
      → chunk_record bytes ≡ services.read_record line
  unfolding chunk_record
  chunk_record-record bytes line version e1 e2 e3 = rw (chunk_record, e1, e2, e3)

  chunk_record-checkpoint :
      (bytes : List ℕ) (line version : Text)
      → check_line services bytes ≡ ok line
      → services.read_version line ≡ some version
      → text_eq version chain_version ≡ false
      → chunk_record bytes ≡ none
  unfolding chunk_record
  chunk_record-checkpoint bytes line version e1 e2 e3 = rw (chunk_record, e1, e2, e3)

  verify_line-Tracks :
      (st next : VerifyState) (bytes : List ℕ) (rs : List AuditChainRecord)
      → Tracks st.current rs
      → verify_line services st bytes ≡ ok next
      → Tracks next.current (extend rs (chunk_record bytes))
  unfolding verify_line extend
  verify_line-Tracks st next bytes rs t h =
      let (line, e1, h1) = >>=-eq-ok (check_line services bytes) _ h in
      let (version, e2, h2) = >>=-eq-ok (or_error _ (services.read_version line)) _ h1 in
      let read = or_error-ok _ _ e2 in
      elim (if-ok (text_eq version chain_version) _ _ h2) [
        | inl p ↦
            let (r, e3, hr, h3) = check-verify_record_line st next line p.1 in
            rw (chunk_record-record bytes line version e1 read p.0, e3)
              (add_record-Tracks st next r rs t hr h3)
        | inr p ↦ elim (if-ok (text_eq version checkpoint_version) _ _ p.1) [
          | inl q ↦
              rw (chunk_record-checkpoint bytes line version e1 read p.0)
                (verify_checkpoint_line-Tracks st next line rs t q.1)
          | inr q ↦ cc
        ]
      ]

  -- Where the loop accepts the chunks, the chain it holds stands at the newest record of the last
  -- chain, and these records are linked by their hashes down to a genesis record.
  pub verify_lines-Tracks :
      (chunks : List (List ℕ)) (st final : VerifyState) (rs : List AuditChainRecord)
      → Tracks st.current rs
      → verify_lines services st chunks ≡ ok final
      → Tracks final.current (last_chain rs chunks)
  unfolding verify_lines last_chain
  verify_lines-Tracks [] st final rs t h =
      subst (λ x. Tracks x.current rs) (ok-injective _ refl h) t
  verify_lines-Tracks (bytes ∷ chunks) st final rs t h =
      let (next, e, h1) = >>=-eq-ok (verify_line services st bytes) _ h in
      verify_lines-Tracks chunks next final (extend rs (chunk_record bytes))
        (verify_line-Tracks st next bytes rs t e) h1
