-- ===== src/Audit/Tamper.antt =====
-- src/core/audit_chain.rs: proofs about two logs that `verify_file` accepts.
use vectis.Base.{ℕ, ◌≡◌, ◌≢◌, refl, sym, ap, ◌∙◌, List, [], ◌∷◌, some, none, arith, All}
use vectis.Error.Result.{ok}
use mathlib.Core.Path.{subst}
use vectis.Audit.{Services, AuditChainRecord, hash_record}
use vectis.Audit.Verify.{VerifiedChain, VerifyState, saturating_inc, verify_lines}
use vectis.Audit.Chain.{IsHashed, IsLinked, Follows, Tracks, last_chain, verify_lines-Tracks}

module _ (services : Services) where
  -- No record of the one list has the hash of another body of the other list.
  abbrev pub NoCollision : List AuditChainRecord → List AuditChainRecord → Type 0
  NoCollision rs ss =
      All
        (λ (r : AuditChainRecord).
          All
            (λ (s : AuditChainRecord).
              hash_record services r.body ≡ hash_record services s.body → r.body ≡ s.body)
            ss)
        rs

  IsLinked-IsHashed :
      (r : AuditChainRecord) (rs : List AuditChainRecord)
      → IsLinked services (r ∷ rs)
      → IsHashed services r
  IsLinked-IsHashed r [] h = h.0
  IsLinked-IsHashed r (q ∷ rs) h = h.0

  -- Equal hashes, without a collision, belong to equal records.
  record_eq :
      (r s : AuditChainRecord)
      → IsHashed services r
      → IsHashed services s
      → r.event_hash ≡ s.event_hash
      → (hash_record services r.body ≡ hash_record services s.body → r.body ≡ s.body)
      → r ≡ s
  record_eq r s hr hs e same = let b = same (hr ∙ ap ok e ∙ sym hs) in cc

  drop_first :
      (rs ss : List AuditChainRecord) (s : AuditChainRecord)
      → NoCollision rs (s ∷ ss)
      → NoCollision rs ss
  drop_first [] ss s n = tt
  drop_first (r ∷ rs) ss s n = (n.0.1, drop_first rs ss s n.1)

  no_genesis :
      (r s q : AuditChainRecord)
      → r.body.sequence ≡ 0
      → s.body.sequence ≡ saturating_inc q.body.sequence
      → r ≢ s
  unfolding saturating_inc
  no_genesis r s q hr hs e =
      let same : r.body.sequence ≡ s.body.sequence =
        ap (λ (x : AuditChainRecord). x.body.sequence) e in
      absurd (omega arith)

  heads_eq :
      (rs ss : List AuditChainRecord) (r s : AuditChainRecord)
      → IsLinked services (r ∷ rs)
      → IsLinked services (s ∷ ss)
      → NoCollision (r ∷ rs) (s ∷ ss)
      → r.event_hash ≡ s.event_hash
      → r ∷ rs ≡ s ∷ ss
  heads_eq [] [] r s hr hs n e = ap (λ x. x ∷ []) (record_eq r s hr.0 hs.0 e n.0.0)
  heads_eq [] (q ∷ ss) r s hr hs n e =
      absurd (no_genesis r s q hr.1 hs.1 (record_eq r s hr.0 hs.0 e n.0.0))
  heads_eq (q ∷ rs) [] r s hr hs n e =
      absurd (no_genesis s r q hs.1 hr.1 (sym (record_eq r s hr.0 hs.0 e n.0.0)))
  heads_eq (p ∷ rs) (q ∷ ss) r s hr hs n e =
      let same = record_eq r s hr.0 hs.0 e n.0.0 in
      let prev : r.body.prev_hash ≡ s.body.prev_hash =
        ap (λ (x : AuditChainRecord). x.body.prev_hash) same in
      let rest =
        heads_eq rs ss p q hr.4 hs.4 (drop_first (p ∷ rs) (q ∷ ss) s n.1)
          (sym hr.2 ∙ prev ∙ hs.2) in
      cc

  tracks_eq :
      (c d : VerifiedChain) (rs ss : List AuditChainRecord)
      → Follows services c rs
      → Follows services d ss
      → NoCollision rs ss
      → c.head_hash ≡ d.head_hash
      → rs ≡ ss
  tracks_eq c d [] ss hc hd n e = elim hc [ ]
  tracks_eq c d (r ∷ rs) [] hc hd n e = elim hd [ ]
  tracks_eq c d (r ∷ rs) (s ∷ ss) hc hd n e = heads_eq rs ss r s hc.3 hd.3 n (sym hc.0 ∙ e ∙ hd.0)

  -- Where the verification accepts two logs and holds chains with one head hash at their ends, and
  -- no hash of a record of one last chain is the hash of another record body of the other, the two
  -- last chains are the same records in the same order.
  pub head_hash-determines :
      (left right : List (List ℕ)) (st_left st_right : VerifyState) (c d : VerifiedChain)
      → verify_lines services (record { chains = []; current = none }) left ≡ ok st_left
      → verify_lines services (record { chains = []; current = none }) right ≡ ok st_right
      → st_left.current ≡ some c
      → st_right.current ≡ some d
      → c.head_hash ≡ d.head_hash
      → NoCollision (last_chain services [] left) (last_chain services [] right)
      → last_chain services [] left ≡ last_chain services [] right
  head_hash-determines left right st_left st_right c d hl hr cl cr e n =
      let l =
        verify_lines-Tracks services left (record { chains = []; current = none }) st_left [] refl
          hl in
      let r =
        verify_lines-Tracks services right (record { chains = []; current = none }) st_right [] refl
          hr in
      tracks_eq c d (last_chain services [] left) (last_chain services [] right)
        (subst (λ o. Tracks services o (last_chain services [] left)) cl l)
        (subst (λ o. Tracks services o (last_chain services [] right)) cr r) n e
