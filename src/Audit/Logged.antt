-- ===== src/Audit/Logged.antt =====
-- src/core/audit_chain.rs: proofs about the lines that an operation appends.
use vectis.Base.{
  ℕ, zero, suc, ◌<◌, ◌≡◌, inl, inr, refl, sym, ap, ◌∙◌, List, [], ◌∷◌, ◌++◌, append-nil, some,
  arith, ltb, Text, length, get_elem?, length-append, get_elem?-append_left, get_elem?-append_end,
}
use vectis.Error.Result.{ok, reject, >>=-eq-ok, Result-cases, >>-eq-ok, ok-injective}
use mathlib.Core.Path.{subst}
use vectis.Audit.{
  Services, AuditEvent, AuditChainState, AuditChainRecord, hash_record, record_max_bytes,
}
use vectis.Audit.Append.{
  Outside, event_body, prepare_event, write_event, prepare_checkpoint, append_checkpoint,
}

get_elem?-bound :
    (lines : List Text) (i : ℕ) (line : Text) → get_elem? lines i ≡ some line → i < length lines
get_elem?-bound [] i line h = cc
get_elem?-bound (x ∷ lines) zero line h = omega arith
get_elem?-bound (x ∷ lines) (suc i) line h = omega (arith, get_elem?-bound lines i line h)

module _ (services : Services) where
  -- The line of an event: the JSON of its record in some state of the chain.
  abbrev pub IsLineOf : AuditEvent → Text → Type 0
  IsLineOf event line =
      (st : AuditChainState) × (timestamp : Text) × (event_hash : Text) × (services.record_json
          (record { body = event_body st event timestamp; event_hash = event_hash })
        ≡ ok line)

  -- Among the first `n` lines of the log there is one of the event.
  abbrev pub IsLogged : ℕ → List Text → AuditEvent → Type 0
  IsLogged n lines event =
      (i : ℕ) × (line : Text) × (i < n) × (get_elem? lines i ≡ some line) × IsLineOf event line

  abbrev pub Extends : List Text → List Text → Type 0
  Extends lines longer = (more : List Text) × (longer ≡ lines ++ more)

  pub IsLogged-Extends :
      (lines longer : List Text) (event : AuditEvent)
      → Extends lines longer
      → IsLogged (length lines) lines event
      → IsLogged (length longer) longer event
  IsLogged-Extends lines longer event (more, e) (i, line, b, g, l) =
      subst (λ z. IsLogged (length z) z event) (sym e)
        (
          i,
          line,
          ground (arith, length-append lines more),
          get_elem?-append_left lines more i b ∙ g,
          l,
        )

  pub write_event-Extends :
      (outside : Outside) (lines : List Text) (st : AuditChainState) (event : AuditEvent)
      → Extends lines (write_event services outside lines st event).lines
  unfolding write_event
  write_event-Extends outside lines st event =
      elim (Result-cases (prepare_event services outside st event)) [
        | inl (p, e) ↦ rw (write_event, e) (p.1 ∷ [], refl)
        | inr (m, e) ↦ rw (write_event, e) ([], sym (append-nil lines))
      ]

  prepare_event-line :
      (outside : Outside) (st : AuditChainState) (event : AuditEvent) (p : AuditChainRecord × Text)
      → prepare_event services outside st event ≡ ok p
      → IsLineOf event p.1
  unfolding prepare_event
  prepare_event-line outside st event p h =
      let (timestamp, _, h1) = >>=-eq-ok outside.current_timestamp _ h in
      let (event_hash, _, h2) =
        >>=-eq-ok (hash_record services (event_body st event timestamp)) _ h1 in
      let (line, e, h3) =
        >>=-eq-ok
          (services.record_json
            (record { body = event_body st event timestamp; event_hash = event_hash }))
          _ h2 in
      let (_, h4) = >>-eq-ok (reject (ltb record_max_bytes (length line)) _) _ h3 in
      let (_, h5) = >>-eq-ok outside.write_record _ h4 in
      let same = ap (λ (x : AuditChainRecord × Text). x.1) (ok-injective _ refl h5) in
      subst (IsLineOf event) same (st, timestamp, event_hash, e)

  -- An event that `write_event` accepts has its line in the log.
  pub write_event-IsLogged :
      (outside : Outside) (lines : List Text) (st : AuditChainState) (event : AuditEvent)
      (u : Unit {0})
      → (write_event services outside lines st event).result ≡ ok u
      → IsLogged
          (length (write_event services outside lines st event).lines)
          (write_event services outside lines st event).lines
          event
  unfolding write_event
  write_event-IsLogged outside lines st event u =
      elim (Result-cases (prepare_event services outside st event)) [
        | inl (p, e) ↦
            rw (write_event, e)
              (λ h. (
                length lines,
                p.1,
                omega (arith, length-append lines (p.1 ∷ [])),
                get_elem?-append_end lines p.1,
                prepare_event-line outside st event p e,
              ))
        | inr (m, e) ↦ rw (write_event, e) (λ h. cc)
      ]

  pub append_checkpoint-Extends :
      (outside : Outside) (lines : List Text) (st : AuditChainState)
      → Extends lines (append_checkpoint services outside lines st).lines
  unfolding append_checkpoint
  append_checkpoint-Extends outside lines st =
      elim (Result-cases (prepare_checkpoint services outside st)) [
        | inl (s, e) ↦ rw (append_checkpoint, e) (s ∷ [], refl)
        | inr (m, e) ↦ rw (append_checkpoint, e) ([], sym (append-nil lines))
      ]
