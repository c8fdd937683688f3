-- ===== src/Audit/Confirm.antt =====
-- src/core/audit_chain.rs: proofs about an answered barrier.
use vectis.Base.{
  ℕ, ◌≡◌, inl, inr, refl, sym, ap, ◌∙◌, true, List, [], ◌∷◌, arith, Bool-cases, Option-cases, Text,
  contains_char, All, length,
}
use vectis.Error.{DynError}
use vectis.Error.Result.{Result, ok}
use mathlib.Core.Path.{subst}
use vectis.Audit.{Services, AuditEvent}
use vectis.Audit.Append.{Outside}
use vectis.Audit.Logged.{IsLogged}
use vectis.Audit.Writer.{
  Cells, WriterCommand, Writer, Batch, Round, begin, drain, checkpoint_step, release, answered,
  settle, writer_loop, start_runtime, is_none,
}
use vectis.Audit.Durable.{IsFailed, IsKept, IsSound, drain-IsSound, fail_all-sets}
use vectis.Audit.Rounds.{
  settle-IsSound, release-IsSound, writer_loop-IsSound, start_runtime-IsSound, sync_step-clean,
}

module _ (services : Services) where
  -- A barrier whose cell is empty after its round was answered by a writer that is not poisoned.
  answered-clean :
      (b : Batch) (failure : ℕ)
      → contains_char (answered b) failure ≡ true
      → is_none ((release b).cells failure) ≡ true
      → (b.commit_requested ≡ true) × (is_none b.writer.poisoned ≡ true)
  unfolding answered release IsFailed
  answered-clean b failure = elim (Bool-cases b.commit_requested) [
    | inr e ↦ rw (release, answered, e) (λ h _. cc)
    | inl e ↦ elim (Option-cases b.writer.poisoned) [
      | inl q ↦ rw (release, answered, e, q) (λ _ _. (refl, refl))
      | inr (m, q) ↦
          rw (release, answered, e, q)
            (λ h k. let failed = fail_all-sets b.barriers b.writer.cells failure m h in cc)
    ]
  ]

  release-log :
      (b : Batch) → ((release b).synced ≡ b.writer.synced) × ((release b).lines ≡ b.writer.lines)
  unfolding release
  release-log b = elim (Bool-cases b.commit_requested) [
    | inr e ↦ rw (release, e) (refl, refl)
    | inl e ↦ elim (Option-cases b.writer.poisoned) [
      | inl q ↦ rw (release, e, q) (refl, refl)
      | inr (m, q) ↦ rw (release, e, q) (refl, refl)
    ]
  ]

  -- The records asked for with one cell have their lines among the first `n`.
  abbrev pub IsDurable : ℕ → ℕ → List Text → List (ℕ × AuditEvent) → Type 0
  IsDurable failure n lines =
      All (λ (entry : ℕ × AuditEvent). entry.0 ≡ failure → IsLogged services n lines entry.1)

  kept-IsDurable :
      (requested : List (ℕ × AuditEvent)) (lines : List Text) (cells : Cells) (failure : ℕ)
      → is_none (cells failure) ≡ true
      → IsKept services lines cells requested
      → IsDurable failure (length lines) lines requested
  unfolding IsKept IsFailed
  kept-IsDurable [] lines cells failure h k = tt
  kept-IsDurable (entry ∷ entries) lines cells failure h k = (
    (λ e. elim (k.0) [ inl f ↦ absurd (ground (arith, e, f, h)) | inr l ↦ l ]),
    kept-IsDurable entries lines cells failure h k.1,
  )

  settled-IsDurable :
      (event_count : ℕ) (round : Round) (b : Batch) (failure : ℕ)
      → IsSound services b.writer
      → contains_char (answered (settle services event_count round b)) failure ≡ true
      → is_none ((release (settle services event_count round b)).cells failure) ≡ true
      → IsDurable failure
          (release (settle services event_count round b)).synced
          (release (settle services event_count round b)).lines
          (release (settle services event_count round b)).requested
  unfolding settle
  settled-IsDurable event_count round b failure s ha hf =
      let c = settle services event_count round b in
      let sound = settle-IsSound services event_count round b s in
      let (commit, healthy) = answered-clean c failure ha hf in
      let clean =
        sync_step-clean services round.sync_result
          (checkpoint_step services event_count round.checkpoint_outside b) commit healthy in
      let synced = sound.clean healthy clean in
      let (n, l) = release-log c in
      let released = release-IsSound services c sound in
      subst (λ z. IsDurable failure z (release c).lines (release c).requested)
        (ap length l ∙ sym synced ∙ sym n)
        (kept-IsDurable (release c).requested (release c).lines (release c).cells failure hf
          released.kept)

-- The end of a round over the commands `found`, after rounds from a first state.
abbrev pub last_batch :
    Services → ℕ → Writer → List Round → Round → List (Outside × WriterCommand) → Batch
last_batch services event_count first rounds round found =
    settle services event_count round
      (drain services 0 (begin (writer_loop services event_count first [] rounds)) found).0

-- After a start that succeeds and any rounds of the writer, at the end of a round over any commands:
-- where a barrier is answered and its cell holds no failure, every record that the writer was asked
-- to write with that cell, in this round or before, has its line among the lines of the log that
-- a sync has made durable.
pub confirmed-IsDurable :
    (services : Services) (event_count : ℕ) (outside : Outside)
    (synced : Result DynError (Unit {0})) (lines : List Text) (chain_id : Text) (first : Writer)
    (rounds : List Round) (round : Round) (found : List (Outside × WriterCommand)) (failure : ℕ)
    → start_runtime services outside synced lines chain_id ≡ ok first
    → contains_char (answered (last_batch services event_count first rounds round found)) failure
      ≡ true
    → is_none ((release (last_batch services event_count first rounds round found)).cells failure)
      ≡ true
    → IsDurable services failure
        (release (last_batch services event_count first rounds round found)).synced
        (release (last_batch services event_count first rounds round found)).lines
        (release (last_batch services event_count first rounds round found)).requested
unfolding begin
confirmed-IsDurable services event_count outside synced lines chain_id first rounds round found
      failure hs ha hf =
    let w = writer_loop services event_count first [] rounds in
    let s =
      writer_loop-IsSound services event_count rounds first []
        (start_runtime-IsSound services outside synced lines chain_id first hs) in
    settled-IsDurable services event_count round (drain services 0 (begin w) found).0 failure
      (drain-IsSound services found 0 (begin w) s) ha hf
