-- ===== src/Audit/Rounds.antt =====
-- src/core/audit_chain.rs: proofs about the writer's rounds.
use vectis.Base.{
  ℕ, ◌≡◌, inl, inr, refl, true, false, ◌&&◌, List, [], ◌∷◌, ◌++◌, arith, ◌==◌, Bool-cases,
  Option-cases, Text, length,
}
use vectis.Error.{DynError}
use vectis.Error.Result.{Result, ok, err, Result-cases, >>-eq-ok, ok-injective}
use mathlib.Core.Path.{subst}
use vectis.Audit.{Services, new_chain, chain_started_event}
use vectis.Audit.Append.{Outside, write_event, append_checkpoint}
use vectis.Audit.Logged.{append_checkpoint-Extends}
use vectis.Audit.Writer.{
  WriterCommand, Writer, Batch, Round, begin, drain, add_checkpoint, checkpoint_due,
  checkpoint_step, sync_sink, sync_step, fail_all, release, settle, writer_loop, start_runtime,
  is_none,
}
use vectis.Audit.Durable.{IsKept, IsKept-grows, IsSound, same, drain-IsSound, fail_all-keeps}

module _ (services : Services) where
  add_checkpoint-IsSound :
      (outside : Outside) (b : Batch)
      → IsSound services b.writer
      → IsSound services (add_checkpoint services outside b).writer
  unfolding add_checkpoint
  add_checkpoint-IsSound outside b s =
      let w = b.writer in
      let kept =
        IsKept-grows services w.requested w.lines _ w.cells w.cells
          (append_checkpoint-Extends services outside w.lines w.chain) (λ _ h. h) s.kept in
      elim (Result-cases (append_checkpoint services outside w.lines w.chain).result) [
        | inl (u, e) ↦ rw (add_checkpoint, e) (record { kept = kept; clean = λ _ d. cc })
        | inr (m, e) ↦ rw (add_checkpoint, e) (record { kept = kept; clean = λ p _. cc })
      ]

  checkpoint_step-IsSound :
      (event_count : ℕ) (outside : Outside) (b : Batch)
      → IsSound services b.writer
      → IsSound services (checkpoint_step services event_count outside b).writer
  unfolding checkpoint_step
  checkpoint_step-IsSound event_count outside b s =
      elim (Bool-cases (is_none b.writer.poisoned && checkpoint_due event_count b)) [
        | inl e ↦ rw (checkpoint_step, e) (add_checkpoint-IsSound outside b s)
        | inr e ↦ rw (checkpoint_step, e) s
      ]

  sync_sink-IsSound :
      (synced : Result DynError (Unit {0})) (w : Writer)
      → IsSound services w
      → IsSound services (sync_sink synced w)
  unfolding sync_sink
  sync_sink-IsSound (ok _) w s = record { kept = s.kept; clean = λ _ _. refl }
  sync_sink-IsSound (err m) w s = record { kept = s.kept; clean = λ p _. cc }

  sync_step-IsSound :
      (synced : Result DynError (Unit {0})) (b : Batch)
      → IsSound services b.writer
      → IsSound services (sync_step synced b).writer
  unfolding sync_step
  sync_step-IsSound synced b s =
      elim (Bool-cases (b.commit_requested && b.writer.dirty && is_none b.writer.poisoned)) [
        | inl e ↦ rw (sync_step, e) (sync_sink-IsSound synced b.writer s)
        | inr e ↦ rw (sync_step, e) s
      ]

  -- After a round that commits, a writer that is not poisoned has nothing left to sync.
  sync_sink-clean :
      (synced : Result DynError (Unit {0})) (w : Writer)
      → is_none (sync_sink synced w).poisoned ≡ true
      → (sync_sink synced w).dirty ≡ false
  unfolding sync_sink
  sync_sink-clean (ok _) w h = refl
  sync_sink-clean (err m) w h = cc

  pub sync_step-clean :
      (synced : Result DynError (Unit {0})) (b : Batch)
      → (sync_step synced b).commit_requested ≡ true
      → is_none (sync_step synced b).writer.poisoned ≡ true
      → (sync_step synced b).writer.dirty ≡ false
  unfolding sync_step
  sync_step-clean synced b =
      elim (Bool-cases (b.commit_requested && b.writer.dirty && is_none b.writer.poisoned)) [
        | inl e ↦ rw (sync_step, e) (λ _ h. sync_sink-clean synced b.writer h)
        | inr e ↦ rw (sync_step, e) (λ c h. ground arith)
      ]

  pub settle-IsSound :
      (event_count : ℕ) (round : Round) (b : Batch)
      → IsSound services b.writer
      → IsSound services (settle services event_count round b).writer
  unfolding settle
  settle-IsSound event_count round b s =
      sync_step-IsSound round.sync_result _
        (checkpoint_step-IsSound event_count round.checkpoint_outside b s)

  pub release-IsSound : (b : Batch) → IsSound services b.writer → IsSound services (release b)
  unfolding release
  release-IsSound b s = elim (Bool-cases b.commit_requested) [
    | inr e ↦ rw (release, e) s
    | inl e ↦ elim (Option-cases b.writer.poisoned) [
      | inl q ↦ rw (release, e, q) s
      | inr (m, q) ↦
          rw (release, e, q)
            (record {
              kept =
                  IsKept-grows services b.writer.requested b.writer.lines b.writer.lines
                    b.writer.cells (fail_all b.writer.cells b.barriers m)
                    (same services b.writer.lines)
                    (λ other h. fail_all-keeps b.barriers b.writer.cells other m h) s.kept;
              clean = s.clean;
            })
    ]
  ]

  pub writer_loop-IsSound :
      (event_count : ℕ) (rounds : List Round) (w : Writer) (queue : List (Outside × WriterCommand))
      → IsSound services w
      → IsSound services (writer_loop services event_count w queue rounds)
  unfolding writer_loop begin
  writer_loop-IsSound event_count [] w queue s = s
  writer_loop-IsSound event_count (round ∷ rounds) w queue s =
      let found = queue ++ round.arrived in
      let drained = drain-IsSound services found 0 (begin w) s in
      let b = settle services event_count round (drain services 0 (begin w) found).0 in
      let released = release-IsSound b (settle-IsSound event_count round _ drained) in
      elim (Bool-cases (length found == 0)) [
        | inl e ↦ rw (writer_loop, e) (writer_loop-IsSound event_count rounds w [] s)
        | inr e ↦ elim (Bool-cases b.shutdown) [
          | inl q ↦ rw (writer_loop, e, q) released
          | inr q ↦
              rw (writer_loop, e, q)
                (writer_loop-IsSound event_count rounds (release b)
                  (drain services 0 (begin w) found).1 released)
        ]
      ]

  pub start_runtime-IsSound :
      (outside : Outside) (synced : Result DynError (Unit {0})) (lines : List Text)
      (chain_id : Text) (w : Writer)
      → start_runtime services outside synced lines chain_id ≡ ok w
      → IsSound services w
  unfolding start_runtime IsKept
  start_runtime-IsSound outside synced lines chain_id w h =
      let (_, h1) =
        >>-eq-ok
          (write_event services outside lines (new_chain chain_id) chain_started_event).result _
          h in
      let (_, h2) = >>-eq-ok synced _ h1 in
      subst (IsSound services) (ok-injective _ refl h2) (record { kept = tt; clean = λ _ _. refl })
