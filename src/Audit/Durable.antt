-- ===== src/Audit/Durable.antt =====
-- src/core/audit_chain.rs: the predicates on a writer's cells and answered barriers.
use vectis.Base.{
  ℕ, suc, ◌≡◌, ◌⊎◌, inl, inr, refl, sym, Bool, true, false, not, ◌&&◌, List, [], ◌∷◌, append-nil,
  Option, some, none, arith, leb, ◌==◌, ==_iff, Bool-cases, Option-cases, Text, contains_char, All,
  length,
}
use vectis.Error.{DynError}
use vectis.Error.Result.{Result-cases}
use mathlib.Core.Path.{subst}
use vectis.Audit.{Services, AuditEvent}
use vectis.Audit.Append.{Outside, write_event}
use vectis.Audit.Logged.{
  IsLogged, Extends, IsLogged-Extends, write_event-Extends, write_event-IsLogged,
}
use vectis.Audit.Writer.{
  Cells, WriterCommand, write_command, barrier_command, shutdown_command, Writer, Batch,
  set_failure, handle_record, process, drain, fail_all, is_none,
}

-- A cell that holds a failure keeps one, whatever is put where.
unfoldable pub IsFailed : Cells → ℕ → Type 0
IsFailed cells failure = is_none (cells failure) ≡ false

first-kept :
    (o : Option DynError) (reason : DynError)
    → is_none (elim o as (λ _. Option DynError) [ none ↦ some reason | some first ↦ some first ])
      ≡ false
first-kept none reason = refl
first-kept (some first) reason = refl

set_failure-keeps :
    (cells : Cells) (failure other : ℕ) (reason : DynError)
    → IsFailed cells other
    → IsFailed (set_failure cells failure reason) other
unfolding IsFailed set_failure
set_failure-keeps cells failure other reason h = elim (Bool-cases (other == failure)) [
  | inl e ↦ rw (set_failure, e) (first-kept (cells failure) reason)
  | inr e ↦ rw (set_failure, e) h
]

set_failure-sets :
    (cells : Cells) (failure : ℕ) (reason : DynError)
    → IsFailed (set_failure cells failure reason) failure
unfolding IsFailed set_failure
set_failure-sets cells failure reason =
    rw (set_failure, (==_iff failure failure).1 refl) (first-kept (cells failure) reason)

pub fail_all-keeps :
    (failures : List ℕ) (cells : Cells) (other : ℕ) (reason : DynError)
    → IsFailed cells other
    → IsFailed (fail_all cells failures reason) other
unfolding fail_all
fail_all-keeps [] cells other reason h = h
fail_all-keeps (f ∷ fs) cells other reason h =
    fail_all-keeps fs (set_failure cells f reason) other reason
      (set_failure-keeps cells f other reason h)

pub fail_all-sets :
    (failures : List ℕ) (cells : Cells) (failure : ℕ) (reason : DynError)
    → contains_char failures failure ≡ true
    → IsFailed (fail_all cells failures reason) failure
unfolding fail_all
fail_all-sets [] cells failure reason h = cc
fail_all-sets (f ∷ fs) cells failure reason h = elim (Bool-cases (f == failure)) [
  | inl e ↦ fail_all-keeps fs (set_failure cells f reason) failure reason (
      subst (IsFailed (set_failure cells f reason)) ((==_iff f failure).0 e)
        (set_failure-sets cells f reason))
  | inr e ↦ fail_all-sets fs (set_failure cells f reason) failure reason (ground arith)
]

module _ (services : Services) where
  -- Every record that was asked for has its line in the log, or its cell holds a failure.
  unfoldable pub IsKept : List Text → Cells → List (ℕ × AuditEvent) → Type 0
  IsKept lines cells = All (λ (entry : ℕ × AuditEvent).
      IsFailed cells entry.0 ⊎ IsLogged services (length lines) lines entry.1)

  pub IsKept-grows :
      (requested : List (ℕ × AuditEvent)) (lines longer : List Text) (cells later : Cells)
      → Extends services lines longer
      → ((other : ℕ) → IsFailed cells other → IsFailed later other)
      → IsKept lines cells requested
      → IsKept longer later requested
  unfolding IsKept
  IsKept-grows [] lines longer cells later x f h = tt
  IsKept-grows (entry ∷ entries) lines longer cells later x f h = (
    elim (h.0) [
      | inl e ↦ inl (f entry.0 e)
      | inr l ↦ inr (IsLogged-Extends services lines longer entry.1 x l)
    ],
    IsKept-grows entries lines longer cells later x f h.1,
  )

  -- The loop's invariant: nothing asked for is lost in silence, and a writer that is neither
  -- poisoned nor dirty has synced every line.
  pub record IsSound (w : Writer) : Type 0 where
    pub kept : IsKept w.lines w.cells w.requested
    pub clean : is_none w.poisoned ≡ true → w.dirty ≡ false → w.synced ≡ length w.lines

  pub same : (lines : List Text) → Extends services lines lines
  same lines = ([], sym (append-nil lines))

  handle_record-IsSound :
      (outside : Outside) (b : Batch) (event : AuditEvent) (failure : ℕ) (standalone : Bool)
      → IsSound b.writer
      → IsSound (handle_record services outside b event failure standalone).writer
  unfolding handle_record IsKept
  handle_record-IsSound outside b event failure standalone s =
      let w = b.writer in
      let grown = write_event-Extends services outside w.lines w.chain event in
      elim (Result-cases (write_event services outside w.lines w.chain event).result) [
        | inl (u, e) ↦
            rw (handle_record, e)
              (record {
                kept = (
                  inr (write_event-IsLogged services outside w.lines w.chain event u e),
                  IsKept-grows w.requested w.lines _ w.cells w.cells grown (λ _ h. h) s.kept,
                );
                clean = λ _ d. cc;
              })
        | inr (m, e) ↦
            rw (handle_record, e)
              (record {
                kept = (
                  inl (set_failure-sets w.cells failure m),
                  IsKept-grows w.requested w.lines _ w.cells (set_failure w.cells failure m) grown
                      (λ other h. set_failure-keeps w.cells failure other m h) s.kept,
                );
                clean = λ p _. cc;
              })
      ]

  process-IsSound :
      (outside : Outside) (command : WriterCommand) (b : Batch)
      → IsSound b.writer
      → IsSound (process services b outside command).writer
  unfolding process IsKept
  process-IsSound outside (write_command event failure standalone) b s =
      let w = b.writer in
      elim (Option-cases w.poisoned) [
        | inl e ↦ rw (process, e) (handle_record-IsSound outside b event failure standalone s)
        | inr (m, e) ↦
            rw (process, e)
              (record {
                kept = (
                  inl (set_failure-sets w.cells failure m),
                  IsKept-grows w.requested w.lines w.lines w.cells (set_failure w.cells failure m)
                      (same w.lines) (λ other h. set_failure-keeps w.cells failure other m h)
                      s.kept,
                );
                clean = s.clean;
              })
      ]
  process-IsSound outside (barrier_command failure) b s = s
  process-IsSound outside shutdown_command b s = s

  pub drain-IsSound :
      (found : List (Outside × WriterCommand)) (processed : ℕ) (b : Batch)
      → IsSound b.writer
      → IsSound (drain services processed b found).0.writer
  unfolding drain
  drain-IsSound [] processed b s = s
  drain-IsSound ((outside, command) ∷ found) processed b s =
      let next = process-IsSound outside command b s in
      let rest = drain-IsSound found (suc processed) (process services b outside command) next in
      elim (Bool-cases
        (not (process services b outside command).shutdown && leb 256 (suc processed))) [
          | inl e ↦ rw (drain, e) next
          | inr e ↦ rw (drain, e) rest
        ]
