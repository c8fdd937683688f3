-- ===== src/Audit/Writer.antt =====
-- The writer thread of the audit log: `writer_loop_with_policy`, its batches and barriers.
use vectis.Base.{
  ℕ, suc, ◌-◌, Bool, true, false, not, ◌&&◌, ◌||◌, List, [], ◌∷◌, ◌++◌, Option, some, none, ltb,
  leb, ◌==◌, if◌then◌else◌, Text, length,
}
use vectis.Error.{DynError}
use vectis.Error.Result.{Result, ok, err, ◌>>◌}
use vectis.Audit.{Services, AuditEvent, AuditChainState, new_chain, chain_started_event}
use vectis.Audit.Append.{Outside, write_event, append_checkpoint}

-- AUDIT_GROUP_COMMIT_MAX_COMMANDS
abbrev pub group_commit_max_commands : ℕ
group_commit_max_commands = 256

-- `Arc<Mutex<Option<String>>>`: the cells, each with the first error that was put there.
abbrev pub Cells : Type 0
Cells = ℕ → Option DynError

unfoldable pub set_failure : Cells → ℕ → DynError → Cells
set_failure cells failure reason cell =
    if cell == failure
    then elim (cells failure) [ none ↦ some reason | some first ↦ some first ]
    else cells cell

-- A command names the cell that it shares with its caller.
pub data WriterCommand : Type 0 where
  write_command : AuditEvent → ℕ → Bool → WriterCommand
  barrier_command : ℕ → WriterCommand
  shutdown_command : WriterCommand

-- The locals of the loop, the log's lines with the number of them that a sync made durable, and
-- the records that it was asked to write, each with its cell.
pub record Writer : Type 0 where
  pub lines : List Text
  pub synced : ℕ
  pub chain : AuditChainState
  pub cells : Cells
  pub poisoned : Option DynError
  pub dirty : Bool
  pub requested : List (ℕ × AuditEvent)

-- The locals of one round: `barriers`, `commit_requested` and whether there is a `shutdown_reply`.
pub record Batch : Type 0 where
  pub writer : Writer
  pub barriers : List ℕ
  pub commit_requested : Bool
  pub shutdown : Bool

unfoldable pub begin : Writer → Batch
begin w = record { writer = w; barriers = []; commit_requested = false; shutdown = false }

-- The branch of the loop for a record, where the writer is not poisoned.
unfoldable pub handle_record : Services → Outside → Batch → AuditEvent → ℕ → Bool → Batch
unfolding set_failure
handle_record services outside b event failure standalone =
    let w = b.writer in
    let done = write_event services outside w.lines w.chain event in
    let asked = (failure, event) ∷ w.requested in
    elim done.result [
      | err reason ↦ record b {
        writer = record w {
          lines = done.lines;
          chain = done.chain;
          cells = set_failure w.cells failure reason;
          poisoned = some reason;
          requested = asked;
        };
      }
      | ok _ ↦ record b {
        writer = record w {
          lines = done.lines;
          chain = done.chain;
          dirty = true;
          requested = asked;
        };
        commit_requested = b.commit_requested || standalone;
      }
    ]

unfoldable pub process : Services → Batch → Outside → WriterCommand → Batch
unfolding handle_record
process services b outside (write_command event failure standalone) = elim b.writer.poisoned [
  | some reason ↦ record b {
    writer = record (b.writer) {
      cells = set_failure b.writer.cells failure reason;
      requested = (failure, event) ∷ b.writer.requested;
    };
  }
  | none ↦ handle_record services outside b event failure standalone
]
process services b outside (barrier_command failure) = record b {
  barriers = b.barriers ++ failure ∷ [];
  commit_requested = true;
}
process services b outside shutdown_command = record b { shutdown = true; commit_requested = true }

-- The inner loop over the commands that the queue holds, with those that it leaves there.
unfoldable pub drain :
    Services → ℕ → Batch → List (Outside × WriterCommand) → Batch × List (Outside × WriterCommand)
unfolding process
drain services processed b [] = (b, [])
drain services processed b ((outside, command) ∷ queue) =
    let next = process services b outside command in
    let rest = drain services (suc processed) next queue in
    if not next.shutdown && leb group_commit_max_commands (suc processed)
    then (next, queue)
    else rest

-- `state.last_checkpoint_sequence != Some(state.next_sequence.saturating_sub(1))`
unfoldable pub is_checkpointed : AuditChainState → Bool
is_checkpointed st = elim st.last_checkpoint_sequence [
  | none ↦ false
  | some n ↦ n == st.next_sequence - 1
]

unfoldable pub checkpoint_due : ℕ → Batch → Bool
unfolding is_checkpointed
checkpoint_due event_count b =
    let st = b.writer.chain in
    ltb 0 st.events_since_checkpoint
    && (leb event_count st.events_since_checkpoint || (b.shutdown && not (is_checkpointed st)))

-- The checkpoint after the inner loop.
unfoldable pub add_checkpoint : Services → Outside → Batch → Batch
add_checkpoint services outside b =
    let w = b.writer in
    let done = append_checkpoint services outside w.lines w.chain in
    let state = record w { lines = done.lines; chain = done.chain } in
    elim done.result [
      | ok _ ↦ record b { writer = record state { dirty = true }; commit_requested = true }
      | err reason ↦ record b {
        writer = record state { poisoned = some reason };
        commit_requested = true;
      }
    ]

abbrev pub is_none {ℓ} : {A : Type ℓ} → Option A → Bool
is_none none = true
is_none (some _) = false

unfoldable pub checkpoint_step : Services → ℕ → Outside → Batch → Batch
unfolding checkpoint_due add_checkpoint
checkpoint_step services event_count outside b =
    if is_none b.writer.poisoned && checkpoint_due event_count b
    then add_checkpoint services outside b
    else b

-- `sink.sync()`
unfoldable pub sync_sink : Result DynError (Unit {0}) → Writer → Writer
sync_sink (ok _) w = record w { synced = length w.lines; dirty = false }
sync_sink (err reason) w = record w { poisoned = some reason }

unfoldable pub sync_step : Result DynError (Unit {0}) → Batch → Batch
unfolding sync_sink
sync_step synced b =
    if b.commit_requested && b.writer.dirty && is_none b.writer.poisoned
    then record b { writer = sync_sink synced b.writer }
    else b

-- The release of the barriers, and the cells of those that it answered.
unfoldable pub fail_all : Cells → List ℕ → DynError → Cells
unfolding set_failure
fail_all cells [] reason = cells
fail_all cells (failure ∷ failures) reason =
    fail_all (set_failure cells failure reason) failures reason

unfoldable pub release : Batch → Writer
unfolding fail_all
release b = elim b.commit_requested [
  | false ↦ b.writer
  | true ↦ elim b.writer.poisoned [
    | none ↦ b.writer
    | some reason ↦ record (b.writer) { cells = fail_all b.writer.cells b.barriers reason }
  ]
]

unfoldable pub answered : Batch → List ℕ
answered b = if b.commit_requested then b.barriers else []

-- What a round finds: the commands that arrived, and the answers of the outside at its end.
pub record Round : Type 0 where
  pub arrived : List (Outside × WriterCommand)
  pub checkpoint_outside : Outside
  pub sync_result : Result DynError (Unit {0})

-- The end of a round, from the checkpoint to the release of the barriers.
unfoldable pub settle : Services → ℕ → Round → Batch → Batch
unfolding checkpoint_step sync_step
settle services event_count round b =
    sync_step round.sync_result (checkpoint_step services event_count round.checkpoint_outside b)

-- `writer_loop_with_policy`; without a command it waits.
unfoldable pub writer_loop :
    Services → ℕ → Writer → List (Outside × WriterCommand) → List Round → Writer
unfolding begin drain settle release
writer_loop services event_count w queue [] = w
writer_loop services event_count w queue (round ∷ rounds) =
    let found = queue ++ round.arrived in
    let drained = drain services 0 (begin w) found in
    let b = settle services event_count round drained.0 in
    let idle = writer_loop services event_count w [] rounds in
    let more = writer_loop services event_count (release b) drained.1 rounds in
    if length found == 0 then idle else if b.shutdown then release b else more

-- `AuditRuntime::start`: the log is opened, the genesis record is written and synced.
unfoldable pub start_runtime :
    Services → Outside → Result DynError (Unit {0}) → List Text → Text → Result DynError Writer
unfolding new_chain chain_started_event
start_runtime services outside synced lines chain_id =
    let done = write_event services outside lines (new_chain chain_id) chain_started_event in
    done.result
    >> (synced
        >> ok (record {
          lines = done.lines;
          synced = length done.lines;
          chain = done.chain;
          cells = λ _. none;
          poisoned = none;
          dirty = false;
          requested = [];
        }))
