-- ===== src/Tests/Writer.antt =====
-- The audit log's writer (src/core/audit_chain.rs) over one record and its barrier.
use vectis.Base.{◌≡◌, refl, true, false, List, [], ◌∷◌, ◌++◌, none, codes, contains_char, replicate}
use vectis.Error.Result.{ok}
use vectis.Audit.{Services, AuditEvent}
use vectis.Audit.Append.{Outside}
use vectis.Audit.Writer.{
  WriterCommand, write_command, barrier_command, Writer, Round, release, answered, start_runtime,
  is_none, writer_loop,
}
use vectis.Audit.Confirm.{IsDurable, last_batch, confirmed-IsDurable}
use vectis.Tests.Audit.{services}

abbrev outside : Outside
outside = record { current_timestamp = ok (b'7' ∷ []); write_record = ok tt }

abbrev event : AuditEvent
event = record {
  event = b'e' ∷ [];
  outcome = b'o' ∷ [];
  actor = [];
  actor_fp = [];
  root = false;
  admin = false;
  kid = [];
  remote_kid = [];
  action = b'g' ∷ [];
  reason = [];
  request_id = [];
}

abbrev first : Writer
first = record {
  lines = (b'A' ∷ []) ∷ [];
  synced = 1;
  chain = record {
    chain_id = replicate 32 b'a';
    next_sequence = 1;
    head_hash = replicate 63 b'0' ++ b'1' ∷ [];
    events_since_checkpoint = 0;
    last_checkpoint_sequence = none;
  };
  cells = λ _. none;
  poisoned = none;
  dirty = false;
  requested = [];
}

abbrev round : Round
round = record { arrived = []; checkpoint_outside = outside; sync_result = ok tt }

abbrev found : List (Outside × WriterCommand)
found = (outside, write_command event 7 false) ∷ (outside, barrier_command 7) ∷ []

started : start_runtime services outside (ok tt) [] (replicate 32 b'a') ≡ ok first
unfolding start_runtime vectis.Audit.Append.write_event codes
started = refl

released : contains_char (answered (last_batch services 10000 first [] round found)) 7 ≡ true
unfolding answered vectis.Audit.Writer.settle vectis.Audit.Writer.drain vectis.Audit.Writer.begin
    writer_loop vectis.Audit.Append.write_event
released = refl

healthy : is_none ((release (last_batch services 10000 first [] round found)).cells 7) ≡ true
unfolding release vectis.Audit.Writer.settle vectis.Audit.Writer.drain vectis.Audit.Writer.begin
    writer_loop vectis.Audit.Append.write_event
healthy = refl

confirmed-IsDurable_example :
    IsDurable services 7
      (release (last_batch services 10000 first [] round found)).synced
      (release (last_batch services 10000 first [] round found)).lines
      (release (last_batch services 10000 first [] round found)).requested
confirmed-IsDurable_example =
    confirmed-IsDurable services 10000 outside (ok tt) [] (replicate 32 b'a') first [] round found 7
      started released healthy
