-- ===== src/Keys/Load.antt =====
-- Loading the keys (src/ops/keys.rs): `load_keys_from_rows`, its tasks and its summary. A row's task
-- ends with one outcome; a schedule says which of the pending tasks is joined next.
use vectis.Base.{
  ℕ, zero, suc, ◌+◌, Bool, List, [], ◌∷◌, ◌++◌, Option, some, none, ltb, if◌then◌else◌, length,
  get_elem?, set, replicate, min, max,
}
use vectis.Profiles.{Table}
use vectis.Keys.State.{LoadedOpsKey, from_keys}

pub data KeyLoadFailureReason : Type 0 where
  decrypt_or_validate task_panic task_cancelled task_join : KeyLoadFailureReason

-- How a task ends: with a key, with the loader's error, or by a failed join.
pub data Outcome (M : Type 0) : Type 0 where
  finished : LoadedOpsKey M → Outcome M
  refused : Outcome M
  unjoined : Bool → Bool → Outcome M

pub record KeysLoadSummary : Type 0 where
  pub total : ℕ
  pub loaded : ℕ
  pub decrypt_or_validate_failed : ℕ
  pub task_panicked : ℕ
  pub task_cancelled : ℕ
  pub task_join_failed : ℕ

unfoldable pub skipped : KeysLoadSummary → ℕ
skipped s = s.decrypt_or_validate_failed + s.task_panicked + s.task_cancelled + s.task_join_failed

unfoldable pub record_failure : KeysLoadSummary → KeyLoadFailureReason → KeysLoadSummary
record_failure s decrypt_or_validate = record s {
  decrypt_or_validate_failed = s.decrypt_or_validate_failed + 1;
}
record_failure s task_panic = record s { task_panicked = s.task_panicked + 1 }
record_failure s task_cancelled = record s { task_cancelled = s.task_cancelled + 1 }
record_failure s task_join = record s { task_join_failed = s.task_join_failed + 1 }

unfoldable pub classify_join_failure : Bool → Bool → KeyLoadFailureReason
classify_join_failure is_panic is_cancelled =
    if is_panic then task_panic else if is_cancelled then task_cancelled else task_join

-- The summary and the slots of `loaded`.
abbrev pub Progress : Type 0 → Type 0
Progress M = KeysLoadSummary × List (Option (LoadedOpsKey M))

-- The task that the schedule picks among the pending ones, and the others.
unfoldable pub pick : ℕ → ℕ → List ℕ → ℕ × List ℕ
pick choice task [] = (task, [])
pick zero task (other ∷ tasks) = (task, other ∷ tasks)
pick (suc choice) task (other ∷ tasks) =
    let picked = pick choice other tasks in (picked.0, task ∷ picked.1)

-- `0 .. n`
unfoldable pub range_from : ℕ → ℕ → List ℕ
range_from start zero = []
range_from start (suc n) = start ∷ range_from (suc start) n

unfoldable pub empty_summary : ℕ → KeysLoadSummary
empty_summary total = record {
  total = total;
  loaded = 0;
  decrypt_or_validate_failed = 0;
  task_panicked = 0;
  task_cancelled = 0;
  task_join_failed = 0;
}

module _ {M : Type 0} where
  -- One turn of the loop for the outcome of the task of a row.
  unfoldable pub join_task : Progress M → ℕ → Outcome M → Progress M
  unfolding record_failure classify_join_failure
  join_task (summary, loaded) index (finished key) = (summary, set loaded index (some key))
  join_task (summary, loaded) index refused = (record_failure summary decrypt_or_validate, loaded)
  join_task (summary, loaded) index (unjoined is_panic is_cancelled) =
      (record_failure summary (classify_join_failure is_panic is_cancelled), loaded)

  unfoldable pub join_row : List (Outcome M) → Progress M → ℕ → Progress M
  unfolding join_task
  join_row outcomes p index = elim (get_elem? outcomes index) [
    | none ↦ p
    | some outcome ↦ join_task p index outcome
  ]

  -- The loop: a task is joined, and the next row, if there is one, is spawned. The loop ends where
  -- no task is pending.
  unfoldable pub load_loop :
      List (Outcome M) → List ℕ → List ℕ → ℕ → Progress M → List ℕ × Progress M
  unfolding pick join_row
  load_loop outcomes schedule [] next p = ([], p)
  load_loop outcomes [] (task ∷ tasks) next p = (task ∷ tasks, p)
  load_loop outcomes (choice ∷ schedule) (task ∷ tasks) next p =
      let picked = pick choice task tasks in
      let joined = join_row outcomes p picked.0 in
      let spawned = load_loop outcomes schedule (picked.1 ++ next ∷ []) (suc next) joined in
      let drained = load_loop outcomes schedule picked.1 next joined in
      if ltb next (length outcomes) then spawned else drained

  unfoldable pub flatten : List (Option (LoadedOpsKey M)) → List (LoadedOpsKey M)
  flatten [] = []
  flatten (none ∷ slots) = flatten slots
  flatten (some key ∷ slots) = key ∷ flatten slots

  unfoldable pub run_tasks : List (Outcome M) → ℕ → List ℕ → List ℕ × Progress M
  unfolding load_loop range_from empty_summary
  run_tasks outcomes limit schedule =
      let total = length outcomes in
      let first = min (max limit 1) total in
      load_loop outcomes schedule (range_from 0 first) first
        (empty_summary total, replicate total none)

  unfoldable pub load_keys_from_rows :
      List (Outcome M) → ℕ → List ℕ → Table (LoadedOpsKey M) × KeysLoadSummary
  unfolding run_tasks flatten from_keys
  load_keys_from_rows outcomes limit schedule =
      let done = (run_tasks outcomes limit schedule).1 in
      let keys_db = flatten done.1 in
      (from_keys keys_db, record (done.0) { loaded = length keys_db })
