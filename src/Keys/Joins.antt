-- ===== src/Keys/Joins.antt =====
-- src/ops/keys.rs: proofs about one turn of the loading loop, its pending tasks, failures and slots.
use vectis.Base.{
  ℕ, zero, suc, ◌+◌, ◌≡◌, ◌≢◌, ◌⊎◌, inl, inr, refl, ap, ◌||◌, List, [], ◌∷◌, ◌++◌, Option, some,
  none, arith, ◌==◌, Option-cases, contains_char, length, get_elem?, length-set, get_elem?-set_self,
}
use vectis.Keys.State.{LoadedOpsKey}
use vectis.Keys.Refine.{get_elem?-bound, get_elem?-set_other}
use vectis.Keys.Load.{
  KeysLoadSummary, KeyLoadFailureReason, decrypt_or_validate, Outcome, finished, refused, unjoined,
  Progress, skipped, record_failure, classify_join_failure, pick, join_task, join_row,
}

pub pick-contains :
    (choice task i : ℕ) (tasks : List ℕ)
    → contains_char (task ∷ tasks) i
      ≡ (((pick choice task tasks).0 == i) || contains_char (pick choice task tasks).1 i)
unfolding pick
pick-contains choice task i [] = refl
pick-contains zero task i (other ∷ tasks) = refl
pick-contains (suc choice) task i (other ∷ tasks) =
    ground (arith, pick-contains choice other i tasks)

pub pick-length :
    (choice task : ℕ) (tasks : List ℕ) → length (pick choice task tasks).1 ≡ length tasks
unfolding pick
pick-length choice task [] = refl
pick-length zero task (other ∷ tasks) = refl
pick-length (suc choice) task (other ∷ tasks) = ap suc (pick-length choice other tasks)

pub contains_char-append :
    (is : List ℕ) (i j : ℕ) → contains_char (is ++ i ∷ []) j ≡ (contains_char is j || i == j)
contains_char-append [] i j = ground arith
contains_char-append (k ∷ is) i j = ground (arith, contains_char-append is i j)

skipped-record_failure :
    (s : KeysLoadSummary) (reason : KeyLoadFailureReason)
    → skipped (record_failure s reason) ≡ skipped s + 1
unfolding skipped record_failure
skipped-record_failure s reason = ground arith

record_failure-total :
    (s : KeysLoadSummary) (reason : KeyLoadFailureReason)
    → (record_failure s reason).total ≡ s.total
unfolding record_failure
record_failure-total s reason = ground arith

module _ {M : Type 0} where
  abbrev pub value : Outcome M → Option (LoadedOpsKey M)
  value (finished key) = some key
  value refused = none
  value (unjoined _ _) = none

  abbrev pub fails : Option (Outcome M) → ℕ
  fails none = 0
  fails (some (finished _)) = 0
  fails (some refused) = 1
  fails (some (unjoined _ _)) = 1

  unfoldable pub fails_among : List (Outcome M) → List ℕ → ℕ
  fails_among outcomes [] = 0
  fails_among outcomes (i ∷ is) = fails (get_elem? outcomes i) + fails_among outcomes is

  unfoldable pub fails_below : List (Outcome M) → ℕ → ℕ
  fails_below outcomes zero = 0
  fails_below outcomes (suc n) = fails_below outcomes n + fails (get_elem? outcomes n)

  pub pick-fails :
      (outcomes : List (Outcome M)) (choice task : ℕ) (tasks : List ℕ)
      → fails_among outcomes (task ∷ tasks)
        ≡ fails (get_elem? outcomes (pick choice task tasks).0)
          + fails_among outcomes (pick choice task tasks).1
  unfolding pick fails_among
  pick-fails outcomes choice task [] = refl
  pick-fails outcomes zero task (other ∷ tasks) = refl
  pick-fails outcomes (suc choice) task (other ∷ tasks) =
      let rest = pick-fails outcomes choice other tasks in omega (arith, rest)

  pub fails_among-append :
      (outcomes : List (Outcome M)) (is : List ℕ) (i : ℕ)
      → fails_among outcomes (is ++ i ∷ []) ≡ fails_among outcomes is + fails (get_elem? outcomes i)
  unfolding fails_among
  fails_among-append outcomes [] i = omega arith
  fails_among-append outcomes (j ∷ is) i = omega (arith, fails_among-append outcomes is i)

  join_task-skipped :
      (p : Progress M) (i : ℕ) (o : Outcome M)
      → skipped (join_task p i o).0 ≡ skipped p.0 + fails (some o)
  unfolding join_task
  join_task-skipped (summary, loaded) i (finished key) = omega arith
  join_task-skipped (summary, loaded) i refused = skipped-record_failure summary decrypt_or_validate
  join_task-skipped (summary, loaded) i (unjoined a b) =
      skipped-record_failure summary (classify_join_failure a b)

  -- One join adds one failure for a task that fails.
  pub join_row-skipped :
      (outcomes : List (Outcome M)) (p : Progress M) (i : ℕ)
      → skipped (join_row outcomes p i).0 ≡ skipped p.0 + fails (get_elem? outcomes i)
  unfolding join_row
  join_row-skipped outcomes p i = elim (Option-cases (get_elem? outcomes i)) [
    | inl e ↦ rw (join_row, e) (omega arith)
    | inr (o, e) ↦ rw (join_row, e) (join_task-skipped p i o)
  ]

  join_task-size :
      (p : Progress M) (i : ℕ) (o : Outcome M) → length (join_task p i o).1 ≡ length p.1
  unfolding join_task
  join_task-size (summary, loaded) i (finished key) = length-set loaded i (some key)
  join_task-size (summary, loaded) i refused = refl
  join_task-size (summary, loaded) i (unjoined a b) = refl

  pub join_row-size :
      (outcomes : List (Outcome M)) (p : Progress M) (i : ℕ)
      → length (join_row outcomes p i).1 ≡ length p.1
  unfolding join_row
  join_row-size outcomes p i = elim (Option-cases (get_elem? outcomes i)) [
    | inl e ↦ rw (join_row, e)
    | inr (o, e) ↦ rw (join_row, e) (join_task-size p i o)
  ]

  pub join_row-total :
      (outcomes : List (Outcome M)) (p : Progress M) (i : ℕ)
      → (join_row outcomes p i).0.total ≡ p.0.total
  unfolding join_row join_task record_failure
  join_row-total outcomes (summary, loaded) i = ground (arith, record_failure-total summary)

  join_task-own :
      (p : Progress M) (i : ℕ) (o : Outcome M)
      → (get_elem? p.1 i ≡ some (value o)) ⊎ (get_elem? p.1 i ≡ some none)
      → get_elem? (join_task p i o).1 i ≡ some (value o)
  unfolding join_task
  join_task-own (summary, loaded) i (finished key) h =
      get_elem?-set_self loaded i (some key)
        (elim h [ inl e ↦ get_elem?-bound loaded i e | inr e ↦ get_elem?-bound loaded i e ])
  join_task-own (summary, loaded) i refused h = elim h [ inl e ↦ e | inr e ↦ e ]
  join_task-own (summary, loaded) i (unjoined a b) h = elim h [ inl e ↦ e | inr e ↦ e ]

  -- A joined task's slot holds what the task ended with.
  pub join_row-own :
      (outcomes : List (Outcome M)) (p : Progress M) (i : ℕ) (o : Outcome M)
      → get_elem? outcomes i ≡ some o
      → (get_elem? p.1 i ≡ some (value o)) ⊎ (get_elem? p.1 i ≡ some none)
      → get_elem? (join_row outcomes p i).1 i ≡ some (value o)
  unfolding join_row
  join_row-own outcomes p i o e h = rw (join_row, e) (join_task-own p i o h)

  join_task-other :
      (p : Progress M) (i j : ℕ) (o : Outcome M)
      → i ≢ j
      → get_elem? (join_task p i o).1 j ≡ get_elem? p.1 j
  unfolding join_task
  join_task-other (summary, loaded) i j (finished key) n =
      get_elem?-set_other loaded i j (some key) n
  join_task-other (summary, loaded) i j refused n = refl
  join_task-other (summary, loaded) i j (unjoined a b) n = refl

  pub join_row-other :
      (outcomes : List (Outcome M)) (p : Progress M) (i j : ℕ)
      → i ≢ j
      → get_elem? (join_row outcomes p i).1 j ≡ get_elem? p.1 j
  unfolding join_row
  join_row-other outcomes p i j n = elim (Option-cases (get_elem? outcomes i)) [
    | inl e ↦ rw (join_row, e)
    | inr (o, e) ↦ rw (join_row, e) (join_task-other p i j o n)
  ]
