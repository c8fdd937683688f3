-- ===== src/Blocking.antt =====
-- The limiter of cryptographic jobs (src/core/blocking.rs): `CryptoLimiter`, its calls and their ends as steps.
pub mod Tickets
pub mod Fair
pub mod Views
pub mod Invariant
pub mod Limits
pub mod Places
pub mod Waiting
use vectis.Base.{
  ℕ, zero, suc, ◌+◌, ◌-◌, ◌*◌, ◌/◌, ◌%◌, ◌^◌, ◌≤◌, ◌<◌, ◌≡◌, ◌≢◌, ◌↔◌, ◌⊎◌, inl, inr, refl, sym, ap,
  ◌∙◌, Bool, true, false, not, ◌&&◌, ◌||◌, List, [], ◌∷◌, ◌++◌, map, append-nil, append_assoc,
  Option, some, none, arith, ltb, leb, ltb→lt, lt→ltb, leb→le, le→leb, ltb-false, le→ltb-false,
  tests, ◌==◌, ==_iff, if◌then◌else◌, Bool-cases, Option-cases, &&_true, String, Text, codes,
  text_eq, text_eq_iff, text_eq_refl, contains, contains_char, all, any, find, All, length,
  get_elem?, set, take, drop, replicate, length-append, length-take, length-drop, length-replicate,
  length-map, min, max, get_elem?-append_left, get_elem?-append_end, length-set, get_elem?-set_self,
}
use vectis.Error.{
  DynError, foreign, invalid_input, invalid_signature, not_found, conflict, forbidden, internal,
  overloaded, concat, with_prefix,
}
use vectis.Error.Result.{
  Result, ok, err, ◌>>=◌, ◌>>◌, reject, map_err, is_ok, >>=-eq-ok, Result-cases, reject-ok,
  >>-eq-ok, with_ok, map_err-ok, reject-then, not-false, if-ok, ok-injective,
}

-- What `try_acquire_owned` returns: the semaphore without the permit, or a `TryAcquireError`.
pub data Attempt (S : Type 0) : Type 0 where
  acquired : S → Attempt S
  no_permits closed : Attempt S

-- What polling an `acquire_owned` returns: the semaphore without the permit, or an error.
pub data Poll (S : Type 0) : Type 0 where
  ready : S → Poll S
  pending shut : Poll S

-- A semaphore of tokio as a value. A call of `acquire_owned` that has been polled once is registered
-- under a ticket, with which it is polled again and dropped.
pub record Semaphores : Type 1 where
  pub Semaphore : Type 0
  pub new_semaphore : ℕ → Semaphore
  pub try_acquire_owned : Semaphore → Attempt Semaphore
  pub acquire_owned : ℕ → Semaphore → Semaphore
  pub poll : ℕ → Semaphore → Poll Semaphore
  pub drop_wait : ℕ → Semaphore → Semaphore
  pub drop_permit : Semaphore → Semaphore

-- The first occurrence of a ticket is removed.
abbrev pub remove : ℕ → List ℕ → List ℕ
remove t [] = []
remove t (x ∷ xs) = if x == t then xs else x ∷ remove t xs

abbrev pub has : ℕ → List ℕ → Bool
has t xs = any (λ x. x == t) xs

module _ (tokio : Semaphores) where
  -- `CryptoLimiter` with the calls that are under way: the number of jobs that hold a permit, the
  -- number of calls that hold a position and have not registered, and the tickets of those that
  -- have, in the order of registration. `next` is the next ticket. The field `timeout` is left
  -- out: it only sets the deadline, of which a poll is told whether it has passed.
  pub record CryptoLimiter : Type 0 where
    pub execution : tokio.Semaphore
    pub waiting : tokio.Semaphore
    pub running : ℕ
    pub placed : ℕ
    pub queue : List ℕ
    pub next : ℕ

  unfoldable pub new : ℕ → ℕ → CryptoLimiter
  new max_running max_queued = record {
    execution = tokio.new_semaphore max_running;
    waiting = tokio.new_semaphore max_queued;
    running = 0;
    placed = 0;
    queue = [];
    next = 0;
  }

  -- How far `acquire` is: it has its permit, has failed, or goes on.
  pub data Admission : Type 0 where
    admitted continues : Admission
    failed : DynError → Admission

  unfoldable pub try_execution : CryptoLimiter → Admission × CryptoLimiter
  try_execution limiter = elim (tokio.try_acquire_owned limiter.execution) [
    | acquired execution ↦
        (admitted, record limiter { execution = execution; running = suc limiter.running })
    | closed ↦ (failed (internal "crypto execution semaphore closed"), limiter)
    | no_permits ↦ (continues, limiter)
  ]

  unfoldable pub try_position : CryptoLimiter → Admission × CryptoLimiter
  try_position limiter = elim (tokio.try_acquire_owned limiter.waiting) [
    | acquired waiting ↦
        (continues, record limiter { waiting = waiting; placed = suc limiter.placed })
    | closed ↦ (failed (internal "crypto queue semaphore closed"), limiter)
    | no_permits ↦ (failed (overloaded "crypto queue full"), limiter)
  ]

  -- `acquire` up to its wait, where no other call comes between.
  unfoldable pub begin_acquire : CryptoLimiter → Admission × CryptoLimiter
  unfolding try_execution try_position
  begin_acquire limiter =
      let (first, l) = try_execution limiter in
      elim first [
        | admitted ↦ (admitted, l)
        | failed e ↦ (failed e, l)
        | continues ↦ try_position l
      ]

  -- The first poll of `acquire_owned` by a call that holds a position.
  unfoldable pub register : CryptoLimiter → ℕ → CryptoLimiter
  register limiter placed = record limiter {
    execution = tokio.acquire_owned limiter.next limiter.execution;
    placed = placed;
    queue = limiter.queue ++ limiter.next ∷ [];
    next = suc limiter.next;
  }

  -- `_position` is dropped at every end of a wait.
  unfoldable pub leave_queue : CryptoLimiter → ℕ → CryptoLimiter
  leave_queue limiter ticket = record limiter {
    waiting = tokio.drop_permit limiter.waiting;
    queue = remove ticket limiter.queue;
  }

  -- The wait is dropped before its permit was taken: a time-out, or a cancelled call.
  unfoldable pub cancel : CryptoLimiter → ℕ → CryptoLimiter
  unfolding leave_queue
  cancel limiter ticket =
      leave_queue (record limiter { execution = tokio.drop_wait ticket limiter.execution }) ticket

  -- A poll of `timeout_at`, which polls the wait first and then the deadline; `expired` says whether
  -- that has passed.
  unfoldable pub poll_wait : CryptoLimiter → ℕ → Bool → Admission × CryptoLimiter
  unfolding leave_queue cancel
  poll_wait limiter ticket expired = elim (tokio.poll ticket limiter.execution) [
    | ready execution ↦ (
      admitted,
      leave_queue (record limiter { execution = execution; running = suc limiter.running }) ticket,
    )
    | shut ↦ (failed (internal "crypto execution semaphore closed"), leave_queue limiter ticket)
    | pending ↦
        if expired
        then (failed (overloaded "crypto queue timeout"), cancel limiter ticket)
        else (continues, limiter)
  ]

  -- The job of `run` ends and drops its permit.
  unfoldable pub finish : CryptoLimiter → ℕ → CryptoLimiter
  finish limiter running = record limiter {
    execution = tokio.drop_permit limiter.execution;
    running = running;
  }

  -- What happens to a limiter, in any order: a call tries for an execution permit, or for a
  -- position; a call with a position registers; a registered call is polled, or cancelled; a job
  -- ends.
  infix 40 ◌⟶◌
  pub data ◌⟶◌ : CryptoLimiter → CryptoLimiter → Type 0 where
    tries : {l : CryptoLimiter} → l ⟶ (try_execution l).1
    asks : {l : CryptoLimiter} → l ⟶ (try_position l).1
    registers : {l : CryptoLimiter} {placed : ℕ} → l.placed ≡ suc placed → l ⟶ register l placed
    polls :
        {l : CryptoLimiter} (ticket : ℕ) (expired : Bool)
        → has ticket l.queue ≡ true
        → l ⟶ (poll_wait l ticket expired).1
    cancels : {l : CryptoLimiter} (ticket : ℕ) → has ticket l.queue ≡ true → l ⟶ cancel l ticket
    ends : {l : CryptoLimiter} {running : ℕ} → l.running ≡ suc running → l ⟶ finish l running

  -- Any number of steps.
  infix 40 ◌⟶*◌
  pub data ◌⟶*◌ : CryptoLimiter → CryptoLimiter → Type 0 where
    stay : {l : CryptoLimiter} → l ⟶* l
    step : {l m n : CryptoLimiter} → l ⟶ m → m ⟶* n → l ⟶* n

  -- The number of jobs that end in a step, and in a run.
  unfoldable pub ending : {l m : CryptoLimiter} → l ⟶ m → ℕ
  ending tries = 0
  ending asks = 0
  ending (registers _) = 0
  ending (polls _ _ _) = 0
  ending (cancels _ _) = 0
  ending (ends _) = 1

  unfoldable pub ended : {l m : CryptoLimiter} → l ⟶* m → ℕ
  unfolding ending
  ended stay = 0
  ended (step s more) = ending s + ended more
