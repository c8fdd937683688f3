-- ===== src/Blocking/Invariant.antt =====
-- src/core/blocking.rs: the invariant of the limiter over its steps.
use vectis.Base.{
  ℕ, suc, ◌+◌, ◌≡◌, ◌≢◌, inl, inr, refl, Bool, true, [], ◌∷◌, some, arith, Bool-cases, all, length,
  length-append,
}
use vectis.Blocking.{
  Semaphores, has, CryptoLimiter, new, try_execution, try_position, register, leave_queue, cancel,
  poll_wait, finish, ◌⟶◌, tries, asks, registers, polls, cancels, ends, ◌⟶*◌, stay, step,
}
use vectis.Blocking.Tickets.{
  distinct, below, length-remove, distinct-remove, below-append, below-remove, distinct-append,
  all-implies, all-remove, all-has, all-append,
}
use vectis.Blocking.Fair.{View, handed, joined, taken, left, IsSemaphores}
use vectis.Blocking.Views.{
  permits, tickets, registered, permits-handed, tickets-handed, registered-handed, permits-joined,
  tickets-joined, registered-joined, permits-left, tickets-left, registered-taken, registered-left,
}

module _ (tokio : Semaphores) (laws : IsSemaphores tokio) (max_running max_queued : ℕ) where
  -- A state in which every permit of either semaphore is accounted for, and every registered call
  -- has a permit or waits for one.
  pub record IsSound (l : CryptoLimiter tokio) : Type 0 where
    pub exec : View
    pub exec_view : laws.view l.execution ≡ some exec
    pub pos : View
    pub pos_view : laws.view l.waiting ≡ some pos
    pub pos_quiet : tickets pos ≡ 0
    pub executions : permits exec + l.running ≡ max_running
    pub positions : pos.free + l.placed + length l.queue ≡ max_queued
    pub distinct_queue : distinct l.queue ≡ true
    pub below_queue : below l.next l.queue ≡ true
    pub all_registered : all (λ t. registered t exec) l.queue ≡ true
    pub sizes : tickets exec ≡ length l.queue

  new-IsSound : IsSound (new tokio max_running max_queued)
  unfolding new
  new-IsSound = record {
    exec = record { free = max_running; assigned = []; waiting = [] };
    exec_view = laws.view-new max_running;
    pos = record { free = max_queued; assigned = []; waiting = [] };
    pos_view = laws.view-new max_queued;
    pos_quiet = refl;
    executions = omega arith;
    positions = omega arith;
    distinct_queue = refl;
    below_queue = refl;
    all_registered = refl;
    sizes = refl;
  }

  try_execution-IsSound : (l : CryptoLimiter tokio) → IsSound l → IsSound (try_execution tokio l).1
  unfolding try_execution
  try_execution-IsSound l b = elim (laws.try-Tries l.execution b.exec b.exec_view) [
    | inl (_, e) ↦ rw (try_execution, e) b
    | inr (n, s, f, e, v) ↦
        rw (try_execution, e)
          (record {
            exec = record b.exec { free = n };
            exec_view = v;
            executions = omega (arith, b.executions, f);
            pos = b.pos;
            pos_view = b.pos_view;
            pos_quiet = b.pos_quiet;
            positions = b.positions;
            distinct_queue = b.distinct_queue;
            below_queue = b.below_queue;
            all_registered = b.all_registered;
            sizes = b.sizes;
          })
  ]

  try_position-IsSound : (l : CryptoLimiter tokio) → IsSound l → IsSound (try_position tokio l).1
  unfolding try_position
  try_position-IsSound l b = elim (laws.try-Tries l.waiting b.pos b.pos_view) [
    | inl (_, e) ↦ rw (try_position, e) b
    | inr (n, s, f, e, v) ↦
        rw (try_position, e)
          (record {
            pos = record b.pos { free = n };
            pos_view = v;
            positions = omega (arith, b.positions, f);
            exec = b.exec;
            exec_view = b.exec_view;
            pos_quiet = b.pos_quiet;
            executions = b.executions;
            distinct_queue = b.distinct_queue;
            below_queue = b.below_queue;
            all_registered = b.all_registered;
            sizes = b.sizes;
          })
  ]

  register-IsSound :
      (l : CryptoLimiter tokio) (placed : ℕ)
      → l.placed ≡ suc placed
      → IsSound l
      → IsSound (register tokio l placed)
  unfolding register
  register-IsSound l placed e b = record {
    exec = joined l.next b.exec;
    exec_view = laws.view-acquire l.execution b.exec l.next b.exec_view;
    executions = omega (arith, b.executions, permits-joined l.next b.exec);
    positions = omega (arith, b.positions, e, length-append l.queue (l.next ∷ []));
    distinct_queue = distinct-append l.next l.queue b.below_queue b.distinct_queue;
    below_queue = below-append l.next l.queue b.below_queue;
    all_registered =
        all-append _ l.next l.queue
          (all-implies _ _ l.queue (λ x h. ground (arith, registered-joined x l.next b.exec))
            b.all_registered)
          (ground (arith, registered-joined l.next l.next b.exec));
    sizes =
        omega (arith, b.sizes, tickets-joined l.next b.exec, length-append l.queue (l.next ∷ []));
    pos = b.pos;
    pos_view = b.pos_view;
    pos_quiet = b.pos_quiet;
  }

  -- Where the semaphore's side is right, dropping the position keeps the rest right.
  leave_queue-IsSound :
      (l : CryptoLimiter tokio) (b : IsSound l) (t : ℕ) (execution : tokio.Semaphore) (running : ℕ)
      (exec : View)
      → has t l.queue ≡ true
      → laws.view execution ≡ some exec
      → permits exec + running ≡ max_running
      → tickets exec + 1 ≡ tickets b.exec
      → ((x : ℕ) → t ≢ x → registered x b.exec ≡ true → registered x exec ≡ true)
      → IsSound (leave_queue tokio (record l { execution = execution; running = running }) t)
  unfolding leave_queue
  leave_queue-IsSound l b t execution running exec m v p s r = record {
    exec = exec;
    exec_view = v;
    pos = handed b.pos;
    pos_view = laws.view-drop_permit l.waiting b.pos b.pos_view;
    pos_quiet = omega (arith, b.pos_quiet, tickets-handed b.pos);
    executions = p;
    positions = omega (
      arith,
      b.positions,
      b.pos_quiet,
      length-remove t l.queue m,
      permits-handed b.pos,
      tickets-handed b.pos,
    );
    distinct_queue = distinct-remove t l.queue b.distinct_queue;
    below_queue = below-remove l.next t l.queue b.below_queue;
    all_registered = all-remove _ _ t l.queue r b.distinct_queue b.all_registered;
    sizes = omega (arith, b.sizes, s, length-remove t l.queue m);
  }

  cancel-IsSound :
      (l : CryptoLimiter tokio) (t : ℕ)
      → has t l.queue ≡ true
      → IsSound l
      → IsSound (cancel tokio l t)
  unfolding cancel
  cancel-IsSound l t m b =
      leave_queue-IsSound l b t (tokio.drop_wait t l.execution) l.running (left t b.exec) m
        (laws.view-drop_wait l.execution b.exec t b.exec_view)
        (omega (arith, b.executions, permits-left t b.exec))
        (tickets-left t b.exec (all-has _ t l.queue b.all_registered m))
        (λ x d h. registered-left x t b.exec d h)

  poll_wait-IsSound :
      (l : CryptoLimiter tokio) (t : ℕ) (expired : Bool)
      → has t l.queue ≡ true
      → IsSound l
      → IsSound (poll_wait tokio l t expired).1
  unfolding poll_wait
  poll_wait-IsSound l t expired m b = elim (laws.poll-Polls l.execution b.exec t b.exec_view) [
    | inl (_, e) ↦ elim (Bool-cases expired) [
      | inl x ↦ rw (poll_wait, e, x) (cancel-IsSound l t m b)
      | inr x ↦ rw (poll_wait, e, x) b
    ]
    | inr (s, h, e, v) ↦
        rw (poll_wait, e)
          (leave_queue-IsSound l b t s (suc l.running) (taken t b.exec) m v
            (omega (arith, b.executions, length-remove t b.exec.assigned h))
            (omega (arith, length-remove t b.exec.assigned h))
            (λ x d r. registered-taken x t b.exec d r))
  ]

  finish-IsSound :
      (l : CryptoLimiter tokio) (running : ℕ)
      → l.running ≡ suc running
      → IsSound l
      → IsSound (finish tokio l running)
  unfolding finish
  finish-IsSound l running e b = record {
    exec = handed b.exec;
    exec_view = laws.view-drop_permit l.execution b.exec b.exec_view;
    executions = omega (arith, b.executions, e, permits-handed b.exec);
    all_registered = all-implies _ _ l.queue (λ x. registered-handed x b.exec) b.all_registered;
    sizes = omega (arith, b.sizes, tickets-handed b.exec);
    pos = b.pos;
    pos_view = b.pos_view;
    pos_quiet = b.pos_quiet;
    positions = b.positions;
    distinct_queue = b.distinct_queue;
    below_queue = b.below_queue;
  }

  pub step-IsSound : (l m : CryptoLimiter tokio) → ◌⟶◌ tokio l m → IsSound l → IsSound m
  step-IsSound l m tries b = try_execution-IsSound l b
  step-IsSound l m asks b = try_position-IsSound l b
  step-IsSound l m (registers e) b = register-IsSound l _ e b
  step-IsSound l m (polls t expired h) b = poll_wait-IsSound l t expired h b
  step-IsSound l m (cancels t h) b = cancel-IsSound l t h b
  step-IsSound l m (ends e) b = finish-IsSound l _ e b

  steps-IsSound : (l m : CryptoLimiter tokio) → ◌⟶*◌ tokio l m → IsSound l → IsSound m
  steps-IsSound l m stay b = b
  steps-IsSound l m (step s more) b = steps-IsSound _ m more (step-IsSound l _ s b)

  pub reached-IsSound :
      (l : CryptoLimiter tokio) → ◌⟶*◌ tokio (new tokio max_running max_queued) l → IsSound l
  reached-IsSound l s = steps-IsSound _ l s new-IsSound
