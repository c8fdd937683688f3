-- ===== src/Blocking/Limits.antt =====
-- src/core/blocking.rs: proofs about the numbers of jobs and of calls with a position.
use vectis.Base.{ℕ, ◌+◌, ◌≤◌, ◌<◌, ◌≡◌, ◌↔◌, inl, inr, refl, ap, some, arith, length}
use vectis.Error.{overloaded}
use vectis.Blocking.{
  no_permits, Semaphores, CryptoLimiter, new, admitted, continues, failed, try_execution,
  try_position, begin_acquire, ◌⟶*◌,
}
use vectis.Blocking.Fair.{View, IsSemaphores}
use vectis.Blocking.Invariant.{IsSound, reached-IsSound}

module _ (tokio : Semaphores) (laws : IsSemaphores tokio) (max_running max_queued : ℕ) where
  -- A try that finds no permit goes on to the position.
  begin_acquire_position :
      (l : CryptoLimiter tokio)
      → tokio.try_acquire_owned l.execution ≡ no_permits
      → begin_acquire tokio l ≡ try_position tokio l
  unfolding begin_acquire try_execution
  begin_acquire_position l e =
      let first : try_execution tokio l ≡ (continues, l) = rw (try_execution, e) refl in
      rw (begin_acquire, first) (ap (λ p. try_position tokio p.1) first)

  admitted_iff :
      (l : CryptoLimiter tokio) (b : IsSound tokio laws max_running max_queued l)
      → ((begin_acquire tokio l).0 ≡ admitted) ↔ (l.running + length b.exec.assigned < max_running)
  unfolding begin_acquire try_execution try_position
  admitted_iff l b = elim (laws.try-Tries l.execution b.exec b.exec_view) [
    | inr (n, s, f, e, v) ↦
        rw (begin_acquire, try_execution, e) ((λ _. omega (arith, b.executions, f)), (λ _. refl))
    | inl (f, e) ↦ elim (laws.try-Tries l.waiting b.pos b.pos_view) [
      | inl (_, w) ↦
          rw (begin_acquire_position l e, try_position, w)
            ((λ h. absurd (cc (h))), (λ h. absurd (omega (arith, h, b.executions, f))))
      | inr (_, _, _, w, _) ↦
          rw (begin_acquire_position l e, try_position, w)
            ((λ h. absurd (cc (h))), (λ h. absurd (omega (arith, h, b.executions, f))))
    ]
  ]

  refused_iff :
      (l : CryptoLimiter tokio) (b : IsSound tokio laws max_running max_queued l)
      → ((begin_acquire tokio l).0 ≡ failed (overloaded "crypto queue full")) ↔ (
          (l.running + length b.exec.assigned ≡ max_running)
          × (l.placed + length l.queue ≡ max_queued))
  unfolding begin_acquire try_execution try_position
  refused_iff l b = elim (laws.try-Tries l.execution b.exec b.exec_view) [
    | inr (n, s, f, e, v) ↦
        rw (begin_acquire, try_execution, e)
          ((λ h. absurd (cc (h))), (λ h. absurd (omega (arith, h.0, b.executions, f))))
    | inl (f, e) ↦ elim (laws.try-Tries l.waiting b.pos b.pos_view) [
      | inl (g, w) ↦
          rw (begin_acquire_position l e, try_position, w)
            ((λ _. (omega (arith, b.executions, f), omega (arith, b.positions, g))), (λ _. refl))
      | inr (_, _, g, w, _) ↦
          rw (begin_acquire_position l e, try_position, w)
            ((λ h. absurd (cc (h))), (λ h. absurd (omega (arith, h.1, b.positions, g))))
    ]
  ]

  -- Where the semaphores are as documented: after any tries, registrations, polls, time-outs,
  -- cancellations and ends of jobs, at most the configured number of jobs run, at most the configured
  -- number of calls hold a position, and a semaphore shows the calls that were handed a permit and
  -- have not taken it, such that a call that runs `acquire` at once is admitted exactly where these
  -- and the jobs are fewer than the configured number, and is refused with a full queue exactly where
  -- they are that number and the positions are all held.
  pub limits_hold :
      (l : CryptoLimiter tokio)
      → ◌⟶*◌ tokio (new tokio max_running max_queued) l
      → (l.running ≤ max_running)
        × (l.placed + length l.queue ≤ max_queued)
        × (exec : View) × (laws.view l.execution ≡ some exec)
        × (length exec.assigned ≤ length l.queue)
        × (((begin_acquire tokio l).0 ≡ admitted)
            ↔ (l.running + length exec.assigned < max_running))
        × (((begin_acquire tokio l).0 ≡ failed (overloaded "crypto queue full")) ↔ (
            (l.running + length exec.assigned ≡ max_running)
            × (l.placed + length l.queue ≡ max_queued)))
  limits_hold l s =
      let b = reached-IsSound tokio laws max_running max_queued l s in
      (
        omega (arith, b.executions),
        omega (arith, b.positions),
        b.exec,
        b.exec_view,
        omega (arith, b.sizes),
        admitted_iff l b,
        refused_iff l b,
      )
