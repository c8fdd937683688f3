-- ===== src/Blocking/Places.antt =====
-- src/core/blocking.rs: the place of a waiting call over the steps of the limiter.
use vectis.Base.{
  ℕ, suc, ◌+◌, ◌-◌, ◌<◌, ◌≡◌, ◌≢◌, ◌⊎◌, inl, inr, sym, Bool, true, false, [], ◌∷◌, some, arith,
  ◌==◌, Bool-cases,
}
use mathlib.Core.Path.{subst}
use vectis.Blocking.{
  Semaphores, remove, has, CryptoLimiter, try_execution, try_position, register, leave_queue,
  cancel, poll_wait, finish, ◌⟶◌, tries, asks, registers, polls, cancels, ends, ◌⟶*◌, stay, step,
  ending, ended,
}
use vectis.Blocking.Tickets.{has-append, has-remove_self, has-remove_back}
use vectis.Blocking.Fair.{View, handed, joined, taken, left, IsSemaphores}
use vectis.Blocking.Views.{near, near-handed, near-joined, near-left, near-taken}
use vectis.Blocking.Invariant.{IsSound, step-IsSound}

module _ (tokio : Semaphores) (laws : IsSemaphores tokio) (max_running max_queued : ℕ) where
  abbrev Sound : CryptoLimiter tokio → Type 0
  Sound l = IsSound tokio laws max_running max_queued l

  -- The call is no longer registered, or has a permit, or is among the first `n` that wait.
  pub record IsPlaced (t n : ℕ) (l : CryptoLimiter tokio) : Type 0 where
    pub exec : View
    pub exec_view : laws.view l.execution ≡ some exec
    pub old : t < l.next
    pub place : (has t l.queue ≡ false) ⊎ (near t n exec ≡ true)

  try_execution-IsPlaced :
      (t n : ℕ) (l : CryptoLimiter tokio) → IsPlaced t n l → IsPlaced t n (try_execution tokio l).1
  unfolding try_execution
  try_execution-IsPlaced t n l p = elim (laws.try-Tries l.execution p.exec p.exec_view) [
    | inl (_, e) ↦ rw (try_execution, e) p
    | inr (k, s, f, e, v) ↦
        rw (try_execution, e)
          (record {
            exec = record p.exec { free = k };
            exec_view = v;
            old = p.old;
            place = p.place;
          })
  ]

  try_position-IsPlaced :
      (t n : ℕ) (l : CryptoLimiter tokio)
      → Sound l
      → IsPlaced t n l
      → IsPlaced t n (try_position tokio l).1
  unfolding try_position
  try_position-IsPlaced t n l b p = elim (laws.try-Tries l.waiting b.pos b.pos_view) [
    | inl (_, e) ↦ rw (try_position, e) p
    | inr (_, _, _, e, _) ↦
        rw (try_position, e)
          (record { exec = p.exec; exec_view = p.exec_view; old = p.old; place = p.place })
  ]

  register-IsPlaced :
      (t n : ℕ) (l : CryptoLimiter tokio) (placed : ℕ)
      → IsPlaced t n l
      → IsPlaced t n (register tokio l placed)
  unfolding register
  register-IsPlaced t n l placed p = record {
    exec = joined l.next p.exec;
    exec_view = laws.view-acquire l.execution p.exec l.next p.exec_view;
    old = omega (arith, p.old);
    place = elim p.place [
      | inl out ↦ inl (ground (arith, p.old, out, has-append t l.queue (l.next ∷ [])))
      | inr on ↦ inr (near-joined t n l.next p.exec on)
    ];
  }

  -- The call itself leaves for good, and keeps its place where another one leaves.
  leave_queue-IsPlaced :
      (t n s : ℕ) (l : CryptoLimiter tokio) (execution : tokio.Semaphore) (running : ℕ)
      (exec : View)
      → Sound l
      → (p : IsPlaced t n l) → laws.view execution ≡ some exec
      → (s ≢ t → near t n p.exec ≡ true → near t n exec ≡ true)
      → IsPlaced t n (leave_queue tokio (record l { execution = execution; running = running }) s)
  unfolding leave_queue
  leave_queue-IsPlaced t n s l execution running exec b p v f = record {
    exec = exec;
    exec_view = v;
    old = p.old;
    place = elim p.place [
      | inl out ↦ inl (ground (arith, out, has-remove_back s t l.queue))
      | inr on ↦ elim (Bool-cases (s == t)) [
        | inl e ↦
            let same : s ≡ t = ground (arith, e) in
            inl (
              subst (λ k. has t (remove k l.queue) ≡ false) (sym same)
                (has-remove_self t l.queue b.distinct_queue))
        | inr e ↦ inr (f (λ q. absurd (ground (arith, e, q))) on)
      ]
    ];
  }

  cancel-IsPlaced :
      (t n s : ℕ) (l : CryptoLimiter tokio)
      → Sound l
      → IsPlaced t n l
      → IsPlaced t n (cancel tokio l s)
  unfolding cancel
  cancel-IsPlaced t n s l b p =
      leave_queue-IsPlaced t n s l (tokio.drop_wait s l.execution) l.running (left s p.exec) b p
        (laws.view-drop_wait l.execution p.exec s p.exec_view) (λ d h. near-left t n s p.exec d h)

  poll_wait-IsPlaced :
      (t n s : ℕ) (expired : Bool) (l : CryptoLimiter tokio)
      → Sound l
      → IsPlaced t n l
      → IsPlaced t n (poll_wait tokio l s expired).1
  unfolding poll_wait
  poll_wait-IsPlaced t n s expired l b p = elim (laws.poll-Polls l.execution p.exec s p.exec_view) [
    | inl (_, e) ↦ elim (Bool-cases expired) [
      | inl x ↦ rw (poll_wait, e, x) (cancel-IsPlaced t n s l b p)
      | inr x ↦ rw (poll_wait, e, x) p
    ]
    | inr (q, h, e, v) ↦
        rw (poll_wait, e)
          (leave_queue-IsPlaced t n s l q (suc l.running) (taken s p.exec) b p v
            (λ d h. near-taken t n s p.exec d h))
  ]

  finish-IsPlaced :
      (t n : ℕ) (l : CryptoLimiter tokio) (running : ℕ)
      → IsPlaced t n l
      → IsPlaced t (n - 1) (finish tokio l running)
  unfolding finish
  finish-IsPlaced t n l running p = record {
    exec = handed p.exec;
    exec_view = laws.view-drop_permit l.execution p.exec p.exec_view;
    old = p.old;
    place = elim p.place [ inl out ↦ inl out | inr on ↦ inr (near-handed t n p.exec on) ];
  }

  no_end : (t n : ℕ) (l : CryptoLimiter tokio) → IsPlaced t n l → IsPlaced t (n - 0) l
  no_end t n l p = let same : n ≡ n - 0 = omega arith in subst (λ k. IsPlaced t k l) same p

  step-IsPlaced :
      (t n : ℕ) (l m : CryptoLimiter tokio) (s : ◌⟶◌ tokio l m)
      → Sound l
      → IsPlaced t n l
      → IsPlaced t (n - ending tokio s) m
  unfolding ending
  step-IsPlaced t n l m tries b p = no_end t n _ (try_execution-IsPlaced t n l p)
  step-IsPlaced t n l m asks b p = no_end t n _ (try_position-IsPlaced t n l b p)
  step-IsPlaced t n l m (registers e) b p = no_end t n _ (register-IsPlaced t n l _ p)
  step-IsPlaced t n l m (polls s expired h) b p =
      no_end t n _ (poll_wait-IsPlaced t n s expired l b p)
  step-IsPlaced t n l m (cancels s h) b p = no_end t n _ (cancel-IsPlaced t n s l b p)
  step-IsPlaced t n l m (ends e) b p = finish-IsPlaced t n l _ p

  pub steps-IsPlaced :
      (t n : ℕ) (l m : CryptoLimiter tokio) (r : ◌⟶*◌ tokio l m)
      → Sound l
      → IsPlaced t n l
      → IsPlaced t (n - ended tokio r) m
  unfolding ended
  steps-IsPlaced t n l m stay b p = no_end t n l p
  steps-IsPlaced t n l m (step s more) b p =
      let rest =
        steps-IsPlaced t (n - ending tokio s) _ m more
          (step-IsSound tokio laws max_running max_queued l _ s b) (step-IsPlaced t n l _ s b p) in
      let both : n - ending tokio s - ended tokio more ≡ n - (ending tokio s + ended tokio more) =
        omega arith in
      subst (λ k. IsPlaced t k m) both rest
