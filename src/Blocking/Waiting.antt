-- ===== src/Blocking/Waiting.antt =====
-- src/core/blocking.rs: proofs about the order in which waiting calls are handed permits.
use vectis.Base.{
  ℕ, ◌-◌, ◌≤◌, ◌≡◌, inl, inr, refl, Bool, true, ◌||◌, List, [], ◌∷◌, some, arith, length,
}
use mathlib.Core.Path.{subst}
use vectis.Blocking.{Semaphores, has, CryptoLimiter, new, admitted, poll_wait, ◌⟶*◌, ended}
use vectis.Blocking.Tickets.{within, below-has, all-has, within-has}
use vectis.Blocking.Fair.{View, IsSemaphores}
use vectis.Blocking.Views.{near}
use vectis.Blocking.Invariant.{reached-IsSound}
use vectis.Blocking.Places.{IsPlaced, steps-IsPlaced}

module _ (tokio : Semaphores) (laws : IsSemaphores tokio) (max_running max_queued : ℕ) where
  near_none : (t : ℕ) (v : View) → near t 0 v ≡ true → has t v.assigned ≡ true
  near_none t v = go v.assigned v.waiting
    where
      go : (a w : List ℕ) → (has t a || within t 0 w) ≡ true → has t a ≡ true
      go a [] h = ground arith
      go a (x ∷ w) h = ground arith

  -- A call with a permit takes it, whether or not its deadline has passed.
  assigned-admitted :
      (t : ℕ) (expired : Bool) (l : CryptoLimiter tokio) (v : View)
      → laws.view l.execution ≡ some v
      → has t v.assigned ≡ true
      → (poll_wait tokio l t expired).0 ≡ admitted
  unfolding poll_wait
  assigned-admitted t expired l v e h = elim (laws.poll-Polls l.execution v t e) [
    | inl (n, _) ↦ absurd (cc (n, h))
    | inr (s, _, q, _) ↦ rw (poll_wait, q) refl
  ]

  -- Where the semaphores are as documented, in any run from a state that was reached: a registered
  -- call that has been handed a permit, or is among the first `n` that wait for one, and that is
  -- still registered after `n` or more jobs have ended, is admitted when it is next polled, whatever
  -- calls came after it and whether or not its deadline has passed.
  pub served_in_order :
      (l m : CryptoLimiter tokio) (t n : ℕ) (v : View) (expired : Bool)
      → ◌⟶*◌ tokio (new tokio max_running max_queued) l
      → (r : ◌⟶*◌ tokio l m) → laws.view l.execution ≡ some v
      → has t l.queue ≡ true
      → near t n v ≡ true
      → n ≤ ended tokio r
      → has t m.queue ≡ true
      → (poll_wait tokio m t expired).0 ≡ admitted
  served_in_order l m t n v expired s r e q h enough still =
      let b = reached-IsSound tokio laws max_running max_queued l s in
      let start : IsPlaced tokio laws max_running max_queued t n l = record {
        exec = v;
        exec_view = e;
        old = below-has l.next t l.queue b.below_queue q;
        place = inr h;
      } in
      let none_left : n - ended tokio r ≡ 0 = omega arith in
      let p =
        subst (λ k. IsPlaced tokio laws max_running max_queued t k m) none_left
          (steps-IsPlaced tokio laws max_running max_queued t n l m r b start) in
      elim p.place [
        | inl out ↦ absurd (cc (out, still))
        | inr on ↦ assigned-admitted t expired m p.exec p.exec_view (near_none t p.exec on)
      ]

  -- Where the semaphores are as documented, in any run from a state that was reached: a registered
  -- call that is still registered after as many jobs have ended as calls were registered at the
  -- start of the run is admitted when it is next polled, whether or not its deadline has passed.
  pub waits_bounded :
      (l m : CryptoLimiter tokio) (t : ℕ) (expired : Bool)
      → ◌⟶*◌ tokio (new tokio max_running max_queued) l
      → (r : ◌⟶*◌ tokio l m) → has t l.queue ≡ true
      → length l.queue ≤ ended tokio r
      → has t m.queue ≡ true
      → (poll_wait tokio m t expired).0 ≡ admitted
  waits_bounded l m t expired s r q enough still =
      let b = reached-IsSound tokio laws max_running max_queued l s in
      let known = all-has _ t l.queue b.all_registered q in
      let place = within-has t (length l.queue) b.exec.waiting (omega (arith, b.sizes)) in
      served_in_order l m t (length l.queue) b.exec expired s r b.exec_view q
        (ground (arith, known, place)) enough still
