-- ===== src/Tests/Blocking.antt =====
-- The limiter (src/core/blocking.rs) with a concrete semaphore.
use vectis.Base.{
  ℕ, zero, suc, ◌+◌, ◌≤◌, ◌<◌, ◌≡◌, ◌↔◌, inl, inr, refl, sym, ap, true, false, List, [], ◌∷◌, some,
  arith, if◌then◌else◌, Bool-cases, Text, length,
}
use vectis.Error.{internal, overloaded}
use mathlib.Core.Path.{subst}
use vectis.Blocking.{
  Attempt, acquired, no_permits, closed, Poll, ready, pending, shut, Semaphores, has, CryptoLimiter,
  new, admitted, failed, try_execution, try_position, begin_acquire, register, poll_wait, finish,
  tries, asks, registers, polls, ends, ◌⟶*◌, stay, step, ended, ending,
}
use vectis.Blocking.Fair.{View, handed, joined, taken, left, IsSemaphores, Tries, Polls}
use vectis.Blocking.Limits.{limits_hold}
use vectis.Blocking.Waiting.{served_in_order, waits_bounded}

abbrev try_view : View → Attempt View
try_view v = elim v.free [ zero ↦ no_permits | suc n ↦ acquired (record v { free = n }) ]

abbrev poll_view : ℕ → View → Poll View
poll_view t v = if has t v.assigned then ready (taken t v) else pending

-- An open semaphore that is what it shows.
abbrev fair : Semaphores
fair = record {
  Semaphore = View;
  new_semaphore = λ n. record { free = n; assigned = []; waiting = [] };
  try_acquire_owned = try_view;
  acquire_owned = joined;
  poll = poll_view;
  drop_wait = left;
  drop_permit = handed;
}

fair-IsSemaphores : IsSemaphores fair
fair-IsSemaphores = record {
  view = some;
  view-new = λ n. refl;
  try-Tries = λ s v e. tried s v (some-injective e);
  view-acquire = λ s v t e. ap (λ x. some (joined t x)) (some-injective e);
  poll-Polls = λ s v t e. polled s v t (some-injective e);
  view-drop_wait = λ s v t e. ap (λ x. some (left t x)) (some-injective e);
  view-drop_permit = λ s v e. ap (λ x. some (handed x)) (some-injective e);
}
  where
    some-injective : {v w : View} → some v ≡ some w → v ≡ w
    some-injective e = cc (e)

    found :
        (n : ℕ) (a w : List ℕ)
        → let v : View = record { free = n; assigned = a; waiting = w } in
          Tries fair some v (try_view v)
    found zero a w = inl (refl, refl)
    found (suc n) a w = inr (n, record { free = n; assigned = a; waiting = w }, refl, refl, refl)

    tried : (s v : View) → s ≡ v → Tries fair some v (try_view s)
    tried s v e =
        subst (λ x. Tries fair some v (try_view x)) (sym e) (found v.free v.assigned v.waiting)

    seen : (t : ℕ) (v : View) → Polls fair some v t (poll_view t v)
    seen t v = elim (Bool-cases (has t v.assigned)) [
      | inl h ↦ inr (taken t v, h, rw h refl, refl)
      | inr h ↦ inl (h, rw h refl)
    ]

    polled : (s v : View) (t : ℕ) → s ≡ v → Polls fair some v t (poll_view t s)
    polled s v t e = subst (λ x. Polls fair some v t (poll_view t x)) (sym e) (seen t v)

abbrev no_view : View
no_view = record { free = 0; assigned = []; waiting = [] }

-- One job runs, and two calls are registered.
abbrev busy : CryptoLimiter fair
busy = record {
  execution = record { free = 0; assigned = []; waiting = 0 ∷ 1 ∷ [] };
  waiting = no_view;
  running = 1;
  placed = 0;
  queue = 0 ∷ 1 ∷ [];
  next = 2;
}

three_calls : ◌⟶*◌ fair (new fair 1 2) busy
unfolding new try_execution try_position register
three_calls = step tries (
    step tries
      (step asks (step (registers refl) (step tries (step asks (step (registers refl) stay))))))

-- The job has ended, and its permit is with the call that waits longest.
abbrev passed : CryptoLimiter fair
passed = record {
  execution = record { free = 0; assigned = 0 ∷ []; waiting = 1 ∷ [] };
  waiting = no_view;
  running = 0;
  placed = 0;
  queue = 0 ∷ 1 ∷ [];
  next = 2;
}

passed_run : ◌⟶*◌ fair (new fair 1 2) passed
unfolding new try_execution try_position register finish
passed_run = step tries (
    step tries (
      step asks (
        step (registers refl)
          (step tries (step asks (step (registers refl) (step (ends refl) stay)))))))

-- No job runs, yet a new call is refused: the permit is the waiting call's.
refused_run : (begin_acquire fair passed).0 ≡ failed (overloaded "crypto queue full")
unfolding begin_acquire try_execution try_position
refused_run = refl

timed_out : poll_wait fair busy 0 true ≡ (
  failed (overloaded "crypto queue timeout"),
  record busy {
    execution = record { free = 0; assigned = []; waiting = 1 ∷ [] };
    waiting = record { free = 1; assigned = []; waiting = [] };
    queue = 1 ∷ [];
  },
)
unfolding poll_wait
timed_out = refl

-- The semaphores of a limiter that was closed.
abbrev shut_down : Semaphores
shut_down = record {
  Semaphore = Text;
  new_semaphore = λ n. [];
  try_acquire_owned = λ s. closed;
  acquire_owned = λ t s. s;
  poll = λ t s. shut;
  drop_wait = λ t s. s;
  drop_permit = λ s. s;
}

closed_try :
    (begin_acquire shut_down (new shut_down 1 1)).0
    ≡ failed (internal "crypto execution semaphore closed")
unfolding begin_acquire try_execution new
closed_try = refl

closed_position :
    (try_position shut_down (new shut_down 1 1)).0
    ≡ failed (internal "crypto queue semaphore closed")
unfolding try_position new
closed_position = refl

closed_wait :
    (poll_wait shut_down (new shut_down 1 1) 0 true).0
    ≡ failed (internal "crypto execution semaphore closed")
unfolding poll_wait new
closed_wait = refl

limits_hold_example :
    (0 ≤ 1)
    × (2 ≤ 2)
    × (exec : View) × (some passed.execution ≡ some exec)
    × (length exec.assigned ≤ 2)
    × (((begin_acquire fair passed).0 ≡ admitted) ↔ (0 + length exec.assigned < 1))
    × (((begin_acquire fair passed).0 ≡ failed (overloaded "crypto queue full"))
        ↔ ((0 + length exec.assigned ≡ 1) × (0 + 2 ≡ 2)))
unfolding fair-IsSemaphores
limits_hold_example = limits_hold fair fair-IsSemaphores 1 2 passed passed_run

-- The first job ends, the first call takes its permit and its job ends too.
abbrev served : CryptoLimiter fair
served = record {
  execution = record { free = 0; assigned = 1 ∷ []; waiting = [] };
  waiting = record { free = 1; assigned = []; waiting = [] };
  running = 0;
  placed = 0;
  queue = 1 ∷ [];
  next = 2;
}

two_ends : ◌⟶*◌ fair busy served
unfolding finish poll_wait
two_ends = step (ends refl) (step (polls 0 false refl) (step (ends refl) stay))

two_ended : 2 ≤ ended fair two_ends
unfolding two_ends ended ending
two_ended = omega arith

served_in_order_example : (poll_wait fair served 1 true).0 ≡ admitted
unfolding fair-IsSemaphores
served_in_order_example =
    served_in_order fair fair-IsSemaphores 1 2 busy served 1 2 busy.execution true three_calls
      two_ends refl refl refl two_ended refl

waits_bounded_example : (poll_wait fair served 1 false).0 ≡ admitted
waits_bounded_example =
    waits_bounded fair fair-IsSemaphores 1 2 busy served 1 false three_calls two_ends refl two_ended
      refl
