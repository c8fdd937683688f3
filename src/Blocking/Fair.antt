-- ===== src/Blocking/Fair.antt =====
-- The semaphores of tokio that src/core/blocking.rs calls.
use vectis.Base.{
  ℕ, zero, suc, ◌≡◌, ◌⊎◌, true, false, List, [], ◌∷◌, ◌++◌, Option, some, if◌then◌else◌,
}
use vectis.Blocking.{Attempt, acquired, no_permits, Poll, ready, pending, Semaphores, remove, has}

-- What an open semaphore is: the permits that nobody has, the tickets that were handed a permit and
-- have not taken it, and the tickets that wait, the longest first.
pub record View : Type 0 where
  pub free : ℕ
  pub assigned : List ℕ
  pub waiting : List ℕ

-- A permit that comes back goes to the ticket that waits longest.
abbrev pub handed : View → View
handed v = elim v.waiting [
  | [] ↦ record v { free = suc v.free }
  | t ∷ ts ↦ record v { assigned = v.assigned ++ t ∷ []; waiting = ts }
]

-- A new ticket takes a free permit or waits behind the others.
abbrev pub joined : ℕ → View → View
joined t v = elim v.free [
  | zero ↦ record v { waiting = v.waiting ++ t ∷ [] }
  | suc n ↦ record v { free = n; assigned = v.assigned ++ t ∷ [] }
]

abbrev pub taken : ℕ → View → View
taken t v = record v { assigned = remove t v.assigned }

-- A dropped ticket gives back the permit that it was handed, or waits no longer.
abbrev pub left : ℕ → View → View
left t v =
    if has t v.assigned then handed (taken t v) else record v { waiting = remove t v.waiting }

-- What a try without waiting finds.
abbrev pub Tries :
    (tokio : Semaphores) → (tokio.Semaphore → Option View) → View → Attempt tokio.Semaphore → Type 0
Tries tokio view v a =
    ((v.free ≡ 0) × (a ≡ no_permits))
    ⊎ ((n : ℕ) × (s : tokio.Semaphore) × (v.free ≡ suc n)
        × (a ≡ acquired s)
        × (view s ≡ some (record v { free = n })))

-- What a poll finds.
abbrev pub Polls :
    (tokio : Semaphores)
    → (tokio.Semaphore → Option View)
    → View
    → ℕ
    → Poll tokio.Semaphore
    → Type 0
Polls tokio view v t p =
    ((has t v.assigned ≡ false) × (p ≡ pending))
    ⊎ ((s : tokio.Semaphore) × (has t v.assigned ≡ true)
        × (p ≡ ready s)
        × (view s ≡ some (taken t v)))

-- What tokio documents of an open semaphore: it is fair, so that permits go to the calls in the order
-- in which they were registered, and a permit that comes back while calls wait is handed on at once.
-- A poll is one of a task that has not used up its turn.
pub record IsSemaphores (tokio : Semaphores) : Type 0 where
  -- A closed semaphore shows nothing.
  pub view : tokio.Semaphore → Option View
  pub view-new :
      (n : ℕ)
      → view (tokio.new_semaphore n) ≡ some (record { free = n; assigned = []; waiting = [] })
  pub try-Tries :
      (s : tokio.Semaphore) (v : View)
      → view s ≡ some v
      → Tries tokio view v (tokio.try_acquire_owned s)
  pub view-acquire :
      (s : tokio.Semaphore) (v : View) (t : ℕ)
      → view s ≡ some v
      → view (tokio.acquire_owned t s) ≡ some (joined t v)
  pub poll-Polls :
      (s : tokio.Semaphore) (v : View) (t : ℕ)
      → view s ≡ some v
      → Polls tokio view v t (tokio.poll t s)
  pub view-drop_wait :
      (s : tokio.Semaphore) (v : View) (t : ℕ)
      → view s ≡ some v
      → view (tokio.drop_wait t s) ≡ some (left t v)
  pub view-drop_permit :
      (s : tokio.Semaphore) (v : View)
      → view s ≡ some v
      → view (tokio.drop_permit s) ≡ some (handed v)
