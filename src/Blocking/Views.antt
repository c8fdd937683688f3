-- ===== src/Blocking/Views.antt =====
-- src/core/blocking.rs: proofs about what a semaphore shows after each call.
use vectis.Base.{
  ℕ, zero, suc, ◌+◌, ◌-◌, ◌≡◌, ◌≢◌, inl, inr, refl, Bool, true, ◌||◌, List, [], ◌∷◌, arith, ◌==◌,
  Bool-cases, length, length-append,
}
use vectis.Blocking.{has}
use vectis.Blocking.Tickets.{
  has-append, length-remove, has-remove, within, within-append, within-remove, within_tail,
  within_pred,
}
use vectis.Blocking.Fair.{View, handed, joined, taken, left}

-- The permits that no job holds, and the tickets.
abbrev pub permits : View → ℕ
permits v = v.free + length v.assigned

abbrev pub tickets : View → ℕ
tickets v = length v.assigned + length v.waiting

abbrev pub registered : ℕ → View → Bool
registered t v = has t v.assigned || has t v.waiting

-- A ticket that has a permit, or is among the first `n` that wait.
abbrev pub near : ℕ → ℕ → View → Bool
near t n v = has t v.assigned || within t n v.waiting

pub permits-handed : (v : View) → permits (handed v) ≡ permits v + 1
permits-handed v = go v.free v.assigned v.waiting
  where
    go :
        (n : ℕ) (a w : List ℕ)
        → permits (handed (record { free = n; assigned = a; waiting = w })) ≡ n + length a + 1
    go n a [] = omega arith
    go n a (t ∷ w) = omega (arith, length-append a (t ∷ []))

pub tickets-handed : (v : View) → tickets (handed v) ≡ tickets v
tickets-handed v = go v.free v.assigned v.waiting
  where
    go :
        (n : ℕ) (a w : List ℕ)
        → tickets (handed (record { free = n; assigned = a; waiting = w })) ≡ length a + length w
    go n a [] = refl
    go n a (t ∷ w) = omega (arith, length-append a (t ∷ []))

pub registered-handed : (x : ℕ) (v : View) → registered x v ≡ true → registered x (handed v) ≡ true
registered-handed x v = go v.free v.assigned v.waiting
  where
    go :
        (n : ℕ) (a w : List ℕ)
        → (has x a || has x w) ≡ true
        → registered x (handed (record { free = n; assigned = a; waiting = w })) ≡ true
    go n a [] h = h
    go n a (t ∷ w) h = ground (arith, has-append x a (t ∷ []))

pub near-handed : (t n : ℕ) (v : View) → near t n v ≡ true → near t (n - 1) (handed v) ≡ true
near-handed t n v = go v.free v.assigned v.waiting
  where
    go :
        (k : ℕ) (a w : List ℕ)
        → (has t a || within t n w) ≡ true
        → near t (n - 1) (handed (record { free = k; assigned = a; waiting = w })) ≡ true
    go k a [] h = h
    go k a (x ∷ w) h = ground (arith, has-append t a (x ∷ []), within_tail t n x w)

pub near-handed_same : (t n : ℕ) (v : View) → near t n v ≡ true → near t n (handed v) ≡ true
near-handed_same t n v h = ground (arith, near-handed t n v h, within_pred t n (handed v).waiting)

pub permits-joined : (t : ℕ) (v : View) → permits (joined t v) ≡ permits v
permits-joined t v = go v.free v.assigned v.waiting
  where
    go :
        (n : ℕ) (a w : List ℕ)
        → permits (joined t (record { free = n; assigned = a; waiting = w })) ≡ n + length a
    go zero a w = refl
    go (suc n) a w = omega (arith, length-append a (t ∷ []))

pub tickets-joined : (t : ℕ) (v : View) → tickets (joined t v) ≡ tickets v + 1
tickets-joined t v = go v.free v.assigned v.waiting
  where
    go :
        (n : ℕ) (a w : List ℕ)
        → tickets (joined t (record { free = n; assigned = a; waiting = w }))
          ≡ length a + length w + 1
    go zero a w = omega (arith, length-append w (t ∷ []))
    go (suc n) a w = omega (arith, length-append a (t ∷ []))

pub registered-joined :
    (x t : ℕ) (v : View) → registered x (joined t v) ≡ registered x v || (t == x)
registered-joined x t v = go v.free v.assigned v.waiting
  where
    go :
        (n : ℕ) (a w : List ℕ)
        → registered x (joined t (record { free = n; assigned = a; waiting = w }))
          ≡ (has x a || has x w) || (t == x)
    go zero a w = ground (arith, has-append x w (t ∷ []))
    go (suc n) a w = ground (arith, has-append x a (t ∷ []))

pub near-joined : (x n t : ℕ) (v : View) → near x n v ≡ true → near x n (joined t v) ≡ true
near-joined x n t v = go v.free v.assigned v.waiting
  where
    go :
        (k : ℕ) (a w : List ℕ)
        → (has x a || within x n w) ≡ true
        → near x n (joined t (record { free = k; assigned = a; waiting = w })) ≡ true
    go zero a w h = ground (arith, within-append x n w (t ∷ []))
    go (suc k) a w h = ground (arith, has-append x a (t ∷ []))

pub permits-left : (t : ℕ) (v : View) → permits (left t v) ≡ permits v
permits-left t v = elim (Bool-cases (has t v.assigned)) [
  | inl e ↦ rw e (omega (arith, permits-handed (taken t v), length-remove t v.assigned e))
  | inr e ↦ rw e refl
]

pub tickets-left : (t : ℕ) (v : View) → registered t v ≡ true → tickets (left t v) + 1 ≡ tickets v
tickets-left t v h = elim (Bool-cases (has t v.assigned)) [
  | inl e ↦ rw e (omega (arith, tickets-handed (taken t v), length-remove t v.assigned e))
  | inr e ↦ rw e (omega (arith, length-remove t v.waiting (ground arith)))
]

pub registered-taken :
    (x t : ℕ) (v : View) → t ≢ x → registered x v ≡ true → registered x (taken t v) ≡ true
registered-taken x t v d h = ground (arith, has-remove t x v.assigned d)

pub registered-left :
    (x t : ℕ) (v : View) → t ≢ x → registered x v ≡ true → registered x (left t v) ≡ true
registered-left x t v d h = elim (Bool-cases (has t v.assigned)) [
  | inl e ↦ rw e (registered-handed x (taken t v) (registered-taken x t v d h))
  | inr e ↦ rw e (ground (arith, has-remove t x v.waiting d))
]

pub near-taken : (x n t : ℕ) (v : View) → t ≢ x → near x n v ≡ true → near x n (taken t v) ≡ true
near-taken x n t v d h = ground (arith, has-remove t x v.assigned d)

pub near-left : (x n t : ℕ) (v : View) → t ≢ x → near x n v ≡ true → near x n (left t v) ≡ true
near-left x n t v d h = elim (Bool-cases (has t v.assigned)) [
  | inl e ↦ rw e (near-handed_same x n (taken t v) (near-taken x n t v d h))
  | inr e ↦ rw e (ground (arith, within-remove t x n v.waiting d))
]
