-- ===== src/Blocking/Tickets.antt =====
-- Lists of tickets of calls that wait (src/core/blocking.rs).
use vectis.Base.{
  ℕ, zero, suc, ◌+◌, ◌-◌, ◌≤◌, ◌<◌, ◌≡◌, ◌≢◌, inl, inr, refl, Bool, true, false, not, ◌&&◌, ◌||◌,
  List, [], ◌∷◌, ◌++◌, arith, ltb, ◌==◌, Bool-cases, all, length,
}
use mathlib.Core.Path.{subst}
use vectis.Blocking.{remove, has}

-- Different tickets.
abbrev pub distinct : List ℕ → Bool
distinct [] = true
distinct (x ∷ xs) = not (has x xs) && distinct xs

-- Tickets below a number.
abbrev pub below : ℕ → List ℕ → Bool
below n xs = all (λ x. ltb x n) xs

-- A ticket is among the first `n`.
abbrev pub within : ℕ → ℕ → List ℕ → Bool
within t n [] = false
within t zero (x ∷ xs) = false
within t (suc n) (x ∷ xs) = x == t || within t n xs

pub has-append : (t : ℕ) (xs ys : List ℕ) → has t (xs ++ ys) ≡ has t xs || has t ys
has-append t [] ys = refl
has-append t (x ∷ xs) ys = ground (arith, has-append t xs ys)

pub length-remove : (t : ℕ) (xs : List ℕ) → has t xs ≡ true → length (remove t xs) + 1 ≡ length xs
length-remove t [] h = absurd (cc (h))
length-remove t (x ∷ xs) h = elim (Bool-cases (x == t)) [
  | inl e ↦ rw e (omega arith)
  | inr e ↦ rw e (omega (arith, length-remove t xs (ground arith)))
]

-- Another ticket stays.
pub has-remove : (s t : ℕ) (xs : List ℕ) → s ≢ t → has t xs ≡ true → has t (remove s xs) ≡ true
has-remove s t [] d h = h
has-remove s t (x ∷ xs) d h = ground (arith, has-remove s t xs d)

pub has-remove_back : (s t : ℕ) (xs : List ℕ) → has t (remove s xs) ≡ true → has t xs ≡ true
has-remove_back s t [] h = h
has-remove_back s t (x ∷ xs) h = ground (arith, has-remove_back s t xs)

pub distinct-remove : (t : ℕ) (xs : List ℕ) → distinct xs ≡ true → distinct (remove t xs) ≡ true
distinct-remove t [] h = h
distinct-remove t (x ∷ xs) h = ground (arith, distinct-remove t xs, has-remove_back t x xs)

-- A removed ticket is gone.
pub has-remove_self : (t : ℕ) (xs : List ℕ) → distinct xs ≡ true → has t (remove t xs) ≡ false
has-remove_self t [] h = refl
has-remove_self t (x ∷ xs) h = ground (arith, has-remove_self t xs)

pub below-append : (n : ℕ) (xs : List ℕ) → below n xs ≡ true → below (suc n) (xs ++ n ∷ []) ≡ true
below-append n [] h = ground arith
below-append n (x ∷ xs) h = ground (arith, below-append n xs)

pub below-remove : (n t : ℕ) (xs : List ℕ) → below n xs ≡ true → below n (remove t xs) ≡ true
below-remove n t [] h = h
below-remove n t (x ∷ xs) h = ground (arith, below-remove n t xs)

-- A ticket of the list is below the number.
pub below-has : (n t : ℕ) (xs : List ℕ) → below n xs ≡ true → has t xs ≡ true → t < n
below-has n t [] h e = absurd (cc (e))
below-has n t (x ∷ xs) h e = ground (arith, below-has n t xs)

pub distinct-append :
    (n : ℕ) (xs : List ℕ) → below n xs ≡ true → distinct xs ≡ true → distinct (xs ++ n ∷ []) ≡ true
distinct-append n [] h d = refl
distinct-append n (x ∷ xs) h d = ground (arith, distinct-append n xs, has-append x xs (n ∷ []))

pub within-append : (t n : ℕ) (xs ys : List ℕ) → within t n xs ≡ true → within t n (xs ++ ys) ≡ true
within-append t n [] ys h = absurd (cc (h))
within-append t zero (x ∷ xs) ys h = absurd (cc (h))
within-append t (suc n) (x ∷ xs) ys h = ground (arith, within-append t n xs ys)

within-suc : (t n : ℕ) (xs : List ℕ) → within t n xs ≡ true → within t (suc n) xs ≡ true
within-suc t n [] h = h
within-suc t zero (x ∷ xs) h = absurd (cc (h))
within-suc t (suc n) (x ∷ xs) h = ground (arith, within-suc t n xs)

-- Another ticket keeps its place or moves forward.
pub within-remove :
    (s t n : ℕ) (xs : List ℕ) → s ≢ t → within t n xs ≡ true → within t n (remove s xs) ≡ true
within-remove s t n [] d h = h
within-remove s t zero (x ∷ xs) d h = absurd (cc (h))
within-remove s t (suc n) (x ∷ xs) d h = ground (arith, within-remove s t n xs d, within-suc t n xs)

-- Where the first ticket is taken away, another one moves forward.
pub within_tail :
    (t n x : ℕ) (xs : List ℕ) → within t n (x ∷ xs) ≡ true → (x == t || within t (n - 1) xs) ≡ true
within_tail t zero x xs h = absurd (cc (h))
within_tail t (suc n) x xs h = let less : suc n - 1 ≡ n = omega arith in rw less h

pub within_pred : (t n : ℕ) (xs : List ℕ) → within t (n - 1) xs ≡ true → within t n xs ≡ true
within_pred t zero xs h =
    let none_less : 0 - 1 ≡ 0 = omega arith in subst (λ k. within t k xs ≡ true) none_less h
within_pred t (suc n) xs h =
    let less : suc n - 1 ≡ n = omega arith in
    within-suc t n xs (subst (λ k. within t k xs ≡ true) less h)

-- A ticket of the list is among its first ones, as many as the list has.
pub within-has : (t n : ℕ) (xs : List ℕ) → length xs ≤ n → has t xs ≡ true → within t n xs ≡ true
within-has t n [] l h = h
within-has t zero (x ∷ xs) l h = absurd (omega arith)
within-has t (suc n) (x ∷ xs) l h = ground (arith, within-has t n xs (omega arith))

pub all-implies :
    (p q : ℕ → Bool) (xs : List ℕ)
    → ((x : ℕ) → p x ≡ true → q x ≡ true)
    → all p xs ≡ true
    → all q xs ≡ true
all-implies p q [] f h = h
all-implies p q (x ∷ xs) f h = ground (arith, f x, all-implies p q xs f)

all-others :
    (p q : ℕ → Bool) (t : ℕ) (xs : List ℕ)
    → ((x : ℕ) → t ≢ x → p x ≡ true → q x ≡ true)
    → has t xs ≡ false
    → all p xs ≡ true
    → all q xs ≡ true
all-others p q t [] f n h = h
all-others p q t (x ∷ xs) f n h = ground (arith, f x, all-others p q t xs f)

-- What holds of the others holds of what remains.
pub all-remove :
    (p q : ℕ → Bool) (t : ℕ) (xs : List ℕ)
    → ((x : ℕ) → t ≢ x → p x ≡ true → q x ≡ true)
    → distinct xs ≡ true
    → all p xs ≡ true
    → all q (remove t xs) ≡ true
all-remove p q t [] f d h = h
all-remove p q t (x ∷ xs) f d h = elim (Bool-cases (x == t)) [
  | inl e ↦
      let same : x ≡ t = ground arith in
      rw e
        (all-others p q t xs f (subst (λ k. has k xs ≡ false) same (ground arith)) (ground arith))
  | inr e ↦ rw e (ground (arith, f x, all-remove p q t xs f))
]

pub all-has : (p : ℕ → Bool) (t : ℕ) (xs : List ℕ) → all p xs ≡ true → has t xs ≡ true → p t ≡ true
all-has p t [] h e = absurd (cc (e))
all-has p t (x ∷ xs) h e = elim (Bool-cases (x == t)) [
  | inl s ↦ let same : x ≡ t = ground arith in subst (λ k. p k ≡ true) same (ground arith)
  | inr s ↦ all-has p t xs (ground arith) (ground arith)
]

pub all-append :
    (p : ℕ → Bool) (t : ℕ) (xs : List ℕ)
    → all p xs ≡ true
    → p t ≡ true
    → all p (xs ++ t ∷ []) ≡ true
all-append p t [] h e = ground arith
all-append p t (x ∷ xs) h e = ground (arith, all-append p t xs)
