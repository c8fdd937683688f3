-- ===== src/Fpe/Domain.antt =====
-- src/core/fpe.rs: proofs about `fpe_domain_is_large_enough`.
use vectis.Base.{
  ℕ, zero, suc, ◌-◌, ◌*◌, ◌^◌, ◌≤◌, ◌<◌, ◌≡◌, ◌↔◌, inl, inr, sym, ap, ◌∙◌, true, arith, ltb, ltb→lt,
  Bool-cases, min,
}
use mathlib.Core.Path.{subst}
use native.Mathlib.Numerals.{unary_clauses}
use native.Mathlib.Nat.{mul_assoc, mul_comm, one-le-mul, le-mul_of_pos_right}
use vectis.Fpe.{saturating_mul, domain_reaches, fpe_domain_is_large_enough}

pow_suc : (r n : ℕ) → r ^ suc n ≡ r ^ n * r
pow_suc r n = simp unary_clauses

pow_zero : (r : ℕ) → r ^ 0 ≡ 1
pow_zero r = simp unary_clauses

pow_pos : (r n : ℕ) → 0 < r → 0 < r ^ n
pow_pos r zero h = rw (pow_zero r) (omega arith)
pow_pos r (suc n) h = subst (λ z. 0 < z) (sym (pow_suc r n)) (one-le-mul (pow_pos r n h) h)

-- The next power moves into the domain.
next_power : (domain radix n : ℕ) → domain * radix ^ suc n ≡ domain * radix * radix ^ n
next_power domain radix n =
    ap (λ z. domain * z) (pow_suc radix n ∙ mul_comm (radix ^ n) radix)
    ∙ sym (mul_assoc domain radix (radix ^ n))

positive_factor : (radix domain : ℕ) → 1000000 ≤ domain * radix → 0 < radix
positive_factor zero domain h = absurd (omega arith)
positive_factor (suc radix) domain h = omega arith

reaches_now :
    (n radix domain : ℕ) → 1000000 ≤ domain * radix → domain_reaches radix domain (suc n) ≡ true
unfolding domain_reaches saturating_mul
reaches_now n radix domain h = ground arith

reaches_later :
    (n radix domain : ℕ)
    → domain * radix < 1000000
    → domain_reaches radix domain (suc n) ≡ domain_reaches radix (domain * radix) n
unfolding domain_reaches saturating_mul
reaches_later n radix domain h =
    let e : min (domain * radix) (2 ^ 64 - 1) ≡ domain * radix = omega arith in
    rw (domain_reaches, saturating_mul, e) (ground arith)

domain_reaches_iff :
    (n radix domain : ℕ)
    → domain < 1000000
    → (domain_reaches radix domain n ≡ true) ↔ (1000000 ≤ domain * radix ^ n)
unfolding domain_reaches
domain_reaches_iff zero radix domain h = (
  (λ e. cc),
  (λ k.
      let same : domain * radix ^ 0 ≡ domain =
        ap (λ z. domain * z) (pow_zero radix) ∙ omega arith in
      absurd (omega arith)),
)
domain_reaches_iff (suc n) radix domain h =
    rw (next_power domain radix n) (elim (Bool-cases (ltb (domain * radix) 1000000)) [
      | inl e ↦
          let small : domain * radix < 1000000 = ltb→lt (domain * radix) 1000000 e in
          subst (λ z. (z ≡ true) ↔ (1000000 ≤ domain * radix * radix ^ n))
            (sym (reaches_later n radix domain small))
            (domain_reaches_iff n radix (domain * radix) small)
      | inr e ↦
          let big : 1000000 ≤ domain * radix = ground arith in
          let grown : domain * radix ≤ domain * radix * radix ^ n =
            le-mul_of_pos_right (domain * radix)
              (pow_pos radix n (positive_factor radix domain big)) in
          ((λ _. omega (arith, big, grown)), (λ _. reaches_now n radix domain big))
    ])

-- For every radix and length, the test of the domain's size, with its saturating multiplication
-- and its early return, accepts exactly where the power of the radix to the length is at least
-- one million.
pub fpe_domain_is_large_enough_iff :
    (radix min_len : ℕ)
    → (fpe_domain_is_large_enough radix min_len ≡ true) ↔ (1000000 ≤ radix ^ min_len)
unfolding fpe_domain_is_large_enough
fpe_domain_is_large_enough_iff radix min_len =
    subst (λ z. (domain_reaches radix 1 min_len ≡ true) ↔ (1000000 ≤ z)) (omega arith)
      (domain_reaches_iff min_len radix 1 (omega arith))
