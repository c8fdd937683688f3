-- ===== src/Sharing/Inverse.antt =====
-- src/core/sharing.rs: proofs about `gf_mul` and `gf_inverse`.
use vectis.Base.{
  ℕ, zero, suc, ◌+◌, ◌≤◌, ◌<◌, ◌≡◌, ◌≢◌, inl, inr, refl, Bool, true, ◌&&◌, arith, ltb, ◌==◌, ==_iff,
  Bool-cases,
}
use mathlib.Core.Path.{subst}
use vectis.Sharing.Field.{gf_mul, gf_inverse}

-- Every number from one to the other passes the check.
abbrev all_from : ℕ → ℕ → (ℕ → Bool) → Bool
all_from start zero p = true
all_from start (suc n) p = p start && all_from (suc start) n p

all_from-at :
    (start n : ℕ) (p : ℕ → Bool) (v : ℕ)
    → all_from start n p ≡ true
    → start ≤ v
    → v < start + n
    → p v ≡ true
all_from-at start zero p v h a b = absurd (omega arith)
all_from-at start (suc n) p v h a b = elim (Bool-cases (start == v)) [
  | inl e ↦ subst (λ u. p u ≡ true) ((==_iff start v).0 e) (ground arith)
  | inr e ↦ all_from-at (suc start) n p v (ground arith) (ground arith) (omega arith)
]

abbrev inverts : ℕ → Bool
inverts v = gf_mul v (gf_inverse v) == 1

checked_low : all_from 1 63 inverts ≡ true
unfolding gf_mul gf_inverse
checked_low = refl

checked_64 : all_from 64 64 inverts ≡ true
unfolding gf_mul gf_inverse
checked_64 = refl

checked_128 : all_from 128 64 inverts ≡ true
unfolding gf_mul gf_inverse
checked_128 = refl

checked_192 : all_from 192 64 inverts ≡ true
unfolding gf_mul gf_inverse
checked_192 = refl

-- For every element that is not 0, the square-and-multiply loop over the exponent 254 computes its
-- multiplicative inverse.
pub gf_mul-gf_inverse : (v : ℕ) → v ≢ 0 → v < 256 → gf_mul v (gf_inverse v) ≡ 1
gf_mul-gf_inverse v n b = (==_iff (gf_mul v (gf_inverse v)) 1).0 (found v n b)
  where
    found : (u : ℕ) → u ≢ 0 → u < 256 → inverts u ≡ true
    found u n b = elim (Bool-cases (ltb u 64)) [
      | inl e ↦ all_from-at 1 63 inverts u checked_low (ground arith) (ground arith)
      | inr e ↦ elim (Bool-cases (ltb u 128)) [
        | inl f ↦ all_from-at 64 64 inverts u checked_64 (ground arith) (ground arith)
        | inr f ↦ elim (Bool-cases (ltb u 192)) [
          | inl g ↦ all_from-at 128 64 inverts u checked_128 (ground arith) (ground arith)
          | inr g ↦ all_from-at 192 64 inverts u checked_192 (ground arith) (ground arith)
        ]
      ]
    ]
