-- ===== src/Sharing/Field.antt =====
-- The field of 256 elements (src/core/sharing.rs).
use vectis.Base.{ℕ, zero, suc, ◌-◌, ◌*◌, ◌/◌, ◌%◌, List, [], ◌∷◌, ◌==◌, if◌then◌else◌}
use vectis.Error.{DynError, invalid_input}
use vectis.Error.Result.{Result, ok, err}
use Prim.Native.Nat.{bit_and, bit_or, bit_xor}

-- Numbers below 256 stand for `u8`.
unfoldable pub bit_mask : ℕ → ℕ
bit_mask bit = (256 - bit % 2) % 256

-- The rounds of `gf_mul`, with its three variables.
unfoldable pub gf_rounds : ℕ → ℕ → ℕ → ℕ → ℕ
unfolding bit_mask
gf_rounds zero product left right = product
gf_rounds (suc n) product left right =
    gf_rounds n (bit_xor product (bit_and left (bit_mask (bit_and right 1))))
      (bit_xor (left * 2 % 256) (bit_and 0x1b (bit_mask (left / 128)))) (right / 2)

unfoldable pub gf_mul : ℕ → ℕ → ℕ
unfolding gf_rounds
gf_mul left right = gf_rounds 8 0 left right

-- The bits of the exponent 254, the lowest first, as the loop of `gf_inverse` reads them.
unfoldable pub inverse_rounds : List ℕ → ℕ → ℕ → ℕ
unfolding gf_mul bit_mask
inverse_rounds [] result base = result
inverse_rounds (bit ∷ bits) result base =
    let mask = bit_mask bit in
    inverse_rounds bits (bit_or (bit_and result (255 - mask)) (bit_and (gf_mul result base) mask))
      (gf_mul base base)

unfoldable pub gf_inverse : ℕ → ℕ
unfolding inverse_rounds
gf_inverse value = inverse_rounds (0 ∷ 1 ∷ 1 ∷ 1 ∷ 1 ∷ 1 ∷ 1 ∷ 1 ∷ []) 1 value

unfoldable pub gf_div : ℕ → ℕ → Result DynError ℕ
unfolding gf_inverse
gf_div left right =
    if right == 0
    then err (invalid_input "shares contain duplicate indexes")
    else ok (gf_mul left (gf_inverse right))

-- `coefficients.iter().rev().fold(0, …)`
unfoldable pub evaluate_polynomial : List ℕ → ℕ → ℕ
unfolding gf_mul
evaluate_polynomial [] x = 0
evaluate_polynomial (coefficient ∷ coefficients) x =
    bit_xor (gf_mul (evaluate_polynomial coefficients x) x) coefficient
