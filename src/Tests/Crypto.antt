-- ===== src/Tests/Crypto.antt =====
-- The constant-time comparison (src/core/crypto.rs) at concrete bytes.
use vectis.Base.{ℕ, ◌≡◌, ◌↔◌, true, List, [], ◌∷◌, arith}
use vectis.Crypto.{constant_time_eq}
use vectis.Crypto.Compare.{constant_time_eq_iff}

abbrev left : List ℕ
left = 1 ∷ 255 ∷ []

abbrev right : List ℕ
right = 1 ∷ 254 ∷ []

constant_time_eq_iff_example : (constant_time_eq left right ≡ true) ↔ (left ≡ right)
constant_time_eq_iff_example = constant_time_eq_iff left right (omega arith) (omega arith)
