-- ===== src/Crypto.antt =====
-- src/core/crypto.rs: what the program itself computes there; the ciphers, hashes and signatures are
-- calls of a library.
pub mod Compare
use vectis.Base.{
  ℕ, zero, suc, ◌+◌, ◌-◌, ◌*◌, ◌/◌, ◌%◌, ◌^◌, ◌≤◌, ◌<◌, ◌≡◌, ◌≢◌, ◌↔◌, ◌⊎◌, inl, inr, refl, sym, ap,
  ◌∙◌, Bool, true, false, not, ◌&&◌, ◌||◌, List, [], ◌∷◌, ◌++◌, map, append-nil, append_assoc,
  Option, some, none, arith, ltb, leb, ltb→lt, lt→ltb, leb→le, le→leb, ltb-false, le→ltb-false,
  tests, ◌==◌, ==_iff, if◌then◌else◌, Bool-cases, Option-cases, &&_true, String, Text, codes,
  text_eq, text_eq_iff, text_eq_refl, contains, contains_char, all, any, find, All, length,
  get_elem?, set, take, drop, replicate, length-append, length-take, length-drop, length-replicate,
  length-map, min, get_elem?-append_left, get_elem?-append_end, length-set, get_elem?-set_self,
}
use Prim.Native.Nat.{bit_or, bit_xor}

-- HASH_ALGORITHMS
unfoldable pub hash_algorithms : List Text
unfolding codes
hash_algorithms =
    codes "BLAKE2b(160)"
    ∷ codes "BLAKE2b(224)"
    ∷ codes "BLAKE2b(256)"
    ∷ codes "BLAKE2b(384)"
    ∷ codes "BLAKE2b(512)"
    ∷ codes "SHA-224"
    ∷ codes "SHA-256"
    ∷ codes "SHA-384"
    ∷ codes "SHA-512"
    ∷ codes "SHA-512-256"
    ∷ codes "SHA-3(224)"
    ∷ codes "SHA-3(256)"
    ∷ codes "SHA-3(384)"
    ∷ codes "SHA-3(512)"
    ∷ codes "Whirlpool"
    ∷ []

unfoldable pub hash_output_size_bytes : Text → Option ℕ
unfolding codes text_eq
hash_output_size_bytes algorithm =
    if contains (codes "BLAKE2b(160)" ∷ []) algorithm
    then some 20
    else if contains (codes "BLAKE2b(224)" ∷ codes "SHA-224" ∷ codes "SHA-3(224)" ∷ []) algorithm
    then some 28
    else if contains
        (codes "BLAKE2b(256)" ∷ codes "SHA-256" ∷ codes "SHA-512-256" ∷ codes "SHA-3(256)" ∷ [])
        algorithm
    then some 32
    else if contains (codes "BLAKE2b(384)" ∷ codes "SHA-384" ∷ codes "SHA-3(384)" ∷ []) algorithm
    then some 48
    else if contains
        (codes "BLAKE2b(512)" ∷ codes "SHA-512" ∷ codes "SHA-3(512)" ∷ codes "Whirlpool" ∷ [])
        algorithm
    then some 64
    else none

-- The loop of `constant_time_eq` over the zipped bytes.
unfoldable pub diff_from : ℕ → List ℕ → List ℕ → ℕ
diff_from diff [] right = diff
diff_from diff (l ∷ left) [] = diff
diff_from diff (l ∷ left) (r ∷ right) = diff_from (bit_or diff (bit_xor l r)) left right

unfoldable pub constant_time_eq : List ℕ → List ℕ → Bool
unfolding diff_from
constant_time_eq left right =
    if length left == length right then diff_from 0 left right == 0 else false
