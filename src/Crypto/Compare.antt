-- ===== src/Crypto/Compare.antt =====
-- src/core/crypto.rs: proofs about `constant_time_eq`.
use vectis.Base.{
  ℕ, zero, suc, ◌<◌, ◌≡◌, ◌↔◌, refl, Bool, true, not, ◌&&◌, ◌||◌, List, [], ◌∷◌, arith, ltb, ◌==◌,
  All, length, all,
}
use Prim.Native.Nat.{bit_or, bit_xor}
use vectis.Crypto.{diff_from, constant_time_eq}

abbrev pub IsBytes : List ℕ → Type 0
IsBytes = All (λ b. b < 256)

-- The bytes from `n - 1` down to 0.
bytes_under : ℕ → List ℕ
bytes_under zero = []
bytes_under (suc n) = n ∷ bytes_under n

read_table :
    (test : ℕ → Bool) (n byte : ℕ) → byte < n → all test (bytes_under n) ≡ true → test byte ≡ true
unfolding bytes_under
read_table test zero byte lt h = absurd (omega arith)
read_table test (suc n) byte lt h = ground (arith, read_table test n byte)

-- What the loop needs of one pair of bytes.
byte_facts : ℕ → ℕ → Bool
byte_facts a b =
    ltb (bit_or a b) 256
    && ltb (bit_xor a b) 256
    && (not (bit_or a b == 0) || (a == 0 && b == 0))
    && (not (bit_xor a b == 0) || a == b)
    && bit_xor a a == 0

byte_table : all (λ a. all (byte_facts a) (bytes_under 256)) (bytes_under 256) ≡ true
unfolding bytes_under byte_facts
byte_table = refl

byte_facts_lem : (a b : ℕ) → a < 256 → b < 256 → byte_facts a b ≡ true
byte_facts_lem a b ha hb =
    read_table (byte_facts a) 256 b hb
      (read_table (λ x. all (byte_facts x) (bytes_under 256)) 256 a ha byte_table)

record PairFacts (a b : ℕ) : Type 0 where
  or_bound : bit_or a b < 256
  xor_bound : bit_xor a b < 256
  or_zero : bit_or a b ≡ 0 → (a ≡ 0) × (b ≡ 0)
  xor_zero : bit_xor a b ≡ 0 → a ≡ b
  xor_self : bit_xor a a ≡ 0

pair_facts : (a b : ℕ) → a < 256 → b < 256 → PairFacts a b
unfolding byte_facts
pair_facts a b ha hb =
    let h : byte_facts a b ≡ true = byte_facts_lem a b ha hb in
    record {
      or_bound = ground arith;
      xor_bound = ground arith;
      or_zero = λ e. (ground arith, ground arith);
      xor_zero = λ e. ground arith;
      xor_self = ground arith;
    }

diff_from-zero :
    (diff : ℕ) (left right : List ℕ)
    → diff < 256
    → IsBytes left
    → IsBytes right
    → length left ≡ length right
    → diff_from diff left right ≡ 0
    → (diff ≡ 0) × (left ≡ right)
unfolding diff_from
diff_from-zero diff [] [] hd hl hr n e = (e, refl)
diff_from-zero diff [] (r ∷ right) hd hl hr n e = absurd (omega arith)
diff_from-zero diff (l ∷ left) [] hd hl hr n e = absurd (omega arith)
diff_from-zero diff (l ∷ left) (r ∷ right) hd hl hr n e =
    let x = pair_facts l r hl.0 hr.0 in
    let o = pair_facts diff (bit_xor l r) hd x.xor_bound in
    let (z, rest) =
      diff_from-zero (bit_or diff (bit_xor l r)) left right o.or_bound hl.1 hr.1 (omega arith) e in
    let (d, y) = o.or_zero z in (d, cc (x.xor_zero y))

diff_from_self : (s : List ℕ) → IsBytes s → diff_from 0 s s ≡ 0
unfolding diff_from
diff_from_self [] h = refl
diff_from_self (x ∷ s) h = rw ((pair_facts x x h.0 h.0).xor_self) (diff_from_self s h.1)

-- On byte strings, the constant-time comparison answers true exactly where they are equal.
pub constant_time_eq_iff :
    (left right : List ℕ)
    → IsBytes left
    → IsBytes right
    → (constant_time_eq left right ≡ true) ↔ (left ≡ right)
unfolding constant_time_eq
constant_time_eq_iff left right hl hr = (
  λ e. (diff_from-zero 0 left right (omega arith) hl hr (ground arith) (ground arith)).1,
  λ e. rw (← e) (ground (arith, diff_from_self left hl)),
)

-- Two bytes that differ in no bit are one.
pub bit_xor-zero : (a b : ℕ) → a < 256 → b < 256 → bit_xor a b ≡ 0 → a ≡ b
bit_xor-zero a b ha hb e = (pair_facts a b ha hb).xor_zero e
