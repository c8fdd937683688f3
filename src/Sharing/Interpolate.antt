-- ===== src/Sharing/Interpolate.antt =====
-- src/core/sharing.rs: proofs about `interpolate_secret_byte`.
use vectis.Base.{
  ℕ, zero, suc, ◌+◌, ◌<◌, ◌≡◌, ◌≢◌, inl, inr, refl, false, List, [], ◌∷◌, some, arith, ◌==◌,
  Bool-cases, length, get_elem?,
}
use vectis.Error.Result.{ok}
use Prim.Native.Nat.{bit_xor}
use mathlib.Core.Path.{subst}
use vectis.Crypto.Compare.{bit_xor-zero}
use vectis.Sharing.Field.{gf_mul, gf_div, gf_inverse}
use vectis.Sharing.Shares.{RawShare, byte_at, coefficient_from, interpolate_from}

-- Shares of one length whose indexes are bytes and differ.
pub record IsCombinable (shares : List RawShare) (n : ℕ) : Type 0 where
  pub distinct :
      (i j : ℕ) (s t : RawShare)
      → get_elem? shares i ≡ some s
      → get_elem? shares j ≡ some t
      → i ≢ j
      → s.index ≢ t.index
  pub sizes : (i : ℕ) (s : RawShare) → get_elem? shares i ≡ some s → length s.value ≡ n
  pub bytes : (i : ℕ) (s : RawShare) → get_elem? shares i ≡ some s → s.index < 256

pub byte_at-inside :
    (bytes : List ℕ) (offset : ℕ)
    → offset < length bytes
    → (byte : ℕ) × (byte_at bytes offset ≡ ok byte)
unfolding byte_at
byte_at-inside [] offset h = absurd (omega arith)
byte_at-inside (b ∷ bytes) zero h = (b, refl)
byte_at-inside (b ∷ bytes) (suc offset) h = byte_at-inside bytes offset (omega arith)

zero_test : (n : ℕ) → n ≢ 0 → (n == 0) ≡ false
zero_test n h = ground (arith, h)

gf_div-nonzero :
    (left right : ℕ) → right ≢ 0 → gf_div left right ≡ ok (gf_mul left (gf_inverse right))
unfolding gf_div
gf_div-nonzero left right h = rw (gf_div, zero_test right h) refl

coefficient_from-total :
    (share : RawShare) (x index other_index : ℕ) (others : List RawShare) (coefficient : ℕ)
    → ((j : ℕ) (t : RawShare)
        → get_elem? others j ≡ some t
        → index ≢ other_index + j
        → bit_xor share.index t.index ≢ 0)
    → (v : ℕ) × (coefficient_from share x index other_index others coefficient ≡ ok v)
unfolding coefficient_from
coefficient_from-total share x index other_index [] coefficient h = (coefficient, refl)
coefficient_from-total share x index other_index (other ∷ others) coefficient h =
    let rest : (j : ℕ) (t : RawShare)
        → get_elem? others j ≡ some t
        → index ≢ suc other_index + j
        → bit_xor share.index t.index ≢ 0 =
      λ j t g ne. h (suc j) t g (λ e. ne (omega (arith, e))) in
    elim (Bool-cases (index == other_index)) [
      | inl e ↦
          let (v, done) =
            coefficient_from-total share x index (suc other_index) others coefficient rest in
          (v, rw (coefficient_from, e) done)
      | inr e ↦
          let q = bit_xor x other.index in
          let d = bit_xor share.index other.index in
          let nonzero : d ≢ 0 = h 0 other refl (ground (arith, e)) in
          let (v, done) =
            coefficient_from-total share x index (suc other_index) others
              (gf_mul coefficient (gf_mul q (gf_inverse d))) rest in
          (v, rw (coefficient_from, e, gf_div-nonzero q d nonzero) done)
    ]

pub interpolate_from-total :
    (all_shares : List RawShare) (n offset x index : ℕ) (shares : List RawShare) (value : ℕ)
    → IsCombinable all_shares n
    → offset < n
    → ((i : ℕ) (s : RawShare)
        → get_elem? shares i ≡ some s
        → get_elem? all_shares (index + i) ≡ some s)
    → (v : ℕ) × (interpolate_from all_shares offset x index shares value ≡ ok v)
unfolding interpolate_from
interpolate_from-total all_shares n offset x index [] value c o h = (value, refl)
interpolate_from-total all_shares n offset x index (share ∷ shares) value c o h =
    let here : get_elem? all_shares index ≡ some share =
      subst (λ k. get_elem? all_shares k ≡ some share)
        (let e : index + 0 ≡ index = omega arith in e) (h 0 share refl) in
    let (k, coefficient) = coefficient_from-total share x index 0 all_shares 1 (λ j t g ne z.
      c.distinct index j share t here g (λ e. ne (omega (arith, e)))
        (bit_xor-zero share.index t.index (c.bytes index share here) (c.bytes j t g) z)) in
    let (b, byte) =
      byte_at-inside share.value offset (omega (arith, o, c.sizes index share here)) in
    let (v, done) =
      interpolate_from-total all_shares n offset x (suc index) shares (bit_xor value (gf_mul b k)) c
        o
        (λ i s g.
          subst (λ k. get_elem? all_shares k ≡ some s)
            (let e : index + suc i ≡ suc index + i = omega arith in e) (h (suc i) s g)) in
    (v, rw (interpolate_from, coefficient, byte) done)
