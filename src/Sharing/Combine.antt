-- ===== src/Sharing/Combine.antt =====
-- src/core/sharing.rs: proofs about combining shares.
use vectis.Base.{
  ℕ, zero, suc, ◌+◌, ◌≤◌, ◌<◌, ◌≡◌, ◌⊎◌, inl, inr, refl, ap, List, [], ◌∷◌, some, arith,
  le→ltb-false, ◌==◌, Bool-cases, length, get_elem?, take, drop,
}
use vectis.Error.{DynError, invalid_input}
use vectis.Error.Result.{ok, err, >>-eq-ok}
use mathlib.Core.Path.{subst}
use vectis.Sharing.Shares.{
  RawShare, check_raw_shares, validate_raw_shares, interpolate_at, interpolate_all, check_share,
  check_shares, combine,
}
use vectis.Sharing.Interpolate.{IsCombinable, byte_at-inside, interpolate_from-total}
use vectis.Sharing.Checked.{taken-IsCombinable, dropped-size}

interpolate_at-total :
    (basis : List RawShare) (n offset x : ℕ)
    → IsCombinable basis n
    → offset < n
    → (v : ℕ) × (interpolate_at basis offset x ≡ ok v)
unfolding interpolate_at
interpolate_at-total basis n offset x c o =
    interpolate_from-total basis n offset x 0 basis 0 c o
      (λ i s g. subst (λ k. get_elem? basis k ≡ some s) (let e : i ≡ 0 + i = omega arith in e) g)

interpolate_all-total :
    (basis : List RawShare) (n offset m : ℕ)
    → IsCombinable basis n
    → offset + m ≤ n
    → (secret : List ℕ) × (interpolate_all basis offset m ≡ ok secret) × (length secret ≡ m)
unfolding interpolate_all
interpolate_all-total basis n offset zero c o = ([], refl, refl)
interpolate_all-total basis n offset (suc m) c o =
    let (b, byte) = interpolate_at-total basis n offset 0 c (omega arith) in
    let (bs, bytes, size) = interpolate_all-total basis n (suc offset) m c (omega arith) in
    (b ∷ bs, rw (interpolate_all, byte, bytes) refl, ap suc size)

abbrev inconsistent : DynError
inconsistent = invalid_input "shares are inconsistent with the sharing set"

check_share-total :
    (basis : List RawShare) (n : ℕ) (share : RawShare) (offset m : ℕ)
    → IsCombinable basis n
    → length share.value ≡ n
    → offset + m ≤ n
    → (check_share basis share offset m ≡ ok tt)
      ⊎ (check_share basis share offset m ≡ err inconsistent)
unfolding check_share
check_share-total basis n share offset zero c s o = inl refl
check_share-total basis n share offset (suc m) c s o =
    let (e, expected) = interpolate_at-total basis n offset share.index c (omega arith) in
    let (a, actual) = byte_at-inside share.value offset (omega (arith, s)) in
    elim (Bool-cases (e == a)) [
      | inl same ↦ elim (check_share-total basis n share (suc offset) m c s (omega arith)) [
        | inl done ↦ inl (rw (check_share, expected, actual, same) done)
        | inr done ↦ inr (rw (check_share, expected, actual, same) done)
      ]
      | inr differ ↦ inr (rw (check_share, expected, actual, differ) refl)
    ]

check_shares-total :
    (basis : List RawShare) (n : ℕ) (shares : List RawShare)
    → IsCombinable basis n
    → ((i : ℕ) (s : RawShare) → get_elem? shares i ≡ some s → length s.value ≡ n)
    → (check_shares basis n shares ≡ ok tt) ⊎ (check_shares basis n shares ≡ err inconsistent)
unfolding check_shares
check_shares-total basis n [] c h = inl refl
check_shares-total basis n (share ∷ shares) c h =
    elim (check_share-total basis n share 0 n c (h 0 share refl) (omega arith)) [
      | inr bad ↦ inr (rw (check_shares, bad) refl)
      | inl good ↦ elim (check_shares-total basis n shares c (λ i s g. h (suc i) s g)) [
        | inl done ↦ inl (rw (check_shares, good) done)
        | inr done ↦ inr (rw (check_shares, good) done)
      ]
    ]

validate_raw_shares-checked :
    (shares : List RawShare) (n : ℕ)
    → validate_raw_shares shares ≡ ok n
    → check_raw_shares shares [] n ≡ ok tt
unfolding validate_raw_shares
validate_raw_shares-checked [] n h = absurd (cc (h))
validate_raw_shares-checked (first ∷ shares) n h =
    let (checked, h) = >>-eq-ok (check_raw_shares (first ∷ shares) [] (length first.value)) _ h in
    let same : length first.value ≡ n = cc (h) in
    subst (λ k. check_raw_shares (first ∷ shares) [] k ≡ ok tt) same checked

-- Where there are at least as many shares as the threshold, their indexes are bytes and
-- `validate_raw_shares` accepts them: `combine` returns a secret of the shares' length or the error
-- that they are inconsistent, so no division by 0 and no access out of bounds can happen.
pub combine-total :
    (shares : List RawShare) (threshold n : ℕ)
    → threshold ≤ length shares
    → ((i : ℕ) (s : RawShare) → get_elem? shares i ≡ some s → s.index < 256)
    → validate_raw_shares shares ≡ ok n
    → ((secret : List ℕ) × (combine shares threshold ≡ ok secret) × (length secret ≡ n))
      ⊎ (combine shares threshold
          ≡ err (invalid_input "shares are inconsistent with the sharing set"))
unfolding combine
combine-total shares threshold n enough bytes h =
    let checked = validate_raw_shares-checked shares n h in
    let basis = taken-IsCombinable shares threshold n checked bytes in
    let (secret, done, size) =
      interpolate_all-total (take threshold shares) n 0 n basis (omega arith) in
    elim (check_shares-total (take threshold shares) n (drop threshold shares) basis
      (λ i s g. dropped-size shares threshold n i s checked g)) [
        | inl good ↦ inl (
          secret,
          rw (combine, le→ltb-false (length shares) threshold enough, h, done, good) refl,
          size,
        )
        | inr bad ↦
            inr (rw (combine, le→ltb-false (length shares) threshold enough, h, done, bad) refl)
      ]
