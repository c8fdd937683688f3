-- ===== src/Sharing/Checked.antt =====
-- src/core/sharing.rs: proofs about `validate_raw_shares`.
use vectis.Base.{
  ℕ, zero, suc, ◌+◌, ◌<◌, ◌≡◌, ◌≢◌, refl, sym, ap, true, false, not, ◌||◌, List, [], ◌∷◌, some,
  arith, ◌==◌, ==_iff, any, length, get_elem?, take, drop,
}
use vectis.Error.{invalid_input}
use vectis.Error.Result.{ok, reject, reject-ok, >>-eq-ok}
use mathlib.Core.Path.{subst}
use vectis.Sharing.Shares.{RawShare, check_raw_shares}
use vectis.Sharing.Interpolate.{IsCombinable}

-- What the check of one share and of the ones after it gives.
check_raw_shares-parts :
    (share : RawShare) (shares : List RawShare) (seen : List ℕ) (n : ℕ)
    → check_raw_shares (share ∷ shares) seen n ≡ ok tt
    → (any (λ i. i == share.index) seen ≡ false)
      × (length share.value ≡ n)
      × (check_raw_shares shares (share.index ∷ seen) n ≡ ok tt)
unfolding check_raw_shares
check_raw_shares-parts share shares seen n h =
    let (fresh, h) =
      >>-eq-ok
        (reject (share.index == 0 || any (λ i. i == share.index) seen)
          (invalid_input "share indexes must be unique"))
        _ h in
    let (same, h) =
      >>-eq-ok
        (reject (not (length share.value == n)) (invalid_input "share payload lengths must match"))
        _ h in
    let f = reject-ok (share.index == 0 || any (λ i. i == share.index) seen) _ fresh in
    let g = reject-ok (not (length share.value == n)) _ same in
    (ground (arith, f), ground (arith, g), h)

check_raw_shares-size :
    (shares : List RawShare) (seen : List ℕ) (n i : ℕ) (s : RawShare)
    → check_raw_shares shares seen n ≡ ok tt
    → get_elem? shares i ≡ some s
    → length s.value ≡ n
check_raw_shares-size [] seen n i s h g = absurd (cc (g))
check_raw_shares-size (share ∷ shares) seen n zero s h g =
    let (_, size, _) = check_raw_shares-parts share shares seen n h in
    let same : share ≡ s = cc (g) in subst (λ z. length z.value ≡ n) same size
check_raw_shares-size (share ∷ shares) seen n (suc i) s h g =
    let (_, _, more) = check_raw_shares-parts share shares seen n h in
    check_raw_shares-size shares (share.index ∷ seen) n i s more g

-- No checked share has an index that was seen before it.
check_raw_shares-unseen :
    (shares : List RawShare) (seen : List ℕ) (n i : ℕ) (s : RawShare)
    → check_raw_shares shares seen n ≡ ok tt
    → get_elem? shares i ≡ some s
    → any (λ k. k == s.index) seen ≡ false
check_raw_shares-unseen [] seen n i s h g = absurd (cc (g))
check_raw_shares-unseen (share ∷ shares) seen n zero s h g =
    let (fresh, _, _) = check_raw_shares-parts share shares seen n h in
    let same : share ≡ s = cc (g) in subst (λ z. any (λ k. k == z.index) seen ≡ false) same fresh
check_raw_shares-unseen (share ∷ shares) seen n (suc i) s h g =
    let (_, _, more) = check_raw_shares-parts share shares seen n h in
    let later = check_raw_shares-unseen shares (share.index ∷ seen) n i s more g in ground arith

first_differs :
    (share t : RawShare) (shares : List RawShare) (seen : List ℕ) (n j : ℕ)
    → check_raw_shares (share ∷ shares) seen n ≡ ok tt
    → get_elem? shares j ≡ some t
    → share.index ≢ t.index
first_differs share t shares seen n j h g e =
    let (_, _, more) = check_raw_shares-parts share shares seen n h in
    let unseen = check_raw_shares-unseen shares (share.index ∷ seen) n j t more g in
    let same : share.index == t.index ≡ true = (==_iff share.index t.index).1 e in
    absurd (ground (arith, unseen, same))

check_raw_shares-distinct :
    (shares : List RawShare) (seen : List ℕ) (n i j : ℕ) (s t : RawShare)
    → check_raw_shares shares seen n ≡ ok tt
    → get_elem? shares i ≡ some s
    → get_elem? shares j ≡ some t
    → i ≢ j
    → s.index ≢ t.index
check_raw_shares-distinct [] seen n i j s t h g k ne = absurd (cc (g))
check_raw_shares-distinct (share ∷ shares) seen n zero zero s t h g k ne = absurd (ne refl)
check_raw_shares-distinct (share ∷ shares) seen n zero (suc j) s t h g k ne =
    let same : share ≡ s = cc (g) in
    subst (λ z. z.index ≢ t.index) same (first_differs share t shares seen n j h k)
check_raw_shares-distinct (share ∷ shares) seen n (suc i) zero s t h g k ne = λ e.
    let same : share ≡ t = cc (k) in
    first_differs share s shares seen n i h g (sym (subst (λ z. s.index ≡ z.index) (sym same) e))
check_raw_shares-distinct (share ∷ shares) seen n (suc i) (suc j) s t h g k ne =
    let (_, _, more) = check_raw_shares-parts share shares seen n h in
    check_raw_shares-distinct shares (share.index ∷ seen) n i j s t more g k (λ e. ne (ap suc e))

take-get :
    {A : Type 0} (k : ℕ) (xs : List A) (i : ℕ) (x : A)
    → get_elem? (take k xs) i ≡ some x
    → get_elem? xs i ≡ some x
take-get zero xs i x h = absurd (cc (h))
take-get (suc k) [] i x h = h
take-get (suc k) (y ∷ xs) zero x h = h
take-get (suc k) (y ∷ xs) (suc i) x h = take-get k xs i x h

drop-get :
    {A : Type 0} (k : ℕ) (xs : List A) (i : ℕ) (x : A)
    → get_elem? (drop k xs) i ≡ some x
    → get_elem? xs (k + i) ≡ some x
drop-get zero xs i x h =
    subst (λ j. get_elem? xs j ≡ some x) (let e : i ≡ 0 + i = omega arith in e) h
drop-get (suc k) [] i x h = absurd (cc (h))
drop-get (suc k) (y ∷ xs) i x h =
    subst (λ j. get_elem? (y ∷ xs) j ≡ some x) (let e : suc (k + i) ≡ suc k + i = omega arith in e)
      (drop-get k xs i x h)

-- The basis of a combination.
pub taken-IsCombinable :
    (shares : List RawShare) (k n : ℕ)
    → check_raw_shares shares [] n ≡ ok tt
    → ((i : ℕ) (s : RawShare) → get_elem? shares i ≡ some s → s.index < 256)
    → IsCombinable (take k shares) n
taken-IsCombinable shares k n h b = record {
  distinct = λ i j s t g g' ne.
      check_raw_shares-distinct shares [] n i j s t h (take-get k shares i s g)
        (take-get k shares j t g') ne;
  sizes = λ i s g. check_raw_shares-size shares [] n i s h (take-get k shares i s g);
  bytes = λ i s g. b i s (take-get k shares i s g);
}

pub dropped-size :
    (shares : List RawShare) (k n i : ℕ) (s : RawShare)
    → check_raw_shares shares [] n ≡ ok tt
    → get_elem? (drop k shares) i ≡ some s
    → length s.value ≡ n
dropped-size shares k n i s h g =
    check_raw_shares-size shares [] n (k + i) s h (drop-get k shares i s g)
