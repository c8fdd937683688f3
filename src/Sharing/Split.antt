-- ===== src/Sharing/Split.antt =====
-- src/core/sharing.rs: proofs about splitting a secret.
use vectis.Base.{
  ℕ, zero, suc, ◌+◌, ◌-◌, ◌%◌, ◌≤◌, ◌<◌, ◌≡◌, refl, sym, ap, ◌∙◌, true, false, not, List, [], ◌∷◌,
  map, Option, some, arith, leb, ◌==◌, any, length, get_elem?, length-map,
}
use vectis.Error.{DynError}
use vectis.Error.Result.{Result, ok, ◌>>◌, reject, reject-ok, >>-eq-ok, with_ok}
use mathlib.Core.Path.{subst}
use vectis.Validation.Fields.{Checked}
use vectis.Sharing.Field.{evaluate_polynomial}
use vectis.Sharing.Shares.{
  SharingProfile, RawShare, validate_threshold, validate_secret, check_raw_shares,
  validate_raw_shares, coefficients_of, shares_from, split_secret, Rng,
}

-- No index that was seen reaches the next one.
seen_below :
    (seen : List ℕ) (index : ℕ)
    → any (λ k. leb index k) seen ≡ false
    → (any (λ k. k == index) seen ≡ false) × (any (λ k. leb (suc index) k) seen ≡ false)
seen_below [] index h = (refl, refl)
seen_below (s ∷ seen) index h =
    let (a, b) = seen_below seen index (ground arith) in (ground (arith, a), ground (arith, b))

equal_sizes : (n m : ℕ) → n ≡ m → (n == m) ≡ true
equal_sizes n m h = ground (arith, h)

shares_from-checked :
    (coefficients : List (List ℕ)) (index n : ℕ) (seen : List ℕ)
    → 1 ≤ index
    → index + n ≤ 256
    → any (λ k. leb index k) seen ≡ false
    → check_raw_shares (shares_from coefficients index n) seen (length coefficients) ≡ ok tt
unfolding check_raw_shares shares_from
shares_from-checked coefficients index zero seen a b h = refl
shares_from-checked coefficients index (suc n) seen a b h =
    let byte : index % 256 ≡ index = omega arith in
    let (fresh, later) = seen_below seen index h in
    let nonzero : index == 0 ≡ false = ground arith in
    let size =
      equal_sizes (length (map (λ c. evaluate_polynomial c index) coefficients))
        (length coefficients) (length-map (λ c. evaluate_polynomial c index) coefficients) in
    rw (check_raw_shares, shares_from, byte, nonzero, fresh, size)
      (shares_from-checked coefficients (suc index) n (index ∷ seen) (omega arith) (omega arith)
        (ground (arith, later)))

coefficients_of-length :
    (rng : Rng) (threshold offset : ℕ) (secret : List ℕ) (coefficients : List (List ℕ))
    → coefficients_of rng threshold offset secret ≡ ok coefficients
    → length coefficients ≡ length secret
unfolding coefficients_of
coefficients_of-length rng threshold offset [] coefficients h = cc (h)
coefficients_of-length rng threshold offset (b ∷ secret) coefficients h =
    let (_, h) = >>-eq-ok (reject (threshold == 0) _) _ h in
    with_ok (rng offset (threshold - 1)) _ h (λ random _ h.
      let (_, h) = >>-eq-ok (reject (not (length random == threshold - 1)) _) _ h in
      with_ok (coefficients_of rng threshold (suc offset) secret) _ h
        (λ rest e h. cc (h, coefficients_of-length rng threshold (suc offset) secret rest e)))

-- The coefficients at an offset: the secret's byte there, then the random bytes requested for it.
abbrev Polynomial : Rng → ℕ → ℕ → ℕ → Option (List ℕ) → Type 0
Polynomial rng threshold offset byte coefficients =
    (random : List ℕ) × (rng offset (threshold - 1) ≡ ok random)
    × (length random + 1 ≡ threshold)
    × (coefficients ≡ some (byte ∷ random))

coefficients_of-Polynomial :
    (rng : Rng) (threshold offset : ℕ) (secret : List ℕ) (coefficients : List (List ℕ)) (j byte : ℕ)
    → coefficients_of rng threshold offset secret ≡ ok coefficients
    → get_elem? secret j ≡ some byte
    → Polynomial rng threshold (offset + j) byte (get_elem? coefficients j)
unfolding coefficients_of
coefficients_of-Polynomial rng threshold offset [] coefficients j byte h g = absurd (cc (g))
coefficients_of-Polynomial rng threshold offset (b ∷ secret) coefficients zero byte h g =
    let (nonzero, h) = >>-eq-ok (reject (threshold == 0) _) _ h in
    with_ok (rng offset (threshold - 1)) _ h (λ random r h.
      let (same, h) = >>-eq-ok (reject (not (length random == threshold - 1)) _) _ h in
      with_ok (coefficients_of rng threshold (suc offset) secret) _ h (λ rest e h.
        let list : (b ∷ random) ∷ rest ≡ coefficients = cc (h) in
        let size : length random + 1 ≡ threshold =
          ground (arith, reject-ok (threshold == 0) _ nonzero, reject-ok _ _ same) in
        subst (λ k. Polynomial rng threshold k byte (get_elem? coefficients 0)) (omega arith)
          (random, r, size, cc (list, g))))
coefficients_of-Polynomial rng threshold offset (b ∷ secret) coefficients (suc j) byte h g =
    let (_, h) = >>-eq-ok (reject (threshold == 0) _) _ h in
    with_ok (rng offset (threshold - 1)) _ h (λ random _ h.
      let (_, h) = >>-eq-ok (reject (not (length random == threshold - 1)) _) _ h in
      with_ok (coefficients_of rng threshold (suc offset) secret) _ h (λ rest e h.
        let list : (b ∷ random) ∷ rest ≡ coefficients = cc (h) in
        let place : suc offset + j ≡ offset + suc j = omega arith in
        subst (λ k. Polynomial rng threshold k byte (get_elem? coefficients (suc j))) place
          (subst (λ z. Polynomial rng threshold (suc offset + j) byte (get_elem? z (suc j))) list
            (coefficients_of-Polynomial rng threshold (suc offset) secret rest j byte e g))))

share_at : List (List ℕ) → ℕ → RawShare
unfolding evaluate_polynomial
share_at coefficients index = record {
  index = index;
  value = map (λ c. evaluate_polynomial c index) coefficients;
}

shares_from-share_at :
    (coefficients : List (List ℕ)) (index n i : ℕ)
    → i < n
    → index + n ≤ 256
    → get_elem? (shares_from coefficients index n) i ≡ some (share_at coefficients (index + i))
unfolding shares_from share_at
shares_from-share_at coefficients index zero i a b = absurd (omega arith)
shares_from-share_at coefficients index (suc n) zero a b =
    let byte : index % 256 ≡ index + 0 = omega arith in
    ap (λ k. some (share_at coefficients k)) byte
shares_from-share_at coefficients index (suc n) (suc i) a b =
    let place : suc index + i ≡ index + suc i = omega arith in
    shares_from-share_at coefficients (suc index) n i (omega arith) (omega arith)
    ∙ ap (λ k. some (share_at coefficients k)) place

get_elem?-map :
    {A B : Type 0} (f : A → B) (xs : List A) (j : ℕ) (x : A)
    → get_elem? xs j ≡ some x
    → get_elem? (map f xs) j ≡ some (f x)
get_elem?-map f [] j x h = absurd (cc (h))
get_elem?-map f (y ∷ xs) zero x h = cc (h)
get_elem?-map f (y ∷ xs) (suc j) x h = get_elem?-map f xs j x h

shares_from-length :
    (coefficients : List (List ℕ)) (index n : ℕ) → length (shares_from coefficients index n) ≡ n
unfolding shares_from
shares_from-length coefficients index zero = refl
shares_from-length coefficients index (suc n) =
    ap suc (shares_from-length coefficients (suc index) n)

then_ok : (check : Checked) (n : ℕ) → check ≡ ok tt → (check >> ok n) ≡ ok n
then_ok check n h = rw h refl

nonempty_shares :
    (coefficients : List (List ℕ)) (n : ℕ)
    → 1 ≤ n
    → check_raw_shares (shares_from coefficients 1 n) [] (length coefficients) ≡ ok tt
    → validate_raw_shares (shares_from coefficients 1 n) ≡ ok (length coefficients)
unfolding validate_raw_shares shares_from
nonempty_shares coefficients zero a h = absurd (omega arith)
nonempty_shares coefficients (suc n) a h =
    let size = length-map (λ c. evaluate_polynomial c 1) coefficients in
    then_ok
      (check_raw_shares (shares_from coefficients 1 (suc n)) []
        (length (map (λ c. evaluate_polynomial c 1) coefficients)))
      (length (map (λ c. evaluate_polynomial c 1) coefficients))
      (subst (λ k. check_raw_shares (shares_from coefficients 1 (suc n)) [] k ≡ ok tt) (sym size) h)
    ∙ ap ok size

-- The share at place `i` has the index `i + 1` and, at offset `j`, the value there of the polynomial
-- of the secret's byte and the random bytes.
pub record IsShare (rng : Rng) (threshold : ℕ) (shares : List RawShare) (i j byte : ℕ)
    : Type 0 where
  pub random : List ℕ
  pub share : RawShare
  pub requested : rng j (threshold - 1) ≡ ok random
  pub degree : length random + 1 ≡ threshold
  pub place : get_elem? shares i ≡ some share
  pub index : share.index ≡ i + 1
  pub value : get_elem? share.value j ≡ some (evaluate_polynomial (byte ∷ random) (i + 1))

shares_from-IsShare :
    (rng : Rng) (threshold n : ℕ) (secret : List ℕ) (coefficients : List (List ℕ)) (i j byte : ℕ)
    → coefficients_of rng threshold 0 secret ≡ ok coefficients
    → get_elem? secret j ≡ some byte
    → i < n
    → n ≤ 32
    → IsShare rng threshold (shares_from coefficients 1 n) i j byte
unfolding share_at
shares_from-IsShare rng threshold n secret coefficients i j byte e g a b =
    let place : 0 + j ≡ j = omega arith in
    let (random, requested, degree, polynomial) =
      subst (λ k. Polynomial rng threshold k byte (get_elem? coefficients j)) place
        (coefficients_of-Polynomial rng threshold 0 secret coefficients j byte e g) in
    record {
      random = random;
      share = share_at coefficients (1 + i);
      requested = requested;
      degree = degree;
      place = shares_from-share_at coefficients 1 n i a (omega arith);
      index = omega arith;
      value =
          let next : 1 + i ≡ i + 1 = omega arith in
          get_elem?-map (λ c. evaluate_polynomial c (1 + i)) coefficients j (byte ∷ random)
            polynomial
          ∙ ap (λ k. some (evaluate_polynomial (byte ∷ random) k)) next;
    }

-- Where the threshold and the number of shares are valid and `split` returns shares of a secret:
-- there are as many shares as configured, `validate_raw_shares` accepts them with the secret's
-- length, and with the generator that `new_rng` gave, the share at each place below that number has
-- as index the place plus 1 and holds, for each byte of the secret, the value at that index of the
-- polynomial whose constant is the byte and whose other coefficients, one fewer than the threshold,
-- are the random bytes that were requested at the byte's offset.
pub split_secret-IsShare :
    (profile : SharingProfile) (new_rng : Result DynError Rng) (secret : List ℕ)
    (shares : List RawShare) (i j byte : ℕ)
    → validate_threshold profile.threshold profile.shares ≡ ok tt
    → split_secret profile new_rng secret ≡ ok shares
    → i < profile.shares
    → get_elem? secret j ≡ some byte
    → (length shares ≡ profile.shares)
      × (validate_raw_shares shares ≡ ok (length secret))
      × (rng : Rng) × (new_rng ≡ ok rng)
      × IsShare rng profile.threshold shares i j byte
unfolding split_secret validate_threshold
split_secret-IsShare profile new_rng secret shares i j byte h s a g =
    let bounds : (2 ≤ profile.shares) × (profile.shares ≤ 32) = (ground arith, ground arith) in
    with_ok (validate_secret profile secret) _ s (λ _ _ s. with_ok new_rng _ s (λ rng r s.
      with_ok (coefficients_of rng profile.threshold 0 secret) _ s (λ coefficients e s.
        let same : shares_from coefficients 1 profile.shares ≡ shares = cc (s) in
        let size = coefficients_of-length rng profile.threshold 0 secret coefficients e in
        let checked =
          shares_from-checked coefficients 1 profile.shares [] (omega arith)
            (omega (arith, bounds.1)) refl in
        subst
          (λ z.
            (length z ≡ profile.shares)
            × (validate_raw_shares z ≡ ok (length secret))
            × (rng : Rng) × (new_rng ≡ ok rng)
            × IsShare rng profile.threshold z i j byte)
          same
          (
            shares_from-length coefficients 1 profile.shares,
            nonempty_shares coefficients profile.shares (omega (arith, bounds.0)) checked
                ∙ ap ok size,
            rng,
            r,
            shares_from-IsShare rng profile.threshold profile.shares secret coefficients i j byte e
                g a bounds.1,
          ))))
