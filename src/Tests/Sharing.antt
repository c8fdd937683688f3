-- ===== src/Tests/Sharing.antt =====
-- Sharing (src/core/sharing.rs) at a concrete secret.
use vectis.Base.{
  ℕ, zero, suc, ◌+◌, ◌<◌, ◌≡◌, ◌≢◌, ◌⊎◌, refl, List, [], ◌∷◌, some, arith, codes, length, get_elem?,
  replicate,
}
use vectis.Error.{DynError, invalid_input, internal}
use vectis.Error.Result.{Result, ok, err}
use vectis.Sharing.Field.{gf_mul, gf_inverse, evaluate_polynomial}
use vectis.Sharing.Inverse.{gf_mul-gf_inverse}
use vectis.Sharing.Shares.{
  SharingProfile, RawShare, validate_threshold, validate_raw_shares, split_secret, combine, Rng,
}
use vectis.Sharing.Combine.{combine-total}
use vectis.Sharing.Split.{split_secret-IsShare, IsShare}

abbrev pub profile : SharingProfile
profile = record {
  name = codes "recovery";
  kid = codes "a";
  threshold = 2;
  shares = 3;
  max_secret_len = 16;
}

-- As many bytes as are requested.
abbrev rng : Rng
rng offset size = ok (replicate size (7 + offset))

abbrev new_rng : Result DynError Rng
new_rng = ok rng

abbrev secret : List ℕ
secret = 42 ∷ 200 ∷ []

abbrev shares : List RawShare
shares =
    record { index = 1; value = 45 ∷ 192 ∷ [] }
    ∷ record { index = 2; value = 36 ∷ 216 ∷ [] }
    ∷ record { index = 3; value = 35 ∷ 208 ∷ [] }
    ∷ []

threshold_valid : validate_threshold 2 3 ≡ ok tt
unfolding validate_threshold
threshold_valid = refl

split_run : split_secret profile new_rng secret ≡ ok shares
unfolding split_secret
split_run = refl

combine_run : combine shares 2 ≡ ok secret
unfolding combine vectis.Sharing.Field.gf_div
combine_run = refl

not_zero : (n : ℕ) → n ≡ 83 → n ≢ 0
not_zero n h e = absurd (omega (arith, e, h))

gf_mul-gf_inverse_example : gf_mul 83 (gf_inverse 83) ≡ 1
gf_mul-gf_inverse_example = gf_mul-gf_inverse 83 (not_zero 83 refl) (omega arith)

validated : validate_raw_shares shares ≡ ok 2
unfolding validate_raw_shares
validated = refl

-- A generator that returns one byte too many.
long_run :
    split_secret profile (ok (λ offset size. ok (replicate (suc size) 7))) secret
    ≡ err (internal "panic: slice lengths differ")
unfolding split_secret
long_run = refl

split_secret-IsShare_example :
    (length shares ≡ 3)
    × (validate_raw_shares shares ≡ ok 2)
    × (generator : Rng) × (new_rng ≡ ok generator)
    × IsShare generator 2 shares 2 1 200
split_secret-IsShare_example =
    split_secret-IsShare profile new_rng secret shares 2 1 200 threshold_valid split_run
      (omega arith) refl

index_bytes : (i : ℕ) (s : RawShare) → get_elem? shares i ≡ some s → s.index < 256
index_bytes zero s h = ground (arith, h)
index_bytes (suc zero) s h = ground (arith, h)
index_bytes (suc (suc zero)) s h = ground (arith, h)
index_bytes (suc (suc (suc i))) s h = absurd (cc (h))

combine-total_example :
    ((result : List ℕ) × (combine shares 2 ≡ ok result) × (length result ≡ 2))
    ⊎ (combine shares 2 ≡ err (invalid_input "shares are inconsistent with the sharing set"))
combine-total_example = combine-total shares 2 2 (omega arith) index_bytes validated
