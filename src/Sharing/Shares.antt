-- ===== src/Sharing/Shares.antt =====
-- Splitting and combining (src/core/sharing.rs).
use vectis.Base.{
  ℕ, zero, suc, ◌-◌, ◌%◌, not, ◌||◌, List, [], ◌∷◌, map, some, none, ltb, ◌==◌, if◌then◌else◌, Text,
  any, length, get_elem?, take, drop,
}
use vectis.Error.{DynError, invalid_input, internal}
use vectis.Error.Result.{Result, ok, err, ◌>>=◌, ◌>>◌, reject}
use Prim.Native.Nat.{bit_xor}
use vectis.Validation.Fields.{Checked}
use vectis.Sharing.Field.{gf_mul, gf_div, evaluate_polynomial}

pub record SharingProfile : Type 0 where
  pub name : Text
  pub kid : Text
  pub threshold : ℕ
  pub shares : ℕ
  pub max_secret_len : ℕ

pub record RawShare : Type 0 where
  pub index : ℕ
  pub value : List ℕ

abbrev pub secret_max_bytes : ℕ
secret_max_bytes = 4096

abbrev pub share_max : ℕ
share_max = 32

unfoldable pub validate_threshold : ℕ → ℕ → Checked
validate_threshold threshold shares = do
  reject (ltb threshold 2) (invalid_input "sharing_profiles.threshold must be at least 2")
  reject (ltb share_max shares)
      (invalid_input "sharing_profiles.shares exceeds maximum allowed value")
  reject (ltb shares threshold)
      (invalid_input "sharing_profiles.threshold must be less than or equal to shares")

unfoldable pub validate_max_secret_len : ℕ → Checked
validate_max_secret_len max_secret_len = do
  reject (max_secret_len == 0) (invalid_input "sharing_profiles.max_secret_len must be at least 1")
  reject (ltb secret_max_bytes max_secret_len)
      (invalid_input "sharing_profiles.max_secret_len exceeds maximum allowed value")

unfoldable pub validate_secret : SharingProfile → List ℕ → Checked
validate_secret profile secret = do
  reject (length secret == 0) (invalid_input "plaintext must not be empty")
  reject (ltb profile.max_secret_len (length secret))
      (invalid_input "plaintext exceeds sharing profile maximum length")

unfoldable pub validate_raw_share : SharingProfile → RawShare → Checked
validate_raw_share profile raw_share = do
  reject (raw_share.index == 0 || ltb profile.shares raw_share.index)
      (invalid_input "share index is outside sharing profile range")
  reject (length raw_share.value == 0 || ltb profile.max_secret_len (length raw_share.value))
      (invalid_input "share payload length does not match sharing profile")

-- The loop of `validate_raw_shares`, with the indexes that it has seen.
unfoldable pub check_raw_shares : List RawShare → List ℕ → ℕ → Checked
check_raw_shares [] indexes length_of_first = ok tt
check_raw_shares (share ∷ shares) indexes length_of_first = do
  reject (share.index == 0 || any (λ i. i == share.index) indexes)
      (invalid_input "share indexes must be unique")
  reject (not (length share.value == length_of_first))
      (invalid_input "share payload lengths must match")
  check_raw_shares shares (share.index ∷ indexes) length_of_first

unfoldable pub validate_raw_shares : List RawShare → Result DynError ℕ
unfolding check_raw_shares
validate_raw_shares [] = err (invalid_input "shares must not be empty")
validate_raw_shares (first ∷ shares) = do
  check_raw_shares (first ∷ shares) [] (length first.value)
  ok (length first.value)

-- `value[offset]`; an offset out of range panics.
unfoldable pub byte_at : List ℕ → ℕ → Result DynError ℕ
byte_at bytes offset = elim (get_elem? bytes offset) [
  | some byte ↦ ok byte
  | none ↦ err (internal "panic: index out of bounds")
]

-- The inner loop of `interpolate_at` over the other shares.
unfoldable pub coefficient_from : RawShare → ℕ → ℕ → ℕ → List RawShare → ℕ → Result DynError ℕ
coefficient_from share x index other_index [] coefficient = ok coefficient
coefficient_from share x index other_index (other ∷ others) coefficient = do
  next ←
      (if index == other_index then ok coefficient else do
        quotient ← gf_div (bit_xor x other.index) (bit_xor share.index other.index)
        ok (gf_mul coefficient quotient))
  coefficient_from share x index (suc other_index) others next

-- The outer loop, over the shares from a place on.
unfoldable pub interpolate_from : List RawShare → ℕ → ℕ → ℕ → List RawShare → ℕ → Result DynError ℕ
unfolding coefficient_from byte_at
interpolate_from all_shares offset x index [] value = ok value
interpolate_from all_shares offset x index (share ∷ shares) value = do
  coefficient ← coefficient_from share x index 0 all_shares 1
  byte ← byte_at share.value offset
  interpolate_from all_shares offset x (suc index) shares (bit_xor value (gf_mul byte coefficient))

unfoldable pub interpolate_at : List RawShare → ℕ → ℕ → Result DynError ℕ
unfolding interpolate_from
interpolate_at shares offset x = interpolate_from shares offset x 0 shares 0

-- The bytes of the secret from an offset on.
unfoldable pub interpolate_all : List RawShare → ℕ → ℕ → Result DynError (List ℕ)
unfolding interpolate_at
interpolate_all basis offset zero = ok []
interpolate_all basis offset (suc n) = do
  byte ← interpolate_at basis offset 0
  bytes ← interpolate_all basis (suc offset) n
  ok (byte ∷ bytes)

-- The loops over the shares after the threshold.
unfoldable pub check_share : List RawShare → RawShare → ℕ → ℕ → Checked
unfolding interpolate_at byte_at
check_share basis share offset zero = ok tt
check_share basis share offset (suc n) = do
  expected ← interpolate_at basis offset share.index
  actual ← byte_at share.value offset
  reject (not (expected == actual)) (invalid_input "shares are inconsistent with the sharing set")
  check_share basis share (suc offset) n

unfoldable pub check_shares : List RawShare → ℕ → List RawShare → Checked
unfolding check_share
check_shares basis n [] = ok tt
check_shares basis n (share ∷ shares) = do check_share basis share 0 n; check_shares basis n shares

unfoldable pub combine : List RawShare → ℕ → Result DynError (List ℕ)
unfolding validate_raw_shares interpolate_all check_shares
combine shares threshold = do
  reject (ltb (length shares) threshold)
      (invalid_input "not enough shares to meet sharing profile threshold")
  n ← validate_raw_shares shares
  secret ← interpolate_all (take threshold shares) 0 n
  check_shares (take threshold shares) n (drop threshold shares)
  ok secret

-- What `random_bytes_with_rng` returns at each offset of the secret for a number of bytes.
abbrev pub Rng : Type 0
Rng = ℕ → ℕ → Result DynError (List ℕ)

-- The coefficients of each byte's polynomial: a buffer of `threshold` bytes whose first is the
-- secret's and whose others are copied from the random bytes. An empty buffer has no first byte,
-- and `copy_from_slice` panics where the lengths differ.
unfoldable pub coefficients_of : Rng → ℕ → ℕ → List ℕ → Result DynError (List (List ℕ))
coefficients_of rng threshold offset [] = ok []
coefficients_of rng threshold offset (secret_byte ∷ secret) = do
  reject (threshold == 0) (internal "panic: index out of bounds")
  random ← rng offset (threshold - 1)
  reject (not (length random == threshold - 1)) (internal "panic: slice lengths differ")
  rest ← coefficients_of rng threshold (suc offset) secret
  ok ((secret_byte ∷ random) ∷ rest)

unfoldable pub shares_from : List (List ℕ) → ℕ → ℕ → List RawShare
unfolding evaluate_polynomial
shares_from coefficients index zero = []
shares_from coefficients index (suc n) =
    record {
      index = index % 256;
      value = map (λ c. evaluate_polynomial c (index % 256)) coefficients;
    }
    ∷ shares_from coefficients (suc index) n

unfoldable pub split_secret :
    SharingProfile → Result DynError Rng → List ℕ → Result DynError (List RawShare)
unfolding validate_secret coefficients_of shares_from
split_secret profile new_rng secret = do
  validate_secret profile secret
  rng ← new_rng
  coefficients ← coefficients_of rng profile.threshold 0 secret
  ok (shares_from coefficients 1 profile.shares)
