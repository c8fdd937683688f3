-- ===== src/Masking/Lengths.antt =====
-- src/core/masking.rs: proofs about `mask`.
use vectis.Base.{
  ℕ, zero, suc, ◌+◌, ◌-◌, ◌≤◌, ◌<◌, ◌≡◌, refl, ◌++◌, some, arith, Text, length, take, drop,
  length-append, length-take, length-drop,
}
use vectis.Error.Result.{ok, map_err, >>=-eq-ok, >>-eq-ok}
use vectis.Validation.Fields.{validate_text_field, validate_aad_config_name}
use vectis.Keys.Id.{validate_key_id}
use vectis.Masking.{
  MaskingProfile, validate_masking_lengths, validate_masking_profile_fields, validate_mask_char,
  validate_plaintext_for_profile, repeat, mask_chars, mask, plaintext_max_len,
}

-- What `validate_masking_lengths` and `validate_mask_char` establish of a profile.
pub record IsValidProfile (p : MaskingProfile) : Type 0 where
  pub min_positive : 1 ≤ p.min_len
  pub ordered : p.min_len ≤ p.max_len
  pub max_bounded : p.max_len ≤ plaintext_max_len
  pub hides : p.visible_first + p.visible_last < p.min_len
  pub one_char : length p.mask_char ≡ 1

pub validate_masking_lengths-bounds :
    (first last lo hi : ℕ)
    → validate_masking_lengths first last lo hi ≡ ok tt
    → (1 ≤ lo) × (lo ≤ hi) × (hi ≤ plaintext_max_len) × (first + last < lo)
unfolding validate_masking_lengths
validate_masking_lengths-bounds first last lo hi h = ground arith

validate_mask_char-length : (s : Text) → validate_mask_char s ≡ ok tt → length s ≡ 1
unfolding validate_mask_char
validate_mask_char-length s h =
    let (_, _, k) = >>=-eq-ok (validate_text_field _ s) _ h in ground arith

pub validate_masking_profile_fields-IsValidProfile :
    (p : MaskingProfile) → validate_masking_profile_fields p ≡ ok tt → IsValidProfile p
unfolding validate_masking_profile_fields
validate_masking_profile_fields-IsValidProfile p h =
    let (_, h₁) = >>-eq-ok (validate_aad_config_name _ p.name) _ h in
    let (_, h₂) = >>-eq-ok (map_err _ (validate_key_id p.kid)) _ h₁ in
    let (c, l) = >>-eq-ok (validate_mask_char p.mask_char) _ h₂ in
    let (a, b, m, v) = validate_masking_lengths-bounds _ _ _ _ l in
    record {
      min_positive = a;
      ordered = b;
      max_bounded = m;
      hides = v;
      one_char = validate_mask_char-length p.mask_char c;
    }

length-repeat : (s : Text) (n : ℕ) → length s ≡ 1 → length (repeat s n) ≡ n
unfolding repeat
length-repeat s zero h = refl
length-repeat s (suc n) h = omega (arith, length-append s (repeat s n), length-repeat s n h)

-- The result has the plaintext's length, shows its first and last characters, and between them
-- holds only the mask.
pub record IsMasked (p : MaskingProfile) (plaintext masked : Text) : Type 0 where
  pub same_length : length masked ≡ length plaintext
  pub hidden : ℕ
  pub hides_some : 1 ≤ hidden
  pub counted : p.visible_first + hidden + p.visible_last ≡ length plaintext
  pub shape :
      masked
      ≡ take p.visible_first plaintext
        ++ (repeat p.mask_char hidden ++ drop (length plaintext - p.visible_last) plaintext)

mask_chars-IsMasked :
    (p : MaskingProfile) (s : Text)
    → IsValidProfile p
    → p.min_len ≤ length s
    → (masked : Text) × (mask_chars p s ≡ some masked) × IsMasked p s masked
unfolding mask_chars
mask_chars-IsMasked p s v h =
    let hidden : ℕ = length s - p.visible_first - p.visible_last in
    let front = take p.visible_first s in
    let back = drop (length s - p.visible_last) s in
    let middle = repeat p.mask_char hidden in
    let total : length (front ++ (middle ++ back)) ≡ length s = omega (
      arith,
      v.hides,
      length-append front (middle ++ back),
      length-append middle back,
      length-take p.visible_first s,
      length-drop (length s - p.visible_last) s,
      length-repeat p.mask_char hidden v.one_char,
    ) in
    (
      front ++ (middle ++ back),
      ground arith,
      record {
        same_length = total;
        hidden = hidden;
        hides_some = omega arith;
        counted = omega arith;
        shape = refl;
      },
    )

plain_length :
    (p : MaskingProfile) (s : Text)
    → validate_plaintext_for_profile p s ≡ ok tt
    → p.min_len ≤ length s
unfolding validate_plaintext_for_profile
plain_length p s h = let (_, k) = >>-eq-ok (validate_text_field "plaintext" s) _ h in ground arith

-- For a profile that the validation accepts and a plaintext that `validate_plaintext_for_profile`
-- accepts, `mask` never subtracts below zero and returns a text of the plaintext's length that
-- shows its first `visible_first` and last `visible_last` characters and hides at least one
-- character, every hidden one replaced by the mask character.
pub mask-IsMasked :
    (p : MaskingProfile) (plaintext : Text)
    → validate_masking_profile_fields p ≡ ok tt
    → validate_plaintext_for_profile p plaintext ≡ ok tt
    → (masked : Text) × (mask p plaintext ≡ some (ok masked)) × IsMasked p plaintext masked
unfolding mask
mask-IsMasked p s fields plain =
    let v = validate_masking_profile_fields-IsValidProfile p fields in
    let (masked, e, m) = mask_chars-IsMasked p s v (plain_length p s plain) in
    (masked, rw (plain, mask) (rw e), m)
