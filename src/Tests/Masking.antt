-- ===== src/Tests/Masking.antt =====
-- Masking (src/core/masking.rs) at a concrete profile.
use vectis.Base.{◌≡◌, refl, Bool, true, [], ◌∷◌, some, Text, codes, text_eq, find, All}
use vectis.Error.Result.{ok}
use vectis.Keys.Id.{validate_key_id, validate_hash_hex_field}
use vectis.Validation.Chars.{is_blank, is_control, is_ascii_hexdigit, byte_len}
use vectis.Validation.Fields.{
  validate_text_field, validate_aad_config_name, validate_config_name, reject_aad_delimiters,
  validate_hex_field, validate_allowed_value,
}
use vectis.Profiles.{from_items, table_get}
use vectis.Profiles.Lookup.{IsDistinct}
use vectis.Masking.{
  MaskingProfile, validate_masking_profile_fields, validate_plaintext_for_profile,
  validate_mask_char, validate_masking_lengths, validate_masking_profiles, mask, mask_chars,
  validate_profiles_from,
}
use vectis.Masking.Lengths.{IsMasked, mask-IsMasked}
use vectis.Masking.Validate.{IsAccepted, validate_masking_profiles-lookup}

abbrev card : MaskingProfile
card = record {
  name = codes "card";
  kid = codes "0123456789abcdef0123456789abcdef0123456789abcdef0123456789abcdef";
  visible_first = 2;
  visible_last = 4;
  mask_char = codes "*";
  min_len = 8;
  max_len = 19;
}

card_fields : validate_masking_profile_fields card ≡ ok tt
unfolding validate_masking_profile_fields validate_aad_config_name validate_config_name
    validate_text_field reject_aad_delimiters validate_mask_char validate_masking_lengths
    validate_key_id validate_hash_hex_field validate_allowed_value validate_hex_field is_blank
    is_control is_ascii_hexdigit byte_len codes text_eq
card_fields = refl

plain_fits : validate_plaintext_for_profile card (codes "4111222233334444") ≡ ok tt
unfolding validate_plaintext_for_profile validate_text_field is_blank is_control codes
plain_fits = refl

masked_card : mask card (codes "4111222233334444") ≡ some (ok (codes "41**********4444"))
unfolding mask mask_chars validate_plaintext_for_profile validate_text_field is_blank is_control
    codes
masked_card = refl

mask-IsMasked_example :
    (masked : Text) × (mask card (codes "4111222233334444") ≡ some (ok masked))
    × IsMasked card (codes "4111222233334444") masked
mask-IsMasked_example = mask-IsMasked card (codes "4111222233334444") card_fields plain_fits

abbrev any_kid : Text → Bool
any_kid kid = true

abbrev by_name : MaskingProfile → Text
by_name p = p.name

one_profile : validate_masking_profiles (card ∷ []) any_kid ≡ ok (from_items by_name (card ∷ []))
unfolding validate_masking_profiles
one_profile = rw (card_fields, validate_profiles_from) refl

validate_masking_profiles-lookup_example :
    All (IsAccepted any_kid) (card ∷ [])
    × IsDistinct by_name (card ∷ [])
    × ((key : Text)
        → table_get (from_items by_name (card ∷ [])) key
          ≡ find (λ p. text_eq p.name key) (card ∷ []))
validate_masking_profiles-lookup_example =
    validate_masking_profiles-lookup any_kid (card ∷ []) (from_items by_name (card ∷ []))
      one_profile
