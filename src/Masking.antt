-- ===== src/Masking.antt =====
-- src/core/masking.rs: masking profiles and the masking of one value.
pub mod Lengths
pub mod Validate
use vectis.Base.{
  ℕ, zero, suc, ◌+◌, ◌-◌, ◌*◌, ◌/◌, ◌%◌, ◌^◌, ◌≤◌, ◌<◌, ◌≡◌, ◌≢◌, ◌↔◌, ◌⊎◌, inl, inr, refl, sym, ap,
  ◌∙◌, Bool, true, false, not, ◌&&◌, ◌||◌, List, [], ◌∷◌, ◌++◌, map, append-nil, append_assoc,
  Option, some, none, arith, ltb, leb, ltb→lt, lt→ltb, leb→le, le→leb, ltb-false, le→ltb-false,
  tests, ◌==◌, ==_iff, if◌then◌else◌, Bool-cases, Option-cases, &&_true, String, Text, codes,
  text_eq, text_eq_iff, text_eq_refl, contains, contains_char, all, any, find, All, length,
  get_elem?, set, take, drop, replicate, length-append, length-take, length-drop, length-replicate,
  length-map, min, get_elem?-append_left, get_elem?-append_end, length-set, get_elem?-set_self,
}
use vectis.Error.{
  DynError, invalid_input, not_found, conflict, forbidden, internal, overloaded, concat,
  with_prefix,
}
use vectis.Error.Result.{
  Result, ok, err, ◌>>=◌, ◌>>◌, reject, map_err, is_ok, >>=-eq-ok, Result-cases, reject-ok,
}
use vectis.Validation.Fields.{Checked, validate_text_field, validate_aad_config_name}
use vectis.Keys.Id.{validate_key_id}
use vectis.Profiles.{Table, from_items, table_get}

-- MASKING_PLAINTEXT_MAX_LEN
abbrev pub plaintext_max_len : ℕ
plaintext_max_len = 1024

-- `MaskingProfileInput` and `MaskingProfile`, which have the same fields.
pub record MaskingProfile : Type 0 where
  pub name : Text
  pub kid : Text
  pub visible_first : ℕ
  pub visible_last : ℕ
  pub mask_char : Text
  pub min_len : ℕ
  pub max_len : ℕ

unfoldable pub validate_mask_char : Text → Checked
validate_mask_char value = do
  validate_text_field "masking_profiles.mask_char" value
  reject (not (length value == 1))
      (invalid_input "masking_profiles.mask_char must be exactly one character")

-- The sum of the two visible lengths cannot overflow: each is at most `max_len` by then.
unfoldable pub validate_masking_lengths : ℕ → ℕ → ℕ → ℕ → Checked
validate_masking_lengths visible_first visible_last min_len max_len = do
  reject (ltb min_len 1) (invalid_input "masking_profiles.min_len must be at least 1")
  reject (ltb plaintext_max_len max_len)
      (invalid_input "masking_profiles.max_len exceeds maximum allowed value")
  reject (ltb max_len min_len)
      (invalid_input "masking_profiles.max_len must be greater than or equal to min_len")
  reject (ltb max_len visible_first || ltb max_len visible_last)
      (invalid_input "masking_profiles.visible_first and visible_last must not exceed max_len")
  reject (leb min_len (visible_first + visible_last))
      (invalid_input "masking_profiles.visible_first plus visible_last must be less than min_len")

unfoldable pub validate_masking_profile_fields : MaskingProfile → Checked
validate_masking_profile_fields p = do
  validate_aad_config_name "masking_profiles.name" p.name
  map_err (λ e. invalid_input "masking_profiles.kid is invalid") (validate_key_id p.kid)
  validate_mask_char p.mask_char
  validate_masking_lengths p.visible_first p.visible_last p.min_len p.max_len

-- The loop of `validate_masking_profiles`, with the names seen so far.
unfoldable pub validate_profiles_from :
    (Text → Bool) → List Text → List MaskingProfile → Result DynError (List MaskingProfile)
validate_profiles_from is_loaded_kid seen_names [] = ok []
validate_profiles_from is_loaded_kid seen_names (p ∷ ps) = do
  validate_masking_profile_fields p
  reject (not (is_loaded_kid p.kid))
      (invalid_input "masking profile references kid not loaded in memory")
  reject (contains seen_names p.name) (invalid_input "masking profile has duplicated name")
  profiles ← validate_profiles_from is_loaded_kid (p.name ∷ seen_names) ps
  ok (p ∷ profiles)

unfoldable pub validate_masking_profiles :
    List MaskingProfile → (Text → Bool) → Result DynError (Table MaskingProfile)
unfolding validate_profiles_from
validate_masking_profiles inputs is_loaded_kid = do
  profiles ← validate_profiles_from is_loaded_kid [] inputs
  ok (from_items (λ p. p.name) profiles)

unfoldable pub validate_plaintext_for_profile : MaskingProfile → Text → Checked
validate_plaintext_for_profile p plaintext = do
  validate_text_field "plaintext" plaintext
  reject (ltb (length plaintext) p.min_len || ltb p.max_len (length plaintext))
      (invalid_input "plaintext length is outside masking profile bounds")

-- `usize` subtraction, which panics below zero where overflow checks are on.
abbrev pub sub_usize : ℕ → ℕ → Option ℕ
sub_usize a b = if leb b a then some (a - b) else none

-- `str::repeat`
unfoldable pub repeat : Text → ℕ → Text
repeat s zero = []
repeat s (suc n) = s ++ repeat s n

-- `none` is a subtraction below zero.
unfoldable pub mask_chars : MaskingProfile → Text → Option Text
unfolding repeat
mask_chars p chars = elim (sub_usize (length chars) p.visible_last) [
  | none ↦ none
  | some skipped ↦ elim (sub_usize (length chars) p.visible_first) [
    | none ↦ none
    | some rest ↦ elim (sub_usize rest p.visible_last) [
      | none ↦ none
      | some hidden_len ↦
          some (take p.visible_first chars ++ (repeat p.mask_char hidden_len ++ drop skipped chars))
    ]
  ]
]

unfoldable pub mask : MaskingProfile → Text → Option (Result DynError Text)
mask p plaintext = elim (validate_plaintext_for_profile p plaintext) [
  | err e ↦ some (err e)
  | ok _ ↦ elim (mask_chars p plaintext) [ none ↦ none | some masked ↦ some (ok masked) ]
]
