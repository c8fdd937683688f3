-- ===== src/Fpe.antt =====
-- Format-preserving encryption (src/core/fpe.rs): the alphabet, the profile, and a value's way into
-- digits and back. The FF1 cipher is the profile's.
pub mod Transform
pub mod Alphabet
pub mod RoundTrip
pub mod Inverse
pub mod Domain
use vectis.Base.{
  ℕ, zero, suc, ◌+◌, ◌-◌, ◌*◌, ◌/◌, ◌%◌, ◌^◌, ◌≤◌, ◌<◌, ◌≡◌, ◌≢◌, ◌↔◌, ◌⊎◌, inl, inr, refl, sym, ap,
  ◌∙◌, Bool, true, false, not, ◌&&◌, ◌||◌, List, [], ◌∷◌, ◌++◌, map, append-nil, append_assoc,
  Option, some, none, arith, ltb, leb, ltb→lt, lt→ltb, leb→le, le→leb, ltb-false, le→ltb-false,
  tests, ◌==◌, ==_iff, if◌then◌else◌, Bool-cases, Option-cases, &&_true, String, Text, codes,
  text_eq, text_eq_iff, text_eq_refl, contains, contains_char, all, any, find, All, length,
  get_elem?, set, take, drop, replicate, length-append, length-take, length-drop, length-replicate,
  length-map, min, get_elem?-append_left, get_elem?-append_end, length-set, get_elem?-set_self,
}
use vectis.Error.{
  DynError, invalid_input, invalid_signature, not_found, conflict, forbidden, internal, overloaded,
  concat, with_prefix,
}
use vectis.Error.Result.{
  Result, ok, err, ◌>>=◌, ◌>>◌, reject, map_err, is_ok, >>=-eq-ok, Result-cases, reject-ok,
  >>-eq-ok, map_err-ok, reject-then, not-false, if-ok, ok-injective,
}
use vectis.Validation.Fields.{Checked, validate_text_field}
use vectis.Validation.Chars.{is_control}

-- FPE_VALUE_MIN_LEN, FPE_VALUE_MAX_LEN and FPE_PRESERVE_MAX_CHARS
abbrev pub value_min_len : ℕ
value_min_len = 6

abbrev pub value_max_len : ℕ
value_max_len = 1024

abbrev pub preserve_max_chars : ℕ
preserve_max_chars = 32

-- A cipher with its key and radix: `encrypt` and `decrypt` of a tweak and numerals.
pub record Cipher : Type 0 where
  pub encrypt : List ℕ → List ℕ → Result DynError (List ℕ)
  pub decrypt : List ℕ → List ℕ → Result DynError (List ℕ)

-- `HashMap<char, u16>`
abbrev pub CharIndex : Type 0
CharIndex = List (ℕ × ℕ)

unfoldable pub char_get : ℕ → CharIndex → Option ℕ
char_get item [] = none
char_get item ((c, i) ∷ m) = if c == item then some i else char_get item m

unfoldable pub char_insert : ℕ → ℕ → CharIndex → CharIndex
char_insert item i [] = (item, i) ∷ []
char_insert item i ((c, j) ∷ m) =
    let rest = char_insert item i m in if c == item then (c, i) ∷ m else (c, j) ∷ rest

pub record FpeProfile : Type 0 where
  pub name : Text
  pub fpe_version : Text
  pub alphabet : Text
  pub min_len : ℕ
  pub max_len : ℕ
  pub tweak_aad : Text
  pub kid : Text
  pub alphabet_chars : Text
  pub alphabet_index : CharIndex
  pub cipher : Option Cipher
  pub preserve_characters : Text
  pub preserved : Text

-- `alphabet_validation_error`
unfoldable pub alphabet_validation_error : String → Option Text → DynError
alphabet_validation_error message none = invalid_input message
alphabet_validation_error message (some alphabet) =
    if text_eq alphabet (codes "num")
    then invalid_input (
        concat message "; alphabet \"num\" is literal; for the preset use alphabet_preset: \"num\"")
    else if text_eq alphabet (codes "alpha")
    then invalid_input (
        concat message
          "; alphabet \"alpha\" is literal; for the preset use alphabet_preset: \"alpha\" with letter_case")
    else if text_eq alphabet (codes "alphanum")
    then invalid_input (
        concat message
          "; alphabet \"alphanum\" is literal; for the preset use alphabet_preset: \"alphanum\" with letter_case")
    else invalid_input message

-- The loop of `validate_fpe_alphabet` over the set of the characters seen.
unfoldable pub count_distinct : DynError → Text → Text → Result DynError ℕ
count_distinct e seen [] = ok (length seen)
count_distinct e seen (item ∷ items) =
    let rest = count_distinct e (item ∷ seen) items in
    if contains_char seen item then err e else rest

unfoldable pub validate_fpe_alphabet : Text → Result DynError ℕ
unfolding count_distinct alphabet_validation_error
validate_fpe_alphabet alphabet = do
  validate_text_field "fpe_profiles.alphabet" alphabet
  radix ←
      count_distinct
        (alphabet_validation_error "fpe_profiles.alphabet must not contain duplicate characters"
          (some alphabet))
        [] alphabet
  reject (not (leb 2 radix && leb radix (2 ^ 16)))
      (invalid_input "fpe_profiles.alphabet length must be between 2 and 65536")
  ok radix

-- `prepare_fpe_alphabet`: the loop over `enumerate`, with the conversion to `u16`.
unfoldable pub prepare_index : ℕ → Text → CharIndex → Result DynError CharIndex
unfolding char_insert
prepare_index index [] m = ok m
prepare_index index (item ∷ items) m =
    let rest = prepare_index (suc index) items (char_insert item index m) in
    reject (leb (2 ^ 16) index) (internal "fpe alphabet index is invalid") >> rest

unfoldable pub prepare_fpe_alphabet : Text → Result DynError (Text × CharIndex)
unfolding prepare_index
prepare_fpe_alphabet alphabet = do
  alphabet_index ← prepare_index 0 alphabet []
  ok (alphabet, alphabet_index)

-- The loop of `validate_preserve_characters`.
unfoldable pub check_preserved : Text → Text → Checked
check_preserved seen [] = ok tt
check_preserved seen (item ∷ items) =
    let rest = check_preserved (item ∷ seen) items in
    reject (is_control item || contains_char seen item) (
      invalid_input
        "fpe_profiles.preserve_characters must contain distinct characters without controls")
    >> (reject (ltb preserve_max_chars (length (item ∷ seen)))
          (invalid_input "fpe_profiles.preserve_characters exceeds maximum allowed length")
        >> rest)

unfoldable pub validate_preserve_characters : Text → Checked
unfolding check_preserved
validate_preserve_characters value = check_preserved [] value

unfoldable pub validate_preserved_characters : Text → Text → Result DynError Text
unfolding validate_preserve_characters
validate_preserved_characters alphabet value = do
  validate_preserve_characters value
  reject (any (contains_char value) alphabet)
      (invalid_input "fpe_profiles.preserve_characters overlaps the alphabet")
  ok value

-- `saturating_mul` on a `usize` of 64 bits, and the loop of `fpe_domain_is_large_enough`.
unfoldable pub saturating_mul : ℕ → ℕ → ℕ
saturating_mul a b = min (a * b) (2 ^ 64 - 1)

unfoldable pub domain_reaches : ℕ → ℕ → ℕ → Bool
unfolding saturating_mul
domain_reaches radix domain zero = false
domain_reaches radix domain (suc n) =
    let next = saturating_mul domain radix in
    let rest = domain_reaches radix next n in if leb 1000000 next then true else rest

unfoldable pub fpe_domain_is_large_enough : ℕ → ℕ → Bool
unfolding domain_reaches
fpe_domain_is_large_enough radix min_len = domain_reaches radix 1 min_len

unfoldable pub validate_fpe_min_len : ℕ → Checked
validate_fpe_min_len min_len =
    reject (ltb min_len value_min_len) (invalid_input "fpe_profiles.min_len must be at least 6")

unfoldable pub validate_fpe_max_len : ℕ → Checked
validate_fpe_max_len max_len =
    reject (ltb value_max_len max_len)
      (invalid_input "fpe_profiles.max_len exceeds maximum allowed value")

unfoldable pub validate_fpe_length_bounds : ℕ → ℕ → Checked
unfolding validate_fpe_min_len validate_fpe_max_len
validate_fpe_length_bounds min_len max_len = do
  validate_fpe_min_len min_len
  validate_fpe_max_len max_len
  reject (ltb max_len min_len)
      (invalid_input "fpe_profiles.max_len must be greater than or equal to min_len")

unfoldable pub validate_profile_lengths : ℕ → ℕ → ℕ → Option Text → Checked
unfolding validate_fpe_length_bounds fpe_domain_is_large_enough alphabet_validation_error
validate_profile_lengths min_len max_len radix alphabet = do
  validate_fpe_length_bounds min_len max_len
  reject (not (fpe_domain_is_large_enough radix min_len))
      (alphabet_validation_error "fpe profile domain is too small for FF1" alphabet)
