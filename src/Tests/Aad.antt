-- ===== src/Tests/Aad.antt =====
-- AAD texts (src/core/validation.rs) at concrete fields.
use vectis.Base.{◌≡◌, refl, [], ◌∷◌, codes}
use vectis.Error.{invalid_input}
use vectis.Error.Result.{ok, err}
use vectis.Validation.Fields.{
  validate_aad_key, validate_aad_value, validate_text_field, reject_aad_delimiters, is_key_char,
}
use vectis.Validation.Chars.{is_blank, is_control}
use vectis.Validation.Split.{split, join}
use vectis.Validation.Aad.{
  Field, build_aad, validate_fields, build_validated_aad, parse_pieces, parse_parts,
  parse_aad_fields,
}
use vectis.Validation.Aad.RoundTrip.{parse-build, build-injective}

abbrev kind : Field
kind = (codes "type", codes "ops-keys")

abbrev tag : Field
tag = (codes "tag", codes "a b")

aad_text : build_validated_aad (kind ∷ tag ∷ []) ≡ ok (codes "type=ops-keys;tag=a b")
unfolding build_validated_aad validate_fields validate_aad_key validate_aad_value
    validate_text_field reject_aad_delimiters is_key_char is_blank is_control build_aad join codes
aad_text = refl

bad_key :
    parse_aad_fields (codes "type=a;b c=d")
    ≡ err (invalid_input "aad key contains invalid characters")
unfolding parse_aad_fields parse_parts parse_pieces split validate_aad_key validate_aad_value
    validate_text_field reject_aad_delimiters is_key_char is_blank is_control codes
bad_key = refl

parse-build_example : parse_aad_fields (codes "type=ops-keys;tag=a b") ≡ ok (kind ∷ tag ∷ [])
parse-build_example = parse-build kind (tag ∷ []) (codes "type=ops-keys;tag=a b") aad_text

build-injective_example : kind ∷ tag ∷ [] ≡ kind ∷ tag ∷ []
build-injective_example =
    build-injective kind kind (tag ∷ []) (tag ∷ []) (codes "type=ops-keys;tag=a b") aad_text
      aad_text
