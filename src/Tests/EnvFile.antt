-- ===== src/Tests/EnvFile.antt =====
-- Environment files (src/core/config_loader/env_file.rs) at concrete files.
use vectis.Base.{◌≤◌, ◌≡◌, refl, [], ◌∷◌, arith, codes, text_eq}
use vectis.Error.Result.{ok}
use vectis.Validation.Chars.{byte_len}
use vectis.Validation.Aad.{Field}
use vectis.EnvFile.{is_valid_name, file_max_size_bytes, parse_protected_env_content}
use vectis.EnvFile.Written.{render, numbered, IsAssignment, AreFresh}
use vectis.EnvFile.RoundTrip.{parse-render}

abbrev mode : Field
mode = (codes "VECTIS_MODE", codes "dev")

abbrev label : Field
label = (codes "VECTIS_LABEL", codes " # a \" b")

mode-IsAssignment : IsAssignment mode
unfolding is_valid_name byte_len codes vectis.Validation.Chars.is_ascii_uppercase
mode-IsAssignment = record {
  name_ok = refl;
  name_size = omega arith;
  value_size = omega arith;
  no_quote = refl;
  no_line_feed = refl;
  no_return = refl;
  no_nul = refl;
}

label-IsAssignment : IsAssignment label
unfolding is_valid_name byte_len codes vectis.Validation.Chars.is_ascii_uppercase
label-IsAssignment = record {
  name_ok = refl;
  name_size = omega arith;
  value_size = omega arith;
  no_quote = refl;
  no_line_feed = refl;
  no_return = refl;
  no_nul = refl;
}

fresh : AreFresh [] (mode ∷ label ∷ [])
unfolding codes text_eq
fresh = (refl, (refl, tt))

file_size : byte_len (render (mode ∷ label ∷ [])) ≤ file_max_size_bytes
unfolding byte_len codes
file_size = omega arith

comment_and_value :
    parse_protected_env_content (codes "# comment\n\nVECTIS_UNKNOWN_123_=value")
    ≡ ok (record { key = codes "VECTIS_UNKNOWN_123_"; value = codes "value"; line = 3 } ∷ [])
unfolding parse_protected_env_content byte_len codes vectis.Validation.Chars.is_ascii_uppercase
    vectis.Validation.Chars.is_ascii_digit
comment_and_value = refl

parse-render_example :
    parse_protected_env_content (render (mode ∷ label ∷ [])) ≡ ok (numbered 1 (mode ∷ label ∷ []))
parse-render_example =
    parse-render (mode ∷ label ∷ []) (mode-IsAssignment, (label-IsAssignment, tt)) fresh file_size
