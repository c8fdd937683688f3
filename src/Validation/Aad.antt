-- ===== src/Validation/Aad.antt =====
-- src/core/validation.rs: the `key=value;key=value` text that authenticated encryption and key
-- derivation bind, built from fields and parsed back.
pub mod Parts
pub mod RoundTrip
use vectis.Base.{ℕ, ◌≡◌, Bool, List, [], ◌∷◌, ◌++◌, map, Option, some, none, Text, text_eq, find}
use vectis.Error.{DynError, invalid_input}
use vectis.Error.Result.{Result, ok, err, ◌>>=◌, ◌>>◌}
use vectis.Validation.Fields.{Checked, validate_aad_key, validate_aad_value, validate_text_field}
use vectis.Validation.Split.{split, join}

abbrev pub Field : Type 0
Field = Text × Text

-- `format!("{key}={value}")`
abbrev pub assignment : Field → Text
assignment (key, value) = key ++ (b'=' ∷ value)

unfoldable pub build_aad : List Field → Text
build_aad fields = join b';' (map assignment fields)

-- The loop of `build_validated_aad`.
unfoldable pub validate_fields : List Field → Checked
validate_fields [] = ok tt
validate_fields ((key, value) ∷ fields) = do
  validate_aad_key "aad key" key
  validate_aad_value "aad." value
  validate_fields fields

unfoldable pub build_validated_aad : List Field → Result DynError Text
build_validated_aad fields = do validate_fields fields; ok (build_aad fields)

-- One part of the loop of `parse_aad_fields`: exactly two pieces.
unfoldable pub parse_pieces : List Text → Result DynError Field
parse_pieces (key ∷ value ∷ []) = do
  validate_aad_key "aad key" key
  validate_aad_value "aad value" value
  ok (key, value)
parse_pieces _ = err (invalid_input "aad must contain key=value fields")

unfoldable pub parse_parts : List Text → Result DynError (List Field)
parse_parts [] = ok []
parse_parts (part ∷ parts) = do
  field ← parse_pieces (split b'=' part)
  fields ← parse_parts parts
  ok (field ∷ fields)

unfoldable pub parse_aad_fields : Text → Result DynError (List Field)
parse_aad_fields aad = do validate_text_field "aad" aad; parse_parts (split b';' aad)

-- The value of the first field with this key.
unfoldable pub aad_field : List Field → Text → Result DynError Text
aad_field fields key = elim (find (λ (f : Field). text_eq f.0 key) fields) [
  | some f ↦ ok f.1
  | none ↦ err (invalid_input "aad missing field")
]
