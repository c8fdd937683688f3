-- ===== src/Validation/Aad/RoundTrip.antt =====
-- src/core/validation.rs: proofs about `build_validated_aad` and `parse_aad_fields`.
use vectis.Base.{
  ℕ, ◌≡◌, ◌≢◌, refl, Bool, false, List, [], ◌∷◌, ◌++◌, map, arith, String, Text, any, All,
}
use vectis.Error.Result.{ok, >>=-eq-ok}
use vectis.Validation.Chars.{is_control, is_whitespace, is_blank, is_blank-append}
use vectis.Validation.Fields.{
  validate_aad_key, validate_aad_value, validate_text_field, reject_aad_delimiters,
}
use vectis.Validation.Split.{Lacks, split, join, split-join}
use vectis.Validation.Aad.{
  Field, assignment, build_aad, validate_fields, build_validated_aad, parse_pieces, parse_parts,
  parse_aad_fields,
}
use vectis.Validation.Aad.Parts.{
  IsClean, validate_aad_key-IsClean, validate_aad_value-IsClean, any-append,
}

-- What the validation of one field gives.
record IsField (f : Field) : Type 0 where
  key_ok : validate_aad_key "aad key" f.0 ≡ ok tt
  value_ok : validate_aad_value "aad value" f.1 ≡ ok tt
  key_clean : IsClean f.0
  value_clean : IsClean f.1

-- The field's name shows only in the message of an error.
validate_aad_value-any_field :
    (field field' : String) (s : Text)
    → validate_aad_value field s ≡ ok tt
    → validate_aad_value field' s ≡ ok tt
unfolding validate_aad_value validate_text_field reject_aad_delimiters
validate_aad_value-any_field field field' s h = ground arith

validate_fields-IsField : (fs : List Field) → validate_fields fs ≡ ok tt → All IsField fs
unfolding validate_fields
validate_fields-IsField [] h = tt
validate_fields-IsField ((k, v) ∷ fs) h =
    let (_, hk, h') = >>=-eq-ok (validate_aad_key "aad key" k) _ h in
    let (_, hv, h'') = >>=-eq-ok (validate_aad_value "aad." v) _ h' in
    let key : validate_aad_key "aad key" k ≡ ok tt = cc in
    let value : validate_aad_value "aad." v ≡ ok tt = cc in
    (
      record {
        key_ok = key;
        value_ok = validate_aad_value-any_field "aad." "aad value" v value;
        key_clean = validate_aad_key-IsClean "aad key" k key;
        value_clean = validate_aad_value-IsClean "aad." v value;
      },
      validate_fields-IsField fs h'',
    )

any-append_char :
    (p : ℕ → Bool) (s : Text) (c : ℕ) (t : Text)
    → any p s ≡ false
    → p c ≡ false
    → any p t ≡ false
    → any p (s ++ c ∷ t) ≡ false
any-append_char p s c t hs hc ht = any-append p s (c ∷ t) hs (ground arith)

assignment-Lacks : (f : Field) → IsField f → Lacks b';' (assignment f)
assignment-Lacks (k, v) h =
    any-append_char _ k b'=' v h.key_clean.no_semicolon refl h.value_clean.no_semicolon

assignments-lack : (fs : List Field) → All IsField fs → All (Lacks b';') (map assignment fs)
assignments-lack [] h = tt
assignments-lack (f ∷ fs) h = (assignment-Lacks f h.0, assignments-lack fs h.1)

assignment-no_control : (f : Field) → IsField f → any is_control (assignment f) ≡ false
assignment-no_control (k, v) h =
    any-append_char _ k b'=' v h.key_clean.no_control (unfold is_control in refl)
      h.value_clean.no_control

build_aad-no_control : (fs : List Field) → All IsField fs → any is_control (build_aad fs) ≡ false
unfolding build_aad join
build_aad-no_control [] h = refl
build_aad-no_control (f ∷ []) h = assignment-no_control f h.0
build_aad-no_control (f ∷ g ∷ fs) h =
    any-append_char _ (assignment f) b';' _ (assignment-no_control f h.0)
      (unfold is_control in refl) (build_aad-no_control (g ∷ fs) h.1)

build_aad-not_blank : (f : Field) (fs : List Field) → is_blank (build_aad (f ∷ fs)) ≡ false
unfolding build_aad join
build_aad-not_blank (k, v) [] = is_blank-append k b'=' v (unfold is_whitespace in refl)
build_aad-not_blank f (g ∷ fs) =
    is_blank-append (assignment f) b';' _ (unfold is_whitespace in refl)

parse_pieces-assignment : (f : Field) → IsField f → parse_pieces (split b'=' (assignment f)) ≡ ok f
unfolding parse_pieces join
parse_pieces-assignment (k, v) h =
    rw (split-join b'=' (k ∷ v ∷ []) (cc) (h.key_clean.no_equals, (h.value_clean.no_equals, tt)))
      (rw (h.key_ok, h.value_ok))

parse_parts-map : (fs : List Field) → All IsField fs → parse_parts (map assignment fs) ≡ ok fs
unfolding parse_parts
parse_parts-map [] h = refl
parse_parts-map (f ∷ fs) h = rw (parse_pieces-assignment f h.0, parse_parts-map fs h.1)

map-ne-nil : (f : Field) (fs : List Field) → map assignment (f ∷ fs) ≢ []
map-ne-nil f fs = cc

build_validated_aad-ok :
    (fs : List Field) (s : Text)
    → build_validated_aad fs ≡ ok s
    → All IsField fs × (build_aad fs ≡ s)
unfolding build_validated_aad
build_validated_aad-ok fs s h =
    let (_, checked, built) = >>=-eq-ok (validate_fields fs) _ h in
    (validate_fields-IsField fs (cc), cc)

-- Where `build_validated_aad` accepts a list of at least one field, `parse_aad_fields` reads the
-- text that it returns as exactly those fields.
pub parse-build :
    (f : Field) (fs : List Field) (s : Text)
    → build_validated_aad (f ∷ fs) ≡ ok s
    → parse_aad_fields s ≡ ok (f ∷ fs)
unfolding parse_aad_fields validate_text_field
parse-build f fs s h =
    let (fields, built) = build_validated_aad-ok (f ∷ fs) s h in
    rw (← built, build_aad-not_blank f fs, build_aad-no_control (f ∷ fs) fields)
      (unfold build_aad in
        rw (split-join b';' _ (map-ne-nil f fs) (assignments-lack (f ∷ fs) fields))
          (parse_parts-map (f ∷ fs) fields))

-- Two lists of at least one field for which `build_validated_aad` returns one text are equal:
-- a text that binds a context stands for one context only.
pub build-injective :
    (f g : Field) (fs gs : List Field) (s : Text)
    → build_validated_aad (f ∷ fs) ≡ ok s
    → build_validated_aad (g ∷ gs) ≡ ok s
    → f ∷ fs ≡ g ∷ gs
build-injective f g fs gs s h k = cc (parse-build f fs s h, parse-build g gs s k)
