-- ===== src/Masking/Validate.antt =====
-- src/core/masking.rs: proofs about `validate_masking_profiles`.
use vectis.Base.{◌≡◌, Bool, true, false, not, List, [], ◌∷◌, Text, text_eq, contains, find, All}
use vectis.Error.Result.{ok, >>=-eq-ok, reject-then, not-false, >>-eq-ok}
use vectis.Profiles.{Table, from_items, table_get}
use vectis.Profiles.Lookup.{IsDistinct, Fresh, Fresh-tail, table_get-from_items}
use vectis.Masking.{
  MaskingProfile, validate_masking_profile_fields, validate_profiles_from,
  validate_masking_profiles,
}
use vectis.Masking.Lengths.{IsValidProfile, validate_masking_profile_fields-IsValidProfile}

abbrev by_name : MaskingProfile → Text
by_name p = p.name

module _ (is_loaded_kid : Text → Bool) where
  -- A profile with valid lengths whose key is loaded.
  pub record IsAccepted (p : MaskingProfile) : Type 0 where
    pub valid : IsValidProfile p
    pub loaded : is_loaded_kid p.kid ≡ true

  -- One item of the loop.
  validate_profiles_from-step :
      (seen : List Text) (p : MaskingProfile) (ps qs : List MaskingProfile)
      → validate_profiles_from is_loaded_kid seen (p ∷ ps) ≡ ok qs
      → (rest : List MaskingProfile) × IsAccepted p
        × (contains seen p.name ≡ false)
        × (validate_profiles_from is_loaded_kid (p.name ∷ seen) ps ≡ ok rest)
        × (p ∷ rest ≡ qs)
  unfolding validate_profiles_from
  validate_profiles_from-step seen p ps qs h =
      let (fields, h₁) = >>-eq-ok (validate_masking_profile_fields p) _ h in
      let (loaded, h₂) = reject-then (not (is_loaded_kid p.kid)) _ _ h₁ in
      let (fresh, h₃) = reject-then (contains seen p.name) _ _ h₂ in
      let (rest, e, last) =
        >>=-eq-ok (validate_profiles_from is_loaded_kid (p.name ∷ seen) ps) _ h₃ in
      (
        rest,
        record {
          valid = validate_masking_profile_fields-IsValidProfile p fields;
          loaded = not-false _ loaded;
        },
        fresh,
        e,
        cc,
      )

  -- The loop keeps every profile, in order, and no name comes back.
  validate_profiles_from-ok :
      (seen : List Text) (ps qs : List MaskingProfile)
      → validate_profiles_from is_loaded_kid seen ps ≡ ok qs
      → (qs ≡ ps) × All IsAccepted ps × Fresh by_name seen ps × IsDistinct by_name ps
  validate_profiles_from-ok seen [] qs h = (unfold validate_profiles_from in cc, tt, tt, tt)
  validate_profiles_from-ok seen (p ∷ ps) qs h =
      let (rest, accepted, fresh, e, last) = validate_profiles_from-step seen p ps qs h in
      let (same, all_ok, later, distinct) = validate_profiles_from-ok (p.name ∷ seen) ps rest e in
      let (later', absent) = Fresh-tail by_name p.name seen ps later in
      (cc, (accepted, all_ok), (fresh, later'), (absent, distinct))

  -- Where the masking profiles are accepted, each has valid lengths and a loaded key, no two share
  -- a name, and the table that results finds under a name exactly the first profile configured
  -- with it, and nothing under any other name.
  pub validate_masking_profiles-lookup :
      (inputs : List MaskingProfile) (st : Table MaskingProfile)
      → validate_masking_profiles inputs is_loaded_kid ≡ ok st
      → All IsAccepted inputs
        × IsDistinct by_name inputs
        × ((key : Text) → table_get st key ≡ find (λ p. text_eq p.name key) inputs)
  unfolding validate_masking_profiles
  validate_masking_profiles-lookup inputs st h =
      let (ps, e, made) = >>=-eq-ok (validate_profiles_from is_loaded_kid [] inputs) _ h in
      let (same, accepted, _, distinct) = validate_profiles_from-ok [] inputs ps e in
      let table : from_items by_name inputs ≡ st = cc in
      (accepted, distinct, λ key. rw (← table) (table_get-from_items by_name inputs key distinct))
