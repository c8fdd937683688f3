-- ===== src/Keys/Lifecycle.antt =====
-- The lifecycle of a key (src/ops/keys.rs): its statuses, their transitions, and what each allows.
use vectis.Base.{
  ℕ, false, not, ◌||◌, List, [], ◌∷◌, map, if◌then◌else◌, String, Text, codes, text_eq, contains,
}
use vectis.Error.{invalid_input, forbidden}
use vectis.Error.Result.{ok, err, ◌>>◌, reject}
use vectis.Validation.Fields.{
  Checked, validate_allowed_value, validate_text_field, validate_bounded_text_field,
  internal_ref_max_chars,
}

unfoldable pub property_profiles : List Text
property_profiles = map codes (
    "hybrid-performance-v1" ∷ "hybrid-standard-v1" ∷ "hybrid-high-assurance-v1"
    ∷ "hybrid-long-term-v1" ∷ "custom" ∷ [])

unfoldable pub lifecycle_statuses : List Text
lifecycle_statuses =
    map codes ("active" ∷ "disabled" ∷ "retired" ∷ "compromised" ∷ "destroyed" ∷ [])

pub record OpsKeyLifecycle : Type 0 where
  pub status : Text
  pub reason : Text
  pub changed_at : Text

pub record OpsKeyProperties : Type 0 where
  pub version : ℕ
  pub profile : Text
  pub tag : Text
  pub created_at : Text
  pub lifecycle : OpsKeyLifecycle

unfoldable pub validate_lifecycle_status : String → Text → Checked
unfolding lifecycle_statuses
validate_lifecycle_status field status = validate_allowed_value field status lifecycle_statuses

unfoldable pub validate_lifecycle_transition : Text → Text → Checked
validate_lifecycle_transition current next =
    let allowed =
      if text_eq current (codes "active")
      then contains
          (codes "disabled" ∷ codes "retired" ∷ codes "compromised" ∷ codes "destroyed" ∷ []) next
      else if text_eq current (codes "disabled")
      then text_eq next (codes "active")
      else false in
    reject (not allowed) (invalid_input "invalid lifecycle transition")

unfoldable pub validate_ops_key_properties : OpsKeyProperties → Checked
unfolding validate_lifecycle_status property_profiles
validate_ops_key_properties p = do
  validate_allowed_value "properties.profile" p.profile property_profiles
  validate_text_field "properties.tag" p.tag
  validate_text_field "properties.created_at" p.created_at
  validate_lifecycle_status "properties.lifecycle.status" p.lifecycle.status
  validate_bounded_text_field "properties.lifecycle.reason" p.lifecycle.reason
      internal_ref_max_chars
  validate_text_field "properties.lifecycle.changed_at" p.lifecycle.changed_at

unfoldable pub lifecycle_error : String → Checked
lifecycle_error message = err (forbidden message)

unfoldable pub blocked_lifecycle_error : Text → Checked
unfolding lifecycle_error
blocked_lifecycle_error status =
    if text_eq status (codes "disabled")
    then lifecycle_error "key is currently disabled"
    else if text_eq status (codes "compromised")
    then lifecycle_error "key is compromised and cannot be used for security reasons"
    else if text_eq status (codes "destroyed")
    then lifecycle_error "key is logically destroyed and cannot be used"
    else lifecycle_error "key lifecycle status does not allow this operation"

unfoldable pub require_lifecycle_for_new_use : Text → Checked
unfolding blocked_lifecycle_error lifecycle_error
require_lifecycle_for_new_use status =
    if text_eq status (codes "active")
    then ok tt
    else if text_eq status (codes "retired")
    then lifecycle_error "key is retired and can only be used for decrypt or verification"
    else blocked_lifecycle_error status

unfoldable pub require_lifecycle_for_decrypt_or_verify : Text → Checked
unfolding blocked_lifecycle_error
require_lifecycle_for_decrypt_or_verify status =
    if text_eq status (codes "active") || text_eq status (codes "retired")
    then ok tt
    else blocked_lifecycle_error status

unfoldable pub require_lifecycle_for_public_keys : Text → Checked
unfolding blocked_lifecycle_error lifecycle_error
require_lifecycle_for_public_keys status =
    if text_eq status (codes "active")
    then ok tt
    else if text_eq status (codes "retired")
    then lifecycle_error "key is retired and can only be used for decrypt or verification"
    else blocked_lifecycle_error status
