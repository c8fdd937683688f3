-- ===== src/Keys/Update.antt =====
-- Updating the lifecycle of a stored key (src/ops/keys.rs).
use vectis.Base.{ℕ, List, Text}
use vectis.Error.{DynError}
use vectis.Error.Result.{Result, ok, ◌>>=◌, ◌>>◌}
use vectis.Keys.Id.{validate_key_id}
use vectis.Keys.Lifecycle.{
  OpsKeyLifecycle, OpsKeyProperties, validate_ops_key_properties, validate_lifecycle_transition,
}
use vectis.Keys.Record.{
  KeyServices, InternalDerivedKeys, OpsKeyRow, dotted, encrypt_internal_payload,
}
use vectis.Keys.Open.{open_row}
use vectis.Validation.Chars.{as_bytes}

pub record UpdateLifecycleInput : Type 0 where
  pub status : Text
  pub reason : Text

module _ {M : Type 0} (services : KeyServices M) where
  unfoldable pub encrypt_ops_key_properties_payload :
      InternalDerivedKeys
      → OpsKeyProperties
      → Text
      → Result DynError (List ℕ)
      → Result DynError Text
  unfolding encrypt_internal_payload dotted
  encrypt_ops_key_properties_payload internal_keys properties aad random_nonce = do
    plaintext ← services.properties_to_json properties
    nonce ← random_nonce
    properties_b64 ←
        encrypt_internal_payload services plaintext internal_keys.properties_key nonce aad
    ok (
        dotted properties_b64 (services.base64.encode nonce)
          (services.base64.encode (as_bytes aad)))

  -- `get_ops_keys` is the storage's read. The result is the new properties, which the storage
  -- writes where the ones that were read are still there, and the new lifecycle.
  unfoldable pub update_key_lifecycle :
      (Text → Result DynError OpsKeyRow)
      → InternalDerivedKeys
      → Text
      → UpdateLifecycleInput
      → Result DynError Text
      → Result DynError (List ℕ)
      → Result DynError (Text × OpsKeyLifecycle)
  unfolding open_row encrypt_ops_key_properties_payload
  update_key_lifecycle get_ops_keys internal_keys id input current_timestamp random_nonce = do
    validate_key_id id
    row ← get_ops_keys id
    opened ← open_row services internal_keys row
    validate_lifecycle_transition opened.1.output.lifecycle.status input.status
    changed_at ← current_timestamp
    lifecycle ←
        ok (record { status = input.status; reason = input.reason; changed_at = changed_at })
    validate_ops_key_properties (record opened.1.output { lifecycle = lifecycle })
    encrypted_properties ←
        encrypt_ops_key_properties_payload internal_keys
          (record opened.1.output { lifecycle = lifecycle }) opened.1.aad random_nonce
    ok (encrypted_properties, lifecycle)
