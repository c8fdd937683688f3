-- ===== src/Tests/Permissions.antt =====
-- Permissions (src/core/permissions.rs) at a concrete configuration.
use vectis.Base.{◌≡◌, refl, Bool, true, false, [], ◌∷◌, some, arith, Text, codes, text_eq}
use vectis.Error.Result.{ok}
use vectis.Keys.Id.{validate_key_id, validate_hash_hex_field}
use vectis.Validation.Chars.{is_blank, is_control, is_ascii_hexdigit, byte_len}
use vectis.Validation.Fields.{
  validate_text_field, validate_config_name, validate_hex_field, validate_allowed_value,
  validate_symmetric_key,
}
use vectis.Profiles.{from_items}
use vectis.Permissions.{
  PermissionClientInput, permission_actions, client_statuses, wildcard, admin_action, active_status,
  is_global_permission_action, PermissionClient,
}
use vectis.Permissions.Config.{
  validate_permission_clients, permission_client, validate_action_list, validate_permissions_from,
  validate_kid, has_admin,
}
use vectis.Permissions.Decision.{authorized, configured, authorized-configured}

abbrev pub key_a : Text
key_a = codes "aaaaaaaaaaaaaaaaaaaaaaaaaaaaaaaaaaaaaaaaaaaaaaaaaaaaaaaaaaaaaaaa"

abbrev pub key_b : Text
key_b = codes "bbbbbbbbbbbbbbbbbbbbbbbbbbbbbbbbbbbbbbbbbbbbbbbbbbbbbbbbbbbbbbbb"

abbrev signer : PermissionClientInput
signer = record {
  client = codes "signer";
  apikey_hash = key_a;
  status = codes "active";
  permissions = record { kid = key_b; actions = codes "sign" ∷ codes "mask" ∷ [] } ∷ [];
}

abbrev former : PermissionClientInput
former = record signer { client = codes "former"; apikey_hash = key_b; status = codes "revoked" }

abbrev every_kid : Text → Bool
every_kid kid = true

abbrev signer_client : PermissionClient
signer_client = record {
  client = codes "signer";
  apikey_hash = key_a;
  admin = false;
  permissions = signer.permissions;
}

accepted :
    validate_permission_clients (signer ∷ former ∷ []) every_kid
    ≡ ok (from_items (λ c. c.apikey_hash) (signer_client ∷ []))
unfolding validate_permission_clients permission_client validate_config_name validate_symmetric_key
    validate_hex_field validate_allowed_value validate_text_field validate_permissions_from
    validate_action_list validate_kid has_admin validate_key_id validate_hash_hex_field
    permission_actions client_statuses wildcard admin_action active_status
    is_global_permission_action is_blank is_control is_ascii_hexdigit byte_len codes text_eq
accepted = refl

sign_known : validate_allowed_value "permission action" (codes "sign") permission_actions ≡ ok tt
unfolding validate_allowed_value validate_text_field permission_actions is_blank is_control codes
    text_eq
sign_known = refl

authorized-configured_example :
    authorized
      (from_items (λ c. c.apikey_hash) (signer_client ∷ []))
      key_a
      (some key_b)
      (codes "sign")
    ≡ configured (signer ∷ former ∷ []) key_a (some key_b) (codes "sign")
unfolding codes
authorized-configured_example =
    authorized-configured (signer ∷ former ∷ []) every_kid
      (from_items (λ c. c.apikey_hash) (signer_client ∷ [])) key_a (some key_b) (codes "sign")
      accepted (omega arith) sign_known
