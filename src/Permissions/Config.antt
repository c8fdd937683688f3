-- ===== src/Permissions/Config.antt =====
-- src/core/permissions.rs: the validation of the permissions in the configuration.
use vectis.Base.{
  Bool, true, false, not, List, [], ◌∷◌, ◌==◌, if◌then◌else◌, Text, text_eq, contains, any, length,
}
use vectis.Error.{DynError, invalid_input}
use vectis.Error.Result.{Result, ok, ◌>>=◌, ◌>>◌, reject, map_err}
use vectis.Validation.Fields.{
  Checked, validate_config_name, validate_symmetric_key, validate_allowed_value,
}
use vectis.Keys.Id.{validate_key_id}
use vectis.Profiles.{from_items}
use vectis.Permissions.{
  permission_actions, admin_action, wildcard, active_status, client_statuses, KidPermission,
  PermissionClientInput, PermissionClient, PermissionsState, is_global_permission_action,
}

-- The loop of `validate_action_list`, with the actions seen so far.
unfoldable pub validate_actions_from : List Text → List Text → Result DynError (List Text)
validate_actions_from seen [] = ok []
validate_actions_from seen (action ∷ actions) = do
  validate_allowed_value "permissions.actions" action permission_actions
  reject (contains seen action) (invalid_input "duplicated permission action")
  validated ← validate_actions_from (action ∷ seen) actions
  ok (action ∷ validated)

unfoldable pub validate_action_list : List Text → Result DynError (List Text)
unfolding validate_actions_from
validate_action_list actions = do
  reject (length actions == 0) (invalid_input "permissions.actions must not be empty")
  validate_actions_from [] actions

unfoldable pub validate_actions : List KidPermission → Checked
validate_actions [] = ok tt
validate_actions (p ∷ ps) = do actions ← validate_action_list p.actions; validate_actions ps

unfoldable pub validate_global_actions : List Text → Checked
validate_global_actions [] = ok tt
validate_global_actions (action ∷ actions) = do
  reject (not (is_global_permission_action action))
      (invalid_input "permission action cannot use wildcard kid")
  validate_global_actions actions

unfoldable pub validate_kid : (Text → Bool) → Text → List Text → Checked
unfolding validate_global_actions
validate_kid is_loaded_kid kid actions =
    if text_eq kid wildcard
    then validate_global_actions actions
    else (map_err (λ e. invalid_input "permissions.kid is invalid") (validate_key_id kid)
        >> reject (not (is_loaded_kid kid))
            (invalid_input "permissions file references kid not loaded in memory"))

-- The inner loop of `validate_permission_clients`, over the permissions of one client.
unfoldable pub validate_permissions_from :
    (Text → Bool) → List Text → List KidPermission → Result DynError (List KidPermission)
validate_permissions_from is_loaded_kid seen_kids [] = ok []
validate_permissions_from is_loaded_kid seen_kids (p ∷ ps) = do
  reject (contains seen_kids p.kid) (invalid_input "permissions file has duplicated kid for client")
  actions ← validate_action_list p.actions
  validate_kid is_loaded_kid p.kid actions
  permissions ← validate_permissions_from is_loaded_kid (p.kid ∷ seen_kids) ps
  ok (record { kid = p.kid; actions = actions } ∷ permissions)

-- Some permission of the client holds the action `admin`.
unfoldable pub has_admin : List KidPermission → Bool
has_admin = any (λ (p : KidPermission). any (λ action. text_eq action admin_action) p.actions)

-- The client that an active input gives.
unfoldable pub permission_client :
    (Text → Bool) → PermissionClientInput → Result DynError PermissionClient
permission_client is_loaded_kid c =
    if has_admin c.permissions
    then (validate_actions c.permissions
        >> ok (record {
          client = c.client;
          apikey_hash = c.apikey_hash;
          admin = true;
          permissions = [];
        }))
    else (validate_permissions_from is_loaded_kid [] c.permissions >>= λ ps. ok (record {
      client = c.client;
      apikey_hash = c.apikey_hash;
      admin = false;
      permissions = ps;
    }))

-- The outer loop, with the clients and the hashes seen so far; an input that is not active is
-- checked and skipped.
unfoldable pub validate_clients_from :
    (Text → Bool)
    → List Text
    → List Text
    → List PermissionClientInput
    → Result DynError (List PermissionClient)
unfolding permission_client
validate_clients_from is_loaded_kid seen_clients seen_hashes [] = ok []
validate_clients_from is_loaded_kid seen_clients seen_hashes (c ∷ cs) = do
  validate_config_name "permissions.client" c.client
  validate_symmetric_key "permissions.apikey_hash" c.apikey_hash 32
  validate_allowed_value "permissions.status" c.status client_statuses
  reject (contains seen_clients c.client) (invalid_input "permissions file has duplicated client")
  reject (contains seen_hashes c.apikey_hash)
      (invalid_input "permissions file has duplicated apikey_hash")
  let rest =
      validate_clients_from is_loaded_kid (c.client ∷ seen_clients) (c.apikey_hash ∷ seen_hashes) cs
  if text_eq c.status active_status
      then (permission_client is_loaded_kid c >>= λ client.
          rest >>= λ clients. ok (client ∷ clients))
      else rest

unfoldable pub validate_permission_clients :
    List PermissionClientInput → (Text → Bool) → Result DynError PermissionsState
unfolding validate_clients_from
validate_permission_clients inputs is_loaded_kid = do
  clients ← validate_clients_from is_loaded_kid [] [] inputs
  ok (from_items (λ c. c.apikey_hash) clients)
