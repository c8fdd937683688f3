-- ===== src/Permissions.antt =====
-- src/core/permissions.rs: the API keys' permissions, read from the configuration, and the decision
-- on one request.
pub mod Config
pub mod Compile
pub mod Decision
use vectis.Base.{
  ℕ, zero, suc, ◌+◌, ◌-◌, ◌*◌, ◌/◌, ◌%◌, ◌^◌, ◌≤◌, ◌<◌, ◌≡◌, ◌≢◌, ◌↔◌, ◌⊎◌, inl, inr, refl, sym, ap,
  ◌∙◌, Bool, true, false, not, ◌&&◌, ◌||◌, List, [], ◌∷◌, ◌++◌, map, append-nil, append_assoc,
  Option, some, none, arith, ltb, leb, ltb→lt, lt→ltb, leb→le, le→leb, ltb-false, le→ltb-false,
  tests, ◌==◌, ==_iff, if◌then◌else◌, Bool-cases, Option-cases, &&_true, String, Text, codes,
  text_eq, text_eq_iff, text_eq_refl, contains, contains_char, all, any, find, All, length,
  get_elem?, set, take, drop, replicate, length-append, length-take, length-drop, length-replicate,
  length-map, min, get_elem?-append_left, get_elem?-append_end, length-set, get_elem?-set_self,
}
use vectis.Error.{
  DynError, invalid_input, not_found, conflict, forbidden, internal, overloaded, concat,
  with_prefix,
}
use vectis.Error.Result.{
  Result, ok, err, ◌>>=◌, ◌>>◌, reject, map_err, is_ok, >>=-eq-ok, Result-cases, reject-ok,
  >>-eq-ok, map_err-ok, reject-then, not-false,
}
use vectis.Validation.Chars.{as_bytes}
use vectis.Validation.Fields.{
  Checked, validate_config_name, validate_symmetric_key, validate_allowed_value,
}
use vectis.Crypto.{constant_time_eq}
use vectis.Keys.Id.{validate_key_id}
use vectis.Profiles.{Table, from_items, table_get}

-- PERMISSION_ACTIONS
unfoldable pub permission_actions : List Text
unfolding codes
permission_actions = map codes (
    "admin" ∷ "keys" ∷ "lifecycle" ∷ "self-test" ∷ "sign" ∷ "message" ∷ "symmetric" ∷ "fpe-encrypt"
    ∷ "fpe-decrypt" ∷ "token-encode" ∷ "token-decode" ∷ "token-delete"
    ∷ "token-deterministic-encode" ∷ "token-deterministic-decode" ∷ "subject-create"
    ∷ "subject-delete" ∷ "mac-create" ∷ "mac-verify" ∷ "index-create" ∷ "index-verify" ∷ "mask"
    ∷ "commit-create" ∷ "commit-verify" ∷ "share-split" ∷ "share-combine" ∷ "time-attest"
    ∷ "metrics" ∷ [])

-- GLOBAL_PERMISSION_ACTIONS
unfoldable pub global_permission_actions : List Text
unfolding codes
global_permission_actions = codes "metrics" ∷ codes "time-attest" ∷ []

unfoldable pub admin_action : Text
unfolding codes
admin_action = codes "admin"

unfoldable pub wildcard : Text
unfolding codes
wildcard = codes "*"

unfoldable pub active_status : Text
unfolding codes
active_status = codes "active"

unfoldable pub client_statuses : List Text
unfolding codes
client_statuses = codes "active" ∷ codes "disabled" ∷ codes "revoked" ∷ []

-- `KidPermissionInput` and `KidPermission`, which have the same fields.
pub record KidPermission : Type 0 where
  pub kid : Text
  pub actions : List Text

pub record PermissionClientInput : Type 0 where
  pub client : Text
  pub apikey_hash : Text
  pub status : Text
  pub permissions : List KidPermission

pub record PermissionClient : Type 0 where
  pub client : Text
  pub apikey_hash : Text
  pub admin : Bool
  pub permissions : List KidPermission

pub record AuthenticatedClient : Type 0 where
  pub client : Text
  pub apikey_hash : Text
  pub root : Bool
  pub admin : Bool

-- `PermissionsState`: the clients and the index `by_hash`.
abbrev pub PermissionsState : Type 0
PermissionsState = Table PermissionClient

unfoldable pub from_permission_client : PermissionClient → AuthenticatedClient
from_permission_client c = record {
  client = c.client;
  apikey_hash = c.apikey_hash;
  root = false;
  admin = c.admin;
}

-- The loop of `authenticate_hash`, which visits every client.
unfoldable pub matched_from : ℕ → List ℕ → List PermissionClient → Option ℕ → Option ℕ
matched_from index candidate [] matched = matched
matched_from index candidate (c ∷ cs) matched =
    matched_from (suc index) candidate cs
      (if constant_time_eq (as_bytes c.apikey_hash) candidate then some index else matched)

unfoldable pub authenticate_hash : PermissionsState → Text → Option AuthenticatedClient
unfolding matched_from from_permission_client
authenticate_hash st apikey_hash = elim (matched_from 0 (as_bytes apikey_hash) st.items none) [
  | none ↦ none
  | some index ↦ elim (get_elem? st.items index) [
    | none ↦ none
    | some c ↦ some (from_permission_client c)
  ]
]

unfoldable pub is_global_permission_action : Text → Bool
is_global_permission_action action = contains global_permission_actions action

-- `permissions.iter().any(|permission| permission.kid == kid && permission.actions contains action)`
unfoldable pub lists : Text → Text → List KidPermission → Bool
lists kid action = any (λ (p : KidPermission). text_eq p.kid kid && contains p.actions action)

-- The part of `require_permission` behind the client's lookup.
unfoldable pub require_kid : List KidPermission → Option Text → Text → Checked
unfolding is_global_permission_action lists
require_kid permissions kid action =
    if is_global_permission_action action
    then reject (not (lists wildcard action permissions))
        (forbidden "api key does not have permission for this endpoint")
    else elim kid [
      | none ↦ err (forbidden "admin permission is required for this endpoint")
      | some k ↦
          validate_key_id k
          >> reject (not (lists k action permissions))
              (forbidden "api key does not have permission for this kid")
    ]

unfoldable pub require_permission :
    PermissionsState → AuthenticatedClient → Option Text → Text → Checked
unfolding require_kid
require_permission st client kid action = do
  validate_allowed_value "permission action" action permission_actions
  if client.root || client.admin then ok tt else elim (table_get st client.apikey_hash) [
    | none ↦ err (forbidden "api key is not authorized")
    | some c ↦ require_kid c.permissions kid action
  ]
