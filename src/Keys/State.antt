-- ===== src/Keys/State.antt =====
-- The keys in memory (src/ops/keys.rs): `KeysDbState`, its lookups and its updates.
use vectis.Base.{
  Bool, true, false, not, List, [], ◌∷◌, ◌++◌, map, some, none, if◌then◌else◌, String, Text,
  text_eq, length, set,
}
use vectis.Error.{DynError, not_found, forbidden, concat}
use vectis.Error.Result.{Result, ok, err, ◌>>=◌, ◌>>◌, reject}
use vectis.Validation.Fields.{Checked}
use vectis.Profiles.{Table, index_get, index_insert, from_items, table_get}
use vectis.Keys.Id.{validate_key_id}
use vectis.Keys.Lifecycle.{
  OpsKeyProperties, require_lifecycle_for_new_use, require_lifecycle_for_decrypt_or_verify,
}

-- `LoadedOpsKey`, over the type of the key material.
pub record LoadedOpsKey (M : Type 0) : Type 0 where
  pub id : Text
  pub aad : Text
  pub properties_aad : Text
  pub key_material : M
  pub properties : OpsKeyProperties

pub data ProfileUse : Type 0 where
  new_use verify token_delete : ProfileUse

module _ {M : Type 0} where
  abbrev pub key_id : LoadedOpsKey M → Text
  key_id k = k.id

  unfoldable pub lifecycle_status : LoadedOpsKey M → Text
  lifecycle_status k = k.properties.lifecycle.status

  -- `KeysDbState::from_keys`, `get`, `contains_id` and `ids`
  unfoldable pub from_keys : List (LoadedOpsKey M) → Table (LoadedOpsKey M)
  from_keys keys = from_items key_id keys

  unfoldable pub contains_id : Table (LoadedOpsKey M) → Text → Bool
  contains_id st id = elim (index_get id st.by_name) [ none ↦ false | some _ ↦ true ]

  unfoldable pub ids : Table (LoadedOpsKey M) → List Text
  ids st = map key_id st.items

  unfoldable pub upsert : Table (LoadedOpsKey M) → LoadedOpsKey M → Table (LoadedOpsKey M)
  upsert st key = elim (index_get key.id st.by_name) [
    | some index ↦ record st { items = set st.items index key }
    | none ↦ record {
      items = st.items ++ key ∷ [];
      by_name = index_insert key.id (length st.items) st.by_name;
    }
  ]

  unfoldable pub insert_if_absent :
      Table (LoadedOpsKey M) → LoadedOpsKey M → Table (LoadedOpsKey M) × Bool
  unfolding contains_id upsert
  insert_if_absent st key = if contains_id st key.id then (st, false) else (upsert st key, true)

  unfoldable pub get_loaded_key : Table (LoadedOpsKey M) → Text → Result DynError (LoadedOpsKey M)
  get_loaded_key st id = do
    validate_key_id id
    elim (table_get st id) [
      | none ↦ err (not_found "ops key not loaded in state")
      | some key ↦ ok key
    ]

  unfoldable pub require_use : ProfileUse → LoadedOpsKey M → Checked
  unfolding lifecycle_status
  require_use new_use key = require_lifecycle_for_new_use (lifecycle_status key)
  require_use verify key = require_lifecycle_for_decrypt_or_verify (lifecycle_status key)
  require_use token_delete key = ok tt

  unfoldable pub prepare_profile_use :
      Table (LoadedOpsKey M) → Text → Text → String → ProfileUse → Checked
  unfolding get_loaded_key require_use
  prepare_profile_use st kid profile_kid profile_kind use_kind = do
    reject (not (text_eq profile_kid kid))
        (forbidden (concat profile_kind " profile is not authorized for this kid"))
    loaded_key ← get_loaded_key st kid
    require_use use_kind loaded_key
