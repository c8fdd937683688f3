-- ===== src/Tests/KeyStore.antt =====
-- Keys in memory (src/ops/keys.rs) at concrete keys.
use vectis.Base.{
  ◌+◌, ◌≡◌, ◌≢◌, ◌⊎◌, refl, true, false, List, [], ◌∷◌, arith, Text, codes, text_eq, find, length,
}
use vectis.Error.Result.{ok, is_ok}
use vectis.Profiles.{table_get}
use vectis.Profiles.Lookup.{IsDistinct}
use vectis.Keys.Lifecycle.{
  validate_lifecycle_transition, require_lifecycle_for_decrypt_or_verify,
  require_lifecycle_for_new_use,
}
use vectis.Keys.State.{LoadedOpsKey, key_id, from_keys}
use vectis.Keys.Transitions.{stay, followed, blocked_forever, usable_again}
use vectis.Keys.Refine.{IsIndexed}
use vectis.Keys.Run.{Update, upserts, inserts, updates, store_updates, updates-refine}
use vectis.Keys.Load.{Outcome, finished, refused, unjoined, run_tasks, load_keys_from_rows, skipped}
use vectis.Keys.Complete.{keys_of, load_keys_from_rows_complete}
use vectis.Keys.Resolve.{CryptoProfile, crypto_profile, has_overrides, unwrap_or}
use vectis.Keys.Policy.{resolve_keys_input-profile}
use vectis.Tests.Keys.{config, request, input, resolved, first_loaded}

destroyed_refuses : is_ok (require_lifecycle_for_decrypt_or_verify (codes "destroyed")) ≡ false
unfolding require_lifecycle_for_decrypt_or_verify text_eq codes
destroyed_refuses = refl

not_disabled : codes "destroyed" ≢ codes "disabled"
unfolding codes
not_disabled e = cc (e)

blocked_forever_example :
    (is_ok (require_lifecycle_for_decrypt_or_verify (codes "destroyed")) ≡ false)
    × (is_ok (require_lifecycle_for_new_use (codes "destroyed")) ≡ false)
blocked_forever_example =
    blocked_forever (codes "destroyed") (codes "destroyed") stay destroyed_refuses not_disabled

enabling : validate_lifecycle_transition (codes "disabled") (codes "active") ≡ ok tt
unfolding validate_lifecycle_transition text_eq codes
enabling = refl

active_usable : is_ok (require_lifecycle_for_new_use (codes "active")) ≡ true
unfolding require_lifecycle_for_new_use text_eq codes
active_usable = refl

usable_again_example : (codes "disabled" ≡ codes "active") ⊎ (codes "disabled" ≡ codes "disabled")
usable_again_example =
    usable_again (codes "disabled") (codes "active") (followed enabling stay) active_usable

abbrev other : LoadedOpsKey Text
other = record first_loaded { id = codes "b" }

abbrev first : LoadedOpsKey Text
first = record first_loaded { id = codes "a" }

distinct : IsDistinct key_id (first ∷ [])
distinct = (refl, tt)

abbrev run : List (Update Text)
run = inserts other ∷ upserts first ∷ []

updates-refine_example :
    ((id : Text)
      → table_get (updates (from_keys (first ∷ [])) run) id
        ≡ store_updates
            (λ key. find (λ (k : LoadedOpsKey Text). text_eq k.id key) (first ∷ []))
            run
            id)
    × IsIndexed (updates (from_keys (first ∷ [])) run)
updates-refine_example = updates-refine (first ∷ []) run distinct

abbrev rows : List (Outcome Text)
rows = finished first ∷ refused ∷ unjoined true false ∷ finished other ∷ []

load_keys_from_rows_complete_example :
    ((run_tasks rows 2 (1 ∷ 0 ∷ 0 ∷ 0 ∷ [])).0 ≡ [])
    × ((load_keys_from_rows rows 2 (1 ∷ 0 ∷ 0 ∷ 0 ∷ [])).0 ≡ from_keys (keys_of rows))
    × ((load_keys_from_rows rows 2 (1 ∷ 0 ∷ 0 ∷ 0 ∷ [])).1.total ≡ length rows)
    × ((load_keys_from_rows rows 2 (1 ∷ 0 ∷ 0 ∷ 0 ∷ [])).1.loaded ≡ length (keys_of rows))
    × ((load_keys_from_rows rows 2 (1 ∷ 0 ∷ 0 ∷ 0 ∷ [])).1.total
        ≡ (load_keys_from_rows rows 2 (1 ∷ 0 ∷ 0 ∷ 0 ∷ [])).1.loaded
          + skipped (load_keys_from_rows rows 2 (1 ∷ 0 ∷ 0 ∷ 0 ∷ [])).1)
load_keys_from_rows_complete_example =
    load_keys_from_rows_complete rows 2 (1 ∷ 0 ∷ 0 ∷ 0 ∷ []) (omega arith)

only_profile : text_eq config.crypto_policy (codes "allow-overrides") ≡ false
unfolding codes text_eq
only_profile = refl

resolve_keys_input-profile_example :
    (has_overrides request ≡ false)
    × ((profile : CryptoProfile) × (crypto_profile
            (unwrap_or request.profile config.default_crypto_profile)
          ≡ ok profile)
        × (input.properties_profile ≡ profile.name)
        × (input.hash_algorithm ≡ profile.hash_algorithm)
        × (input.symmetric_algorithm ≡ profile.symmetric_algorithm)
        × (input.eddsa_algorithm ≡ profile.eddsa_algorithm)
        × (input.xecdh_algorithm ≡ profile.xecdh_algorithm)
        × (input.ml_dsa_variant ≡ profile.ml_dsa_variant)
        × (input.ml_kem_variant ≡ profile.ml_kem_variant))
resolve_keys_input-profile_example =
    resolve_keys_input-profile (ok (codes "17")) request config input resolved only_profile
