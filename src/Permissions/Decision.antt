-- ===== src/Permissions/Decision.antt =====
-- src/core/permissions.rs: proofs about `require_permission`.
use vectis.Base.{
  ℕ, suc, ◌≡◌, inl, inr, refl, sym, ◌∙◌, Bool, true, false, ◌&&◌, ◌||◌, List, [], ◌∷◌, Option, some,
  none, arith, if◌then◌else◌, Bool-cases, Option-cases, Text, text_eq, text_eq_iff, any, find, All,
}
use vectis.Error.Result.{ok, is_ok}
use mathlib.Core.Path.{subst}
use vectis.Validation.Chars.{IsAscii, as_bytes, as_bytes-ascii}
use vectis.Validation.Fields.{validate_allowed_value}
use vectis.Crypto.{constant_time_eq}
use vectis.Crypto.Compare.{IsBytes, constant_time_eq_iff}
use vectis.Keys.Id.{validate_key_id}
use vectis.Profiles.{from_items}
use vectis.Profiles.Lookup.{
  IsDistinct, last_index, shifted, read_shifted, fetch-last_index, table_get-from_items,
}
use vectis.Permissions.{
  PermissionClientInput, PermissionClient, AuthenticatedClient, PermissionsState,
  permission_actions, wildcard, from_permission_client, matched_from, authenticate_hash,
  is_global_permission_action, lists, require_kid, require_permission,
}
use vectis.Permissions.Config.{has_admin, validate_permission_clients}
use vectis.Permissions.Compile.{
  is_active, compiled_client, compiled, hash_of, input_hash, compiled-IsDistinct, compiled-IsAscii,
  validate_permission_clients-compiled,
}

-- What one entry of the configuration grants: everything to a holder of `admin`; a global action
-- to an entry that lists it under the wildcard; any other action on a well-formed key identifier
-- to an entry that lists it under that identifier.
pub grants : PermissionClientInput → Option Text → Text → Bool
grants c kid action =
    has_admin c.permissions
    || (if is_global_permission_action action
        then lists wildcard action c.permissions
        else elim kid [
          | none ↦ false
          | some k ↦ is_ok (validate_key_id k) && lists k action c.permissions
        ])

-- Some active entry with this hash grants the action.
pub configured : List PermissionClientInput → Text → Option Text → Text → Bool
unfolding grants
configured inputs apikey_hash kid action =
    any
      (λ (c : PermissionClientInput).
        is_active c && (text_eq c.apikey_hash apikey_hash && grants c kid action))
      inputs

-- A request: authentication by the hash of its key, then the permission.
pub authorized : PermissionsState → Text → Option Text → Text → Bool
authorized st apikey_hash kid action = elim (authenticate_hash st apikey_hash) [
  | none ↦ false
  | some client ↦ is_ok (require_permission st client kid action)
]

IsAscii-IsBytes : (s : Text) → IsAscii s → IsBytes s
IsAscii-IsBytes [] h = tt
IsAscii-IsBytes (c ∷ s) h = (omega arith, IsAscii-IsBytes s h.1)

-- On ASCII texts, the constant-time comparison of the bytes compares the texts.
constant_time_eq-text :
    (s t : Text) → IsAscii s → IsAscii t → constant_time_eq (as_bytes s) (as_bytes t) ≡ text_eq s t
constant_time_eq-text s t hs ht =
    rw (as_bytes-ascii s hs, as_bytes-ascii t ht)
      (ground (
        arith,
        constant_time_eq_iff s t (IsAscii-IsBytes s hs) (IsAscii-IsBytes t ht),
        text_eq_iff s t,
      ))

matched_from-last_index :
    (i : ℕ) (key : Text) (cs : List PermissionClient) (m : Option ℕ)
    → IsAscii key
    → All (λ (c : PermissionClient). IsAscii c.apikey_hash) cs
    → matched_from i (as_bytes key) cs m ≡ shifted hash_of i (last_index hash_of cs key) m
unfolding matched_from shifted last_index
matched_from-last_index i key [] m hk hc = refl
matched_from-last_index i key (c ∷ cs) m hk hc =
    rw (constant_time_eq-text c.apikey_hash key hc.0 hk) (
      matched_from-last_index (suc i) key cs (if text_eq c.apikey_hash key then some i else m) hk
        hc.1
      ∙ ground arith)

-- With distinct hashes, authentication finds the client of the hash.
authenticate_hash-find :
    (cs : List PermissionClient) (key : Text)
    → IsAscii key
    → All (λ (c : PermissionClient). IsAscii c.apikey_hash) cs
    → IsDistinct hash_of cs
    → authenticate_hash (from_items hash_of cs) key
      ≡ (elim (find (λ c. text_eq (hash_of c) key) cs) as (λ _. Option AuthenticatedClient) [
        | none ↦ none
        | some c ↦ some (from_permission_client c)
      ])
unfolding authenticate_hash from_items
authenticate_hash-find cs key hk hc d =
    let place : matched_from 0 (as_bytes key) cs none
        ≡ shifted hash_of 0 (last_index hash_of cs key) none =
      matched_from-last_index 0 key cs none hk hc in
    let item =
      read_shifted hash_of cs (last_index hash_of cs key) ∙ fetch-last_index hash_of cs key d in
    rw (place, authenticate_hash) (ground (arith, item))

decide : PermissionClient → Option Text → Text → Bool
decide c kid action = c.admin || is_ok (require_kid c.permissions kid action)

decide-compiled :
    (c : PermissionClientInput) (kid : Option Text) (action : Text)
    → decide (compiled_client c) kid action ≡ grants c kid action
unfolding decide compiled_client grants require_kid
decide-compiled c none action = ground arith
decide-compiled c (some k) action = ground arith

find-same :
    (cs : List PermissionClient) (key : Text) (c : PermissionClient)
    → find (λ k. text_eq (hash_of k) key) cs ≡ some c
    → c.apikey_hash ≡ key
find-same [] key c e = cc
find-same (k ∷ cs) key c e = elim (Bool-cases (text_eq (hash_of k) key)) [
  | inl same ↦ ground (arith, (text_eq_iff (hash_of k) key).0 same)
  | inr other ↦ find-same cs key c (ground arith)
]

-- The decision for a client of the table looks at that client's own permissions.
require_permission-own :
    (cs : List PermissionClient) (c : PermissionClient) (kid : Option Text) (action : Text)
    → IsDistinct hash_of cs
    → find (λ k. text_eq (hash_of k) c.apikey_hash) cs ≡ some c
    → validate_allowed_value "permission action" action permission_actions ≡ ok tt
    → is_ok (require_permission (from_items hash_of cs) (from_permission_client c) kid action)
      ≡ decide c kid action
unfolding require_permission from_permission_client decide
require_permission-own cs c kid action d e allowed =
    ground (arith, table_get-from_items hash_of cs c.apikey_hash d)

decision : Option PermissionClient → Option Text → Text → Bool
decision none kid action = false
decision (some c) kid action = decide c kid action

configured-absent :
    (cs : List PermissionClientInput) (key : Text) (kid : Option Text) (action : Text)
    → any (λ (c : PermissionClientInput). text_eq c.apikey_hash key) cs ≡ false
    → configured cs key kid action ≡ false
unfolding configured
configured-absent [] key kid action h = refl
configured-absent (c ∷ cs) key kid action h = ground (arith, configured-absent cs key kid action)

absent_key :
    (c : PermissionClientInput) (cs : List PermissionClientInput) (key : Text)
    → text_eq c.apikey_hash key ≡ true
    → any (λ (k : PermissionClientInput). text_eq k.apikey_hash c.apikey_hash) cs ≡ false
    → any (λ (k : PermissionClientInput). text_eq k.apikey_hash key) cs ≡ false
absent_key c cs key e h = rw (← (text_eq_iff c.apikey_hash key).0 e) h

hash_of-compiled : (c : PermissionClientInput) → hash_of (compiled_client c) ≡ c.apikey_hash
unfolding compiled_client
hash_of-compiled c = refl

-- Over distinct hashes, the client of a hash decides as the entries do.
find-configured :
    (cs : List PermissionClientInput) (key : Text) (kid : Option Text) (action : Text)
    → IsDistinct input_hash cs
    → decision (find (λ c. text_eq (hash_of c) key) (compiled cs)) kid action
      ≡ configured cs key kid action
unfolding compiled configured decision
find-configured [] key kid action d = refl
find-configured (c ∷ cs) key kid action d = elim (Bool-cases (is_active c)) [
  | inr skipped ↦ rw (skipped, configured, compiled) (find-configured cs key kid action d.1)
  | inl active ↦ elim (Bool-cases (text_eq c.apikey_hash key)) [
    | inl same ↦
        rw (active, same)
          (ground (
            arith,
            hash_of-compiled c,
            decide-compiled c kid action,
            configured-absent cs key kid action (absent_key c cs key same d.0),
          ))
    | inr other ↦
        rw (active, other)
          (ground (arith, hash_of-compiled c, find-configured cs key kid action d.1))
  ]
]

authorized-decision :
    (cs : List PermissionClient) (key : Text) (kid : Option Text) (action : Text)
    → IsAscii key
    → All (λ (c : PermissionClient). IsAscii c.apikey_hash) cs
    → IsDistinct hash_of cs
    → validate_allowed_value "permission action" action permission_actions ≡ ok tt
    → authorized (from_items hash_of cs) key kid action
      ≡ decision (find (λ c. text_eq (hash_of c) key) cs) kid action
unfolding authorized decision
authorized-decision cs key kid action hk hc d allowed =
    elim (Option-cases (find (λ c. text_eq (hash_of c) key) cs)) [
      | inl none' ↦ rw (authenticate_hash-find cs key hk hc d, authorized) (rw none')
      | inr (c, e) ↦
          rw (authenticate_hash-find cs key hk hc d, authorized)
            (rw e (
              require_permission-own cs c kid action d
                (subst (λ k. find (λ y. text_eq (hash_of y) k) cs ≡ some c)
                  (sym (find-same cs key c e)) e)
                allowed))
    ]

-- Where the permissions configuration is accepted, a request with an ASCII key hash and a known
-- action is authorized exactly where some active entry of the configuration with that hash grants
-- the action for the request's key identifier.
pub authorized-configured :
    (inputs : List PermissionClientInput) (is_loaded_kid : Text → Bool) (st : PermissionsState)
    (apikey_hash : Text) (kid : Option Text) (action : Text)
    → validate_permission_clients inputs is_loaded_kid ≡ ok st
    → IsAscii apikey_hash
    → validate_allowed_value "permission action" action permission_actions ≡ ok tt
    → authorized st apikey_hash kid action ≡ configured inputs apikey_hash kid action
unfolding authorized
authorized-configured inputs loaded st key kid action h ascii allowed =
    let (made, r) = validate_permission_clients-compiled loaded inputs st h in
    let distinct = compiled-IsDistinct inputs r.distinct in
    rw (← made) (
      authorized-decision (compiled inputs) key kid action ascii (compiled-IsAscii inputs r.ascii)
        distinct allowed
      ∙ find-configured inputs key kid action r.distinct)
