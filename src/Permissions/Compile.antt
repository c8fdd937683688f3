-- ===== src/Permissions/Compile.antt =====
-- src/core/permissions.rs: proofs about the clients that `validate_permission_clients` returns.
use vectis.Base.{
  ℕ, ◌≡◌, inl, inr, refl, ◌∙◌, Bool, false, List, [], ◌∷◌, arith, ◌==◌, if◌then◌else◌, Bool-cases,
  String, Text, text_eq, contains, any, All, length,
}
use vectis.Error.Result.{ok, >>=-eq-ok, >>-eq-ok, reject-then, if-ok}
use vectis.Validation.Chars.{IsAscii, all-is_ascii_hexdigit-IsAscii}
use vectis.Validation.Fields.{
  validate_config_name, validate_symmetric_key, validate_allowed_value, validate_hex_field,
}
use vectis.Profiles.{from_items}
use vectis.Profiles.Lookup.{IsDistinct, Fresh, Fresh-tail}
use vectis.Permissions.{
  active_status, client_statuses, KidPermission, PermissionClientInput, PermissionClient,
  PermissionsState, permission_actions,
}
use vectis.Permissions.Config.{
  validate_actions_from, validate_action_list, validate_actions, validate_kid,
  validate_permissions_from, has_admin, permission_client, validate_clients_from,
  validate_permission_clients,
}

unfoldable pub is_active : PermissionClientInput → Bool
is_active c = text_eq c.status active_status

unfoldable pub compiled_client : PermissionClientInput → PermissionClient
compiled_client c = record {
  client = c.client;
  apikey_hash = c.apikey_hash;
  admin = has_admin c.permissions;
  permissions = if has_admin c.permissions then [] else c.permissions;
}

unfoldable pub compiled : List PermissionClientInput → List PermissionClient
unfolding compiled_client is_active
compiled [] = []
compiled (c ∷ cs) = let rest = compiled cs in if is_active c then compiled_client c ∷ rest else rest

validate_actions_from-same :
    (seen actions qs : List Text) → validate_actions_from seen actions ≡ ok qs → qs ≡ actions
unfolding validate_actions_from
validate_actions_from-same seen [] qs h = cc
validate_actions_from-same seen (a ∷ as') qs h =
    let (_, h₁) = >>-eq-ok (validate_allowed_value _ a permission_actions) _ h in
    let (_, h₂) = reject-then (contains seen a) _ _ h₁ in
    let (rest, e, last) = >>=-eq-ok (validate_actions_from (a ∷ seen) as') _ h₂ in
    cc (validate_actions_from-same (a ∷ seen) as' rest e)

validate_action_list-same :
    (actions qs : List Text) → validate_action_list actions ≡ ok qs → qs ≡ actions
unfolding validate_action_list
validate_action_list-same actions qs h =
    validate_actions_from-same [] actions qs (reject-then (length actions == 0) _ _ h).1

validate_permissions_from-same :
    (loaded : Text → Bool) (seen : List Text) (ps qs : List KidPermission)
    → validate_permissions_from loaded seen ps ≡ ok qs
    → qs ≡ ps
unfolding validate_permissions_from
validate_permissions_from-same loaded seen [] qs h = cc
validate_permissions_from-same loaded seen (p ∷ ps) qs h =
    let (_, h₁) = reject-then (contains seen p.kid) _ _ h in
    let (actions, e, h₂) = >>=-eq-ok (validate_action_list p.actions) _ h₁ in
    let (_, h₃) = >>-eq-ok (validate_kid loaded p.kid actions) _ h₂ in
    let (rest, e', last) = >>=-eq-ok (validate_permissions_from loaded (p.kid ∷ seen) ps) _ h₃ in
    cc (
      validate_action_list-same p.actions actions e,
      validate_permissions_from-same loaded (p.kid ∷ seen) ps rest e',
    )

permission_client-compiled :
    (loaded : Text → Bool) (c : PermissionClientInput) (k : PermissionClient)
    → permission_client loaded c ≡ ok k
    → k ≡ compiled_client c
unfolding permission_client compiled_client
permission_client-compiled loaded c k h = elim (if-ok (has_admin c.permissions) _ _ h) [
  | inl (admin, h₁) ↦ let (_, made) = >>-eq-ok (validate_actions c.permissions) _ h₁ in ground arith
  | inr (plain, h₁) ↦
      let (ps, e, made) = >>=-eq-ok (validate_permissions_from loaded [] c.permissions) _ h₁ in
      ground (arith, validate_permissions_from-same loaded [] c.permissions ps e)
]

validate_symmetric_key-IsAscii :
    (field : String) (s : Text) (n : ℕ) → validate_symmetric_key field s n ≡ ok tt → IsAscii s
unfolding validate_symmetric_key validate_hex_field
validate_symmetric_key-IsAscii field s n h =
    let (hex, _) = >>-eq-ok (validate_hex_field field s) _ h in
    all-is_ascii_hexdigit-IsAscii s (ground arith)

abbrev pub hash_of : PermissionClient → Text
hash_of c = c.apikey_hash

abbrev pub input_hash : PermissionClientInput → Text
input_hash c = c.apikey_hash

-- One item of the outer loop.
validate_clients_from-step :
    (loaded : Text → Bool) (names hashes : List Text) (c : PermissionClientInput)
    (cs : List PermissionClientInput) (ks : List PermissionClient)
    → validate_clients_from loaded names hashes (c ∷ cs) ≡ ok ks
    → (rest : List PermissionClient) × (validate_clients_from loaded
          (c.client ∷ names)
          (c.apikey_hash ∷ hashes)
          cs
        ≡ ok rest)
      × IsAscii c.apikey_hash
      × (contains hashes c.apikey_hash ≡ false)
      × (ks ≡ (if is_active c then compiled_client c ∷ rest else rest))
unfolding validate_clients_from is_active
validate_clients_from-step loaded names hashes c cs ks h =
    let (_, h₁) = >>-eq-ok (validate_config_name _ c.client) _ h in
    let (key, h₂) = >>-eq-ok (validate_symmetric_key _ c.apikey_hash 32) _ h₁ in
    let (_, h₃) = >>-eq-ok (validate_allowed_value _ c.status client_statuses) _ h₂ in
    let (_, h₄) = reject-then (contains names c.client) _ _ h₃ in
    let (fresh, h₅) = reject-then (contains hashes c.apikey_hash) _ _ h₄ in
    let ascii = validate_symmetric_key-IsAscii _ c.apikey_hash 32 key in
    elim (if-ok (text_eq c.status active_status) _ _ h₅) [
      | inl (active, h₆) ↦
          let (k, ek, h₇) = >>=-eq-ok (permission_client loaded c) _ h₆ in
          let (rest, e, made) =
            >>=-eq-ok (validate_clients_from loaded (c.client ∷ names) (c.apikey_hash ∷ hashes) cs)
              _ h₇ in
          (rest, e, ascii, fresh, rw active (cc (permission_client-compiled loaded c k ek)))
      | inr (skipped, h₆) ↦ (ks, h₆, ascii, fresh, rw skipped)
    ]

-- The hashes of the accepted inputs are ASCII and all different.
pub record HasHashes (hashes : List Text) (cs : List PermissionClientInput) : Type 0 where
  pub ascii : All (λ (c : PermissionClientInput). IsAscii c.apikey_hash) cs
  pub fresh : Fresh input_hash hashes cs
  pub distinct : IsDistinct input_hash cs

compiled-cons :
    (c : PermissionClientInput) (cs : List PermissionClientInput)
    → compiled (c ∷ cs) ≡ (if is_active c then compiled_client c ∷ compiled cs else compiled cs)
unfolding compiled
compiled-cons c cs = refl

validate_clients_from-compiled :
    (loaded : Text → Bool) (names hashes : List Text) (cs : List PermissionClientInput)
    (ks : List PermissionClient)
    → validate_clients_from loaded names hashes cs ≡ ok ks
    → (ks ≡ compiled cs) × HasHashes hashes cs
validate_clients_from-compiled loaded names hashes [] ks h =
    (unfold validate_clients_from compiled in cc, record { ascii = tt; fresh = tt; distinct = tt })
validate_clients_from-compiled loaded names hashes (c ∷ cs) ks h =
    let (rest, e, ascii, fresh, made) = validate_clients_from-step loaded names hashes c cs ks h in
    let (same, r) =
      validate_clients_from-compiled loaded (c.client ∷ names) (c.apikey_hash ∷ hashes) cs rest e in
    let (later, absent) = Fresh-tail input_hash c.apikey_hash hashes cs r.fresh in
    (
      made ∙ rw (compiled-cons c cs, same) refl,
      record { ascii = (ascii, r.ascii); fresh = (fresh, later); distinct = (absent, r.distinct) },
    )

any-compiled :
    (key : Text) (cs : List PermissionClientInput)
    → any (λ (c : PermissionClientInput). text_eq c.apikey_hash key) cs ≡ false
    → any (λ (k : PermissionClient). text_eq k.apikey_hash key) (compiled cs) ≡ false
unfolding compiled compiled_client
any-compiled key [] h = refl
any-compiled key (c ∷ cs) h = ground (arith, any-compiled key cs)

pub compiled-IsDistinct :
    (cs : List PermissionClientInput) → IsDistinct input_hash cs → IsDistinct hash_of (compiled cs)
unfolding compiled compiled_client
compiled-IsDistinct [] h = tt
compiled-IsDistinct (c ∷ cs) h = elim (Bool-cases (is_active c)) [
  | inl active ↦ rw active (any-compiled c.apikey_hash cs h.0, compiled-IsDistinct cs h.1)
  | inr skipped ↦ rw skipped (compiled-IsDistinct cs h.1)
]

pub compiled-IsAscii :
    (cs : List PermissionClientInput)
    → All (λ (c : PermissionClientInput). IsAscii c.apikey_hash) cs
    → All (λ (k : PermissionClient). IsAscii k.apikey_hash) (compiled cs)
unfolding compiled compiled_client
compiled-IsAscii [] h = tt
compiled-IsAscii (c ∷ cs) h = elim (Bool-cases (is_active c)) [
  | inl active ↦ rw active (h.0, compiled-IsAscii cs h.1)
  | inr skipped ↦ rw skipped (compiled-IsAscii cs h.1)
]

pub validate_permission_clients-compiled :
    (loaded : Text → Bool) (inputs : List PermissionClientInput) (st : PermissionsState)
    → validate_permission_clients inputs loaded ≡ ok st
    → (from_items hash_of (compiled inputs) ≡ st) × HasHashes [] inputs
unfolding validate_permission_clients
validate_permission_clients-compiled loaded inputs st h =
    let (ks, e, made) = >>=-eq-ok (validate_clients_from loaded [] [] inputs) _ h in
    let (same, r) = validate_clients_from-compiled loaded [] [] inputs ks e in (cc, r)
