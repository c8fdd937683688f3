-- ===== src/Tests/Routes.antt =====
-- Routes (src/core/routes.rs) at concrete routes.
use vectis.Base.{◌≡◌, refl, Bool, true, [], ◌∷◌, Text, codes}
use vectis.Error.Result.{ok}
use vectis.Routes.{FinalAppRoute, route_for, validate_routes}
use vectis.Routes.Lookup.{route_for-validate_routes}
use vectis.Tests.Permissions.{key_a, key_b}
use vectis.Tests.TimeAttestation.{parsers}

abbrev orders : FinalAppRoute
orders = record {
  kid = key_a;
  name = codes "orders";
  final_app_addr = codes "orders.local:2003";
  final_app_path = codes "/in";
}

abbrev billing : FinalAppRoute
billing = record orders { kid = key_b; name = codes "billing" }

abbrev every_kid : Text → Bool
every_kid kid = true

accepted_routes :
    validate_routes parsers every_kid (orders ∷ billing ∷ []) ≡ ok (orders ∷ billing ∷ [])
unfolding validate_routes vectis.Keys.Id.validate_key_id vectis.Keys.Id.validate_hash_hex_field
    vectis.Validation.Fields.validate_allowed_value vectis.Validation.Fields.validate_text_field
    vectis.Validation.Chars.is_blank vectis.Validation.Chars.is_control
    vectis.Validation.Fields.validate_hex_field vectis.Validation.Chars.byte_len
    vectis.Validation.Chars.is_ascii_hexdigit vectis.Validation.Fields.validate_config_name
    vectis.Validation.Hosts.validate_host_port
accepted_routes = refl

route_for-validate_routes_example :
    (every_kid key_b ≡ true)
    × (route_for
          (record {
            default_addr = codes "a:1";
            default_path = codes "/";
            routes = orders ∷ billing ∷ [];
          })
          key_b
        ≡ billing)
route_for-validate_routes_example =
    route_for-validate_routes parsers every_kid (orders ∷ billing ∷ []) (orders ∷ billing ∷ [])
      (codes "a:1") (codes "/") 1 billing accepted_routes refl
