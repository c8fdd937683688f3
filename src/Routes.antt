-- ===== src/Routes.antt =====
-- src/core/routes.rs: the routes to the final applications.
pub mod Lookup
use vectis.Base.{
  ℕ, zero, suc, ◌+◌, ◌-◌, ◌*◌, ◌/◌, ◌%◌, ◌^◌, ◌≤◌, ◌<◌, ◌≡◌, ◌≢◌, ◌↔◌, ◌⊎◌, inl, inr, refl, sym, ap,
  ◌∙◌, Bool, true, false, not, ◌&&◌, ◌||◌, List, [], ◌∷◌, ◌++◌, map, append-nil, append_assoc,
  Option, some, none, arith, ltb, leb, ltb→lt, lt→ltb, leb→le, le→leb, ltb-false, le→ltb-false,
  tests, ◌==◌, ==_iff, if◌then◌else◌, Bool-cases, Option-cases, &&_true, String, Text, codes,
  text_eq, text_eq_iff, text_eq_refl, contains, contains_char, all, any, find, All, length,
  get_elem?, set, take, drop, replicate, length-append, length-take, length-drop, length-replicate,
  length-map, min, max, get_elem?-append_left, get_elem?-append_end, length-set, get_elem?-set_self,
}
use vectis.Error.{
  DynError, foreign, invalid_input, invalid_signature, not_found, conflict, forbidden, internal,
  overloaded, concat, with_prefix,
}
use vectis.Error.Result.{
  Result, ok, err, ◌>>=◌, ◌>>◌, reject, map_err, is_ok, >>=-eq-ok, Result-cases, reject-ok,
  >>-eq-ok, with_ok, map_err-ok, reject-then, not-false, if-ok, ok-injective,
}
use vectis.Keys.Id.{validate_key_id}
use vectis.Validation.Fields.{Checked, invalid, validate_text_field, validate_config_name}
use vectis.Validation.Hosts.{Parsers, validate_host_port}

pub record FinalAppRoute : Type 0 where
  pub kid : Text
  pub name : Text
  pub final_app_addr : Text
  pub final_app_path : Text

-- `RouteInput` has the fields of a route.
abbrev pub RouteInput : Type 0
RouteInput = FinalAppRoute

pub record RoutesState : Type 0 where
  pub default_addr : Text
  pub default_path : Text
  pub routes : List FinalAppRoute

unfoldable pub route_for : RoutesState → Text → FinalAppRoute
route_for state kid = elim (find (λ (r : FinalAppRoute). text_eq r.kid kid) state.routes) [
  | some route ↦ route
  | none ↦ record {
    kid = kid;
    name = codes "default-final-app";
    final_app_addr = state.default_addr;
    final_app_path = state.default_path;
  }
]

abbrev starts_with_slash : Text → Bool
starts_with_slash [] = false
starts_with_slash (c ∷ _) = c == b'/'

unfoldable pub validate_http_path_field : String → Text → Result DynError Text
validate_http_path_field field value = do
  validate_text_field field value
  reject (not (starts_with_slash value)) (invalid field " must start with /")
  reject (contains_char value 32) (invalid field " must not contain spaces")
  ok value

module _ (parsers : Parsers) (is_loaded_kid : Text → Bool) where
  -- The checks of one route, with the identifiers and names of the ones before it.
  unfoldable pub validate_route : RouteInput → List Text → List Text → Result DynError FinalAppRoute
  unfolding validate_http_path_field
  validate_route route seen_kids seen_names = do
    map_err (λ _. invalid_input "routes.kid is invalid") (validate_key_id route.kid)
    reject (not (is_loaded_kid route.kid))
        (invalid_input "routes file references kid not loaded in memory")
    reject (contains seen_kids route.kid) (invalid_input "routes file has duplicated kid")
    validate_config_name "routes.name" route.name
    reject (contains seen_names route.name) (invalid_input "routes file has duplicated name")
    final_app_addr ← validate_host_port parsers "routes.final_app_addr" route.final_app_addr
    final_app_path ← validate_http_path_field "routes.final_app_path" route.final_app_path
    ok (record route { final_app_addr = final_app_addr; final_app_path = final_app_path })

  unfoldable pub validate_routes_from :
      List RouteInput → List Text → List Text → Result DynError (List FinalAppRoute)
  unfolding validate_route
  validate_routes_from [] seen_kids seen_names = ok []
  validate_routes_from (route ∷ routes) seen_kids seen_names = do
    validated ← validate_route route seen_kids seen_names
    rest ← validate_routes_from routes (route.kid ∷ seen_kids) (route.name ∷ seen_names)
    ok (validated ∷ rest)

  unfoldable pub validate_routes : List RouteInput → Result DynError (List FinalAppRoute)
  unfolding validate_routes_from
  validate_routes routes = validate_routes_from routes [] []
