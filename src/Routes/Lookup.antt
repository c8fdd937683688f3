-- ===== src/Routes/Lookup.antt =====
-- src/core/routes.rs: proofs about `validate_routes` and `route_for`.
use vectis.Base.{
  ℕ, zero, suc, ◌≡◌, inl, inr, refl, sym, Bool, true, false, not, List, [], ◌∷◌, some, arith,
  Bool-cases, Option-cases, String, Text, text_eq, text_eq_iff, text_eq_refl, contains, find,
  get_elem?,
}
use vectis.Error.{invalid_input}
use vectis.Error.Result.{ok, reject, map_err, reject-ok, >>-eq-ok, with_ok}
use mathlib.Core.Path.{subst}
use vectis.Keys.Id.{validate_key_id}
use vectis.Validation.Fields.{validate_text_field, validate_config_name}
use vectis.Validation.Hosts.{Parsers, validate_host_port, rsplit_once}
use vectis.Routes.{
  FinalAppRoute, RouteInput, route_for, validate_http_path_field, validate_route,
  validate_routes_from, validate_routes,
}

http_path-same :
    (field : String) (value path : Text)
    → validate_http_path_field field value ≡ ok path
    → path ≡ value
unfolding validate_http_path_field
http_path-same field value path h =
    with_ok (validate_text_field field value) _ h (λ _ _ h. sym (ground (arith, h)))

host_port-same :
    (parsers : Parsers) (field : String) (value address : Text)
    → validate_host_port parsers field value ≡ ok address
    → address ≡ value
unfolding validate_host_port
host_port-same parsers field value address h =
    with_ok (validate_text_field field value) _ h (λ _ _ h.
      elim (Bool-cases (parsers.is_socket_address value)) [
        | inl e ↦ sym (ground (arith, h, e))
        | inr e ↦ elim (Option-cases (rsplit_once b':' value)) [
          | inl n ↦ absurd (ground (arith, h, e, n))
          | inr (parts, n) ↦ elim (Option-cases (parsers.parse_u16 parts.1)) [
            | inl u ↦ absurd (ground (arith, h, e, n, u))
            | inr (port, u) ↦ sym (ground (arith, h, e, n, u))
          ]
        ]
      ])

module _ (parsers : Parsers) (is_loaded_kid : Text → Bool) where
  -- A route that is accepted is unchanged, and its identifier is loaded and new.
  validate_route-parts :
      (route : RouteInput) (kids names : List Text) (validated : FinalAppRoute)
      → validate_route parsers is_loaded_kid route kids names ≡ ok validated
      → (validated ≡ route) × (is_loaded_kid route.kid ≡ true) × (contains kids route.kid ≡ false)
  unfolding validate_route
  validate_route-parts route kids names validated h =
      with_ok (map_err (λ _. invalid_input "routes.kid is invalid") (validate_key_id route.kid)) _ h
        (λ _ _ h.
          let (loaded, h) = >>-eq-ok (reject (not (is_loaded_kid route.kid)) _) _ h in
          let (fresh, h) = >>-eq-ok (reject (contains kids route.kid) _) _ h in
          with_ok (validate_config_name "routes.name" route.name) _ h (λ _ _ h.
            let (_, h) = >>-eq-ok (reject (contains names route.name) _) _ h in
            with_ok (validate_host_port parsers "routes.final_app_addr" route.final_app_addr) _ h
              (λ address address_ok h.
                with_ok (validate_http_path_field "routes.final_app_path" route.final_app_path) _ h
                  (λ path path_ok h.
                    let a =
                      host_port-same parsers "routes.final_app_addr" route.final_app_addr address
                        address_ok in
                    let p =
                      http_path-same "routes.final_app_path" route.final_app_path path path_ok in
                    let l = reject-ok (not (is_loaded_kid route.kid)) _ loaded in
                    (
                      cc (h, a, p),
                      ground (arith, l),
                      reject-ok (contains kids route.kid) _ fresh,
                    )))))

  routes-parts :
      (route : RouteInput) (routes : List RouteInput) (kids names : List Text)
      (validated : List FinalAppRoute)
      → validate_routes_from parsers is_loaded_kid (route ∷ routes) kids names ≡ ok validated
      → (rest : List FinalAppRoute) × (validated ≡ route ∷ rest)
        × (is_loaded_kid route.kid ≡ true)
        × (contains kids route.kid ≡ false)
        × (validate_routes_from parsers is_loaded_kid routes (route.kid ∷ kids) (route.name ∷ names)
            ≡ ok rest)
  unfolding validate_routes_from
  routes-parts route routes kids names validated h =
      with_ok (validate_route parsers is_loaded_kid route kids names) _ h (λ first first_ok h.
        with_ok
          (validate_routes_from parsers is_loaded_kid routes (route.kid ∷ kids)
            (route.name ∷ names))
          _ h
          (λ rest rest_ok h.
            let (same, loaded, fresh) = validate_route-parts route kids names first first_ok in
            (rest, cc (h, same), loaded, fresh, rest_ok)))

  routes-unseen :
      (routes : List RouteInput) (kids names : List Text) (validated : List FinalAppRoute) (i : ℕ)
      (r : RouteInput)
      → validate_routes_from parsers is_loaded_kid routes kids names ≡ ok validated
      → get_elem? routes i ≡ some r
      → contains kids r.kid ≡ false
  routes-unseen [] kids names validated i r h g = absurd (cc (g))
  routes-unseen (route ∷ routes) kids names validated zero r h g =
      let (_, _, _, fresh, _) = routes-parts route routes kids names validated h in
      let same : route ≡ r = cc (g) in subst (λ z. contains kids z.kid ≡ false) same fresh
  routes-unseen (route ∷ routes) kids names validated (suc i) r h g =
      let (rest, _, _, _, rest_ok) = routes-parts route routes kids names validated h in
      let later = routes-unseen routes (route.kid ∷ kids) (route.name ∷ names) rest i r rest_ok g in
      ground arith

  routes-found :
      (routes : List RouteInput) (kids names : List Text) (validated : List FinalAppRoute) (i : ℕ)
      (r : RouteInput)
      → validate_routes_from parsers is_loaded_kid routes kids names ≡ ok validated
      → get_elem? routes i ≡ some r
      → (find (λ (z : FinalAppRoute). text_eq z.kid r.kid) validated ≡ some r)
        × (is_loaded_kid r.kid ≡ true)
  routes-found [] kids names validated i r h g = absurd (cc (g))
  routes-found (route ∷ routes) kids names validated zero r h g =
      let (rest, listed, loaded, _, _) = routes-parts route routes kids names validated h in
      let same : route ≡ r = cc (g) in
      (
        subst (λ vs. find (λ (z : FinalAppRoute). text_eq z.kid r.kid) vs ≡ some r) (sym listed)
            (subst (λ q. find (λ (z : FinalAppRoute). text_eq z.kid q.kid) (route ∷ rest) ≡ some q)
              same (rw (find, text_eq_refl route.kid) refl)),
        subst (λ z. is_loaded_kid z.kid ≡ true) same loaded,
      )
  routes-found (route ∷ routes) kids names validated (suc i) r h g =
      let (rest, listed, _, _, rest_ok) = routes-parts route routes kids names validated h in
      let (found, loaded) =
        routes-found routes (route.kid ∷ kids) (route.name ∷ names) rest i r rest_ok g in
      let unseen =
        routes-unseen routes (route.kid ∷ kids) (route.name ∷ names) rest i r rest_ok g in
      let other : text_eq route.kid r.kid ≡ false =
        ground (arith, text_eq_iff route.kid r.kid, text_eq_iff r.kid route.kid, unseen) in
      (
        subst (λ vs. find (λ (z : FinalAppRoute). text_eq z.kid r.kid) vs ≡ some r) (sym listed)
            (rw (find, other) found),
        loaded,
      )

  -- Where the validation accepts the routes: the identifier of each configured route is loaded, and
  -- the state of the validated routes sends it to the route as it was configured.
  pub route_for-validate_routes :
      (routes : List RouteInput) (validated : List FinalAppRoute) (addr path : Text) (i : ℕ)
      (route : RouteInput)
      → validate_routes parsers is_loaded_kid routes ≡ ok validated
      → get_elem? routes i ≡ some route
      → (is_loaded_kid route.kid ≡ true)
        × (route_for
              (record { default_addr = addr; default_path = path; routes = validated })
              route.kid
            ≡ route)
  unfolding validate_routes route_for
  route_for-validate_routes routes validated addr path i route h g =
      let (found, loaded) = routes-found routes [] [] validated i route h g in
      (loaded, rw (route_for, found) refl)
