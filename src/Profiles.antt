-- ===== src/Profiles.antt =====
-- The table behind every profile state (src/core/masking.rs, src/core/fpe.rs, src/core/sharing.rs,
-- src/core/permissions.rs, src/core/remote_routes.rs and src/ops/keys.rs): a vector of items and a
-- `HashMap` from an item's name to its place.
pub mod Lookup
use vectis.Base.{
  ℕ, zero, suc, ◌+◌, ◌-◌, ◌*◌, ◌/◌, ◌%◌, ◌^◌, ◌≤◌, ◌<◌, ◌≡◌, ◌≢◌, ◌↔◌, ◌⊎◌, inl, inr, refl, sym, ap,
  ◌∙◌, Bool, true, false, not, ◌&&◌, ◌||◌, List, [], ◌∷◌, ◌++◌, map, append-nil, append_assoc,
  Option, some, none, arith, ltb, leb, ltb→lt, lt→ltb, leb→le, le→leb, ltb-false, le→ltb-false,
  tests, ◌==◌, ==_iff, if◌then◌else◌, Bool-cases, Option-cases, &&_true, String, Text, codes,
  text_eq, text_eq_iff, text_eq_refl, contains, contains_char, all, any, find, All, length,
  get_elem?, set, take, drop, replicate, length-append, length-take, length-drop, length-replicate,
  length-map, min, get_elem?-append_left, get_elem?-append_end, length-set, get_elem?-set_self,
}
use vectis.Error.{
  DynError, invalid_input, not_found, conflict, forbidden, internal, overloaded, concat,
  with_prefix,
}
use vectis.Error.Result.{
  Result, ok, err, ◌>>=◌, ◌>>◌, reject, map_err, is_ok, >>=-eq-ok, Result-cases, reject-ok,
}

-- `HashMap<String, usize>`: `insert` replaces the value of a key that is there.
abbrev pub Index : Type 0
Index = List (Text × ℕ)

unfoldable pub index_get : Text → Index → Option ℕ
index_get key [] = none
index_get key ((k, i) ∷ m) = if text_eq k key then some i else index_get key m

unfoldable pub index_insert : Text → ℕ → Index → Index
index_insert key i [] = (key, i) ∷ []
index_insert key i ((k, j) ∷ m) =
    let rest = index_insert key i m in if text_eq k key then (k, i) ∷ m else (k, j) ∷ rest

module _ {A : Type 0} (name : A → Text) where
  -- `iter().enumerate().map(|(index, item)| (item.name.clone(), index)).collect()`
  unfoldable pub collect : ℕ → List A → Index → Index
  collect i [] m = m
  collect i (x ∷ xs) m = collect (suc i) xs (index_insert (name x) i m)

-- A state: the items and the index by name.
pub record Table (A : Type 0) : Type 0 where
  pub items : List A
  pub by_name : Index

module _ {A : Type 0} (name : A → Text) where
  unfoldable pub from_items : List A → Table A
  unfolding collect
  from_items xs = record { items = xs; by_name = collect name 0 xs [] }

module _ {A : Type 0} where
  -- `by_name.get(name).and_then(|index| items.get(*index))`
  unfoldable pub table_get : Table A → Text → Option A
  table_get t key = elim (index_get key t.by_name) [ none ↦ none | some i ↦ get_elem? t.items i ]
