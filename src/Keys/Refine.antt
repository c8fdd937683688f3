-- ===== src/Keys/Refine.antt =====
-- src/ops/keys.rs: proofs about the updates of `KeysDbState` and a map of keys.
use vectis.Base.{
  ℕ, zero, suc, ◌<◌, ◌≡◌, ◌≢◌, inl, inr, refl, sym, ap, ◌∙◌, List, [], ◌∷◌, ◌++◌, Option, some,
  none, arith, if◌then◌else◌, Bool-cases, Option-cases, Text, text_eq, text_eq_iff, length,
  get_elem?, set, get_elem?-append_left, get_elem?-append_end, get_elem?-set_self,
}
use mathlib.Core.Path.{subst}
use vectis.Profiles.{Table, index_get, index_insert, table_get}
use vectis.Profiles.Lookup.{index_get-insert}
use vectis.Keys.State.{LoadedOpsKey, key_id, upsert}

pub get_elem?-bound :
    {A : Type 0} (xs : List A) (i : ℕ) {a : A} → get_elem? xs i ≡ some a → i < length xs
get_elem?-bound [] i h = cc
get_elem?-bound (x ∷ xs) zero h = omega arith
get_elem?-bound (x ∷ xs) (suc i) h = omega (arith, get_elem?-bound xs i h)

pub get_elem?-set_other :
    {A : Type 0} (xs : List A) (i j : ℕ) (v : A) → i ≢ j → get_elem? (set xs i v) j ≡ get_elem? xs j
get_elem?-set_other [] i j v h = refl
get_elem?-set_other (x ∷ xs) zero zero v h = absurd (h refl)
get_elem?-set_other (x ∷ xs) zero (suc j) v h = refl
get_elem?-set_other (x ∷ xs) (suc i) zero v h = refl
get_elem?-set_other (x ∷ xs) (suc i) (suc j) v h = get_elem?-set_other xs i j v (λ e. h (ap suc e))

-- The abstract store and its two updates.
abbrev pub Store : Type 0 → Type 0
Store M = Text → Option (LoadedOpsKey M)

abbrev pub put : {M : Type 0} → Store M → LoadedOpsKey M → Store M
put store key id = if text_eq key.id id then some key else store id

abbrev pub put_absent : {M : Type 0} → Store M → LoadedOpsKey M → Store M
put_absent store key = elim (store key.id) [ none ↦ put store key | some _ ↦ store ]

module _ {M : Type 0} where
  -- The index leads from an identifier to its key's place, and every key is in the index.
  pub record IsIndexed (st : Table (LoadedOpsKey M)) : Type 0 where
    pub found :
        (id : Text) (i : ℕ)
        → index_get id st.by_name ≡ some i
        → (k : LoadedOpsKey M) × (get_elem? st.items i ≡ some k) × (k.id ≡ id)
    pub placed :
        (i : ℕ) (k : LoadedOpsKey M)
        → get_elem? st.items i ≡ some k
        → index_get k.id st.by_name ≡ some i

  -- The two branches of `upsert`.
  pub get_new :
      (st : Table (LoadedOpsKey M)) (key : LoadedOpsKey M) (id : Text)
      → IsIndexed st
      → table_get
          (record {
            items = st.items ++ key ∷ [];
            by_name = index_insert key.id (length st.items) st.by_name;
          })
          id
        ≡ put (table_get st) key id
  unfolding table_get
  get_new st key id s = elim (Bool-cases (text_eq key.id id)) [
    | inl e ↦
        rw (table_get, index_get-insert key.id id (length st.items) st.by_name, e)
          (get_elem?-append_end st.items key)
    | inr e ↦ elim (Option-cases (index_get id st.by_name)) [
      | inl n ↦ rw (table_get, index_get-insert key.id id (length st.items) st.by_name, e, n)
      | inr (i, p) ↦
          let (k, g, _) = s.found id i p in
          rw (table_get, index_get-insert key.id id (length st.items) st.by_name, e, p)
            (get_elem?-append_left st.items (key ∷ []) i (get_elem?-bound st.items i g))
    ]
  ]

  get_replaced :
      (st : Table (LoadedOpsKey M)) (key : LoadedOpsKey M) (id : Text) (i : ℕ)
      → IsIndexed st
      → index_get key.id st.by_name ≡ some i
      → table_get (record st { items = set st.items i key }) id ≡ put (table_get st) key id
  unfolding table_get
  get_replaced st key id i s h =
      let (old, at, same_id) = s.found key.id i h in
      elim (Bool-cases (text_eq key.id id)) [
        | inl e ↦
            let same = (text_eq_iff key.id id).0 e in
            let here : index_get id st.by_name ≡ some i =
              subst (λ z. index_get z st.by_name ≡ some i) same h in
            rw (table_get, e, here)
              (get_elem?-set_self st.items i key (get_elem?-bound st.items i at))
        | inr e ↦ elim (Option-cases (index_get id st.by_name)) [
          | inl n ↦ rw (table_get, e, n)
          | inr (j, p) ↦
              let (k, g, k_id) = s.found id j p in
              let apart : i ≢ j = λ q.
                let both : some old ≡ some k = sym at ∙ ap (get_elem? st.items) q ∙ g in
                let keys : old ≡ k = cc in
                absurd
                  (ground (arith, text_eq_iff key.id id, sym same_id ∙ ap key_id keys ∙ k_id)) in
              rw (table_get, e, p) (get_elem?-set_other st.items i j key apart)
        ]
      ]

  pub table_get-upsert :
      (st : Table (LoadedOpsKey M)) (key : LoadedOpsKey M) (id : Text)
      → IsIndexed st
      → table_get (upsert st key) id ≡ put (table_get st) key id
  unfolding table_get upsert
  table_get-upsert st key id s = elim (Option-cases (index_get key.id st.by_name)) [
    | inl e ↦ rw (upsert, e) (get_new st key id s)
    | inr (i, e) ↦ rw (upsert, e) (get_replaced st key id i s e)
  ]
