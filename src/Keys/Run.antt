-- ===== src/Keys/Run.antt =====
-- src/ops/keys.rs: proofs about a run of updates from the loaded keys.
use vectis.Base.{
  ℕ, suc, ◌≡◌, inl, inr, refl, sym, ◌∙◌, Bool, true, false, List, [], ◌∷◌, ◌++◌, append-nil,
  append_assoc, some, none, arith, Bool-cases, Option-cases, Text, text_eq, text_eq_iff, any, find,
  All, length, length-append,
}
use mathlib.Core.Path.{subst}
use vectis.Profiles.{Table, Index, index_get, index_insert, collect, from_items, table_get}
use vectis.Profiles.Lookup.{index_get-insert, IsDistinct, table_get-from_items}
use vectis.Keys.State.{LoadedOpsKey, key_id, from_keys, contains_id, upsert, insert_if_absent}
use vectis.Keys.Refine.{IsIndexed, Store, put, put_absent, table_get-upsert}
use vectis.Keys.Store.{appended, appended-IsIndexed, upsert-IsIndexed}

-- An update that a request makes: a reload of a key, or the load of a key that may be there.
pub data Update (M : Type 0) : Type 0 where
  upserts inserts : LoadedOpsKey M → Update M

module _ {M : Type 0} where
  abbrev pub update : Table (LoadedOpsKey M) → Update M → Table (LoadedOpsKey M)
  update st (upserts key) = upsert st key
  update st (inserts key) = (insert_if_absent st key).0

  abbrev pub updates : Table (LoadedOpsKey M) → List (Update M) → Table (LoadedOpsKey M)
  updates st [] = st
  updates st (u ∷ us) = updates (update st u) us

  abbrev pub store_update : Store M → Update M → Store M
  store_update store (upserts key) = put store key
  store_update store (inserts key) = put_absent store key

  abbrev pub store_updates : Store M → List (Update M) → Store M
  store_updates store [] = store
  store_updates store (u ∷ us) = store_updates (store_update store u) us

  contains_id-get :
      (st : Table (LoadedOpsKey M)) (id : Text)
      → IsIndexed st
      → (elim (table_get st id) as (λ _. Bool) [ none ↦ false | some _ ↦ true ]) ≡ contains_id st id
  unfolding contains_id table_get
  contains_id-get st id s = elim (Option-cases (index_get id st.by_name)) [
    | inl e ↦ rw (table_get, contains_id, e)
    | inr (i, e) ↦ let (k, g, _) = s.found id i e in rw (table_get, contains_id, e, g)
  ]

  insert_if_absent-get :
      (st : Table (LoadedOpsKey M)) (key : LoadedOpsKey M) (id : Text)
      → IsIndexed st
      → table_get (insert_if_absent st key).0 id ≡ put_absent (table_get st) key id
  unfolding insert_if_absent
  insert_if_absent-get st key id s =
      let there = contains_id-get st key.id s in
      elim (Option-cases (table_get st key.id)) [
        | inl e ↦
            let absent : contains_id st key.id ≡ false = sym there ∙ ground (arith, e) in
            rw (insert_if_absent, put_absent, absent, e) (table_get-upsert st key id s)
        | inr (k, e) ↦
            let present : contains_id st key.id ≡ true = sym there ∙ ground (arith, e) in
            rw (insert_if_absent, put_absent, present, e)
      ]

  update-IsIndexed :
      (st : Table (LoadedOpsKey M)) (u : Update M) → IsIndexed st → IsIndexed (update st u)
  unfolding insert_if_absent
  update-IsIndexed st (upserts key) s = upsert-IsIndexed st key s
  update-IsIndexed st (inserts key) s = elim (Bool-cases (contains_id st key.id)) [
    | inl e ↦ rw (update, insert_if_absent, e) s
    | inr e ↦ rw (update, insert_if_absent, e) (upsert-IsIndexed st key s)
  ]

  updates-IsIndexed :
      (us : List (Update M)) (st : Table (LoadedOpsKey M))
      → IsIndexed st
      → IsIndexed (updates st us)
  updates-IsIndexed [] st s = s
  updates-IsIndexed (u ∷ us) st s = updates-IsIndexed us (update st u) (update-IsIndexed st u s)

  update-get :
      (st : Table (LoadedOpsKey M)) (u : Update M) (store : Store M)
      → IsIndexed st
      → ((id : Text) → table_get st id ≡ store id)
      → (id : Text) → table_get (update st u) id ≡ store_update store u id
  update-get st (upserts key) store s h id = table_get-upsert st key id s ∙ ground (arith, h id)
  update-get st (inserts key) store s h id =
      insert_if_absent-get st key id s ∙ ground (arith, h id, h key.id)

  updates-get :
      (us : List (Update M)) (st : Table (LoadedOpsKey M)) (store : Store M)
      → IsIndexed st
      → ((id : Text) → table_get st id ≡ store id)
      → (id : Text) → table_get (updates st us) id ≡ store_updates store us id
  updates-get [] st store s h id = h id
  updates-get (u ∷ us) st store s h id =
      updates-get us (update st u) (store_update store u) (update-IsIndexed st u s)
        (update-get st u store s h) id

  -- The keys that are still to come are not in the index yet.
  AreNew : List (LoadedOpsKey M) → Index → Type 0
  AreNew keys m = All (λ (k : LoadedOpsKey M). index_get k.id m ≡ none) keys

  AreNew-insert :
      (keys : List (LoadedOpsKey M)) (id : Text) (i : ℕ) (m : Index)
      → any (λ (k : LoadedOpsKey M). text_eq k.id id) keys ≡ false
      → AreNew keys m
      → AreNew keys (index_insert id i m)
  unfolding AreNew
  AreNew-insert [] id i m h n = tt
  AreNew-insert (k ∷ keys) id i m h n = (
    index_get-insert id k.id i m ∙ ground (arith, text_eq_iff k.id id, text_eq_iff id k.id, n.0),
    AreNew-insert keys id i m (ground arith) n.1,
  )

  collect-IsIndexed :
      (keys : List (LoadedOpsKey M)) (st : Table (LoadedOpsKey M))
      → IsDistinct key_id keys
      → AreNew keys st.by_name
      → IsIndexed st
      → IsIndexed (record {
        items = st.items ++ keys;
        by_name = collect key_id (length st.items) keys st.by_name;
      })
  unfolding collect AreNew appended
  collect-IsIndexed [] st d n s =
      subst (λ z. IsIndexed (record { items = z; by_name = st.by_name }))
        (sym (append-nil st.items)) s
  collect-IsIndexed (k ∷ keys) st d n s =
      let next =
        collect-IsIndexed keys (appended st k) d.1
          (AreNew-insert keys k.id (length st.items) st.by_name d.0 n.1)
          (appended-IsIndexed st k s n.0) in
      let count : length (st.items ++ k ∷ []) ≡ suc (length st.items) =
        omega (arith, length-append st.items (k ∷ [])) in
      let m = index_insert k.id (length st.items) st.by_name in
      subst
        (λ z.
          IsIndexed (record { items = z; by_name = collect key_id (suc (length st.items)) keys m }))
        (append_assoc st.items (k ∷ []) keys)
        (subst
          (λ z.
            IsIndexed
              (record { items = (st.items ++ k ∷ []) ++ keys; by_name = collect key_id z keys m }))
          count next)

  pub from_keys-IsIndexed :
      (keys : List (LoadedOpsKey M)) → IsDistinct key_id keys → IsIndexed (from_keys keys)
  unfolding from_keys from_items AreNew index_get
  from_keys-IsIndexed keys d =
      collect-IsIndexed keys (record { items = []; by_name = [] }) d (none_yet keys)
        (record {
          found = λ id i p. absurd (ground arith);
          placed = λ i k g. absurd (ground arith);
        })
    where
      none_yet : (ks : List (LoadedOpsKey M)) → AreNew ks []
      none_yet [] = tt
      none_yet (x ∷ xs) = (refl, none_yet xs)

  -- From keys with distinct identifiers, after any updates, a lookup finds what the same updates
  -- of the map from identifiers to keys leave there, and the keys in memory still have distinct
  -- places for distinct identifiers.
  pub updates-refine :
      (keys : List (LoadedOpsKey M)) (us : List (Update M))
      → IsDistinct key_id keys
      → ((id : Text)
          → table_get (updates (from_keys keys) us) id
            ≡ store_updates (λ key. find (λ (k : LoadedOpsKey M). text_eq k.id key) keys) us id)
        × IsIndexed (updates (from_keys keys) us)
  unfolding from_keys
  updates-refine keys us d = (
    updates-get us (from_keys keys) (λ key. find (λ (k : LoadedOpsKey M). text_eq k.id key) keys)
        (from_keys-IsIndexed keys d) (λ id. table_get-from_items key_id keys id d),
    updates-IsIndexed us (from_keys keys) (from_keys-IsIndexed keys d),
  )
