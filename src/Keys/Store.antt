-- ===== src/Keys/Store.antt =====
-- src/ops/keys.rs: proofs about the index of `KeysDbState`.
use vectis.Base.{
  ℕ, zero, suc, ◌≡◌, ◌⊎◌, inl, inr, refl, sym, ap, ◌∙◌, false, List, [], ◌∷◌, ◌++◌, some, none,
  arith, ◌==◌, ==_iff, Bool-cases, Option-cases, Text, text_eq, text_eq_iff, text_eq_refl, length,
  get_elem?, set, get_elem?-append_left, get_elem?-append_end, get_elem?-set_self,
}
use mathlib.Core.Path.{subst}
use vectis.Profiles.{Table, index_get, index_insert}
use vectis.Profiles.Lookup.{index_get-insert}
use vectis.Keys.State.{LoadedOpsKey, key_id, upsert}
use vectis.Keys.Refine.{IsIndexed, get_elem?-bound, get_elem?-set_other}

get_elem?-append_cases :
    {A : Type 0} (xs : List A) (v : A) (i : ℕ) {a : A}
    → get_elem? (xs ++ v ∷ []) i ≡ some a
    → (get_elem? xs i ≡ some a) ⊎ ((i ≡ length xs) × (a ≡ v))
get_elem?-append_cases [] v zero h = inr (refl, cc)
get_elem?-append_cases [] v (suc i) h = cc
get_elem?-append_cases (x ∷ xs) v zero h = inl h
get_elem?-append_cases (x ∷ xs) v (suc i) h = elim (get_elem?-append_cases xs v i h) [
  | inl e ↦ inl e
  | inr (e, s) ↦ inr (ap suc e, s)
]

module _ {M : Type 0} where
  unfoldable pub appended : Table (LoadedOpsKey M) → LoadedOpsKey M → Table (LoadedOpsKey M)
  appended st key = record {
    items = st.items ++ key ∷ [];
    by_name = index_insert key.id (length st.items) st.by_name;
  }

  pub appended-IsIndexed :
      (st : Table (LoadedOpsKey M)) (key : LoadedOpsKey M)
      → IsIndexed st
      → index_get key.id st.by_name ≡ none
      → IsIndexed (appended st key)
  unfolding appended
  appended-IsIndexed st key s h =
      let read = λ (id : Text). index_get-insert key.id id (length st.items) st.by_name in
      record {
        found = λ id i p. elim (Bool-cases (text_eq key.id id)) [
          | inl e ↦
              let n : i ≡ length st.items = ground (arith, read id) in
              (
                key,
                ap (get_elem? (st.items ++ key ∷ [])) n ∙ get_elem?-append_end st.items key,
                (text_eq_iff key.id id).0 e,
              )
          | inr e ↦
              let (k, g, k_id) = s.found id i (ground (arith, read id)) in
              (
                k,
                get_elem?-append_left st.items (key ∷ []) i (get_elem?-bound st.items i g) ∙ g,
                k_id,
              )
        ];
        placed = λ i k g. elim (get_elem?-append_cases st.items key i g) [
          | inl old ↦
              let at = s.placed i k old in
              let apart : text_eq key.id k.id ≡ false = elim (Bool-cases (text_eq key.id k.id)) [
                | inr e ↦ e
                | inl e ↦
                    let same = (text_eq_iff key.id k.id).0 e in
                    absurd (ground (arith, sym (ap (λ z. index_get z st.by_name) same) ∙ h))
              ] in
              read k.id ∙ ground arith
          | inr (n, same) ↦
              subst (λ (z : LoadedOpsKey M). index_get z.id (appended st key).by_name ≡ some i)
                (sym same) (read key.id ∙ ground (arith, text_eq_refl key.id))
        ];
      }

  replaced-IsIndexed :
      (st : Table (LoadedOpsKey M)) (key : LoadedOpsKey M) (i : ℕ)
      → IsIndexed st
      → index_get key.id st.by_name ≡ some i
      → IsIndexed (record st { items = set st.items i key })
  replaced-IsIndexed st key i s h =
      let (old, at, old_id) = s.found key.id i h in
      let bound = get_elem?-bound st.items i at in
      record {
        found = λ id j p. elim (Bool-cases (i == j)) [
          | inl e ↦
              let same = (==_iff i j).0 e in
              let (k, g, k_id) = s.found id j p in
              let one : some old ≡ some k = sym at ∙ ap (get_elem? st.items) same ∙ g in
              let keys : old ≡ k = cc in
              (
                key,
                subst (λ z. get_elem? (set st.items i key) z ≡ some key) same
                    (get_elem?-set_self st.items i key bound),
                sym old_id ∙ ap key_id keys ∙ k_id,
              )
          | inr e ↦
              let (k, g, k_id) = s.found id j p in
              (k, get_elem?-set_other st.items i j key (λ q. ground (arith, ==_iff i j)) ∙ g, k_id)
        ];
        placed = λ j k g. elim (Bool-cases (i == j)) [
          | inl e ↦
              let same = (==_iff i j).0 e in
              let one : some key ≡ some k =
                sym (get_elem?-set_self st.items i key bound)
                ∙ ap (get_elem? (set st.items i key)) same
                ∙ g in
              let keys : key ≡ k = cc in
              subst (λ (z : LoadedOpsKey M). index_get z.id st.by_name ≡ some j) keys
                (h ∙ ap some same)
          | inr e ↦
              s.placed j k
                (sym (get_elem?-set_other st.items i j key (λ q. ground (arith, ==_iff i j))) ∙ g)
        ];
      }

  pub upsert-IsIndexed :
      (st : Table (LoadedOpsKey M)) (key : LoadedOpsKey M)
      → IsIndexed st
      → IsIndexed (upsert st key)
  unfolding upsert appended
  upsert-IsIndexed st key s = elim (Option-cases (index_get key.id st.by_name)) [
    | inl e ↦ rw (upsert, e) (appended-IsIndexed st key s e)
    | inr (i, e) ↦ rw (upsert, e) (replaced-IsIndexed st key i s e)
  ]
