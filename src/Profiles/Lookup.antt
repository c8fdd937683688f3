-- ===== src/Profiles/Lookup.antt =====
-- Proofs about the table's lookup.
use vectis.Base.{
  contains, All, ℕ, suc, ◌+◌, ◌≡◌, inl, inr, refl, ap, ◌∙◌, true, false, List, [], ◌∷◌, Option,
  some, none, arith, if◌then◌else◌, Bool-cases, Text, text_eq, text_eq_iff, text_eq_refl, any, find,
  get_elem?,
}
use vectis.Profiles.{Index, index_get, index_insert, collect, from_items, table_get}

pub index_get-insert :
    (k j : Text) (i : ℕ) (m : Index)
    → index_get j (index_insert k i m) ≡ (if text_eq k j then some i else index_get j m)
unfolding index_get index_insert
index_get-insert k j i [] = refl
index_get-insert k j i ((n, v) ∷ m) = ground (
  arith,
  index_get-insert k j i m,
  text_eq_iff n k,
  text_eq_iff n j,
  text_eq_iff k j,
  text_eq_refl k,
  text_eq_refl j,
)

module _ {A : Type 0} (name : A → Text) where
  -- No name occurs twice.
  abbrev pub IsDistinct : List A → Type 0
  IsDistinct [] = Unit
  IsDistinct (x ∷ xs) = (any (λ y. text_eq (name y) (name x)) xs ≡ false) × IsDistinct xs

  -- The place of the last item of a name.
  unfoldable pub last_index : List A → Text → Option ℕ
  last_index [] key = none
  last_index (x ∷ xs) key = elim (last_index xs key) [
    | some j ↦ some (suc j)
    | none ↦ if text_eq (name x) key then some 0 else none
  ]

  unfoldable pub shifted : ℕ → Option ℕ → Option ℕ → Option ℕ
  shifted i (some j) b = some (i + j)
  shifted i none b = b

  index_get-collect :
      (i : ℕ) (xs : List A) (m : Index) (key : Text)
      → index_get key (collect name i xs m) ≡ shifted i (last_index xs key) (index_get key m)
  unfolding collect last_index shifted
  index_get-collect i [] m key = refl
  index_get-collect i (x ∷ xs) m key =
      index_get-collect (suc i) xs (index_insert (name x) i m) key
      ∙ ground (arith, index_get-insert (name x) key i m)

  last_index-absent :
      (xs : List A) (key : Text)
      → any (λ y. text_eq (name y) key) xs ≡ false
      → last_index xs key ≡ none
  unfolding last_index
  last_index-absent [] key h = refl
  last_index-absent (x ∷ xs) key h = ground (arith, last_index-absent xs key)

  pub fetch : List A → Option ℕ → Option A
  fetch xs none = none
  fetch xs (some i) = get_elem? xs i

  any-same_name :
      (x : A) (xs : List A) (key : Text)
      → text_eq (name x) key ≡ true
      → any (λ y. text_eq (name y) (name x)) xs ≡ false
      → any (λ y. text_eq (name y) key) xs ≡ false
  any-same_name x xs key e h = rw (← (text_eq_iff (name x) key).0 e) h

  pub fetch-last_index :
      (xs : List A) (key : Text)
      → IsDistinct xs
      → fetch xs (last_index xs key) ≡ find (λ y. text_eq (name y) key) xs
  unfolding last_index fetch
  fetch-last_index [] key d = refl
  fetch-last_index (x ∷ xs) key d = elim (Bool-cases (text_eq (name x) key)) [
    | inl e ↦ ground (arith, last_index-absent xs key (any-same_name x xs key e d.0))
    | inr e ↦ ground (arith, fetch-last_index xs key d.1)
  ]

  pub read_shifted :
      (xs : List A) (o : Option ℕ)
      → (elim (shifted 0 o none) as (λ _. Option A) [ none ↦ none | some i ↦ get_elem? xs i ])
        ≡ fetch xs o
  unfolding shifted fetch
  read_shifted xs none = refl
  read_shifted xs (some j) = ap (get_elem? xs) (omega arith)

  -- Where no name occurs twice, `get` finds the item of a name, and nothing where there is none.
  pub table_get-from_items :
      (xs : List A) (key : Text)
      → IsDistinct xs
      → table_get (from_items name xs) key ≡ find (λ y. text_eq (name y) key) xs
  unfolding table_get from_items index_get
  table_get-from_items xs key d =
      rw (index_get-collect 0 xs [] key, table_get) (read_shifted xs (last_index xs key))
      ∙ fetch-last_index xs key d

  -- The loops that fill a table keep the names seen so far, and no later name is among them.
  abbrev pub Fresh : List Text → List A → Type 0
  Fresh seen = All (λ x. contains seen (name x) ≡ false)

  pub Fresh-tail :
      (key : Text) (seen : List Text) (xs : List A)
      → Fresh (key ∷ seen) xs
      → Fresh seen xs × (any (λ y. text_eq (name y) key) xs ≡ false)
  Fresh-tail key seen [] h = (tt, refl)
  Fresh-tail key seen (x ∷ xs) h =
      let (a, b) = Fresh-tail key seen xs h.1 in
      ((ground arith, a), ground (arith, text_eq_iff key (name x), text_eq_iff (name x) key))
