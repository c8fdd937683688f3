-- ===== src/Fpe/Alphabet.antt =====
-- src/core/fpe.rs: proofs about `prepare_fpe_alphabet`.
use vectis.Base.{
  ℕ, zero, suc, ◌+◌, ◌≡◌, ◌⊎◌, inl, inr, refl, sym, ap, ◌∙◌, Bool, true, false, ◌||◌, [], ◌∷◌, some,
  arith, ◌==◌, ==_iff, if◌then◌else◌, Bool-cases, Text, contains_char, any, get_elem?,
}
use vectis.Error.{DynError}
use vectis.Error.Result.{ok, >>=-eq-ok, >>-eq-ok, reject-then, ok-injective}
use mathlib.Core.Path.{subst}
use vectis.Validation.Fields.{validate_text_field}
use vectis.Fpe.{
  CharIndex, char_get, char_insert, count_distinct, validate_fpe_alphabet, prepare_index,
  prepare_fpe_alphabet, validate_preserved_characters, validate_preserve_characters,
  alphabet_validation_error,
}

char_get-insert :
    (item other i : ℕ) (m : CharIndex)
    → char_get other (char_insert item i m) ≡ (if item == other then some i else char_get other m)
unfolding char_get char_insert
char_get-insert item other i [] = refl
char_get-insert item other i ((c, j) ∷ m) = ground (arith, char_get-insert item other i m)

-- A text without a repeated character.
abbrev IsDistinct : Text → Type 0
IsDistinct [] = Unit
IsDistinct (c ∷ s) = (contains_char s c ≡ false) × IsDistinct s

contains_char-swap :
    (c d : ℕ) (s : Text) → contains_char (c ∷ s) d ≡ ((c == d) || contains_char s d)
contains_char-swap c d s = refl

count_distinct-fresh :
    (e : DynError) (seen s : Text) (n x : ℕ)
    → count_distinct e seen s ≡ ok n
    → contains_char seen x ≡ true
    → contains_char s x ≡ false
unfolding count_distinct
count_distinct-fresh e seen [] n x h hx = refl
count_distinct-fresh e seen (c ∷ s) n x h hx =
    ground (arith, count_distinct-fresh e (c ∷ seen) s n x)

count_distinct-IsDistinct :
    (e : DynError) (seen s : Text) (n : ℕ) → count_distinct e seen s ≡ ok n → IsDistinct s
unfolding count_distinct
count_distinct-IsDistinct e seen [] n h = tt
count_distinct-IsDistinct e seen (c ∷ s) n h =
    let rest : count_distinct e (c ∷ seen) s ≡ ok n = ground arith in
    (
      count_distinct-fresh e (c ∷ seen) s n c rest (ground arith),
      count_distinct-IsDistinct e (c ∷ seen) s n rest,
    )

prepare_index-keeps :
    (i : ℕ) (s : Text) (m last : CharIndex) (x : ℕ)
    → prepare_index i s m ≡ ok last
    → contains_char s x ≡ false
    → char_get x last ≡ char_get x m
unfolding prepare_index
prepare_index-keeps i [] m last x h hx = ap (char_get x) (sym (ok-injective _ refl h))
prepare_index-keeps i (c ∷ s) m last x h hx =
    prepare_index-keeps (suc i) s (char_insert c i m) last x (reject-then _ _ _ h).1 (ground arith)
    ∙ char_get-insert c x i m
    ∙ ground arith

-- The index finds each character at its place.
prepare_index_complete :
    (i : ℕ) (s : Text) (m last : CharIndex) (c digit : ℕ)
    → prepare_index i s m ≡ ok last
    → IsDistinct s
    → get_elem? s digit ≡ some c
    → char_get c last ≡ some (i + digit)
unfolding prepare_index
prepare_index_complete i [] m last c digit h hd hg = cc
prepare_index_complete i (x ∷ s) m last c zero h hd hg =
    let e : x ≡ c = cc in
    let fresh : contains_char s c ≡ false = subst (λ z. contains_char s z ≡ false) e hd.0 in
    prepare_index-keeps (suc i) s (char_insert x i m) last c (reject-then _ _ _ h).1 fresh
    ∙ char_get-insert x c i m
    ∙ ground arith
prepare_index_complete i (x ∷ s) m last c (suc digit) h hd hg =
    prepare_index_complete (suc i) s (char_insert x i m) last c digit (reject-then _ _ _ h).1 hd.1
      hg
    ∙ ap some (omega arith)

-- The index finds nothing else.
prepare_index_sound :
    (i : ℕ) (s : Text) (m last : CharIndex) (c k : ℕ)
    → prepare_index i s m ≡ ok last
    → char_get c last ≡ some k
    → (char_get c m ≡ some k) ⊎ ((digit : ℕ) × (k ≡ i + digit) × (get_elem? s digit ≡ some c))
unfolding prepare_index
prepare_index_sound i [] m last c k h hk =
    inl (subst (λ z. char_get c z ≡ some k) (sym (ok-injective _ refl h)) hk)
prepare_index_sound i (x ∷ s) m last c k h hk =
    elim (prepare_index_sound (suc i) s (char_insert x i m) last c k (reject-then _ _ _ h).1 hk) [
      | inl e ↦
          let read = sym (char_get-insert x c i m) ∙ e in
          elim (Bool-cases (x == c)) [
            | inl q ↦ inr (0, ground arith, ap some ((==_iff x c).0 q))
            | inr q ↦ inl (ground arith)
          ]
      | inr (digit, e, g) ↦ inr (suc digit, omega arith, g)
    ]

-- From an empty index on.
index_sound :
    (s : Text) (last : CharIndex) (c k : ℕ)
    → prepare_index 0 s [] ≡ ok last
    → char_get c last ≡ some k
    → get_elem? s k ≡ some c
unfolding char_get
index_sound s last c k h hk = elim (prepare_index_sound 0 s [] last c k h hk) [
  | inl e ↦ absurd (ground arith)
  | inr (digit, e, g) ↦
      let same : digit ≡ k = omega arith in subst (λ z. get_elem? s z ≡ some c) same g
]

index_complete :
    (s : Text) (last : CharIndex) (c digit : ℕ)
    → prepare_index 0 s [] ≡ ok last
    → IsDistinct s
    → get_elem? s digit ≡ some c
    → char_get c last ≡ some digit
index_complete s last c digit h hd g =
    prepare_index_complete 0 s [] last c digit h hd g ∙ ap some (omega arith)

validate_fpe_alphabet-IsDistinct :
    (alphabet : Text) (radix : ℕ) → validate_fpe_alphabet alphabet ≡ ok radix → IsDistinct alphabet
unfolding validate_fpe_alphabet
validate_fpe_alphabet-IsDistinct alphabet radix h =
    let (_, h1) = >>-eq-ok (validate_text_field "fpe_profiles.alphabet" alphabet) _ h in
    let e =
      alphabet_validation_error "fpe_profiles.alphabet must not contain duplicate characters"
        (some alphabet) in
    let (n, count, _) = >>=-eq-ok (count_distinct e [] alphabet) _ h1 in
    count_distinct-IsDistinct e [] alphabet n count

-- What the round trip needs of a prepared alphabet and the characters that are preserved.
pub record IsReady (chars : Text) (index : CharIndex) (preserved : Text) : Type 0 where
  pub to_char : (c digit : ℕ) → char_get c index ≡ some digit → get_elem? chars digit ≡ some c
  pub to_digit : (c digit : ℕ) → get_elem? chars digit ≡ some c → char_get c index ≡ some digit
  pub disjoint : (c digit : ℕ) → get_elem? chars digit ≡ some c → contains_char preserved c ≡ false

any-false-at :
    (p : ℕ → Bool) (s : Text) (i c : ℕ) → any p s ≡ false → get_elem? s i ≡ some c → p c ≡ false
any-false-at p [] i c h g = cc
any-false-at p (x ∷ s) zero c h g = let e : x ≡ c = cc in subst (λ z. p z ≡ false) e (ground arith)
any-false-at p (x ∷ s) (suc i) c h g = any-false-at p s i c (ground arith) g

-- An alphabet that the validation accepts, prepared, is ready together with preserved characters
-- that the validation accepts for it.
pub prepare-IsReady :
    (alphabet chars value preserved : Text) (radix : ℕ) (index : CharIndex)
    → validate_fpe_alphabet alphabet ≡ ok radix
    → prepare_fpe_alphabet alphabet ≡ ok (chars, index)
    → validate_preserved_characters alphabet value ≡ ok preserved
    → IsReady chars index preserved
unfolding prepare_fpe_alphabet validate_preserved_characters
prepare-IsReady alphabet chars value preserved radix index ha hp hv =
    let distinct = validate_fpe_alphabet-IsDistinct alphabet radix ha in
    let (last, prepared, p1) = >>=-eq-ok (prepare_index 0 alphabet []) _ hp in
    let pair = ok-injective _ refl p1 in
    let chars_eq : alphabet ≡ chars = ap (λ (x : Text × CharIndex). x.0) pair in
    let index_eq : last ≡ index = ap (λ (x : Text × CharIndex). x.1) pair in
    let (_, v1) = >>-eq-ok (validate_preserve_characters value) _ hv in
    let (apart, v2) = reject-then (any (contains_char value) alphabet) _ _ v1 in
    let value_eq : value ≡ preserved = ok-injective _ refl v2 in
    subst (λ t. IsReady t index preserved) chars_eq
      (subst (λ t. IsReady alphabet t preserved) index_eq
        (subst (IsReady alphabet last) value_eq (record {
          to_char = λ c digit h. index_sound alphabet last c digit prepared h;
          to_digit = λ c digit h. index_complete alphabet last c digit prepared distinct h;
          disjoint = λ c digit h. any-false-at (contains_char value) alphabet digit c apart h;
        })))
