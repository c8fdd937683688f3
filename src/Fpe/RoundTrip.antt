-- ===== src/Fpe/RoundTrip.antt =====
-- src/core/fpe.rs: proofs about a value's way into digits and back.
use vectis.Base.{
  ℕ, zero, suc, ◌≤◌, ◌<◌, ◌≡◌, ◌⊎◌, inl, inr, refl, sym, ap, ◌∙◌, true, false, List, [], ◌∷◌,
  Option, some, none, arith, ==_iff, String, Text, contains_char, All, length, get_elem?,
}
use vectis.Error.{DynError}
use vectis.Error.Result.{ok, err, if-ok, ok-injective}
use mathlib.Core.Path.{subst}
use vectis.Fpe.{FpeProfile, char_get}
use vectis.Fpe.Alphabet.{IsReady}
use vectis.Fpe.Transform.{Parsed, add_preserved, add_digit, parse_chars, peek, rebuild}

abbrev pub IsNumerals : ℕ → List ℕ → Type 0
IsNumerals radix = All (λ digit. digit < radix)

get_elem?-below : (s : Text) (i : ℕ) → i < length s → (c : ℕ) × (get_elem? s i ≡ some c)
get_elem?-below [] i h = absurd (omega arith)
get_elem?-below (c ∷ s) zero h = (c, refl)
get_elem?-below (c ∷ s) (suc i) h = get_elem?-below s i (omega arith)

below-get_elem? : (s : Text) (i c : ℕ) → get_elem? s i ≡ some c → i < length s
below-get_elem? [] i c h = cc
below-get_elem? (x ∷ s) zero c h = omega arith
below-get_elem? (x ∷ s) (suc i) c h = omega (arith, below-get_elem? s i c h)

-- The preserved characters that a parse from a position returns lie at that position or later.
abbrev IsFrom : ℕ → List (ℕ × ℕ) → Type 0
IsFrom position [] = Unit
IsFrom position ((at, item) ∷ _) = position ≤ at

peek-IsFrom :
    (position : ℕ) (pv : List (ℕ × ℕ)) → IsFrom (suc position) pv → peek position pv ≡ none
unfolding peek
peek-IsFrom position [] h = refl
peek-IsFrom position ((at, item) ∷ pv) h = ground arith

IsFrom-weaken : (position : ℕ) (pv : List (ℕ × ℕ)) → IsFrom (suc position) pv → IsFrom position pv
IsFrom-weaken position [] h = tt
IsFrom-weaken position ((at, item) ∷ pv) h = omega arith

module _ (profile : FpeProfile)
    (ready : IsReady profile.alphabet_chars profile.alphabet_index profile.preserved) where
  abbrev pub radix : ℕ
  radix = length profile.alphabet_chars

  -- How a parse of a value takes its first character.
  First : String → ℕ → ℕ → Text → List ℕ → List (ℕ × ℕ) → Type 0
  First field position item items ds pv =
      ((more : List (ℕ × ℕ)) × (contains_char profile.preserved item ≡ true)
        × (pv ≡ (position, item) ∷ more)
        × (parse_chars field profile (suc position) items ≡ ok (ds, more)))
      ⊎ ((digit : ℕ) × (more : List ℕ) × (contains_char profile.preserved item ≡ false)
          × (char_get item profile.alphabet_index ≡ some digit)
          × (ds ≡ digit ∷ more)
          × (parse_chars field profile (suc position) items ≡ ok (more, pv)))

  add_preserved-ok :
      (position item : ℕ) (rest : Parsed) (ds : List ℕ) (pv : List (ℕ × ℕ))
      → add_preserved position item rest ≡ ok (ds, pv)
      → (more : List (ℕ × ℕ)) × (pv ≡ (position, item) ∷ more) × (rest ≡ ok (ds, more))
  add_preserved-ok position item (ok p) ds pv h = (p.1, cc, cc)
  add_preserved-ok position item (err e) ds pv h = cc

  add_digit-ok :
      (e : DynError) (o : Option ℕ) (rest : Parsed) (ds : List ℕ) (pv : List (ℕ × ℕ))
      → add_digit e o rest ≡ ok (ds, pv)
      → (digit : ℕ) × (more : List ℕ) × (o ≡ some digit)
        × (ds ≡ digit ∷ more)
        × (rest ≡ ok (more, pv))
  add_digit-ok e none rest ds pv h = cc
  add_digit-ok e (some digit) (ok p) ds pv h = (digit, p.0, refl, cc, cc)
  add_digit-ok e (some digit) (err m) ds pv h = cc

  parse_chars-First :
      (field : String) (position item : ℕ) (items : Text) (ds : List ℕ) (pv : List (ℕ × ℕ))
      → parse_chars field profile position (item ∷ items) ≡ ok (ds, pv)
      → First field position item items ds pv
  unfolding parse_chars First
  parse_chars-First field position item items ds pv h =
      elim (if-ok (contains_char profile.preserved item) _ _ h) [
        | inl p ↦
            let (more, e, r) = add_preserved-ok position item _ ds pv p.1 in inl (more, p.0, e, r)
        | inr p ↦
            let (digit, more, o, e, r) = add_digit-ok _ _ _ ds pv p.1 in
            inr (digit, more, p.0, o, e, r)
      ]

  parse_chars-IsFrom :
      (field : String) (items : Text) (position : ℕ) (ds : List ℕ) (pv : List (ℕ × ℕ))
      → parse_chars field profile position items ≡ ok (ds, pv)
      → IsFrom position pv
  unfolding parse_chars First
  parse_chars-IsFrom field [] position ds pv h =
      subst (IsFrom position) (ap (λ (p : List ℕ × List (ℕ × ℕ)). p.1) (ok-injective _ refl h)) tt
  parse_chars-IsFrom field (item ∷ items) position ds pv h =
      elim (parse_chars-First field position item items ds pv h) [
        | inl (more, _, e, r) ↦ subst (IsFrom position) (sym e) (omega arith)
        | inr (digit, more, _, _, _, r) ↦
            IsFrom-weaken position pv (parse_chars-IsFrom field items (suc position) more pv r)
      ]

  pub parse_chars-IsNumerals :
      (field : String) (items : Text) (position : ℕ) (ds : List ℕ) (pv : List (ℕ × ℕ))
      → parse_chars field profile position items ≡ ok (ds, pv)
      → IsNumerals radix ds
  unfolding parse_chars First
  parse_chars-IsNumerals field [] position ds pv h =
      subst (IsNumerals radix) (ap (λ (p : List ℕ × List (ℕ × ℕ)). p.0) (ok-injective _ refl h)) tt
  parse_chars-IsNumerals field (item ∷ items) position ds pv h =
      elim (parse_chars-First field position item items ds pv h) [
        | inl (more, _, _, r) ↦ parse_chars-IsNumerals field items (suc position) ds more r
        | inr (digit, more, _, o, e, r) ↦ subst (IsNumerals radix) (sym e) (
          below-get_elem? profile.alphabet_chars digit item (ready.to_char item digit o),
          parse_chars-IsNumerals field items (suc position) more pv r,
        )
      ]

  rebuild-preserved :
      (position n item : ℕ) (pv : List (ℕ × ℕ)) (ds : List ℕ) {rest : Text}
      → rebuild profile (suc position) n pv ds ≡ ok rest
      → rebuild profile position (suc n) ((position, item) ∷ pv) ds ≡ ok (item ∷ rest)
  unfolding rebuild peek
  rebuild-preserved position n item pv ds h =
      rw (rebuild, peek, (==_iff position position).1 refl, h)

  rebuild-digit :
      (position n digit c : ℕ) (pv : List (ℕ × ℕ)) (ds : List ℕ) {rest : Text}
      → peek position pv ≡ none
      → get_elem? profile.alphabet_chars digit ≡ some c
      → rebuild profile (suc position) n pv ds ≡ ok rest
      → rebuild profile position (suc n) pv (digit ∷ ds) ≡ ok (c ∷ rest)
  unfolding rebuild
  rebuild-digit position n digit c pv ds hp hc h = rw (rebuild, hp, hc, h)

  -- The digits of a value and its preserved characters make the value up again.
  pub rebuild-parse_chars :
      (field : String) (value : Text) (position : ℕ) (ds : List ℕ) (pv : List (ℕ × ℕ))
      → parse_chars field profile position value ≡ ok (ds, pv)
      → rebuild profile position (length value) pv ds ≡ ok value
  unfolding First rebuild
  rebuild-parse_chars field [] position ds pv h = refl
  rebuild-parse_chars field (item ∷ items) position ds pv h =
      elim (parse_chars-First field position item items ds pv h) [
        | inl (more, _, e, r) ↦ rw e (
            rebuild-preserved position (length items) item more ds
              (rebuild-parse_chars field items (suc position) ds more r))
        | inr (digit, more, _, o, e, r) ↦ rw e (
            rebuild-digit position (length items) digit item pv more
              (peek-IsFrom position pv (parse_chars-IsFrom field items (suc position) more pv r))
              (ready.to_char item digit o)
              (rebuild-parse_chars field items (suc position) more pv r))
      ]

  first_numeral :
      (es : List ℕ) (k : ℕ)
      → length es ≡ suc k
      → IsNumerals radix es
      → (x : ℕ) × (xs : List ℕ) × (es ≡ x ∷ xs)
        × (x < radix)
        × IsNumerals radix xs
        × (length xs ≡ k)
  first_numeral [] k n b = absurd (omega arith)
  first_numeral (x ∷ xs) k n b = (x, xs, refl, b.0, b.1, omega arith)

  -- Any numerals in place of the digits make up a value that parses to them, with the same
  -- characters preserved at the same places.
  abbrev pub Rebuilt : String → ℕ → Text → List ℕ → List (ℕ × ℕ) → Type 0
  Rebuilt field position value es pv =
      (out : Text) × (rebuild profile position (length value) pv es ≡ ok out)
      × (parse_chars field profile position out ≡ ok (es, pv))
      × (length out ≡ length value)

  pub rebuild_numerals :
      (first second : String) (value : Text) (position : ℕ) (ds es : List ℕ) (pv : List (ℕ × ℕ))
      → parse_chars first profile position value ≡ ok (ds, pv)
      → length es ≡ length ds
      → IsNumerals radix es
      → Rebuilt second position value es pv
  unfolding First rebuild parse_chars
  rebuild_numerals first second [] position ds [] pv h n b =
      let pair = ok-injective _ refl h in
      (
        [],
        refl,
        ap (λ (z : List (ℕ × ℕ)). ok ([], z)) (ap (λ (p : List ℕ × List (ℕ × ℕ)). p.1) pair),
        refl,
      )
  rebuild_numerals first second [] position ds (x ∷ es) pv h n b =
      let pair = ok-injective _ refl h in
      let empty : 0 ≡ length ds = ap (λ (p : List ℕ × List (ℕ × ℕ)). length p.0) pair in
      absurd (omega arith)
  rebuild_numerals first second (item ∷ items) position ds es pv h n b =
      elim (parse_chars-First first position item items ds pv h) [
        | inl (more, kept, e, r) ↦
            let (out, o, q, l) =
              rebuild_numerals first second items (suc position) ds es more r n b in
            rw e (
              item ∷ out,
              rebuild-preserved position (length items) item more es o,
              rw (kept, q),
              ap suc l,
            )
        | inr (digit, more, _, _, e, r) ↦
            let (x, xs, same, bx, bxs, l) = first_numeral es (length more) (n ∙ ap length e) b in
            let (c, g) = get_elem?-below profile.alphabet_chars x bx in
            let (out, o, q, k) =
              rebuild_numerals first second items (suc position) more xs pv r l bxs in
            rw same (
              c ∷ out,
              rebuild-digit position (length items) x c pv xs
                  (peek-IsFrom position pv
                    (parse_chars-IsFrom first items (suc position) more pv r))
                  g o,
              rw (ready.disjoint c x g, ready.to_digit c x g, q),
              ap suc k,
            )
      ]
