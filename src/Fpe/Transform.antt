-- ===== src/Fpe/Transform.antt =====
-- `parse_fpe_value_digits`, `fpe_transform`, `fpe_encrypt` and `fpe_decrypt`.
use vectis.Base.{
  ℕ, zero, suc, Bool, true, false, not, ◌||◌, List, [], ◌∷◌, Option, some, none, ltb, ◌==◌,
  if◌then◌else◌, String, Text, contains_char, length, get_elem?, drop,
}
use vectis.Error.{DynError, invalid_input, internal, concat}
use vectis.Error.Result.{Result, ok, err, ◌>>=◌, ◌>>◌, reject, map_err}
use vectis.Validation.Chars.{as_bytes}
use vectis.Validation.Fields.{validate_text_field}
use vectis.Fpe.{Cipher, FpeProfile, char_get, fpe_domain_is_large_enough}

-- `PreparedFpeValue`
pub record PreparedFpeValue : Type 0 where
  pub digits : List ℕ
  pub preserved : List (ℕ × ℕ)
  pub total_len : ℕ

abbrev pub Parsed : Type 0
Parsed = Result DynError (List ℕ × List (ℕ × ℕ))

abbrev pub add_preserved : ℕ → ℕ → Parsed → Parsed
add_preserved position item (ok p) = ok (p.0, (position, item) ∷ p.1)
add_preserved position item (err e) = err e

-- The digit is looked up before the rest of the value is read.
abbrev pub add_digit : DynError → Option ℕ → Parsed → Parsed
add_digit e none rest = err e
add_digit e (some digit) (ok p) = ok (digit ∷ p.0, p.1)
add_digit e (some digit) (err m) = err m

-- The loop of `parse_fpe_value_digits`.
unfoldable pub parse_chars : String → FpeProfile → ℕ → Text → Parsed
parse_chars field profile position [] = ok ([], [])
parse_chars field profile position (item ∷ items) =
    let rest = parse_chars field profile (suc position) items in
    if contains_char profile.preserved item
    then add_preserved position item rest
    else add_digit (invalid_input (concat field " contains character outside fpe profile alphabet"))
        (char_get item profile.alphabet_index) rest

unfoldable pub parse_fpe_value_digits :
    String → Text → FpeProfile → Result DynError PreparedFpeValue
unfolding parse_chars
parse_fpe_value_digits field value profile = do
  reject (ltb (length value) profile.min_len || ltb profile.max_len (length value))
      (invalid_input (concat field " length is outside fpe profile bounds"))
  validate_text_field field value
  p ← parse_chars field profile 0 value
  reject
      (length p.0 == 0
        || not (fpe_domain_is_large_enough (length profile.alphabet_chars) (length p.0)))
      (invalid_input (
        concat field " effective domain is too small for FF1 after excluding preserved characters"))
  ok (record { digits = p.0; preserved = p.1; total_len = length value })

-- `positions.peek().is_some_and(|item| item.0 == position)`, with the character.
unfoldable pub peek : ℕ → List (ℕ × ℕ) → Option ℕ
peek position [] = none
peek position ((at, item) ∷ _) = if at == position then some item else none

-- The loop of `fpe_transform` over the positions that are left.
unfoldable pub rebuild : FpeProfile → ℕ → ℕ → List (ℕ × ℕ) → List ℕ → Result DynError Text
unfolding peek
rebuild profile position zero preserved digits = ok []
rebuild profile position (suc n) preserved digits = elim (peek position preserved) [
  | some item ↦ do
    rest ← rebuild profile (suc position) n (drop 1 preserved) digits
    ok (item ∷ rest)
  | none ↦ elim digits [
    | [] ↦ err (internal "fpe operation returned invalid alphabet index")
    | (digit ∷ more) ↦ elim (get_elem? profile.alphabet_chars digit) [
      | none ↦ err (internal "fpe operation returned invalid alphabet index")
      | some c ↦ do rest ← rebuild profile (suc position) n preserved more; ok (c ∷ rest)
    ]
  ]
]

unfoldable pub fpe_transform : FpeProfile → PreparedFpeValue → Bool → Cipher → Result DynError Text
unfolding rebuild
fpe_transform profile value encrypt cipher = do
  output ←
      map_err (λ _. invalid_input "fpe operation failed")
        (if encrypt
          then cipher.encrypt (as_bytes profile.tweak_aad) value.digits
          else cipher.decrypt (as_bytes profile.tweak_aad) value.digits)
  rebuild profile 0 value.total_len value.preserved output

-- `FpeProfile::cipher`
unfoldable pub profile_cipher : FpeProfile → Result DynError Cipher
profile_cipher profile = elim profile.cipher [
  | none ↦ err (invalid_input "stored FPE profile requires a subject context")
  | some c ↦ ok c
]

unfoldable pub fpe_encrypt : FpeProfile → Text → Result DynError Text
unfolding parse_fpe_value_digits profile_cipher fpe_transform
fpe_encrypt profile plaintext = do
  value ← parse_fpe_value_digits "plaintext" plaintext profile
  cipher ← profile_cipher profile
  fpe_transform profile value true cipher

unfoldable pub fpe_decrypt : FpeProfile → Text → Result DynError Text
unfolding parse_fpe_value_digits profile_cipher fpe_transform
fpe_decrypt profile ciphertext = do
  value ← parse_fpe_value_digits "ciphertext" ciphertext profile
  cipher ← profile_cipher profile
  fpe_transform profile value false cipher
