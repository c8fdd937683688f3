-- ===== src/Fpe/Inverse.antt =====
-- src/core/fpe.rs: proofs about `fpe_encrypt` followed by `fpe_decrypt`.
use vectis.Base.{
  ℕ, ◌≡◌, inl, inr, refl, sym, Bool, true, false, not, ◌||◌, List, some, arith, ltb, ◌==◌,
  if◌then◌else◌, String, Text, length,
}
use vectis.Error.Result.{ok, ◌>>◌, >>=-eq-ok, Result-cases, >>-eq-ok, reject-then, ok-injective}
use mathlib.Core.Path.{subst}
use vectis.Validation.Chars.{as_bytes}
use vectis.Validation.Fields.{validate_text_field}
use vectis.Fpe.{
  Cipher, FpeProfile, fpe_domain_is_large_enough, validate_fpe_alphabet, prepare_fpe_alphabet,
  validate_preserved_characters,
}
use vectis.Fpe.Alphabet.{IsReady, prepare-IsReady}
use vectis.Fpe.Transform.{
  PreparedFpeValue, parse_chars, parse_fpe_value_digits, rebuild, fpe_transform, profile_cipher,
  fpe_encrypt, fpe_decrypt,
}
use vectis.Fpe.RoundTrip.{
  IsNumerals, Rebuilt, rebuild_numerals, parse_chars-IsNumerals, rebuild-parse_chars,
}

-- What FF1 documents: on numerals of a domain that is large enough, encryption succeeds, keeps the
-- length and the radix, and decryption under the same tweak undoes it.
abbrev pub IsFf1 : ℕ → Cipher → Type 0
IsFf1 radix cipher =
    (tweak ds : List ℕ)
    → IsNumerals radix ds
    → fpe_domain_is_large_enough radix (length ds) ≡ true
    → (es : List ℕ) × (cipher.encrypt tweak ds ≡ ok es)
      × (length es ≡ length ds)
      × IsNumerals radix es
      × (cipher.decrypt tweak es ≡ ok ds)

-- What a successful `parse_fpe_value_digits` went through.
record Accepted (field : String) (value : Text) (profile : FpeProfile) (v : PreparedFpeValue)
    : Type 0 where
  short : ltb (length value) profile.min_len || ltb profile.max_len (length value) ≡ false
  parsed : parse_chars field profile 0 value ≡ ok (v.digits, v.preserved)
  total : v.total_len ≡ length value
  nonempty : length v.digits == 0 ≡ false
  large : fpe_domain_is_large_enough (length profile.alphabet_chars) (length v.digits) ≡ true

parse_fpe_value_digits-ok :
    (field : String) (value : Text) (profile : FpeProfile) (v : PreparedFpeValue)
    → parse_fpe_value_digits field value profile ≡ ok v
    → Accepted field value profile v
unfolding parse_fpe_value_digits
parse_fpe_value_digits-ok field value profile v h =
    let (short, h1) =
      reject-then (ltb (length value) profile.min_len || ltb profile.max_len (length value)) _ _
        h in
    let (_, h2) = >>-eq-ok (validate_text_field field value) _ h1 in
    let (p, e, h3) = >>=-eq-ok (parse_chars field profile 0 value) _ h2 in
    let (large, h4) =
      reject-then
        (length p.0 == 0
          || not (fpe_domain_is_large_enough (length profile.alphabet_chars) (length p.0)))
        _ _ h3 in
    subst (Accepted field value profile) (ok-injective _ refl h4) (record {
      short = short;
      parsed = e;
      total = refl;
      nonempty = ground arith;
      large = ground arith;
    })

-- The same checks on another value of the length, with as many digits.
parse_fpe_value_digits-again :
    (field : String) (out value : Text) (profile : FpeProfile) (v : PreparedFpeValue) (es : List ℕ)
    → Accepted "plaintext" value profile v
    → length out ≡ length value
    → length es ≡ length v.digits
    → parse_chars field profile 0 out ≡ ok (es, v.preserved)
    → parse_fpe_value_digits field out profile ≡ (
        validate_text_field field out
        >> ok (record { digits = es; preserved = v.preserved; total_len = length out }))
unfolding parse_fpe_value_digits
parse_fpe_value_digits-again field out value profile v es a l n p =
    rw (l, a.short, p, n, a.nonempty, a.large)

-- A profile as the validation leaves it, with the cipher of its key.
module _ (profile : FpeProfile) (cipher : Cipher)
    (ready : IsReady profile.alphabet_chars profile.alphabet_index profile.preserved)
    (has_cipher : profile.cipher ≡ some cipher) where
  transform-ok :
      (v : PreparedFpeValue) (encrypt : Bool) (es : List ℕ) {out : Text}
      → (if encrypt
          then cipher.encrypt (as_bytes profile.tweak_aad) v.digits
          else cipher.decrypt (as_bytes profile.tweak_aad) v.digits)
        ≡ ok es
      → rebuild profile 0 v.total_len v.preserved es ≡ ok out
      → fpe_transform profile v encrypt cipher ≡ ok out
  unfolding fpe_transform
  transform-ok v encrypt es h o = rw (h, o)

  encrypt-ok :
      (pt out : Text) (v : PreparedFpeValue) (es : List ℕ)
      → parse_fpe_value_digits "plaintext" pt profile ≡ ok v
      → cipher.encrypt (as_bytes profile.tweak_aad) v.digits ≡ ok es
      → rebuild profile 0 v.total_len v.preserved es ≡ ok out
      → fpe_encrypt profile pt ≡ ok out
  unfolding fpe_encrypt profile_cipher
  encrypt-ok pt out v es h e o = rw (h, has_cipher) (transform-ok v true es e o)

  decrypt-ok :
      (out pt : Text) (v : PreparedFpeValue) (ds : List ℕ)
      → parse_fpe_value_digits "ciphertext" out profile
        ≡ (validate_text_field "ciphertext" out >> ok v)
      → cipher.decrypt (as_bytes profile.tweak_aad) v.digits ≡ ok ds
      → rebuild profile 0 v.total_len v.preserved ds ≡ ok pt
      → fpe_decrypt profile out ≡ (validate_text_field "ciphertext" out >> ok pt)
  unfolding fpe_decrypt profile_cipher
  decrypt-ok out pt v ds h e o = elim (Result-cases (validate_text_field "ciphertext" out)) [
    | inl (u, q) ↦ rw (h, q, has_cipher) (transform-ok v false ds e o)
    | inr (m, q) ↦ rw (h, q)
  ]

  -- What a value that is accepted becomes.
  abbrev pub Encrypted : Text → PreparedFpeValue → Type 0
  Encrypted plaintext v =
      (ciphertext : Text) × (es : List ℕ) × (fpe_encrypt profile plaintext ≡ ok ciphertext)
      × (length ciphertext ≡ length plaintext)
      × (parse_chars "ciphertext" profile 0 ciphertext ≡ ok (es, v.preserved))
      × (fpe_decrypt profile ciphertext
          ≡ (validate_text_field "ciphertext" ciphertext >> ok plaintext))

  round_trip :
      (plaintext : Text) (v : PreparedFpeValue)
      → IsFf1 (length profile.alphabet_chars) cipher
      → parse_fpe_value_digits "plaintext" plaintext profile ≡ ok v
      → Encrypted plaintext v
  round_trip plaintext v ff1 h =
      let a = parse_fpe_value_digits-ok "plaintext" plaintext profile v h in
      let numerals =
        parse_chars-IsNumerals profile ready "plaintext" plaintext 0 v.digits v.preserved
          a.parsed in
      let (es, enc, n, b, dec) = ff1 (as_bytes profile.tweak_aad) v.digits numerals a.large in
      let (out, o, p, l) : Rebuilt profile ready "ciphertext" 0 plaintext es v.preserved =
        rebuild_numerals profile ready "plaintext" "ciphertext" plaintext 0 v.digits es v.preserved
          a.parsed n b in
      let again = parse_fpe_value_digits-again "ciphertext" out plaintext profile v es a l n p in
      let back =
        rebuild-parse_chars profile ready "plaintext" plaintext 0 v.digits v.preserved a.parsed in
      (
        out,
        es,
        encrypt-ok plaintext out v es h enc
            (subst (λ t. rebuild profile 0 t v.preserved es ≡ ok out) (sym a.total) o),
        l,
        p,
        decrypt-ok out plaintext
            (record { digits = es; preserved = v.preserved; total_len = length out }) v.digits again
            dec (subst (λ t. rebuild profile 0 t v.preserved v.digits ≡ ok plaintext) (sym l) back),
      )

-- For an alphabet and preserved characters that the validation accepts and an FF1 cipher of the
-- alphabet's radix: `fpe_encrypt` of every plaintext that `parse_fpe_value_digits` accepts returns
-- a ciphertext of the plaintext's length that has the same preserved characters at the same
-- places and only alphabet characters elsewhere, and `fpe_decrypt` of it returns the plaintext
-- where `validate_text_field` accepts the ciphertext, and that check's error elsewhere.
pub encrypt-decrypt :
    (profile : FpeProfile) (cipher : Cipher) (radix : ℕ) (plaintext : Text) (v : PreparedFpeValue)
    → validate_fpe_alphabet profile.alphabet ≡ ok radix
    → prepare_fpe_alphabet profile.alphabet ≡ ok (profile.alphabet_chars, profile.alphabet_index)
    → validate_preserved_characters profile.alphabet profile.preserve_characters
      ≡ ok profile.preserved
    → profile.cipher ≡ some cipher
    → IsFf1 (length profile.alphabet_chars) cipher
    → parse_fpe_value_digits "plaintext" plaintext profile ≡ ok v
    → (ciphertext : Text) × (es : List ℕ) × (fpe_encrypt profile plaintext ≡ ok ciphertext)
      × (length ciphertext ≡ length plaintext)
      × (parse_chars "ciphertext" profile 0 ciphertext ≡ ok (es, v.preserved))
      × (fpe_decrypt profile ciphertext
          ≡ (validate_text_field "ciphertext" ciphertext >> ok plaintext))
encrypt-decrypt profile cipher radix plaintext v ha hi hp hc ff1 h =
    let ready =
      prepare-IsReady profile.alphabet profile.alphabet_chars profile.preserve_characters
        profile.preserved radix profile.alphabet_index ha hi hp in
    round_trip profile cipher ready hc plaintext v ff1 h
