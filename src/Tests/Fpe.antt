-- ===== src/Tests/Fpe.antt =====
-- Format-preserving encryption (src/core/fpe.rs) of a number with a dash.
use vectis.Base.{
  ℕ, suc, ◌-◌, ◌^◌, ◌≤◌, ◌≡◌, ◌↔◌, refl, ap, true, List, [], ◌∷◌, some, arith, Text, codes, length,
}
use vectis.Error.Result.{ok, ◌>>◌}
use vectis.Fpe.{
  Cipher, FpeProfile, domain_reaches, fpe_domain_is_large_enough, validate_fpe_alphabet,
  prepare_fpe_alphabet, validate_preserved_characters,
}
use vectis.Fpe.Transform.{
  PreparedFpeValue, parse_chars, parse_fpe_value_digits, fpe_encrypt, fpe_decrypt,
}
use vectis.Fpe.RoundTrip.{IsNumerals}
use vectis.Fpe.Domain.{fpe_domain_is_large_enough_iff}
use vectis.Fpe.Inverse.{IsFf1, encrypt-decrypt}
use vectis.Validation.Fields.{validate_text_field}

-- A cipher over the radix 10 that takes each digit to its complement.
abbrev complement : List ℕ → List ℕ
complement [] = []
complement (d ∷ ds) = (9 - d) ∷ complement ds

abbrev cipher : Cipher
cipher = record { encrypt = λ _ ds. ok (complement ds); decrypt = λ _ ds. ok (complement ds) }

complement_twice : (ds : List ℕ) → IsNumerals 10 ds → complement (complement ds) ≡ ds
complement_twice [] h = refl
complement_twice (d ∷ ds) h =
    let e : 9 - (9 - d) ≡ d = omega arith in cc (e, complement_twice ds h.1)

complement-IsNumerals : (ds : List ℕ) → IsNumerals 10 (complement ds)
complement-IsNumerals [] = tt
complement-IsNumerals (d ∷ ds) = (omega arith, complement-IsNumerals ds)

length-complement : (ds : List ℕ) → length (complement ds) ≡ length ds
length-complement [] = refl
length-complement (d ∷ ds) = ap suc (length-complement ds)

cipher-IsFf1 : IsFf1 10 cipher
cipher-IsFf1 tweak ds h large = (
  complement ds,
  refl,
  length-complement ds,
  complement-IsNumerals ds,
  ap ok (complement_twice ds h),
)

abbrev index : List (ℕ × ℕ)
index =
    (b'0', 0)
    ∷ (b'1', 1)
    ∷ (b'2', 2)
    ∷ (b'3', 3)
    ∷ (b'4', 4)
    ∷ (b'5', 5)
    ∷ (b'6', 6)
    ∷ (b'7', 7)
    ∷ (b'8', 8)
    ∷ (b'9', 9)
    ∷ []

abbrev digits : Text
digits = codes "0123456789"

abbrev profile : FpeProfile
profile = record {
  name = codes "card";
  fpe_version = codes "fpe-ff1-2025";
  alphabet = codes "0123456789";
  min_len = 6;
  max_len = 20;
  tweak_aad = [];
  kid = [];
  alphabet_chars = codes "0123456789";
  alphabet_index = index;
  cipher = some cipher;
  preserve_characters = codes "-";
  preserved = codes "-";
}

abbrev plaintext : Text
plaintext = codes "123-4567"

abbrev value : PreparedFpeValue
value = record {
  digits = 1 ∷ 2 ∷ 3 ∷ 4 ∷ 5 ∷ 6 ∷ 7 ∷ [];
  preserved = (3, b'-') ∷ [];
  total_len = 8;
}

alphabet-accepted : validate_fpe_alphabet (codes "0123456789") ≡ ok 10
unfolding codes validate_fpe_alphabet validate_text_field vectis.Validation.Chars.is_blank
    vectis.Validation.Chars.is_control
alphabet-accepted = refl

alphabet-prepared :
    prepare_fpe_alphabet profile.alphabet ≡ ok (profile.alphabet_chars, profile.alphabet_index)
unfolding codes prepare_fpe_alphabet
alphabet-prepared = refl

preserved-accepted :
    validate_preserved_characters profile.alphabet profile.preserve_characters
    ≡ ok profile.preserved
unfolding codes validate_preserved_characters vectis.Validation.Chars.is_control
preserved-accepted = refl

plaintext-parsed : parse_fpe_value_digits "plaintext" plaintext profile ≡ ok value
unfolding codes parse_fpe_value_digits validate_text_field vectis.Validation.Chars.is_blank
    vectis.Validation.Chars.is_control vectis.Fpe.char_get fpe_domain_is_large_enough
plaintext-parsed = refl

ten : IsFf1 (length profile.alphabet_chars) cipher
unfolding codes
ten = cipher-IsFf1

encrypt-decrypt_example :
    (ciphertext : Text) × (es : List ℕ) × (fpe_encrypt profile plaintext ≡ ok ciphertext)
    × (length ciphertext ≡ length plaintext)
    × (parse_chars "ciphertext" profile 0 ciphertext ≡ ok (es, value.preserved))
    × (fpe_decrypt profile ciphertext
        ≡ (validate_text_field "ciphertext" ciphertext >> ok plaintext))
encrypt-decrypt_example =
    encrypt-decrypt profile cipher 10 plaintext value alphabet-accepted alphabet-prepared
      preserved-accepted refl ten plaintext-parsed

fpe_domain_is_large_enough_iff_example :
    (fpe_domain_is_large_enough 10 6 ≡ true) ↔ (1000000 ≤ 10 ^ 6)
fpe_domain_is_large_enough_iff_example = fpe_domain_is_large_enough_iff 10 6
