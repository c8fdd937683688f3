-- ===== src/Validation/Aad/Parts.antt =====
-- src/core/validation.rs: proofs about the validation of one field of a binding text.
use vectis.Base.{
  ℕ, ◌≡◌, refl, Bool, true, false, [], ◌∷◌, ◌++◌, arith, ◌==◌, ==_iff, String, Text, all, any, inl,
  inr, Bool-cases,
}
use vectis.Error.Result.{ok, >>=-eq-ok}
use vectis.Validation.Chars.{is_control}
use vectis.Validation.Fields.{
  is_key_char, validate_aad_key, validate_aad_value, validate_text_field, reject_aad_delimiters,
}
use vectis.Validation.Split.{Lacks}

-- A separator that is no key character stands in no key.
all-is_key_char-Lacks :
    (sep : ℕ) (s : Text) → is_key_char sep ≡ false → all is_key_char s ≡ true → Lacks sep s
all-is_key_char-Lacks sep [] h a = refl
all-is_key_char-Lacks sep (c ∷ s) h a = elim (Bool-cases (c == sep)) [
  | inl e ↦ absurd (ground (arith, ap_key c sep ((==_iff c sep).0 e)))
  | inr e ↦ rw e (all-is_key_char-Lacks sep s h (ground arith))
]
  where
    ap_key : (c d : ℕ) → c ≡ d → is_key_char c ≡ is_key_char d
    ap_key c d e = cc

pub any-append :
    (p : ℕ → Bool) (s t : Text) → any p s ≡ false → any p t ≡ false → any p (s ++ t) ≡ false
any-append p [] t h k = k
any-append p (c ∷ s) t h k = ground (arith, any-append p s t)

-- What a validated key or value keeps out.
pub record IsClean (s : Text) : Type 0 where
  pub no_semicolon : Lacks b';' s
  pub no_equals : Lacks b'=' s
  pub no_control : any is_control s ≡ false

validate_text_field-no_control :
    (field : String) (s : Text) → validate_text_field field s ≡ ok tt → any is_control s ≡ false
unfolding validate_text_field
validate_text_field-no_control field s h = ground arith

pub validate_aad_key-IsClean :
    (field : String) (s : Text) → validate_aad_key field s ≡ ok tt → IsClean s
unfolding validate_aad_key
validate_aad_key-IsClean field s h =
    let (_, text, rest) = >>=-eq-ok (validate_text_field field s) _ h in
    let keys : all is_key_char s ≡ true = ground arith in
    record {
      no_semicolon = all-is_key_char-Lacks b';' s (unfold is_key_char in refl) keys;
      no_equals = all-is_key_char-Lacks b'=' s (unfold is_key_char in refl) keys;
      no_control = validate_text_field-no_control field s (cc);
    }

pub validate_aad_value-IsClean :
    (field : String) (s : Text) → validate_aad_value field s ≡ ok tt → IsClean s
unfolding validate_aad_value reject_aad_delimiters
validate_aad_value-IsClean field s h =
    let (_, text, rest) = >>=-eq-ok (validate_text_field field s) _ h in
    record {
      no_semicolon = ground arith;
      no_equals = ground arith;
      no_control = validate_text_field-no_control field s (cc);
    }
