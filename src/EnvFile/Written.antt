-- ===== src/EnvFile/Written.antt =====
-- src/core/config_loader/env_file.rs: proofs about parsing one written line.
use vectis.Base.{
  ℕ, suc, ◌≤◌, ◌≡◌, inl, inr, refl, sym, ◌∙◌, Bool, true, false, ◌&&◌, List, [], ◌∷◌, ◌++◌,
  append_assoc, some, arith, le→ltb-false, ◌==◌, ==_iff, Bool-cases, Option-cases, Text, codes,
  text_eq, all, any,
}
use vectis.Error.Result.{ok}
use mathlib.Core.Path.{subst}
use vectis.Validation.Chars.{is_ascii_uppercase, is_ascii_digit, byte_len}
use vectis.Validation.Split.{Lacks, strip_prefix}
use vectis.Validation.Sealed.{all-append}
use vectis.Validation.Aad.{Field}
use vectis.Validation.Aad.Parts.{any-append}
use vectis.EnvFile.{
  FileValue, name_max_size_bytes, env_value_max_size_bytes, is_env_space, split_once, is_name_char,
  starts_uppercase, is_valid_name, add_assignment,
}
use vectis.EnvFile.Lines.{
  trim_env_whitespace-closed, trim_env_whitespace-none, split_once-append, unquoted-quoted,
}

-- An assignment as a quoted line, and a file of such lines.
abbrev pub body : Field → Text
body (key, value) = key ++ (b'=' ∷ b'\'' ∷ value)

abbrev pub render : List Field → Text
render [] = []
render (field ∷ fields) = (body field ++ b'\'' ∷ []) ++ 10 ∷ render fields

abbrev pub numbered : ℕ → List Field → List FileValue
numbered line [] = []
numbered line (field ∷ fields) =
    record { key = field.0; value = field.1; line = line } ∷ numbered (suc line) fields

-- What an assignment needs to be written in single quotes.
pub record IsAssignment (field : Field) : Type 0 where
  pub name_ok : is_valid_name field.0 ≡ true
  pub name_size : byte_len field.0 ≤ name_max_size_bytes
  pub value_size : byte_len field.1 ≤ env_value_max_size_bytes
  pub no_quote : Lacks b'\'' field.1
  pub no_line_feed : Lacks 10 field.1
  pub no_return : Lacks 13 field.1
  pub no_nul : Lacks 0 field.1

-- No name is among those that were seen or stands twice.
abbrev pub AreFresh : List Text → List Field → Type 0
AreFresh seen [] = Unit
AreFresh seen (field ∷ fields) =
    (any (λ k. text_eq k field.0) seen ≡ false) × AreFresh (seen ++ field.0 ∷ []) fields

strip_prefix-parts : (prefix s rest : Text) → strip_prefix prefix s ≡ some rest → s ≡ prefix ++ rest
unfolding strip_prefix
strip_prefix-parts [] s rest h = cc (h)
strip_prefix-parts (c ∷ prefix) [] rest h = absurd (cc (h))
strip_prefix-parts (c ∷ prefix) (d ∷ s) rest h = elim (Bool-cases (c == d)) [
  | inl e ↦ cc (strip_prefix-parts prefix s rest (ground (arith, h, e)), (==_iff c d).0 e)
  | inr e ↦ absurd (ground (arith, h, e))
]

prefix_chars : all is_name_char (codes "VECTIS_") ≡ true
unfolding codes is_ascii_uppercase is_ascii_digit
prefix_chars = refl

pub name_chars : (key : Text) → is_valid_name key ≡ true → all is_name_char key ≡ true
unfolding is_valid_name
name_chars key h = elim (Option-cases (strip_prefix (codes "VECTIS_") key)) [
  | inl e ↦ absurd (ground (arith, e, h))
  | inr (suffix, e) ↦
      let valid : starts_uppercase suffix && all is_name_char suffix ≡ true =
        ground (arith, e, h) in
      let same = strip_prefix-parts (codes "VECTIS_") key suffix e in
      subst (λ k. all is_name_char k ≡ true) (sym same)
        (all-append is_name_char (codes "VECTIS_") suffix ∙ rw prefix_chars (ground (arith, valid)))
]

pub name_lacks :
    (q : ℕ → Bool)
    → ((c : ℕ) → is_name_char c ≡ true → q c ≡ false)
    → (s : Text) → all is_name_char s ≡ true
    → any q s ≡ false
name_lacks q h [] a = refl
name_lacks q h (c ∷ s) a = ground (arith, h c, name_lacks q h s)

-- What a name's characters are not.
pub record IsOther (c : ℕ) : Type 0 where
  pub no_equals : c == b'=' ≡ false
  pub no_feed : c == 10 ≡ false
  pub no_return : c == 13 ≡ false
  pub no_nul : c == 0 ≡ false
  pub no_space : is_env_space c ≡ false
  pub no_comment : c == b'#' ≡ false

pub name_char-IsOther : (c : ℕ) → is_name_char c ≡ true → IsOther c
unfolding is_ascii_uppercase is_ascii_digit
name_char-IsOther c h = record {
  no_equals = ground arith;
  no_feed = ground arith;
  no_return = ground arith;
  no_nul = ground arith;
  no_space = ground arith;
  no_comment = ground arith;
}

-- A line lacks what neither the name nor the value has, and is no punctuation of the line.
pub line_lacks :
    (field : Field) (d : ℕ)
    → any (λ c. c == d) field.0 ≡ false
    → any (λ c. c == d) field.1 ≡ false
    → b'=' == d ≡ false
    → b'\'' == d ≡ false
    → any (λ c. c == d) (body field ++ b'\'' ∷ []) ≡ false
line_lacks (key, value) d hk hv e q =
    any-append (λ c. c == d) (key ++ (b'=' ∷ b'\'' ∷ value)) (b'\'' ∷ [])
      (any-append (λ c. c == d) key (b'=' ∷ b'\'' ∷ value) hk (ground (arith, hv, e, q)))
      (ground (arith, q))

pub add_assignment-written :
    (field : Field) (line : ℕ) (values : List FileValue)
    → IsAssignment field
    → any (λ (v : FileValue). text_eq v.key field.0) values ≡ false
    → add_assignment (body field ++ b'\'' ∷ []) line values
      ≡ ok (values ++ record { key = field.0; value = field.1; line = line } ∷ [])
unfolding add_assignment
add_assignment-written (key, value) line values a fresh =
    let chars = name_chars key a.name_ok in
    let no_equals =
      name_lacks (λ c. c == b'=') (λ c h. (name_char-IsOther c h).no_equals) key chars in
    let no_space = name_lacks is_env_space (λ c h. (name_char-IsOther c h).no_space) key chars in
    let quoted = b'\'' ∷ (value ++ b'\'' ∷ []) in
    let parts : split_once b'=' (body (key, value) ++ b'\'' ∷ []) ≡ some (key, quoted) =
      subst (λ t. split_once b'=' t ≡ some (key, quoted))
        (sym (append_assoc key (b'=' ∷ b'\'' ∷ value) (b'\'' ∷ [])))
        (split_once-append b'=' key quoted no_equals) in
    rw
      (
        add_assignment,
        parts,
        trim_env_whitespace-none key no_space,
        le→ltb-false name_max_size_bytes (byte_len key) a.name_size,
        a.name_ok,
        fresh,
        trim_env_whitespace-closed b'\'' value b'\'' refl refl,
        unquoted-quoted value a.no_quote,
        le→ltb-false env_value_max_size_bytes (byte_len value) a.value_size,
      )
      refl
