-- ===== src/EnvFile/RoundTrip.antt =====
-- src/core/config_loader/env_file.rs: proofs about parsing a file of quoted assignments.
use vectis.Base.{
  ℕ, suc, ◌≤◌, ◌≡◌, refl, sym, ap, ◌∙◌, true, false, ◌||◌, List, [], ◌∷◌, ◌++◌, map, append-nil,
  append_assoc, arith, le→ltb-false, ◌==◌, Text, codes, text_eq, any, All,
}
use vectis.Error.Result.{ok}
use mathlib.Core.Path.{subst}
use vectis.Validation.Chars.{byte_len}
use vectis.Validation.Aad.{Field}
use vectis.EnvFile.{
  FileValue, file_max_size_bytes, split_inclusive, trim_env_whitespace, is_name_char, is_valid_name,
  is_ignored, add_record, add_records, parse_protected_env_content,
}
use vectis.EnvFile.Lines.{split_inclusive-append, record_line-append, trim_env_whitespace-closed}
use vectis.EnvFile.Written.{
  body, render, numbered, IsAssignment, AreFresh, name_chars, name_lacks, name_char-IsOther,
  line_lacks, add_assignment-written,
}

-- A line that starts with a name's character is neither trimmed nor ignored.
kept :
    (key value : Text)
    → is_valid_name key ≡ true
    → (trim_env_whitespace (body (key, value) ++ b'\'' ∷ []) ≡ body (key, value) ++ b'\'' ∷ [])
      × (is_ignored (body (key, value) ++ b'\'' ∷ []) ≡ false)
unfolding codes
kept [] value h = absurd (ground (arith, empty_name))
  where
    empty_name : is_valid_name [] ≡ false
    empty_name = unfold is_valid_name in refl
kept (c ∷ key) value h =
    let first : is_name_char c ≡ true = ground (arith, name_chars (c ∷ key) h) in
    let other = name_char-IsOther c first in
    (
      trim_env_whitespace-closed c (key ++ (b'=' ∷ b'\'' ∷ value)) b'\'' other.no_space refl,
      other.no_comment,
    )

add_record-written :
    (field : Field) (line : ℕ) (values : List FileValue)
    → IsAssignment field
    → any (λ (v : FileValue). text_eq v.key field.0) values ≡ false
    → add_record ((body field ++ b'\'' ∷ []) ++ 10 ∷ []) line values
      ≡ ok (values ++ record { key = field.0; value = field.1; line = line } ∷ [])
unfolding add_record
add_record-written (key, value) line values a fresh =
    let chars = name_chars key a.name_ok in
    let nul =
      line_lacks (key, value) 0
        (name_lacks (λ c. c == 0) (λ c h. (name_char-IsOther c h).no_nul) key chars) a.no_nul refl
        refl in
    let return =
      line_lacks (key, value) 13
        (name_lacks (λ c. c == 13) (λ c h. (name_char-IsOther c h).no_return) key chars) a.no_return
        refl refl in
    let (trimmed, kept_line) = kept key value a.name_ok in
    rw
      (
        add_record,
        record_line-append (body (key, value)) b'\'' refl,
        nul,
        return,
        trimmed,
        kept_line,
      )
      (add_assignment-written (key, value) line values a fresh)

any-keys :
    (values : List FileValue) (k : Text)
    → any (λ (v : FileValue). text_eq v.key k) values
      ≡ any (λ s. text_eq s k) (map (λ (v : FileValue). v.key) values)
any-keys [] k = refl
any-keys (v ∷ values) k = ap (λ b. text_eq v.key k || b) (any-keys values k)

map-keys :
    (values : List FileValue) (v : FileValue)
    → map (λ (v : FileValue). v.key) (values ++ v ∷ [])
      ≡ map (λ (v : FileValue). v.key) values ++ v.key ∷ []
map-keys [] v = refl
map-keys (w ∷ values) v = ap (λ s. w.key ∷ s) (map-keys values v)

add_records-render :
    (fields : List Field) (line : ℕ) (values : List FileValue)
    → All IsAssignment fields
    → AreFresh (map (λ (v : FileValue). v.key) values) fields
    → add_records (split_inclusive (render fields)) line values
      ≡ ok (values ++ numbered line fields)
unfolding add_records split_inclusive
add_records-render [] line values a f = ap ok (sym (append-nil values))
add_records-render ((key, value) ∷ fields) line values a f =
    let entry : FileValue = record { key = key; value = value; line = line } in
    let chars = name_chars key a.0.name_ok in
    let feed =
      line_lacks (key, value) 10
        (name_lacks (λ c. c == 10) (λ c h. (name_char-IsOther c h).no_feed) key chars)
        a.0.no_line_feed refl refl in
    let records = split_inclusive-append (body (key, value) ++ b'\'' ∷ []) (render fields) feed in
    let added = add_record-written (key, value) line values a.0 (any-keys values key ∙ f.0) in
    let rest =
      add_records-render fields (suc line) (values ++ entry ∷ []) a.1
        (subst (λ seen. AreFresh seen fields) (sym (map-keys values entry)) f.1) in
    rw (records, add_records, added)
      (rest ∙ ap ok (append_assoc values (entry ∷ []) (numbered (suc line) fields)))

-- For assignments of valid names that differ and values of the allowed length with no quote, line
-- feed, carriage return or NUL, in a file no larger than the maximum: the parser reads the file of
-- their lines `NAME='value'` as exactly these values, in order, each with the number of its line.
pub parse-render :
    (fields : List Field)
    → All IsAssignment fields
    → AreFresh [] fields
    → byte_len (render fields) ≤ file_max_size_bytes
    → parse_protected_env_content (render fields) ≡ ok (numbered 1 fields)
unfolding parse_protected_env_content
parse-render fields a f b =
    rw (parse_protected_env_content, le→ltb-false file_max_size_bytes (byte_len (render fields)) b)
      (add_records-render fields 1 [] a f)
