-- ===== src/Validation/Sealed.antt =====
-- src/core/validation.rs: proofs about envelopes of three base64 segments.
use vectis.Base.{
  ℕ, ◌≤◌, ◌<◌, ◌≡◌, refl, Bool, true, false, ◌&&◌, ◌||◌, List, [], ◌∷◌, ◌++◌, some, arith, ltb,
  le→ltb-false, ◌==◌, String, Text, all, length, length-append,
}
use vectis.Error.Result.{ok}
use vectis.Validation.Chars.{is_blank, utf8_char, as_bytes, byte_len}
use vectis.Validation.Split.{join, Lacks, split-join}
use vectis.Validation.Envelope.{
  Base64, is_segment_char, is_envelope_char, is_empty_text, three_parts,
  split_base64_standard_envelope_segments, decode_part, validate_base64_standard_envelope_segments,
  decode_base64_standard_envelope, seal,
}

-- A Unicode scalar value, which every `char` of a string is.
unfoldable pub is_scalar : ℕ → Bool
is_scalar c = ltb c 0xd800 || (ltb 0xdfff c && ltb c 0x110000)

-- What the crate documents: decoding undoes encoding, the encoded text is empty only for no bytes
-- and has only letters, digits, `+`, `/` and `=`, of which this uses that none is a separator; and
-- UTF-8 decoding undoes UTF-8 encoding.
pub record IsBase64 (base64 : Base64) : Type 0 where
  pub decode-encode : (bytes : List ℕ) → base64.decode (base64.encode bytes) ≡ some bytes
  pub encode-nonempty :
      (bytes : List ℕ) → length bytes == 0 ≡ false → is_empty_text (base64.encode bytes) ≡ false
  pub encode-chars : (bytes : List ℕ) → all is_segment_char (base64.encode bytes) ≡ true
  pub from_utf8-as_bytes :
      (text : Text) → all is_scalar text ≡ true → base64.from_utf8 (as_bytes text) ≡ some text

segment-Lacks : (s : Text) → all is_segment_char s ≡ true → Lacks b'.' s
unfolding is_segment_char
segment-Lacks [] h = refl
segment-Lacks (c ∷ s) h = ground (arith, segment-Lacks s)

segment-envelope : (s : Text) → all is_segment_char s ≡ true → all is_envelope_char s ≡ true
unfolding is_segment_char is_envelope_char
segment-envelope [] h = refl
segment-envelope (c ∷ s) h = ground (arith, segment-envelope s)

pub all-append : (p : ℕ → Bool) (s t : Text) → all p (s ++ t) ≡ (all p s && all p t)
all-append p [] t = refl
all-append p (c ∷ s) t = ground (arith, all-append p s t)

joined-envelope :
    (c n a : Text)
    → all is_segment_char c ≡ true
    → all is_segment_char n ≡ true
    → all is_segment_char a ≡ true
    → all is_envelope_char (join b'.' (c ∷ n ∷ a ∷ [])) ≡ true
unfolding join is_envelope_char
joined-envelope c n a hc hn ha =
    rw
      (
        all-append is_envelope_char c (b'.' ∷ n ++ b'.' ∷ a),
        all-append is_envelope_char n (b'.' ∷ a),
        segment-envelope c hc,
        segment-envelope n hn,
        segment-envelope a ha,
      )
      refl

joined_nonempty :
    (c n a : Text) → is_empty_text c ≡ false → is_empty_text (join b'.' (c ∷ n ∷ a ∷ [])) ≡ false
unfolding join
joined_nonempty [] n a e = absurd (cc)
joined_nonempty (_ ∷ _) n a e = refl

-- Splitting three segments that were joined.
split_segments :
    (field : String) (max_chars : ℕ) (c n a : Text)
    → all is_segment_char c ≡ true
    → all is_segment_char n ≡ true
    → all is_segment_char a ≡ true
    → is_empty_text c ≡ false
    → is_empty_text n ≡ false
    → is_empty_text a ≡ false
    → byte_len (join b'.' (c ∷ n ∷ a ∷ [])) ≤ max_chars
    → split_base64_standard_envelope_segments field (join b'.' (c ∷ n ∷ a ∷ [])) max_chars
      ≡ ok (c, n, a)
unfolding three_parts split_base64_standard_envelope_segments
split_segments field max_chars c n a hc hn ha ec en ea b =
    let parts =
      split-join b'.' (c ∷ n ∷ a ∷ []) (λ e. cc)
        (segment-Lacks c hc, (segment-Lacks n hn, (segment-Lacks a ha, tt))) in
    rw
      (
        joined_nonempty c n a ec,
        le→ltb-false max_chars (byte_len (join b'.' (c ∷ n ∷ a ∷ []))) b,
        joined-envelope c n a hc hn ha,
        parts,
        ec,
        en,
        ea,
      )
      refl

==-refl : (x : ℕ) → x == x ≡ true
==-refl x = ground arith

-- A text that is not blank has bytes.
pub as_bytes-nonempty : (s : Text) → is_blank s ≡ false → length (as_bytes s) == 0 ≡ false
unfolding as_bytes utf8_char is_blank
as_bytes-nonempty [] h = absurd (cc)
as_bytes-nonempty (c ∷ s) h = ground (arith, length-append (utf8_char c) (as_bytes s))

decode_part-encode :
    (base64 : Base64)
    → IsBase64 base64
    → (field : String) (bytes : List ℕ) → decode_part base64 field (base64.encode bytes) ≡ ok bytes
unfolding decode_part
decode_part-encode base64 law field bytes = rw (decode_part, law.decode-encode bytes) refl

-- The segments of what was sealed.
pub validate_base64_standard_envelope_segments-seal :
    (base64 : Base64)
    → IsBase64 base64
    → (field : String) (max_chars : ℕ) (ciphertext nonce aad : List ℕ)
    → length ciphertext == 0 ≡ false
    → length nonce == 0 ≡ false
    → length aad == 0 ≡ false
    → byte_len (seal base64 ciphertext nonce aad) ≤ max_chars
    → validate_base64_standard_envelope_segments base64 field
        (seal base64 ciphertext nonce aad)
        max_chars
      ≡ ok (base64.encode ciphertext, base64.encode nonce, base64.encode aad)
unfolding seal validate_base64_standard_envelope_segments
validate_base64_standard_envelope_segments-seal base64 law field max_chars ciphertext nonce aad c n
      a b =
    rw
      (
        split_segments field max_chars (base64.encode ciphertext) (base64.encode nonce)
            (base64.encode aad) (law.encode-chars ciphertext) (law.encode-chars nonce)
            (law.encode-chars aad) (law.encode-nonempty ciphertext c) (law.encode-nonempty nonce n)
            (law.encode-nonempty aad a) b,
        decode_part-encode base64 law field ciphertext,
        decode_part-encode base64 law field nonce,
        decode_part-encode base64 law field aad,
      )
      refl

-- Where the codec is as documented: what `seal` writes for a ciphertext of at least 16 bytes, a
-- nonce of the expected length above 0 and an AAD that is the text of a string, not blank, no longer than the
-- maximum, opens to the ciphertext, the nonce and the AAD.
pub decode_base64_standard_envelope-seal :
    (base64 : Base64)
    → IsBase64 base64
    → (field : String) (max_chars size : ℕ) (ciphertext nonce : List ℕ) (aad : Text)
    → 16 ≤ length ciphertext
    → length nonce ≡ size
    → 0 < size
    → is_blank aad ≡ false
    → all is_scalar aad ≡ true
    → byte_len (seal base64 ciphertext nonce (as_bytes aad)) ≤ max_chars
    → decode_base64_standard_envelope base64 field
        (seal base64 ciphertext nonce (as_bytes aad))
        max_chars
        size
      ≡ ok (record { ciphertext = ciphertext; nonce = nonce; aad = as_bytes aad })
unfolding seal decode_base64_standard_envelope
decode_base64_standard_envelope-seal base64 law field max_chars size ciphertext nonce aad c n s
      blank scalar b =
    rw
      (
        split_segments field max_chars (base64.encode ciphertext) (base64.encode nonce)
            (base64.encode (as_bytes aad)) (law.encode-chars ciphertext) (law.encode-chars nonce)
            (law.encode-chars (as_bytes aad)) (law.encode-nonempty ciphertext (ground (arith, c)))
            (law.encode-nonempty nonce (ground arith))
            (law.encode-nonempty (as_bytes aad) (as_bytes-nonempty aad blank)) b,
        decode_part-encode base64 law field ciphertext,
        decode_part-encode base64 law field nonce,
        decode_part-encode base64 law field (as_bytes aad),
        le→ltb-false (length ciphertext) 16 c,
        n,
        ==-refl size,
        law.from_utf8-as_bytes aad scalar,
        blank,
      )
      refl
