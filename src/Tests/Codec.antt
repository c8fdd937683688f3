-- ===== src/Tests/Codec.antt =====
-- A concrete codec.
use vectis.Base.{
  ℕ, zero, suc, ◌+◌, ◌-◌, ◌*◌, ◌/◌, ◌%◌, ◌<◌, ◌≡◌, refl, ap, ◌∙◌, true, false, List, [], ◌∷◌, ◌++◌,
  some, arith, ltb, ◌==◌, if◌then◌else◌, Text, all, length, replicate,
}
use vectis.Validation.Chars.{utf8_char, as_bytes}
use vectis.Validation.Envelope.{
  Base64, is_segment_char, is_ascii_whitespace, is_ascii_control, is_empty_text,
}
use vectis.Validation.Sealed.{is_scalar, IsBase64, all-append}

-- One character for each byte below 64, with `+` for each 64.
abbrev pub encode : List ℕ → Text
encode [] = []
encode (b ∷ bytes) = replicate (b / 64) 43 ++ (48 + b % 64) ∷ encode bytes

abbrev pub decode_from : ℕ → Text → List ℕ
decode_from acc [] = []
decode_from acc (c ∷ s) =
    let rest = decode_from (if c == 43 then suc acc else 0) s in
    if c == 43 then rest else (acc * 64 + (c - 48)) ∷ rest

decode_from-replicate :
    (q acc : ℕ) (s : Text) → decode_from acc (replicate q 43 ++ s) ≡ decode_from (acc + q) s
decode_from-replicate zero acc s = ap (λ n. decode_from n s) (omega arith)
decode_from-replicate (suc q) acc s =
    decode_from-replicate q (suc acc) s ∙ ap (λ n. decode_from n s) (omega arith)

pub decode_from-encode : (bytes : List ℕ) → decode_from 0 (encode bytes) ≡ bytes
decode_from-encode [] = refl
decode_from-encode (b ∷ bytes) =
    rw (decode_from-replicate (b / 64) 0 ((48 + b % 64) ∷ encode bytes))
      (ground (arith, decode_from-encode bytes))

encode-segment : (bytes : List ℕ) → all is_segment_char (encode bytes) ≡ true
unfolding is_segment_char is_ascii_whitespace is_ascii_control
encode-segment [] = refl
encode-segment (b ∷ bytes) =
    rw
      (
        all-append is_segment_char (replicate (b / 64) 43) ((48 + b % 64) ∷ encode bytes),
        pluses (b / 64),
      )
      (ground (arith, encode-segment bytes))
  where
    pluses : (n : ℕ) → all is_segment_char (replicate n 43) ≡ true
    pluses zero = refl
    pluses (suc n) = pluses n

encode-not_empty :
    (bytes : List ℕ) → length bytes == 0 ≡ false → is_empty_text (encode bytes) ≡ false
encode-not_empty [] h = absurd (cc)
encode-not_empty (b ∷ bytes) h = starts (b / 64)
  where
    starts : (n : ℕ) → is_empty_text (replicate n 43 ++ (48 + b % 64) ∷ encode bytes) ≡ false
    starts zero = refl
    starts (suc n) = refl

-- The continuation bytes that a first byte asks for, and the bits that it has.
abbrev first_byte : ℕ → ℕ × ℕ
first_byte b =
    if ltb b 0x80
    then (0, b)
    else if ltb b 0xe0
    then (1, b - 0xc0)
    else if ltb b 0xf0
    then (2, b - 0xe0)
    else (3, b - 0xf0)

abbrev next_byte : ℕ → ℕ → ℕ → ℕ × ℕ
next_byte zero acc b = first_byte b
next_byte (suc n) acc b = (n, acc * 64 + (b - 0x80))

abbrev utf8_from : ℕ → ℕ → List ℕ → Text
utf8_from n acc [] = []
utf8_from n acc (b ∷ bytes) =
    let state = next_byte n acc b in
    let rest = utf8_from (state.0) (state.1) bytes in if state.0 == 0 then state.1 ∷ rest else rest

utf8_from-char :
    (c acc : ℕ) (bytes : List ℕ)
    → c < 0x110000
    → utf8_from 0 acc (utf8_char c ++ bytes) ≡ c ∷ utf8_from 0 c bytes
unfolding utf8_char
utf8_from-char c acc bytes h = ground arith

utf8_from-as_bytes :
    (text : Text) (acc : ℕ) → all is_scalar text ≡ true → utf8_from 0 acc (as_bytes text) ≡ text
unfolding as_bytes is_scalar
utf8_from-as_bytes [] acc h = refl
utf8_from-as_bytes (c ∷ text) acc h =
    rw (utf8_from-char c acc (as_bytes text) (ground arith))
      (ap (λ s. c ∷ s) (utf8_from-as_bytes text c (ground arith)))

abbrev pub base64 : Base64
base64 = record {
  encode = encode;
  decode = λ s. some (decode_from 0 s);
  from_utf8 = λ bytes. some (utf8_from 0 0 bytes);
}

pub base64-IsBase64 : IsBase64 base64
base64-IsBase64 = record {
  decode-encode = λ bytes. ap some (decode_from-encode bytes);
  encode-nonempty = encode-not_empty;
  encode-chars = encode-segment;
  from_utf8-as_bytes = λ text h. ap some (utf8_from-as_bytes text 0 h);
}
