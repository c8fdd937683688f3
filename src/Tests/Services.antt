-- ===== src/Tests/Services.antt =====
-- A concrete cipher, hash and JSON.
use vectis.Base.{
  ℕ, ◌+◌, ◌*◌, ◌/◌, ◌%◌, ◌≤◌, ◌≡◌, refl, sym, ap, Bool, true, not, ◌&&◌, List, [], ◌∷◌, ◌++◌,
  Option, some, none, arith, ltb, ◌==◌, if◌then◌else◌, Text, all, any, All, length, drop, replicate,
  length-append,
}
use vectis.Error.{DynError, invalid_input}
use vectis.Error.Result.{Result, ok, err}
use mathlib.Core.Path.{subst}
use vectis.Keys.Lifecycle.{OpsKeyProperties}
use vectis.Keys.Record.{KeyServices}
use vectis.Keys.Sealing.{IsKeyServices}
use vectis.Validation.Chars.{is_ascii_hexdigit, is_ascii_digit}
use vectis.Validation.Split.{split, join, Lacks, split-join}
use vectis.Validation.Sealed.{is_scalar, all-append}
use vectis.Tests.Codec.{base64, base64-IsBase64}

-- Each text on a line of its own.
abbrev lines_of : OpsKeyProperties → List Text
lines_of p =
    p.profile ∷ p.tag ∷ p.created_at ∷ p.lifecycle.status ∷ p.lifecycle.reason
    ∷ p.lifecycle.changed_at ∷ []

abbrev is_line : Text → Bool
is_line s = not (any (λ c. c == 10) s) && all is_scalar s

abbrev properties_to_json : OpsKeyProperties → Result DynError Text
properties_to_json p =
    if p.version == 1 && all is_line (lines_of p)
    then ok (join 10 (lines_of p))
    else err (invalid_input "unsupported")

abbrev read_lines : List Text → Option OpsKeyProperties
read_lines (profile ∷ tag ∷ created_at ∷ status ∷ reason ∷ changed_at ∷ []) = some (record {
  version = 1;
  profile = profile;
  tag = tag;
  created_at = created_at;
  lifecycle = record { status = status; reason = reason; changed_at = changed_at };
})
read_lines _ = none

abbrev properties_from_json : Text → Option OpsKeyProperties
properties_from_json s = read_lines (split 10 s)

lines-lack : (ss : List Text) → all is_line ss ≡ true → All (Lacks 10) ss
lines-lack [] h = tt
lines-lack (s ∷ ss) h = (ground arith, lines-lack ss (ground arith))

join-scalar : (ss : List Text) → all is_line ss ≡ true → all is_scalar (join 10 ss) ≡ true
unfolding join is_scalar
join-scalar [] h = refl
join-scalar (s ∷ []) h = ground arith
join-scalar (s ∷ t ∷ ss) h =
    rw (all-append is_scalar s (10 ∷ join 10 (t ∷ ss)), join-scalar (t ∷ ss) (ground arith))
      (ground arith)

properties_from_to :
    (p : OpsKeyProperties) (json : Text)
    → properties_to_json p ≡ ok json
    → (properties_from_json json ≡ some p) × (all is_scalar json ≡ true)
properties_from_to p json h =
    let guard : p.version == 1 && all is_line (lines_of p) ≡ true = ground arith in
    let version : p.version ≡ 1 = ground arith in
    let lines : all is_line (lines_of p) ≡ true = ground arith in
    let written : join 10 (lines_of p) ≡ json = ground (arith, guard) in
    let parts = split-join 10 (lines_of p) (cc) (lines-lack (lines_of p) lines) in
    (
      cc (ap read_lines parts, written, version),
      subst (λ t. all is_scalar t ≡ true) written (join-scalar (lines_of p) lines),
    )

abbrev hex_digit : ℕ → ℕ
hex_digit n = if ltb n 10 then 48 + n else 87 + n

abbrev hex_encode : List ℕ → Text
hex_encode [] = []
hex_encode (b ∷ bytes) = hex_digit (b / 16 % 16) ∷ hex_digit (b % 16) ∷ hex_encode bytes

hex_digits : (bytes : List ℕ) → all is_ascii_hexdigit (hex_encode bytes) ≡ true
unfolding is_ascii_hexdigit is_ascii_digit
hex_digits [] = refl
hex_digits (b ∷ bytes) = ground (arith, hex_digits bytes)

hex_length : (bytes : List ℕ) → length (hex_encode bytes) ≡ length bytes * 2
hex_length [] = refl
hex_length (b ∷ bytes) = omega (arith, hex_length bytes)

abbrev keys_to_json : Text → Result DynError Text
keys_to_json keys = if all is_scalar keys then ok keys else err (invalid_input "unsupported")

keys_from_to :
    (keys json : Text)
    → keys_to_json keys ≡ ok json
    → (some json ≡ some keys) × (all is_scalar json ≡ true)
keys_from_to keys json h =
    let scalar : all is_scalar keys ≡ true = ground arith in
    let same : keys ≡ json = ground (arith, scalar) in (cc (same), cc (scalar, same))

-- The cipher puts a tag before the message; the hash has the length in each of its bytes.
abbrev pub services : KeyServices Text
services = record {
  base64 = base64;
  hex_encode = hex_encode;
  hash = λ _ bytes. ok (replicate 32 (length bytes % 256));
  encrypt = λ _ message _ _ _. ok (replicate 16 7 ++ message);
  decrypt = λ _ ciphertext _ _ _. ok (drop 16 ciphertext);
  create_key_material = λ input. ok (input.tag);
  keys_to_json = keys_to_json;
  keys_from_json = some;
  properties_to_json = properties_to_json;
  properties_from_json = properties_from_json;
}

pub services-IsKeyServices : IsKeyServices services
services-IsKeyServices = record {
  base64_laws = base64-IsBase64;
  decrypt-encrypt = λ message _ _ _ c h. cc (h);
  encrypt-length = λ message _ _ _ c h.
      let same : replicate 16 7 ++ message ≡ c = cc (h) in
      subst (λ l. 16 ≤ length l) same (omega (arith, length-append (replicate 16 7) message));
  keys_from_to = keys_from_to;
  properties_from_to = properties_from_to;
  hash-length = λ bytes digest h.
      let same : replicate 32 (length bytes % 256) ≡ digest = cc (h) in sym (ap length same);
  hex_digits = hex_digits;
  hex_length = hex_length;
}
