-- ===== src/Keys/Sealing.antt =====
-- src/ops/keys.rs: proofs about sealing and opening under an internal key.
use vectis.Base.{
  ℕ, ◌*◌, ◌≤◌, ◌≡◌, refl, true, false, List, [], ◌∷◌, some, arith, String, Text, text_eq, all,
  length,
}
use vectis.Error.{DynError}
use vectis.Error.Result.{ok}
use vectis.Crypto.{hash_algorithms}
use vectis.Keys.Id.{internal_keys_hash, validate_hash_hex_field, validate_key_id}
use vectis.Keys.Lifecycle.{OpsKeyProperties}
use vectis.Keys.Record.{KeyServices, internal_keys_cipher, nonce_size_bytes, envelope_max_chars}
use vectis.Keys.Open.{utf8_text, open_envelope}
use vectis.Validation.Chars.{
  is_blank, is_whitespace, is_control, is_ascii_digit, is_ascii_hexdigit, as_bytes, byte_len,
}
use vectis.Validation.Fields.{validate_hex_field, validate_allowed_value, validate_text_field}
use vectis.Validation.Envelope.{seal}
use vectis.Validation.Sealed.{is_scalar, IsBase64, decode_base64_standard_envelope-seal}

-- What Botan, serde_json and the crates base64 and hex document: decryption undoes encryption, and
-- a GCM ciphertext has its 16-byte tag; reading JSON undoes writing it; the hash has 32 bytes; a
-- byte is two hexadecimal digits.
pub record IsKeyServices {M : Type 0} (services : KeyServices M) : Type 0 where
  pub base64_laws : IsBase64 services.base64
  pub decrypt-encrypt :
      (message key nonce aad ciphertext : List ℕ)
      → services.encrypt internal_keys_cipher message key nonce aad ≡ ok ciphertext
      → services.decrypt internal_keys_cipher ciphertext key nonce aad ≡ ok message
  pub encrypt-length :
      (message key nonce aad ciphertext : List ℕ)
      → services.encrypt internal_keys_cipher message key nonce aad ≡ ok ciphertext
      → 16 ≤ length ciphertext
  pub keys_from_to :
      (keys : M) (json : Text)
      → services.keys_to_json keys ≡ ok json
      → (services.keys_from_json json ≡ some keys) × (all is_scalar json ≡ true)
  pub properties_from_to :
      (properties : OpsKeyProperties) (json : Text)
      → services.properties_to_json properties ≡ ok json
      → (services.properties_from_json json ≡ some properties) × (all is_scalar json ≡ true)
  pub hash-length :
      (bytes digest : List ℕ)
      → services.hash internal_keys_hash bytes ≡ ok digest
      → length digest ≡ 32
  pub hex_digits : (bytes : List ℕ) → all is_ascii_hexdigit (services.hex_encode bytes) ≡ true
  pub hex_length : (bytes : List ℕ) → length (services.hex_encode bytes) ≡ length bytes * 2

module _ {M : Type 0} (services : KeyServices M) (laws : IsKeyServices services) where
  utf8_text-as_bytes :
      (text : Text) (error : DynError)
      → all is_scalar text ≡ true
      → utf8_text services (as_bytes text) error ≡ ok text
  unfolding utf8_text
  utf8_text-as_bytes text error h = rw (utf8_text, laws.base64_laws.from_utf8-as_bytes text h) refl

  -- What was sealed under a key opens under it.
  pub open_envelope-seal :
      (field : String) (plaintext aad : Text) (key nonce ciphertext : List ℕ)
      → services.encrypt internal_keys_cipher (as_bytes plaintext) key nonce (as_bytes aad)
        ≡ ok ciphertext
      → length nonce ≡ nonce_size_bytes
      → is_blank aad ≡ false
      → all is_scalar aad ≡ true
      → all is_scalar plaintext ≡ true
      → byte_len (seal services.base64 ciphertext nonce (as_bytes aad)) ≤ envelope_max_chars
      → open_envelope services field (seal services.base64 ciphertext nonce (as_bytes aad)) key
        ≡ ok (aad, plaintext)
  unfolding open_envelope
  open_envelope-seal field plaintext aad key nonce ciphertext e n blank sa sp b =
      rw
        (
          decode_base64_standard_envelope-seal services.base64 laws.base64_laws field
              envelope_max_chars nonce_size_bytes ciphertext nonce aad
              (laws.encrypt-length (as_bytes plaintext) key nonce (as_bytes aad) ciphertext e) n
              (omega arith) blank sa b,
          utf8_text-as_bytes aad _ sa,
          laws.decrypt-encrypt (as_bytes plaintext) key nonce (as_bytes aad) ciphertext e,
          utf8_text-as_bytes plaintext _ sp,
        )
        refl

byte_len-ascii_hexdigit : (s : Text) → all is_ascii_hexdigit s ≡ true → byte_len s ≡ length s
unfolding byte_len is_ascii_hexdigit is_ascii_digit
byte_len-ascii_hexdigit [] h = refl
byte_len-ascii_hexdigit (c ∷ s) h = ground (arith, byte_len-ascii_hexdigit s)

allowed_hash : validate_allowed_value "hash_algorithm" internal_keys_hash hash_algorithms ≡ ok tt
unfolding validate_allowed_value validate_text_field hash_algorithms internal_keys_hash is_blank
    is_whitespace is_control text_eq
allowed_hash = refl

validate_hex_field-hex :
    (s : Text) → all is_ascii_hexdigit s ≡ true → length s ≡ 64 → validate_hex_field "id" s ≡ ok tt
unfolding validate_hex_field
validate_hex_field-hex s h n = rw (n, byte_len-ascii_hexdigit s h, n, h) refl

pub validate_key_id-hex :
    (s : Text) → all is_ascii_hexdigit s ≡ true → length s ≡ 64 → validate_key_id s ≡ ok tt
unfolding validate_key_id validate_hash_hex_field
validate_key_id-hex s h n =
    rw (allowed_hash, validate_hex_field-hex s h n, byte_len-ascii_hexdigit s h, n) refl
