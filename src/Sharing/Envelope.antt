-- ===== src/Sharing/Envelope.antt =====
-- The text of a share (src/core/sharing.rs).
use vectis.Base.{
  ℕ, not, ◌||◌, List, ◌++◌, Option, some, none, ltb, ◌==◌, String, Text, codes, text_eq, length,
}
use vectis.Error.{DynError, invalid_input}
use vectis.Error.Result.{Result, ok, err, ◌>>=◌, ◌>>◌, reject}
use vectis.Crypto.{constant_time_eq}
use vectis.Validation.Chars.{byte_len}
use vectis.Validation.Split.{strip_prefix}
use vectis.Validation.Fields.{Checked}
use vectis.Sharing.Shares.{SharingProfile, RawShare, validate_raw_share}

pub record UnsignedShareEnvelope : Type 0 where
  pub version : Text
  pub set_id : Text
  pub profile : Text
  pub kid : Text
  pub threshold : ℕ
  pub shares : ℕ
  pub index : ℕ
  pub share : Text

-- `ShareEnvelope`: the same fields and the tag.
pub record ShareEnvelope : Type 0 where
  pub unsigned : UnsignedShareEnvelope
  pub tag : Text

-- The URL-safe base64 engine, hexadecimal coding, JSON, and the tag under the profile's key.
pub record ShareServices : Type 0 where
  pub encode_url : List ℕ → Text
  pub decode_url : Text → Option (List ℕ)
  pub encode_hex : List ℕ → Text
  pub decode_hex : Text → Option (List ℕ)
  pub canonical_unsigned : UnsignedShareEnvelope → Result DynError (List ℕ)
  pub canonical_envelope : ShareEnvelope → Result DynError (List ℕ)
  pub parse_envelope : List ℕ → Option ShareEnvelope
  pub keyed_tag : List ℕ → Result DynError (List ℕ)

abbrev pub set_id_bytes : ℕ
set_id_bytes = 16

abbrev pub share_envelope_max_chars : ℕ
share_envelope_max_chars = 16384

unfoldable pub share_prefix : Text
share_prefix = codes "vectis-sss-v1."

-- `ok_or_else` and `map_err` of a value that may be missing.
abbrev pub required : {A : Type 0} → Option A → String → Result DynError A
required none message = err (invalid_input message)
required (some a) message = ok a

module _ (services : ShareServices) where
  unfoldable pub validate_set_id : Text → Checked
  validate_set_id set_id = do
    decoded ← required (services.decode_url set_id) "set_id contains invalid sharing encoding"
    reject (not (length decoded == set_id_bytes))
        (invalid_input "set_id length does not match sharing format")

  unfoldable pub compute_tag : UnsignedShareEnvelope → Result DynError (List ℕ)
  compute_tag unsigned = do
    payload ← services.canonical_unsigned unsigned
    services.keyed_tag payload

  unfoldable pub unsigned_of : SharingProfile → Text → ℕ → Text → UnsignedShareEnvelope
  unsigned_of profile set_id index share = record {
    version = codes "sss-v1";
    set_id = set_id;
    profile = profile.name;
    kid = profile.kid;
    threshold = profile.threshold;
    shares = profile.shares;
    index = index;
    share = share;
  }

  unfoldable pub encode_share : SharingProfile → Text → RawShare → Result DynError Text
  unfolding validate_set_id compute_tag unsigned_of share_prefix
  encode_share profile set_id raw_share = do
    validate_set_id set_id
    validate_raw_share profile raw_share
    unsigned ← ok (unsigned_of profile set_id raw_share.index (services.encode_url raw_share.value))
    tag ← compute_tag unsigned
    encoded ←
        services.canonical_envelope (record { unsigned = unsigned; tag = services.encode_hex tag })
    ok (share_prefix ++ services.encode_url encoded)

  unfoldable pub parse_share_envelope : Text → Result DynError ShareEnvelope
  unfolding share_prefix strip_prefix
  parse_share_envelope encoded = do
    reject (ltb share_envelope_max_chars (byte_len encoded))
        (invalid_input "share exceeds maximum allowed length")
    payload ← required (strip_prefix share_prefix encoded) "share must use vectis-sss-v1 encoding"
    bytes ← required (services.decode_url payload) "share contains invalid vectis-sss-v1 encoding"
    required (services.parse_envelope bytes) "share contains invalid vectis-sss-v1 envelope"

  unfoldable pub validate_envelope : SharingProfile → UnsignedShareEnvelope → Checked
  unfolding validate_set_id
  validate_envelope profile envelope = do
    reject (not (text_eq envelope.version (codes "sss-v1")))
        (invalid_input "share version is not supported")
    validate_set_id envelope.set_id
    reject (not (text_eq envelope.profile profile.name))
        (invalid_input "share profile does not match sharing profile")
    reject (not (text_eq envelope.kid profile.kid))
        (invalid_input "share kid does not match sharing profile")
    reject
        (not (envelope.threshold == profile.threshold) || not (envelope.shares == profile.shares))
        (invalid_input "share threshold does not match sharing profile")
    reject (envelope.index == 0 || ltb profile.shares envelope.index)
        (invalid_input "share index is outside sharing profile range")

  unfoldable pub decode_share : SharingProfile → Text → Result DynError (Text × RawShare)
  unfolding parse_share_envelope validate_envelope compute_tag
  decode_share profile encoded = do
    envelope ← parse_share_envelope encoded
    validate_envelope profile envelope.unsigned
    expected ← compute_tag (record envelope.unsigned { version = codes "sss-v1" })
    actual ← required (services.decode_hex envelope.tag) "share tag contains invalid encoding"
    reject (not (constant_time_eq expected actual)) (invalid_input "share authentication failed")
    value ←
        required (services.decode_url envelope.unsigned.share)
          "share payload contains invalid encoding"
    raw_share ← ok (record { index = envelope.unsigned.index; value = value })
    validate_raw_share profile raw_share
    ok (envelope.unsigned.set_id, raw_share)
