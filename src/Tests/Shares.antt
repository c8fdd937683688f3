-- ===== src/Tests/Shares.antt =====
-- The text of a share (src/core/sharing.rs) at a concrete share.
use vectis.Base.{
  ℕ, ◌≤◌, ◌≡◌, inl, inr, refl, sym, ap, Bool, true, ◌&&◌, List, [], ◌∷◌, ◌++◌, some, arith, ◌==◌,
  ==_iff, if◌then◌else◌, Bool-cases, Text, codes, text_eq, text_eq_iff,
}
use vectis.Error.{DynError, invalid_input}
use vectis.Error.Result.{Result, ok, err, ok-injective}
use mathlib.Core.Path.{subst}
use vectis.Crypto.Compare.{IsBytes}
use vectis.Sharing.Shares.{RawShare, validate_raw_share}
use vectis.Sharing.Envelope.{
  ShareEnvelope, ShareServices, share_prefix, share_envelope_max_chars, encode_share, decode_share,
}
use vectis.Sharing.Decode.{IsShareServices, decode_share-encode_share}
use vectis.Validation.Chars.{byte_len}
use vectis.Tests.Codec.{encode, decode_from, decode_from-encode}
use vectis.Tests.Sharing.{profile}

abbrev set_id : Text
set_id = codes "AAAAAAAAAAAAAAAA"

abbrev raw_share : RawShare
raw_share = record { index = 1; value = 45 ∷ 192 ∷ [] }

-- The one envelope that the JSON below writes and reads.
abbrev sample : ShareEnvelope
sample = record {
  unsigned = record {
    version = codes "sss-v1";
    set_id = set_id;
    profile = codes "recovery";
    kid = codes "a";
    threshold = 2;
    shares = 3;
    index = 1;
    share = encode (45 ∷ 192 ∷ []);
  };
  tag = encode (5 ∷ []);
}

abbrev is_sample : ShareEnvelope → Bool
is_sample e =
    text_eq e.unsigned.version sample.unsigned.version
    && text_eq e.unsigned.set_id sample.unsigned.set_id
    && text_eq e.unsigned.profile sample.unsigned.profile
    && text_eq e.unsigned.kid sample.unsigned.kid
    && e.unsigned.threshold == 2
    && e.unsigned.shares == 3
    && e.unsigned.index == 1
    && text_eq e.unsigned.share sample.unsigned.share
    && text_eq e.tag sample.tag

is_sample-same : (e : ShareEnvelope) → is_sample e ≡ true → e ≡ sample
is_sample-same e h = cc (
  (text_eq_iff e.unsigned.version sample.unsigned.version).0 (ground (arith, h)),
  (text_eq_iff e.unsigned.set_id sample.unsigned.set_id).0 (ground (arith, h)),
  (text_eq_iff e.unsigned.profile sample.unsigned.profile).0 (ground (arith, h)),
  (text_eq_iff e.unsigned.kid sample.unsigned.kid).0 (ground (arith, h)),
  (==_iff e.unsigned.threshold 2).0 (ground (arith, h)),
  (==_iff e.unsigned.shares 3).0 (ground (arith, h)),
  (==_iff e.unsigned.index 1).0 (ground (arith, h)),
  (text_eq_iff e.unsigned.share sample.unsigned.share).0 (ground (arith, h)),
  (text_eq_iff e.tag sample.tag).0 (ground (arith, h)),
)

abbrev write : ShareEnvelope → Result DynError (List ℕ)
write e = if is_sample e then ok (1 ∷ []) else err (invalid_input "unsupported")

abbrev services : ShareServices
services = record {
  encode_url = encode;
  decode_url = λ s. some (decode_from 0 s);
  encode_hex = encode;
  decode_hex = λ s. some (decode_from 0 s);
  canonical_unsigned = λ u. ok [];
  canonical_envelope = write;
  parse_envelope = λ bytes. some sample;
  keyed_tag = λ payload. ok (5 ∷ []);
}

read-write : (e : ShareEnvelope) (bytes : List ℕ) → write e ≡ ok bytes → some sample ≡ some e
read-write e bytes h = elim (Bool-cases (is_sample e)) [
  | inl s ↦ ap some (sym (is_sample-same e s))
  | inr s ↦ absurd (ground (arith, h, s))
]

services-IsShareServices : IsShareServices services
services-IsShareServices = record {
  url = λ bytes. ap some (decode_from-encode bytes);
  hex = λ bytes. ap some (decode_from-encode bytes);
  json = read-write;
  tag_bytes = λ payload tag h. subst IsBytes (ok-injective (ok (5 ∷ [])) refl h) (omega arith, tt);
}

abbrev encoded : Text
encoded = share_prefix ++ encode (1 ∷ [])

encoded_share : encode_share services profile set_id raw_share ≡ ok encoded
unfolding encode_share codes validate_raw_share text_eq
encoded_share = refl

encoded_length : byte_len encoded ≤ share_envelope_max_chars
unfolding byte_len share_prefix codes
encoded_length = omega arith

decode_share-encode_share_example : decode_share services profile encoded ≡ ok (set_id, raw_share)
decode_share-encode_share_example =
    decode_share-encode_share services services-IsShareServices profile set_id raw_share encoded
      encoded_share encoded_length
