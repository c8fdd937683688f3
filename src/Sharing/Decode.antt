-- ===== src/Sharing/Decode.antt =====
-- src/core/sharing.rs: proofs about `encode_share` and `decode_share`.
use vectis.Base.{
  ℕ, ◌≤◌, ◌≡◌, refl, sym, true, ◌||◌, List, ◌++◌, some, arith, ltb, le→ltb-false, ◌==◌, Text, codes,
  text_eq_refl,
}
use vectis.Error.{invalid_input}
use vectis.Error.Result.{ok, reject, reject-ok, >>-eq-ok, with_ok}
use mathlib.Core.Path.{subst}
use vectis.Validation.Split.{strip_prefix-append}
use vectis.Crypto.Compare.{IsBytes, constant_time_eq_iff}
use vectis.Validation.Chars.{byte_len}
use vectis.Sharing.Shares.{SharingProfile, RawShare, validate_raw_share}
use vectis.Sharing.Envelope.{
  UnsignedShareEnvelope, ShareEnvelope, ShareServices, share_envelope_max_chars, share_prefix,
  validate_set_id, compute_tag, unsigned_of, encode_share, parse_share_envelope, validate_envelope,
  decode_share,
}

-- What the crates document: each decoding undoes its encoding, and a tag is a list of bytes.
pub record IsShareServices (services : ShareServices) : Type 0 where
  pub url : (bytes : List ℕ) → services.decode_url (services.encode_url bytes) ≡ some bytes
  pub hex : (bytes : List ℕ) → services.decode_hex (services.encode_hex bytes) ≡ some bytes
  pub json :
      (envelope : ShareEnvelope) (bytes : List ℕ)
      → services.canonical_envelope envelope ≡ ok bytes
      → services.parse_envelope bytes ≡ some envelope
  pub tag_bytes : (payload tag : List ℕ) → services.keyed_tag payload ≡ ok tag → IsBytes tag

==-refl : (x : ℕ) → x == x ≡ true
==-refl x = ground arith

module _ (services : ShareServices) (laws : IsShareServices services) where
  compute_tag-IsBytes :
      (unsigned : UnsignedShareEnvelope) (tag : List ℕ)
      → compute_tag services unsigned ≡ ok tag
      → IsBytes tag
  unfolding compute_tag
  compute_tag-IsBytes unsigned tag h =
      with_ok (services.canonical_unsigned unsigned) _ h
        (λ payload _ h. laws.tag_bytes payload tag h)

  parse_share_envelope-encoded :
      (envelope : ShareEnvelope) (bytes : List ℕ)
      → services.canonical_envelope envelope ≡ ok bytes
      → byte_len (share_prefix ++ services.encode_url bytes) ≤ share_envelope_max_chars
      → parse_share_envelope services (share_prefix ++ services.encode_url bytes) ≡ ok envelope
  unfolding parse_share_envelope
  parse_share_envelope-encoded envelope bytes h b =
      rw
        (
          le→ltb-false share_envelope_max_chars
              (byte_len (share_prefix ++ services.encode_url bytes)) b,
          strip_prefix-append share_prefix (services.encode_url bytes),
          laws.url bytes,
          laws.json envelope bytes h,
        )
        refl

  validate_envelope-unsigned :
      (profile : SharingProfile) (set_id share : Text) (raw_share : RawShare)
      → validate_set_id services set_id ≡ ok tt
      → validate_raw_share profile raw_share ≡ ok tt
      → validate_envelope services profile
          (unsigned_of services profile set_id raw_share.index share)
        ≡ ok tt
  unfolding validate_envelope unsigned_of validate_raw_share
  validate_envelope-unsigned profile set_id share raw_share h r =
      let (index, _) =
        >>-eq-ok
          (reject (raw_share.index == 0 || ltb profile.shares raw_share.index)
            (invalid_input "share index is outside sharing profile range"))
          _ r in
      rw
        (
          text_eq_refl (codes "sss-v1"),
          h,
          text_eq_refl profile.name,
          text_eq_refl profile.kid,
          ==-refl profile.threshold,
          ==-refl profile.shares,
          reject-ok (raw_share.index == 0 || ltb profile.shares raw_share.index) _ index,
        )
        refl

  decoded :
      (profile : SharingProfile) (set_id : Text) (raw_share : RawShare) (tag : List ℕ)
      (encoded : Text)
      → parse_share_envelope services encoded
        ≡ ok (record {
          unsigned =
              unsigned_of services profile set_id raw_share.index
                (services.encode_url raw_share.value);
          tag = services.encode_hex tag;
        })
      → validate_set_id services set_id ≡ ok tt
      → validate_raw_share profile raw_share ≡ ok tt
      → compute_tag services (
          unsigned_of services profile set_id raw_share.index (services.encode_url raw_share.value))
        ≡ ok tag
      → decode_share services profile encoded ≡ ok (set_id, raw_share)
  unfolding decode_share unsigned_of
  decoded profile set_id raw_share tag encoded parsed set_ok raw_ok tag_ok =
      let bytes = compute_tag-IsBytes _ tag tag_ok in
      rw
        (
          parsed,
          validate_envelope-unsigned profile set_id (services.encode_url raw_share.value) raw_share
              set_ok raw_ok,
          tag_ok,
          laws.hex tag,
          (constant_time_eq_iff tag tag bytes bytes).1 refl,
          laws.url raw_share.value,
          raw_ok,
        )
        refl

  -- Where the services are as documented and `encode_share` returns a text no longer than the
  -- maximum, `decode_share` under the same profile returns the set identifier and the share.
  pub decode_share-encode_share :
      (profile : SharingProfile) (set_id : Text) (raw_share : RawShare) (encoded : Text)
      → encode_share services profile set_id raw_share ≡ ok encoded
      → byte_len encoded ≤ share_envelope_max_chars
      → decode_share services profile encoded ≡ ok (set_id, raw_share)
  unfolding encode_share
  decode_share-encode_share profile set_id raw_share encoded h b =
      let unsigned =
        unsigned_of services profile set_id raw_share.index (services.encode_url raw_share.value) in
      with_ok (validate_set_id services set_id) _ h (λ _ set_ok h.
        with_ok (validate_raw_share profile raw_share) _ h (λ _ raw_ok h.
          with_ok (compute_tag services unsigned) _ h (λ tag tag_ok h.
            with_ok
              (services.canonical_envelope
                (record { unsigned = unsigned; tag = services.encode_hex tag }))
              _ h
              (λ bytes bytes_ok h.
                let same : share_prefix ++ services.encode_url bytes ≡ encoded = cc (h) in
                let parsed =
                  parse_share_envelope-encoded
                    (record { unsigned = unsigned; tag = services.encode_hex tag }) bytes bytes_ok
                    (subst (λ t. byte_len t ≤ share_envelope_max_chars) (sym same) b) in
                subst (λ t. decode_share services profile t ≡ ok (set_id, raw_share)) same
                  (decoded profile set_id raw_share tag _ parsed (cc (set_ok)) (cc (raw_ok))
                    tag_ok)))))
