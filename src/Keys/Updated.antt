-- ===== src/Keys/Updated.antt =====
-- src/ops/keys.rs: proofs about loading an updated row.
use vectis.Base.{ℕ, ◌≤◌, ◌≡◌, refl, sym, ◌∙◌, true, false, List, Text, all, length}
use vectis.Error.{DynError}
use vectis.Error.Result.{Result, ok, with_ok}
use mathlib.Core.Path.{subst}
use vectis.Keys.Id.{validate_key_id}
use vectis.Keys.Lifecycle.{
  OpsKeyLifecycle, OpsKeyProperties, validate_ops_key_properties, validate_lifecycle_transition,
}
use vectis.Keys.State.{LoadedOpsKey}
use vectis.Keys.Record.{
  KeyServices, InternalDerivedKeys, OpsKeyRow, Decrypted, nonce_size_bytes, envelope_max_chars,
  encrypt_internal_payload, validate_loaded_ops_key_binding,
}
use vectis.Keys.Open.{
  validate_kid_matches_keys, decrypt_ops_keys_payload, decrypt_ops_key_properties_payload, open_row,
  load_ops_key_from_row,
}
use vectis.Keys.Sealing.{IsKeyServices, open_envelope-seal}
use vectis.Keys.Created.{dotted-seal, parse-not_blank}
use vectis.Keys.Parts.{encrypt_internal_payload-ok}
use vectis.Keys.RoundTrip.{decrypt_ops_key_properties_payload-seal, open_row-parts}
use vectis.Keys.Update.{
  UpdateLifecycleInput, encrypt_ops_key_properties_payload, update_key_lifecycle,
}
use vectis.Validation.Chars.{is_blank, as_bytes, byte_len}
use vectis.Validation.Aad.{parse_aad_fields}
use vectis.Validation.Envelope.{seal}
use vectis.Validation.Sealed.{is_scalar}

-- What a row that opens has passed.
record IsOpened {M : Type 0} (services : KeyServices M) (internal_keys : InternalDerivedKeys)
    (row : OpsKeyRow) (decrypted : Decrypted M) (properties : Decrypted OpsKeyProperties)
    : Type 0 where
  kid_ok : validate_kid_matches_keys services row.kid row.keys ≡ ok tt
  keys_ok : decrypt_ops_keys_payload services internal_keys row.keys ≡ ok decrypted
  bound : validate_loaded_ops_key_binding row.kid decrypted properties ≡ ok tt

module _ {M : Type 0} where
  -- The binding does not read the lifecycle.
  binding-lifecycle :
      (id : Text) (keys : Decrypted M) (properties : Decrypted OpsKeyProperties)
      (lifecycle : OpsKeyLifecycle)
      → validate_loaded_ops_key_binding id keys (record {
        aad = properties.aad;
        output = record properties.output { lifecycle = lifecycle };
      })
        ≡ validate_loaded_ops_key_binding id keys properties
  unfolding validate_loaded_ops_key_binding
  binding-lifecycle id keys properties lifecycle = refl

  bound-not_blank :
      (id : Text) (keys : Decrypted M) (properties : Decrypted OpsKeyProperties)
      → validate_loaded_ops_key_binding id keys properties ≡ ok tt
      → is_blank properties.aad ≡ false
  unfolding validate_loaded_ops_key_binding
  bound-not_blank id keys properties h = with_ok (parse_aad_fields keys.aad) _ h (λ _ _ h.
      with_ok (parse_aad_fields properties.aad) _ h
        (λ fields e _. parse-not_blank properties.aad fields e))

  open_row-IsOpened :
      (services : KeyServices M) (internal_keys : InternalDerivedKeys) (row : OpsKeyRow)
      (opened : Decrypted M × Decrypted OpsKeyProperties)
      → open_row services internal_keys row ≡ ok opened
      → IsOpened services internal_keys row opened.0 opened.1
  unfolding open_row
  open_row-IsOpened services internal_keys row opened h =
      with_ok (validate_kid_matches_keys services row.kid row.keys) _ h (λ _ kid_ok h.
        with_ok (decrypt_ops_keys_payload services internal_keys row.keys) _ h
          (λ decrypted keys_ok h.
            with_ok (decrypt_ops_key_properties_payload services internal_keys row.properties) _ h
              (λ properties properties_ok h.
                with_ok (validate_ops_key_properties properties.output) _ h (λ _ valid h.
                  with_ok (validate_loaded_ops_key_binding row.kid decrypted properties) _ h
                    (λ _ bound h.
                      let same : (decrypted, properties) ≡ opened = cc (h) in
                      record {
                        kid_ok = cc (kid_ok);
                        keys_ok = cc (keys_ok, same);
                        bound = cc (bound, same);
                      })))))

module _ {M : Type 0} (services : KeyServices M) (laws : IsKeyServices services) where
  -- Encrypted properties open to what was encrypted.
  reload_properties :
      (internal_keys : InternalDerivedKeys) (updated : OpsKeyProperties) (aad properties : Text)
      (nonce : List ℕ)
      → encrypt_ops_key_properties_payload services internal_keys updated aad (ok nonce)
        ≡ ok properties
      → is_blank aad ≡ false
      → all is_scalar aad ≡ true
      → length nonce ≡ nonce_size_bytes
      → byte_len properties ≤ envelope_max_chars
      → decrypt_ops_key_properties_payload services internal_keys properties
        ≡ ok (record { aad = aad; output = updated })
  unfolding encrypt_ops_key_properties_payload
  reload_properties internal_keys updated aad properties nonce h blank s n b =
      with_ok (services.properties_to_json updated) _ h (λ plaintext plaintext_ok h.
        with_ok (encrypt_internal_payload services plaintext internal_keys.properties_key nonce aad)
          _ h
          (λ encoded encoded_ok h.
            let (ciphertext, encrypted, same) =
              encrypt_internal_payload-ok services plaintext _ nonce aad encoded encoded_ok in
            let sealed : seal services.base64 ciphertext nonce (as_bytes aad) ≡ properties =
              cc (h, same, dotted-seal services.base64 ciphertext nonce (as_bytes aad)) in
            subst
              (λ t.
                decrypt_ops_key_properties_payload services internal_keys t
                ≡ ok (record { aad = aad; output = updated }))
              sealed
              (decrypt_ops_key_properties_payload-seal services laws internal_keys updated plaintext
                aad nonce ciphertext plaintext_ok
                (open_envelope-seal services laws "opskeys.properties" plaintext aad
                  internal_keys.properties_key nonce ciphertext encrypted n blank s
                  (laws.properties_from_to updated plaintext plaintext_ok).1
                  (subst (λ t. byte_len t ≤ envelope_max_chars) (sym sealed) b)))))

  reload :
      (internal_keys : InternalDerivedKeys) (row : OpsKeyRow)
      (opened : Decrypted M × Decrypted OpsKeyProperties) (lifecycle : OpsKeyLifecycle)
      (properties : Text)
      → open_row services internal_keys row ≡ ok opened
      → validate_ops_key_properties (record opened.1.output { lifecycle = lifecycle }) ≡ ok tt
      → decrypt_ops_key_properties_payload services internal_keys properties
        ≡ ok (record {
          aad = opened.1.aad;
          output = record opened.1.output { lifecycle = lifecycle };
        })
      → load_ops_key_from_row services internal_keys (record row { properties = properties })
        ≡ ok (record {
          id = row.kid;
          aad = opened.0.aad;
          properties_aad = opened.1.aad;
          key_material = opened.0.output;
          properties = record opened.1.output { lifecycle = lifecycle };
        })
  reload internal_keys row opened lifecycle properties h valid e =
      let o = open_row-IsOpened services internal_keys row opened h in
      open_row-parts services laws internal_keys (record row { properties = properties }) opened.0
        (record { aad = opened.1.aad; output = record opened.1.output { lifecycle = lifecycle } })
        o.kid_ok o.keys_ok e valid (binding-lifecycle row.kid opened.0 opened.1 lifecycle ∙ o.bound)

  load_ops_key_from_row-opened :
      (internal_keys : InternalDerivedKeys) (row : OpsKeyRow)
      (opened : Decrypted M × Decrypted OpsKeyProperties) (loaded : LoadedOpsKey M)
      → open_row services internal_keys row ≡ ok opened
      → load_ops_key_from_row services internal_keys row ≡ ok loaded
      → loaded ≡ record {
        id = row.kid;
        aad = opened.0.aad;
        properties_aad = opened.1.aad;
        key_material = opened.0.output;
        properties = opened.1.output;
      }
  unfolding load_ops_key_from_row
  load_ops_key_from_row-opened internal_keys row opened loaded h l =
      with_ok (open_row services internal_keys row) _ l (λ other e l. cc (e, h, l))

  -- Where the services are as documented, a row loads as a key whose context is the text of a
  -- string, and `update_key_lifecycle` of it succeeds with a 12-byte nonce and new properties no
  -- longer than the maximum: the row with these properties loads as the same key with the
  -- requested status and reason and the time of the change.
  pub load-update :
      (internal_keys : InternalDerivedKeys) (get_ops_keys : Text → Result DynError OpsKeyRow)
      (id : Text) (row : OpsKeyRow) (input : UpdateLifecycleInput) (now : Text) (nonce : List ℕ)
      (loaded : LoadedOpsKey M) (properties : Text) (lifecycle : OpsKeyLifecycle)
      → get_ops_keys id ≡ ok row
      → load_ops_key_from_row services internal_keys row ≡ ok loaded
      → all is_scalar loaded.properties_aad ≡ true
      → length nonce ≡ nonce_size_bytes
      → update_key_lifecycle services get_ops_keys internal_keys id input (ok now) (ok nonce)
        ≡ ok (properties, lifecycle)
      → byte_len properties ≤ envelope_max_chars
      → load_ops_key_from_row services internal_keys (record row { properties = properties })
        ≡ ok (record loaded {
          properties = record loaded.properties {
            lifecycle = record { status = input.status; reason = input.reason; changed_at = now };
          };
        })
  unfolding update_key_lifecycle
  load-update internal_keys get_ops_keys id row input now nonce loaded properties lifecycle g l s n
        h b =
      with_ok (validate_key_id id) _ h (λ _ _ h. with_ok (get_ops_keys id) _ h (λ row' row_ok h.
        with_ok (open_row services internal_keys row') _ h (λ opened opened_ok h.
          with_ok (validate_lifecycle_transition opened.1.output.lifecycle.status input.status) _ h
            (λ _ _ h.
              let changed : OpsKeyLifecycle = record {
                status = input.status;
                reason = input.reason;
                changed_at = now;
              } in
              let updated : OpsKeyProperties = record opened.1.output { lifecycle = changed } in
              with_ok (validate_ops_key_properties updated) _ h (λ _ valid h.
                with_ok
                  (encrypt_ops_key_properties_payload services internal_keys updated opened.1.aad
                    (ok nonce))
                  _ h
                  (λ encrypted encrypted_ok h.
                    let same_row : row' ≡ row = cc (row_ok, g) in
                    let row_opened : open_row services internal_keys row ≡ ok opened =
                      cc (opened_ok, same_row) in
                    let is_loaded =
                      load_ops_key_from_row-opened internal_keys row opened loaded row_opened l in
                    let o = open_row-IsOpened services internal_keys row opened row_opened in
                    let new_properties : encrypted ≡ properties = cc (h) in
                    let reloaded =
                      reload internal_keys row opened changed properties row_opened (cc (valid)) (
                        reload_properties internal_keys updated opened.1.aad properties nonce
                          (cc (encrypted_ok, new_properties))
                          (bound-not_blank row.kid opened.0 opened.1 o.bound) (cc (s, is_loaded)) n
                          b) in
                    rw is_loaded reloaded))))))
