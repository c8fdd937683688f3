-- ===== src/Keys/Transitions.antt =====
-- src/ops/keys.rs: sequences of lifecycle updates, and proofs about them.
use vectis.Base.{
  ◌≡◌, ◌≢◌, ◌⊎◌, inl, inr, refl, sym, ◌∙◌, true, false, ◌||◌, arith, Bool-cases, Text, codes,
  text_eq, text_eq_iff,
}
use vectis.Error.Result.{ok, is_ok, reject-ok}
use mathlib.Core.Path.{subst}
use vectis.Keys.Lifecycle.{
  validate_lifecycle_transition, require_lifecycle_for_new_use, blocked_lifecycle_error,
  require_lifecycle_for_decrypt_or_verify,
}

-- The updates that are accepted one after another take the first status to the last.
infix 40 ◌⟶*◌
pub data ◌⟶*◌ : Text → Text → Type 0 where
  stay : {s : Text} → s ⟶* s
  followed : {s t u : Text} → validate_lifecycle_transition s t ≡ ok tt → t ⟶* u → s ⟶* u

blocked-err : (s : Text) → is_ok (blocked_lifecycle_error s) ≡ false
unfolding blocked_lifecycle_error
blocked-err s = ground arith

new_use-active : (s : Text) → is_ok (require_lifecycle_for_new_use s) ≡ text_eq s (codes "active")
unfolding require_lifecycle_for_new_use
new_use-active s = ground (arith, blocked-err s)

verify-active_or_retired :
    (s : Text)
    → is_ok (require_lifecycle_for_decrypt_or_verify s)
      ≡ (text_eq s (codes "active") || text_eq s (codes "retired"))
unfolding require_lifecycle_for_decrypt_or_verify
verify-active_or_retired s = ground (arith, blocked-err s)

transition-from :
    (s t : Text)
    → validate_lifecycle_transition s t ≡ ok tt
    → text_eq s (codes "active") || text_eq s (codes "disabled") ≡ true
unfolding validate_lifecycle_transition
transition-from s t h = ground (arith, reject-ok _ _ h)

-- Neither active nor disabled: no update is accepted any more.
final :
    (s t : Text)
    → s ⟶* t
    → text_eq s (codes "active") || text_eq s (codes "disabled") ≡ false
    → s ≡ t
final s t stay h = refl
final s t (followed e u) h = absurd (ground (arith, transition-from s _ e))

-- A key whose status refuses decryption and verification, and is not the status of a disabled key,
-- refuses them and every new use after any sequence of accepted updates.
pub blocked_forever :
    (s t : Text)
    → s ⟶* t
    → is_ok (require_lifecycle_for_decrypt_or_verify s) ≡ false
    → s ≢ codes "disabled"
    → (is_ok (require_lifecycle_for_decrypt_or_verify t) ≡ false)
      × (is_ok (require_lifecycle_for_new_use t) ≡ false)
blocked_forever s t u h n =
    let refused : text_eq s (codes "active") || text_eq s (codes "retired") ≡ false =
      sym (verify-active_or_retired s) ∙ h in
    let enabled : text_eq s (codes "disabled") ≡ false =
      ground (arith, text_eq_iff s (codes "disabled")) in
    let same = final s t u (ground arith) in
    subst
      (λ z.
        (is_ok (require_lifecycle_for_decrypt_or_verify z) ≡ false)
        × (is_ok (require_lifecycle_for_new_use z) ≡ false))
      same (h, new_use-active s ∙ ground arith)

-- A key that a sequence of accepted updates makes usable for new operations was active or disabled
-- at its start.
pub usable_again :
    (s t : Text)
    → s ⟶* t
    → is_ok (require_lifecycle_for_new_use t) ≡ true
    → (s ≡ codes "active") ⊎ (s ≡ codes "disabled")
usable_again s t u h =
    elim (Bool-cases (text_eq s (codes "active") || text_eq s (codes "disabled"))) [
      | inl e ↦ elim (Bool-cases (text_eq s (codes "active"))) [
        | inl a ↦ inl ((text_eq_iff s (codes "active")).0 a)
        | inr a ↦ inr ((text_eq_iff s (codes "disabled")).0 (ground arith))
      ]
      | inr e ↦
          let same = final s t u e in
          let active = subst (λ z. is_ok (require_lifecycle_for_new_use z) ≡ true) (sym same) h in
          absurd (ground (arith, new_use-active s))
    ]
