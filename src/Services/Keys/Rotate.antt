-- ===== src/Services/Keys/Rotate.antt =====
-- key_service.go, `RotateKey` and `DeleteKey`: what they do to the HSM and to the repository.
use hsm_service.Prelude.{
  String, ◌≡◌, refl, ◌⊎◌, inl, inr, false, Option, none, some, List, ◌∷◌, arith, Option-cases,
}
use hsm_service.Prelude.Int.{ℤ, int_of_uint}
use hsm_service.Domain.Errors.{GoError}
use hsm_service.Domain.Values.{IdentityContext}
use hsm_service.Domain.Entities.{CryptographicKey, HsmSlot, AuditData, deactivate}
use hsm_service.Exec.{
  Reply, ok, err, Event, destroyed, saved, removed, World, Outcome, returned, failed, panicked,
  IsRefused, ◌>>=◌, Outcome-cases, Reply-cases,
}
use hsm_service.Ports.{Ports, audit, destroy, save, remove, unless_error, effects}
use hsm_service.Services.Helpers.{tenant_slot, slot_error_kept}
use hsm_service.Services.TenantSlots.{NoTenantSlot, refused-NoTenantSlot}
use hsm_service.Services.Keys.{
  create_key, rotation, deletion_error, retire, rotate_key, rotate_body, delete_key, delete_body,
}
use hsm_service.Services.Keys.Create.{Creates, create_key-Creates, slot_no_effects}

module _ {W : Type 0} (P : Ports W) where
  -- How a rotation grows the effects, with the outcome that goes with it. `mid` are the effects when
  -- the new key has been made.
  pub data Rotates (found : Reply CryptographicKey) (identity : IdentityContext)
      (o : Outcome CryptographicKey) (before after : List Event) : Type 0 where
    not_found :
        (e : GoError)
        → found ≡ err e
        → after ≡ before
        → o ≡ failed e
        → Rotates found identity o before after
    not_created :
        (existing : CryptographicKey) (o' : Outcome CryptographicKey)
        → found ≡ ok existing
        → Creates (rotation existing identity) o' before after
        → IsRefused o'
        → o ≡ o'
        → Rotates found identity o before after
    abandoned :
        (existing key : CryptographicKey)
        → found ≡ ok existing
        → Creates (rotation existing identity) (returned key) before after
        → (e : W) → NoTenantSlot P identity.tenant_id e
        → IsRefused o
        → Rotates found identity o before after
    not_retired :
        (existing key : CryptographicKey) (mid : List Event) (n : ℤ) (e : GoError)
        (r₁ r₂ : Option GoError)
        → found ≡ ok existing
        → Creates (rotation existing identity) (returned key) before mid
        → after
          ≡ removed key.id r₂
            ∷ destroyed key.key_handle n r₁
            ∷ saved (record existing { is_active = false }) (some e)
            ∷ mid
        → o ≡ failed e
        → Rotates found identity o before after
    rotated :
        (existing key : CryptographicKey) (mid : List Event)
        → found ≡ ok existing
        → Creates (rotation existing identity) (returned key) before mid
        → after ≡ saved (record existing { is_active = false }) none ∷ mid
        → o ≡ returned key
        → Rotates found identity o before after

  retire-Rotates :
      (found : Reply CryptographicKey) (identity : IdentityContext)
      (existing key : CryptographicKey) (slot : HsmSlot) (before : List Event) (w : World W)
      → found ≡ ok existing
      → Creates (rotation existing identity) (returned key) before (effects w.trace)
      → let r = retire P existing key slot w in
        Rotates found identity r.0 before (effects r.1.trace)
  unfolding retire deactivate ◌>>=◌ destroy save remove effects
  retire-Rotates found identity existing key slot before w f c =
      let n = int_of_uint slot.slot_number in
      elim (Option-cases (P.save_key (deactivate existing) w.env).0) [
        | inl s ↦ rotated existing key (effects w.trace) f c (ground arith) (ground arith)
        | inr (e, s) ↦
            let (r₁, w2) =
              P.hsm_delete key.key_handle n (P.save_key (deactivate existing) w.env).1 in
            not_retired existing key (effects w.trace) n e r₁ (P.delete_key key.id w2).0 f c
              (ground arith) (ground arith)
      ]

  audit_no_effects :
      (d : AuditData) (i : Option IdentityContext) (w : World W)
      → effects (audit P d i w).trace ≡ effects w.trace
  unfolding audit effects
  audit_no_effects d i w = ground arith

  rotate_found :
      (found : Reply CryptographicKey) (identity : IdentityContext) (existing : CryptographicKey)
      (w : World W)
      → found ≡ ok existing
      → let r =
          (do
            key ← create_key P (rotation existing identity)
            slot ← tenant_slot P slot_error_kept identity.tenant_id
            retire P existing key slot)
            w in
        Rotates found identity r.0 (effects w.trace) (effects r.1.trace)
  unfolding ◌>>=◌
  rotate_found found identity existing w f =
      let (o, w1) = create_key P (rotation existing identity) w in
      let c = create_key-Creates P (rotation existing identity) w in
      let (s, w2) = tenant_slot P slot_error_kept identity.tenant_id w1 in
      let q = slot_no_effects P slot_error_kept identity.tenant_id w1 in
      elim (Outcome-cases o) [
        | inr (inl (x, e)) ↦
            rw e (not_created existing (failed x) f (rw e at c) (inl (x, refl)) refl)
        | inr (inr e) ↦ rw e (not_created existing panicked f (rw e at c) (inr refl) refl)
        | inl (key, e) ↦
            let c' = (rw (e, ← q) at c) in
            elim (Outcome-cases s) [
              | inr (inl (x, k)) ↦
                  rw (e, k)
                    (abandoned existing key f c' w1.env
                      (refused-NoTenantSlot P slot_error_kept identity.tenant_id w1 (inl (x, k)))
                      (inl (x, refl)))
              | inr (inr k) ↦
                  rw (e, k)
                    (abandoned existing key f c' w1.env
                      (refused-NoTenantSlot P slot_error_kept identity.tenant_id w1 (inr k))
                      (inr refl))
              | inl (slot, k) ↦
                  rw (e, k)
                    (retire-Rotates found identity existing key slot (effects w.trace) w2 f c')
            ]
      ]

  rotate_body-Rotates :
      (key_id : String) (identity : IdentityContext) (w : World W)
      → let r = rotate_body P key_id identity w in
        Rotates
          (P.find_key key_id identity.tenant_id w.env).0
          identity
          r.0
          (effects w.trace)
          (effects r.1.trace)
  unfolding rotate_body ◌>>=◌
  rotate_body-Rotates key_id identity w =
      let (found, e1) = P.find_key key_id identity.tenant_id w.env in
      elim (Reply-cases found) [
        | inr (e, f) ↦ not_found e f (ground arith) (ground arith)
        | inl (existing, f) ↦
            let r = rotate_found found identity existing (record w { env = e1 }) f in
            rw (f, rotate_body) (rw f at r)
      ]

  -- `RotateKey` on every branch. The old key is saved inactive, as the last write, exactly when the
  -- new key is returned; when that save fails, the new key is deleted from the HSM and from the
  -- repository. When the tenant's slot is not found after the new key was made, nothing is undone.
  pub rotate_key-Rotates :
      (key_id : String) (identity : IdentityContext) (w : World W)
      → let r = rotate_key P key_id identity w in
        Rotates
          (P.find_key key_id identity.tenant_id w.env).0
          identity
          r.0
          (effects w.trace)
          (effects r.1.trace)
  unfolding rotate_key ◌>>=◌
  rotate_key-Rotates key_id identity w =
      rw (audit_no_effects _ _ (rotate_body P key_id identity w).1)
        (rotate_body-Rotates key_id identity w)

  -- How `DeleteKey` grows the effects, with the outcome that goes with it.
  abbrev pub Deletes :
      Reply CryptographicKey → String → Outcome (Unit {0}) → List Event → List Event → Type 0
  Deletes found key_id o before after =
      ((after ≡ before) × IsRefused o)
      ⊎ ((key : CryptographicKey) × (n : ℤ) × (found ≡ ok key)
          × (((e : GoError) × (after ≡ destroyed key.key_handle n (some e) ∷ before)
                × (o ≡ failed deletion_error))
              ⊎ ((r : Option GoError) × (after
                    ≡ removed key_id r ∷ destroyed key.key_handle n none ∷ before)
                  × (o ≡ unless_error r))))

  delete_body-Deletes :
      (key_id tenant_id : String) (w : World W)
      → let r = delete_body P key_id tenant_id w in
        Deletes
          (P.find_key key_id tenant_id w.env).0
          key_id
          r.0
          (effects w.trace)
          (effects r.1.trace)
  unfolding delete_body ◌>>=◌ destroy remove effects
  delete_body-Deletes key_id tenant_id w =
      let (found, e1) = P.find_key key_id tenant_id w.env in
      let w1 = record w { env = e1 } in
      let q = slot_no_effects P slot_error_kept tenant_id w1 in
      elim (Reply-cases found) [
        | inr (e, f) ↦ inl (ground arith, inl (e, ground arith))
        | inl (key, f) ↦ elim (Outcome-cases (tenant_slot P slot_error_kept tenant_id w1).0) [
          | inr (inl (x, k)) ↦ inl (ground (arith, q), inl (x, ground arith))
          | inr (inr k) ↦ inl (ground (arith, q), inr (ground arith))
          | inl (slot, k) ↦
              let n = int_of_uint slot.slot_number in
              let (r, e3) =
                P.hsm_delete key.key_handle n (tenant_slot P slot_error_kept tenant_id w1).1.env in
              elim (Option-cases r) [
                | inr (e, d) ↦ inr (key, n, f, inl (e, ground (arith, q), ground arith))
                | inl d ↦
                    inr
                      (key, n, f, inr ((P.delete_key key_id e3).0, ground (arith, q), ground arith))
              ]
        ]
      ]

  -- `DeleteKey` on every branch: it writes nothing and fails, or the key that the tenant owns is
  -- deleted from the HSM, and its repository record is removed exactly when that deletion
  -- succeeded; the outcome is that of the last step.
  pub delete_key-Deletes :
      (key_id tenant_id : String) (w : World W)
      → let r = delete_key P key_id tenant_id w in
        Deletes
          (P.find_key key_id tenant_id w.env).0
          key_id
          r.0
          (effects w.trace)
          (effects r.1.trace)
  unfolding delete_key ◌>>=◌
  delete_key-Deletes key_id tenant_id w =
      rw (audit_no_effects _ _ (delete_body P key_id tenant_id w).1)
        (delete_body-Deletes key_id tenant_id w)
