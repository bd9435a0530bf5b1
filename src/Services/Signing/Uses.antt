-- ===== src/Services/Signing/Uses.antt =====
-- signing_service.go: which key a signature or a verification uses, and under which conditions.
use hsm_service.Prelude.{String, ◌≡◌, refl, ◌⊎◌, inl, inr, Bool, true, Option, List, ◌∷◌, arith}
use hsm_service.Prelude.Int.{int_of_uint}
use hsm_service.Domain.Errors.{GoError}
use hsm_service.Domain.Values.{IdentityContext, usage_can_sign, signing}
use hsm_service.Domain.Entities.{Bytes, CryptographicKey, HsmSlot}
use hsm_service.Exec.{
  Reply, ok, Event, signed, verified, World, Outcome, returned, answer, on_error, ◌>>=◌, IsRefused,
  Outcome-cases,
}
use hsm_service.Ports.{Ports, audit, track, sign, verify, hsm_calls}
use hsm_service.Services.Helpers.{tenant_slot, slot_check_error}
use hsm_service.Services.Audits.{tenant_slot-On}
use hsm_service.Services.TenantSlots.{IsTenantSlot, slot-IsTenantSlot}
use hsm_service.Services.Signing.{
  audit_and_track_operation, audit_and_track_verification, OperationContext, verify_hash_signature,
  verify_body, validate_key_and_get_slot, sign_hash, sign_hash_body, key_slot_error,
}

module _ {W : Type 0} (P : Ports W) where
  pub quiet_slot :
      (f : GoError → GoError) (tenant_id : String) (w : World W)
      → hsm_calls (tenant_slot P f tenant_id w).1.trace ≡ hsm_calls w.trace
  unfolding hsm_calls
  quiet_slot f tenant_id w =
      (tenant_slot-On P (λ es. hsm_calls es ≡ hsm_calls w.trace) (λ e es h. h) (λ e es h. h) f
          tenant_id).at
        w refl

  validate_quiet :
      (key_id tenant_id required : String) (w : World W)
      → hsm_calls (validate_key_and_get_slot P key_id tenant_id required w).1.trace
        ≡ hsm_calls w.trace
  unfolding validate_key_and_get_slot ◌>>=◌
  validate_quiet key_id tenant_id required w = ground (
    arith,
    quiet_slot slot_check_error tenant_id
        (record w { env = (P.find_key key_id tenant_id w.env).1 }),
  )

  validated_slot :
      (key_id tenant_id : String) (w : World W) (key : CryptographicKey) (slot : HsmSlot)
      → (validate_key_and_get_slot P key_id tenant_id signing w).0 ≡ returned (key, slot)
      → IsTenantSlot P tenant_id (P.find_key key_id tenant_id w.env).1 slot
  unfolding validate_key_and_get_slot ◌>>=◌
  validated_slot key_id tenant_id w key slot h =
      slot-IsTenantSlot P slot_check_error tenant_id
        (record w { env = (P.find_key key_id tenant_id w.env).1 }) slot (ground (arith, h))

  validate_returned :
      (key_id tenant_id : String) (w : World W) (key : CryptographicKey) (slot : HsmSlot)
      → (validate_key_and_get_slot P key_id tenant_id signing w).0 ≡ returned (key, slot)
      → ((P.find_key key_id tenant_id w.env).0 ≡ ok key)
        × (key.is_active ≡ true)
        × (usage_can_sign key.purpose ≡ true)
  unfolding validate_key_and_get_slot ◌>>=◌ usage_can_sign
  validate_returned key_id tenant_id w key slot h = ground arith

module _ {W : Type 0} (P : Ports W) where
  record_quiet :
      (e : Option GoError) (op : OperationContext) (operation : String) (w : World W)
      → hsm_calls (audit_and_track_operation P e op operation w).trace ≡ hsm_calls w.trace
  unfolding audit_and_track_operation audit track hsm_calls
  record_quiet e op operation w = ground arith

  verification_quiet :
      (e : Option GoError) (b : Bool) (op : OperationContext) (w : World W)
      → hsm_calls (audit_and_track_verification P e b op w).trace ≡ hsm_calls w.trace
  unfolding audit_and_track_verification audit track hsm_calls
  verification_quiet e b op w = ground arith

  -- The outcome `o` and the HSM calls `calls` at the end of a `SignHash` that began in `w`: either
  -- no key was used and no value returned, or the tenant's active signing key was used once, in the
  -- tenant's slot, and the outcome is the HSM's answer.
  abbrev pub Signs :
      String → Bytes → IdentityContext → World W → Outcome Bytes → List Event → Type 0
  Signs key_id hash identity w o calls =
      ((calls ≡ hsm_calls w.trace) × IsRefused o)
      ⊎ ((key : CryptographicKey) × (slot : HsmSlot) × (reply : Reply Bytes) × ((P.find_key key_id
              identity.tenant_id w.env).0
            ≡ ok key)
          × (key.is_active ≡ true)
          × (usage_can_sign key.purpose ≡ true)
          × IsTenantSlot P identity.tenant_id (P.find_key key_id identity.tenant_id w.env).1 slot
          × (calls
              ≡ signed key.key_label hash (int_of_uint slot.slot_number) reply ∷ hsm_calls w.trace)
          × (o
              ≡ on_error (key_slot_error "failed to sign hash with key " key_id slot)
                  (answer reply)))

  abbrev pub Verifies :
      String → Bytes → Bytes → IdentityContext → World W → Outcome Bool → List Event → Type 0
  Verifies key_id hash signature identity w o calls =
      ((calls ≡ hsm_calls w.trace) × IsRefused o)
      ⊎ ((key : CryptographicKey) × (slot : HsmSlot) × (reply : Reply Bool) × ((P.find_key key_id
              identity.tenant_id w.env).0
            ≡ ok key)
          × (key.is_active ≡ true)
          × (usage_can_sign key.purpose ≡ true)
          × IsTenantSlot P identity.tenant_id (P.find_key key_id identity.tenant_id w.env).1 slot
          × (calls
              ≡ verified key.key_label hash signature (int_of_uint slot.slot_number) reply
                ∷ hsm_calls w.trace)
          × (o
              ≡ on_error (key_slot_error "failed to verify signature with key " key_id slot)
                  (answer reply)))

  body_Signs :
      (key_id : String) (hash : Bytes) (identity : IdentityContext) (w : World W)
      → let r = sign_hash_body P key_id hash identity w in
        Signs key_id hash identity w r.0 (hsm_calls r.1.trace)
  unfolding sign_hash_body ◌>>=◌ sign hsm_calls
  body_Signs key_id hash identity w =
      let v = validate_key_and_get_slot P key_id identity.tenant_id signing w in
      let q = validate_quiet P key_id identity.tenant_id signing w in
      elim (Outcome-cases v.0) [
        | inl ((key, slot), e) ↦
            let facts = validate_returned P key_id identity.tenant_id w key slot e in
            inr (
              key,
              slot,
              (P.hsm_sign key.key_label hash (int_of_uint slot.slot_number) identity v.1.env).0,
              facts.0,
              facts.1,
              facts.2,
              validated_slot P key_id identity.tenant_id w key slot e,
              ground (arith, q),
              ground arith,
            )
        | inr (inl (x, e)) ↦ inl (ground (arith, q), inl (x, ground arith))
        | inr (inr e) ↦ inl (ground (arith, q), inr (ground arith))
      ]

  body_Verifies :
      (key_id : String) (hash signature : Bytes) (identity : IdentityContext) (w : World W)
      → let r = verify_body P key_id hash signature identity w in
        Verifies key_id hash signature identity w r.0 (hsm_calls r.1.trace)
  unfolding verify_body ◌>>=◌ verify hsm_calls
  body_Verifies key_id hash signature identity w =
      let v = validate_key_and_get_slot P key_id identity.tenant_id signing w in
      let q = validate_quiet P key_id identity.tenant_id signing w in
      elim (Outcome-cases v.0) [
        | inl ((key, slot), e) ↦
            let facts = validate_returned P key_id identity.tenant_id w key slot e in
            inr (
              key,
              slot,
              (P.hsm_verify key.key_label hash signature (int_of_uint slot.slot_number) v.1.env).0,
              facts.0,
              facts.1,
              facts.2,
              validated_slot P key_id identity.tenant_id w key slot e,
              ground (arith, q),
              ground arith,
            )
        | inr (inl (x, e)) ↦ inl (ground (arith, q), inl (x, ground arith))
        | inr (inr e) ↦ inl (ground (arith, q), inr (ground arith))
      ]

  -- `SignHash` on every branch: either it uses no key and gives no signature, or the key that the
  -- repository finds under this id and tenant is active and may sign, the HSM is called exactly
  -- once, with that key's label, the hash and the number of the tenant's own slot, as the tenant and
  -- slot repositories give it, and the outcome is the HSM's answer, an error wrapped.
  pub sign_hash-Signs :
      (key_id : String) (hash : Bytes) (identity : IdentityContext) (w : World W)
      → let r = sign_hash P key_id hash identity w in
        Signs key_id hash identity w r.0 (hsm_calls r.1.trace)
  unfolding sign_hash ◌>>=◌
  sign_hash-Signs key_id hash identity w =
      let b = sign_hash_body P key_id hash identity w in
      rw (record_quiet _ _ "SIGN" b.1) (body_Signs key_id hash identity w)

  -- `VerifyHashSignature` on every branch: either it uses no key and gives no verdict, or the key
  -- that the repository finds under this id and tenant is active and may sign, the HSM is called
  -- exactly once, with that key's label, the hash, the signature and the number of the tenant's own
  -- slot, as the tenant and slot repositories give it, and the outcome is the HSM's answer, an error
  -- wrapped.
  pub verify_hash_signature-Verifies :
      (key_id : String) (hash signature : Bytes) (identity : IdentityContext) (w : World W)
      → let r = verify_hash_signature P key_id hash signature identity w in
        Verifies key_id hash signature identity w r.0 (hsm_calls r.1.trace)
  unfolding verify_hash_signature ◌>>=◌
  verify_hash_signature-Verifies key_id hash signature identity w =
      let b = verify_body P key_id hash signature identity w in
      rw (verification_quiet _ _ _ b.1) (body_Verifies key_id hash signature identity w)
