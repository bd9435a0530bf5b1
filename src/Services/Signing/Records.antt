-- ===== src/Services/Signing/Records.antt =====
-- signing_service.go: the audit record and the tracked operation of each call.
use hsm_service.Prelude.{String, ◌≡◌, refl, Bool, true, Option, List, ◌∷◌, arith}
use hsm_service.Domain.Errors.{GoError}
use hsm_service.Domain.Values.{IdentityContext}
use hsm_service.Domain.Entities.{Bytes, KeyOperation}
use hsm_service.Exec.{Event, World, outcome_error, ◌>>=◌}
use hsm_service.Ports.{Ports, audit, track, sign, verify}
use hsm_service.Services.Helpers.{no_error, tenant_slot, slot_check_error}
use hsm_service.Services.Audits.{audit_flags, tracked_operations, tenant_slot-On}
use hsm_service.Services.Signing.{
  key_operation, sign_context, verify_context, get_operation_status, validate_key_and_get_slot,
  sign_hash, sign_hash_body, verify_hash_signature, verify_body,
}

-- The audit records of an operation and the tracked operations of a trace are those given.
abbrev Recorded : String → List Bool → List KeyOperation → List Event → Type 0
Recorded operation flags ops es = (audit_flags operation es ≡ flags) × (tracked_operations es ≡ ops)

-- A call's record: its success flag, and one operation with the key, the tenant and the status.
abbrev pub RecordsOnce :
    String → String → String → IdentityContext → Option GoError → List Event → List Event → Type 0
RecordsOnce operation operation_type key_id identity e before after =
    (audit_flags operation after ≡ no_error e ∷ audit_flags operation before)
    × (op : KeyOperation) × (tracked_operations after ≡ op ∷ tracked_operations before)
    × (op.key_id ≡ key_id)
    × (op.tenant_id ≡ identity.tenant_id)
    × (op.operation_type ≡ operation_type)
    × (op.status ≡ get_operation_status e)

module _ {W : Type 0} (P : Ports W) where
  slot_unrecorded :
      (f : GoError → GoError) (tenant_id : String) (w : World W)
      → let es = (tenant_slot P f tenant_id w).1.trace in
        Recorded "SIGN" (audit_flags "SIGN" w.trace) (tracked_operations w.trace) es
        × Recorded "VERIFY_HASH_SIGNATURE"
            (audit_flags "VERIFY_HASH_SIGNATURE" w.trace)
            (tracked_operations w.trace)
            es
  unfolding audit_flags tracked_operations
  slot_unrecorded f tenant_id w =
      (tenant_slot-On P
          (λ es.
            Recorded "SIGN" (audit_flags "SIGN" w.trace) (tracked_operations w.trace) es
            × Recorded "VERIFY_HASH_SIGNATURE" (audit_flags "VERIFY_HASH_SIGNATURE" w.trace)
                (tracked_operations w.trace) es)
          (λ e es h. h) (λ e es h. h) f tenant_id).at
        w ((refl, refl), (refl, refl))

  body_unrecorded :
      (key_id : String) (hash : Bytes) (identity : IdentityContext) (w : World W)
      → Recorded "SIGN"
          (audit_flags "SIGN" w.trace)
          (tracked_operations w.trace)
          (sign_hash_body P key_id hash identity w).1.trace
  unfolding sign_hash_body validate_key_and_get_slot ◌>>=◌ sign audit_flags tracked_operations
  body_unrecorded key_id hash identity w = ground (
    arith,
    slot_unrecorded slot_check_error identity.tenant_id
        (record w { env = (P.find_key key_id identity.tenant_id w.env).1 }),
  )

  verify_body_unrecorded :
      (key_id : String) (hash signature : Bytes) (identity : IdentityContext) (w : World W)
      → Recorded "VERIFY_HASH_SIGNATURE"
          (audit_flags "VERIFY_HASH_SIGNATURE" w.trace)
          (tracked_operations w.trace)
          (verify_body P key_id hash signature identity w).1.trace
  unfolding verify_body validate_key_and_get_slot ◌>>=◌ verify audit_flags tracked_operations
  verify_body_unrecorded key_id hash signature identity w = ground (
    arith,
    slot_unrecorded slot_check_error identity.tenant_id
        (record w { env = (P.find_key key_id identity.tenant_id w.env).1 }),
  )

  -- With an audit dispatcher and an operation repository, `SignHash` writes exactly one SIGN audit
  -- record and one tracked operation, however it ends: the record is a success exactly when no
  -- error is returned, and the operation carries the key, the tenant and the matching status.
  pub sign_hash-RecordsOnce :
      (key_id : String) (hash : Bytes) (identity : IdentityContext) (w : World W)
      → P.has_dispatcher ≡ true
      → P.has_operation_repo ≡ true
      → let r = sign_hash P key_id hash identity w in
        RecordsOnce "SIGN" "SIGN" key_id identity (outcome_error r.0) w.trace r.1.trace
  unfolding sign_hash ◌>>=◌ audit track audit_flags tracked_operations key_operation
  sign_hash-RecordsOnce key_id hash identity w hd ho =
      let u = body_unrecorded key_id hash identity w in
      let e = outcome_error (sign_hash_body P key_id hash identity w).0 in
      (
        ground (arith, u),
        key_operation e (sign_context key_id hash identity),
        ground (arith, u),
        refl,
        refl,
        refl,
        refl,
      )

  -- With an audit dispatcher and an operation repository, `VerifyHashSignature` writes exactly one
  -- VERIFY_HASH_SIGNATURE audit record and one tracked VERIFY operation, however it ends: the record
  -- is a success exactly when no error is returned, and the operation carries the key, the tenant
  -- and the matching status.
  pub verify_hash_signature-RecordsOnce :
      (key_id : String) (hash signature : Bytes) (identity : IdentityContext) (w : World W)
      → P.has_dispatcher ≡ true
      → P.has_operation_repo ≡ true
      → let r = verify_hash_signature P key_id hash signature identity w in
        RecordsOnce "VERIFY_HASH_SIGNATURE" "VERIFY" key_id identity
          (outcome_error r.0)
          w.trace
          r.1.trace
  unfolding verify_hash_signature ◌>>=◌ audit track audit_flags tracked_operations key_operation
  verify_hash_signature-RecordsOnce key_id hash signature identity w hd ho =
      let u = verify_body_unrecorded key_id hash signature identity w in
      let e = outcome_error (verify_body P key_id hash signature identity w).0 in
      (
        ground (arith, u),
        key_operation e (verify_context key_id hash signature identity),
        ground (arith, u),
        refl,
        refl,
        refl,
        refl,
      )
