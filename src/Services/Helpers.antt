-- ===== src/Services/Helpers.antt =====
-- internal/application/services/helpers.go, and the records of an operation that the services share.

use hsm_service.Prelude.{String, Bool, true, false, Option, none, some, List, []}
use hsm_service.Domain.Errors.{
  GoError, new_domain_error, with_detail, predefined, error_text, err_to_string, get_code,
  tenant_not_found, slot_not_found,
}
use hsm_service.Domain.Entities.{HsmSlot, Tenant, AuditData, Detail}
use hsm_service.Exec.{
  Outcome, outcome_error, Exec, pure, fail, deref, ask, rethrow, deferring, ◌>>=◌,
}
use hsm_service.Ports.{Ports, audit}

-- `err == nil`
abbrev pub no_error : Option GoError → Bool
no_error none = true
no_error (some e) = false

-- The `valueobjects.AuditData` that the services build in their deferred functions.
abbrev pub operation_data : String → String → Option GoError → List (String × Detail) → AuditData
operation_data service operation e metadata = record {
  service_name = service;
  event_type = "HSM_OPERATION";
  operation = operation;
  actor_type = "SERVICE";
  success = no_error e;
  status_code = get_code e;
  err_msg = err_to_string e;
  metadata = metadata;
}

abbrev pub tenant_helper_service_name : String
tenant_helper_service_name = "tenant-helper-service"

-- `NewDomainError(code, message).WithDetail("original_error", err.Error())`
abbrev pub with_original : GoError → GoError → GoError
with_original outer e = with_detail "original_error" (error_text e) outer

module _ {W : Type 0} (P : Ports W) where
  unfoldable pub some_tenant : String → Option Tenant → Exec W Tenant
  some_tenant tenant_id none =
      fail
        (with_detail "tenant_id" tenant_id (new_domain_error tenant_not_found "tenant not found"))
  some_tenant tenant_id (some tenant) = pure tenant

  unfoldable pub get_tenant_with_audit : String → Exec W Tenant
  unfolding some_tenant
  get_tenant_with_audit tenant_id = deferring body (λ o. audit P (data' o) none)
    where
      body : Exec W Tenant
      body = do
        tenant ←
            rethrow
              (with_original (new_domain_error tenant_not_found "error checking tenant existence"))
              (ask (P.find_tenant tenant_id))
        some_tenant tenant_id tenant

      data' : Outcome Tenant → AuditData
      data' o = operation_data tenant_helper_service_name "GET_TENANT" (outcome_error o) []

  unfoldable pub some_slot : String → Option HsmSlot → Exec W HsmSlot
  some_slot slot_id none = fail (with_detail "slot_id" slot_id (predefined slot_not_found))
  some_slot slot_id (some slot) = pure slot

  unfoldable pub get_slot_with_audit : String → Exec W HsmSlot
  unfolding some_slot
  get_slot_with_audit slot_id = deferring body (λ o. audit P (data' o) none)
    where
      body : Exec W HsmSlot
      body = do
        slot ← rethrow (with_original (predefined slot_not_found)) (ask (P.find_slot slot_id))
        some_slot slot_id slot

      data' : Outcome HsmSlot → AuditData
      data' o = operation_data tenant_helper_service_name "GET_SLOT" (outcome_error o) []

  -- The lookup of a tenant's slot that every service repeats, with the error that the caller
  -- makes of a failed slot lookup. A tenant with no slot id is a nil dereference.
  unfoldable pub tenant_slot : (GoError → GoError) → String → Exec W HsmSlot
  tenant_slot slot_error tenant_id = do
    tenant ←
        rethrow
          (with_original (new_domain_error tenant_not_found "error validating tenant existence"))
          (get_tenant_with_audit tenant_id)
    slot_id ← deref tenant.hsm_slot_id
    rethrow slot_error (get_slot_with_audit slot_id)

-- The error of a failed slot lookup in key_service.go, signing_service.go and crypto_service.go.
abbrev pub slot_check_error : GoError → GoError
slot_check_error = with_original (new_domain_error slot_not_found "error checking slot existence")

-- The same in `RotateKey`, `DeleteKey` and hsm_key_service.go, which keep the message.
abbrev pub slot_error_kept : GoError → GoError
slot_error_kept e = with_original (new_domain_error slot_not_found (error_text e)) e
