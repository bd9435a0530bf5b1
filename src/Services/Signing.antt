-- ===== src/Services/Signing.antt =====
-- internal/application/services/signing_service.go
pub mod Uses
pub mod Records
use Prim.Native.String.{◌++◌ as cat}
use hsm_service.Prelude.{
  ℕ, String, Bool, true, false, ◌&&◌, ◌||◌, not, Option, none, some, List, [], ◌∷◌, length, str_eq,
  ltb, if◌then◌else◌,
}
use hsm_service.Prelude.Decimal.{decimal_int}
use hsm_service.Prelude.Int.{pos, int_of_uint}
use hsm_service.Domain.Errors.{
  GoError, new_domain_error, with_detail, plain, wrapped, code_text, err_to_string, key_not_found,
  key_inactive, invalid_key_usage,
}
use hsm_service.Domain.Values.{IdentityContext, signing, both}
use hsm_service.Domain.Entities.{Bytes, CryptographicKey, HsmSlot, AuditData, KeyOperation, Detail}
use hsm_service.Exec.{
  World, Outcome, returned, failed, panicked, outcome_error, Exec, pure, fail, ask, rethrow,
  deferring, ◌>>=◌,
}
use hsm_service.Ports.{Ports, audit, track, sign, verify}
use hsm_service.Services.Helpers.{no_error, operation_data, tenant_slot, slot_check_error}

abbrev pub signing_service_name : String
signing_service_name = "signing-service"

-- `operationContext`, without its start time.
pub record OperationContext : Type 0 where
  pub key_id : String
  pub identity : IdentityContext
  pub operation_type : String
  pub input_size : ℕ
  pub output_size : ℕ

unfoldable pub get_operation_status : Option GoError → String
get_operation_status none = "SUCCESS"
get_operation_status (some e) = "FAILED"

unfoldable pub get_result_summary : Option GoError → String
get_result_summary none = "Success"
get_result_summary (some e) = err_to_string (some e)

unfoldable pub get_error_details : Option GoError → String
get_error_details e = err_to_string e

-- The named result `isValid` when the deferred function runs.
abbrev result_flag : Outcome Bool → Bool
result_flag (returned b) = b
result_flag (failed e) = false
result_flag panicked = false

-- `fmt.Errorf("… %s in slot %d: %w", keyID, int(slot.SlotNumber), err)`
abbrev key_slot_error : String → String → HsmSlot → GoError → GoError
key_slot_error message key_id slot =
    wrapped
      (cat message (cat key_id (cat " in slot " (decimal_int (int_of_uint slot.slot_number)))))

unfoldable pub key_operation : Option GoError → OperationContext → KeyOperation
unfolding get_operation_status get_result_summary get_error_details
key_operation e op = record {
  key_id = op.key_id;
  tenant_id = op.identity.tenant_id;
  organization_id = op.identity.organization_id;
  operation_type = op.operation_type;
  status = get_operation_status e;
  level = "HIGH";
  initialized_by = op.identity.user_id;
  input_size_bytes = 0;
  output_size_bytes = 0;
  result_summary = get_result_summary e;
  error_details = get_error_details e;
}

abbrev pub sign_context : String → Bytes → IdentityContext → OperationContext
sign_context key_id hash identity = record {
  key_id = key_id;
  identity = identity;
  operation_type = "SIGN";
  input_size = length hash;
  output_size = 0;
}

abbrev pub verify_context : String → Bytes → Bytes → IdentityContext → OperationContext
verify_context key_id hash signature identity = record {
  key_id = key_id;
  identity = identity;
  operation_type = "VERIFY";
  input_size = length hash;
  output_size = length signature;
}

module _ {W : Type 0} (P : Ports W) where
  -- The guards of `validateKeyAndGetSlot` between the two lookups.
  check_key : String → String → CryptographicKey → Exec W (Unit {0})
  check_key key_id required key =
      if not key.is_active
      then fail (with_detail "key_id" key_id (new_domain_error key_inactive "key is not active"))
      else if not (str_eq key.purpose required) && not (str_eq key.purpose both)
      then fail (
          with_detail "usage" key.purpose (
            with_detail "key_id" key_id
              (new_domain_error invalid_key_usage "key usage does not allow this operation")))
      else pure tt

  unfoldable pub validate_key_and_get_slot :
      String → String → String → Exec W (CryptographicKey × HsmSlot)
  unfolding check_key
  validate_key_and_get_slot key_id tenant_id required = do
    key ← rethrow (λ _. missing) (ask (P.find_key key_id tenant_id))
    _ ← check_key key_id required key
    slot ← tenant_slot P slot_check_error tenant_id
    pure (key, slot)
    where
      missing : GoError
      missing =
          with_detail "tenant_id" tenant_id
            (with_detail "key_id" key_id (new_domain_error key_not_found "key not found"))

  unfoldable pub audit_simple_operation :
      Option GoError → String → List (String × Detail) → World W → World W
  audit_simple_operation e operation metadata =
      audit P (operation_data signing_service_name operation e metadata) none

  unfoldable pub track_key_operation : Option GoError → OperationContext → World W → World W
  unfolding key_operation
  track_key_operation e op = track P (key_operation e op)

  unfoldable pub audit_and_track_operation :
      Option GoError → OperationContext → String → World W → World W
  unfolding audit_simple_operation track_key_operation
  audit_and_track_operation e op operation w =
      track_key_operation e op (audit_simple_operation e operation metadata w)
    where
      metadata : List (String × Detail)
      metadata =
          ("key_id", Detail.text op.key_id)
          ∷ (if ltb 0 op.input_size
              then ("hash_length", Detail.number (pos op.input_size)) ∷ []
              else [])

  unfoldable pub audit_and_track_verification :
      Option GoError → Bool → OperationContext → World W → World W
  unfolding audit_simple_operation track_key_operation
  audit_and_track_verification e is_valid op w =
      track_key_operation e op (audit_simple_operation e "VERIFY_HASH_SIGNATURE" metadata w)
    where
      metadata : List (String × Detail)
      metadata =
          ("key_id", Detail.text op.key_id)
          ∷ ("hash_length", Detail.number (pos op.input_size))
          ∷ ("signature_length", Detail.number (pos op.output_size))
          ∷ ("is_valid", Detail.flag is_valid)
          ∷ []

  sign_hash_body : String → Bytes → IdentityContext → Exec W Bytes
  sign_hash_body key_id hash identity = do
    (key, slot) ← validate_key_and_get_slot key_id identity.tenant_id signing
    rethrow (key_slot_error "failed to sign hash with key " key_id slot)
        (sign P key.key_label hash (int_of_uint slot.slot_number) identity)

  unfoldable pub sign_hash : String → Bytes → IdentityContext → Exec W Bytes
  unfolding sign_hash_body audit_and_track_operation
  sign_hash key_id hash identity =
      deferring (sign_hash_body key_id hash identity) (λ o.
        audit_and_track_operation (outcome_error o) (sign_context key_id hash identity) "SIGN")

  -- `GetPublicKey`: the tenant is not used.
  unfoldable pub get_public_key : String → String → Exec W Bytes
  unfolding audit_simple_operation
  get_public_key key_id tenant_id =
      deferring
        (do
          key ← rethrow (λ _. plain (code_text key_not_found)) (ask (P.find_key_by_id key_id))
          pure key.public_key)
        (λ o.
          audit_simple_operation (outcome_error o) "GET_PUBLIC_KEY"
            (("key_id", Detail.text key_id) ∷ []))

  verify_body : String → Bytes → Bytes → IdentityContext → Exec W Bool
  verify_body key_id hash signature identity = do
    (key, slot) ← validate_key_and_get_slot key_id identity.tenant_id signing
    rethrow (key_slot_error "failed to verify signature with key " key_id slot)
        (verify P key.key_label hash signature (int_of_uint slot.slot_number))

  unfoldable pub verify_hash_signature : String → Bytes → Bytes → IdentityContext → Exec W Bool
  unfolding verify_body audit_and_track_verification
  verify_hash_signature key_id hash signature identity =
      deferring (verify_body key_id hash signature identity) (λ o.
        audit_and_track_verification (outcome_error o) (result_flag o)
          (verify_context key_id hash signature identity))
