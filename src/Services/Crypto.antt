-- ===== src/Services/Crypto.antt =====
-- internal/application/services/crypto_service.go
pub mod Lookup
pub mod Uses
use Prim.Native.String.{◌++◌ as cat}
use hsm_service.Prelude.{
  String, Bool, not, ◌&&◌, Option, none, some, List, [], ◌∷◌, str_eq, if◌then◌else◌,
}
use hsm_service.Prelude.Int.{int_of_uint}
use hsm_service.Domain.Errors.{
  GoError, plain, code_text, key_not_found, invalid_key_usage, hsm_operation_failed,
}
use hsm_service.Domain.Values.{IdentityContext, signing, encryption, both}
use hsm_service.Domain.Entities.{Bytes, HsmKey, HsmSlot, Detail}
use hsm_service.Exec.{
  World, Outcome, outcome_error, Exec, pure, fail, ask, rethrow, deferring, ◌>>=◌,
}
use hsm_service.Ports.{Ports, audit, sign, verify, encrypt, decrypt}
use hsm_service.Services.Helpers.{operation_data, tenant_slot, slot_check_error}

abbrev pub crypto_service_name : String
crypto_service_name = "CRYPTO_SERVICE"

unfoldable pub validate_key_usage_for_operation : HsmKey → String → Option GoError
validate_key_usage_for_operation key required =
    if not (str_eq key.usage required) && not (str_eq key.usage both)
    then some (plain (code_text invalid_key_usage))
    else none

-- The loop of `getHSMKeyByLabel`.
unfoldable pub find_by_label : String → String → List HsmKey → Option HsmKey
find_by_label label tenant_id [] = none
find_by_label label tenant_id (key ∷ rest) =
    if str_eq key.label label && str_eq key.tenant_id tenant_id
    then some key
    else find_by_label label tenant_id rest

abbrev pub operation_failed : String → GoError
operation_failed operation =
    plain (cat (code_text hsm_operation_failed) (cat ": operation=" operation))

module _ {W : Type 0} (P : Ports W) where
  unfoldable pub get_slot_for_tenant : String → Exec W HsmSlot
  get_slot_for_tenant tenant_id = tenant_slot P slot_check_error tenant_id

  unfoldable pub audit_crypto_operation : Option GoError → String → String → World W → World W
  audit_crypto_operation e key_label operation =
      audit P
        (operation_data crypto_service_name operation e (("label", Detail.text key_label) ∷ []))
        none

  found_or_missing : Option HsmKey → Exec W HsmKey
  found_or_missing none = fail (plain (code_text key_not_found))
  found_or_missing (some key) = pure key

  unfoldable pub get_hsm_key_by_label : String → String → Exec W HsmKey
  unfolding get_slot_for_tenant found_or_missing
  get_hsm_key_by_label label tenant_id = do
    slot ← get_slot_for_tenant tenant_id
    keys ← ask (P.hsm_list (int_of_uint slot.slot_number))
    found_or_missing (find_by_label label tenant_id keys)

  check_usage : HsmKey → String → Exec W (Unit {0})
  check_usage key required = elim (validate_key_usage_for_operation key required) [
    | some e ↦ fail e
    | none ↦ pure tt
  ]

  -- The steps that the six operations share: the key by its label, its usage, and the slot.
  unfoldable pub usable_key : String → String → String → Exec W (HsmKey × HsmSlot)
  unfolding get_hsm_key_by_label check_usage
  usable_key key_label tenant_id required = do
    key ← get_hsm_key_by_label key_label tenant_id
    _ ← check_usage key required
    slot ← get_slot_for_tenant tenant_id
    pure (key, slot)

  sign_body : String → Bytes → String → IdentityContext → String → Exec W Bytes
  sign_body key_label hash tenant_id identity operation = do
    (key, slot) ← usable_key key_label tenant_id signing
    rethrow (λ _. operation_failed operation)
        (sign P key.key_handle hash (int_of_uint slot.slot_number) identity)

  verify_body : String → Bytes → Bytes → String → String → Exec W Bool
  verify_body key_label hash signature tenant_id operation = do
    (key, slot) ← usable_key key_label tenant_id signing
    rethrow (λ _. operation_failed operation)
        (verify P key.key_handle hash signature (int_of_uint slot.slot_number))

  encrypt_body : String → Bytes → String → Exec W Bytes
  encrypt_body key_label plaintext tenant_id = do
    (key, slot) ← usable_key key_label tenant_id encryption
    rethrow (λ _. operation_failed "encrypt")
        (encrypt P key.key_handle plaintext (int_of_uint slot.slot_number))

  decrypt_body : String → Bytes → String → Exec W Bytes
  decrypt_body key_label ciphertext tenant_id = do
    (key, slot) ← usable_key key_label tenant_id encryption
    rethrow (λ _. operation_failed "decrypt")
        (decrypt P key.key_handle ciphertext (int_of_uint slot.slot_number))

  -- `defer s.auditCryptoOperation(ctx, &err, opCtx)`
  pub audited_operation : {A : Type 0} → String → String → Exec W A → Exec W A
  unfolding audit_crypto_operation
  audited_operation key_label operation body =
      deferring body (λ o. audit_crypto_operation (outcome_error o) key_label operation)

  unfoldable pub sign_data : String → Bytes → String → IdentityContext → Exec W Bytes
  unfolding sign_body audited_operation
  sign_data key_label message tenant_id identity =
      audited_operation key_label "SIGN_DATA"
        (sign_body key_label (P.sha256 message) tenant_id identity "sign_data")

  unfoldable pub verify_signature : String → Bytes → Bytes → String → Exec W Bool
  unfolding verify_body audited_operation
  verify_signature key_label message signature tenant_id =
      audited_operation key_label "VERIFY_SIGNATURE"
        (verify_body key_label (P.sha256 message) signature tenant_id "verify_signature")

  unfoldable pub encrypt_data : String → Bytes → String → Exec W Bytes
  unfolding encrypt_body audited_operation
  encrypt_data key_label plaintext tenant_id =
      audited_operation key_label "ENCRYPT_DATA" (encrypt_body key_label plaintext tenant_id)

  unfoldable pub decrypt_data : String → Bytes → String → Exec W Bytes
  unfolding decrypt_body audited_operation
  decrypt_data key_label ciphertext tenant_id =
      audited_operation key_label "DECRYPT_DATA" (decrypt_body key_label ciphertext tenant_id)

  unfoldable pub sign_hash : String → Bytes → String → IdentityContext → Exec W Bytes
  unfolding sign_body audited_operation
  sign_hash key_label hash tenant_id identity =
      audited_operation key_label "SIGN_HASH"
        (sign_body key_label hash tenant_id identity "sign_hash")

  unfoldable pub verify_hash_signature : String → Bytes → Bytes → String → Exec W Bool
  unfolding verify_body audited_operation
  verify_hash_signature key_label hash signature tenant_id =
      audited_operation key_label "VERIFY_HASH_SIGNATURE"
        (verify_body key_label hash signature tenant_id "verify_hash_signature")
