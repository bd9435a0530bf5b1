-- ===== src/Domain/Errors.antt =====
-- internal/domain/exceptions/domain_errors.go: the error codes, the errors of the program as values,
-- and their texts. Fields of the shared predefined errors that `WithDetail` writes are read by no
-- `Error` and no `GetCode`; a predefined error stands here with the details of its own `WithDetail`.
use Prim.Native.String.{◌++◌ as cat}
use hsm_service.Prelude.{String, Option, none, some, List, [], ◌∷◌, str_eq, if◌then◌else◌}

-- The constants of type `ErrorCode`, and the code that `HandleError` makes up.
pub data ErrorCode : Type 0 where
  invalid_key_name invalid_algorithm invalid_key_size invalid_tenant key_not_found key_inactive
        invalid_key_usage hsm_operation_failed invalid_token session_expired session_not_found
        invalid_audit_action invalid_audit_actor invalid_resource_type not_implemented
        invalid_key_algorithm tenant_not_found tenant_required invalid_input owner_id_required
        invalid_owner_type slot_not_found create_slot_failed create_hsm_metadata_failed
        pkcs11_library_not_found invalid_aes_key_size aes_create_cipher aes_create_gcm
        aes_create_nonce aes_invalid_key aes_decrypt_failed invalid_base64 key_idmismatch
        wrapping_key_length wrapping_key_short key_to_wrap_length_invalid k8s_secret_not_found
        k8s_key_not_found fail_wrap_key fail_uunwrap_key fail_create_aes_key fail_encrypt_data
        fail_decrypt_data internal_error :
      ErrorCode

unfoldable pub code_text : ErrorCode → String
code_text invalid_key_name = "INVALID_KEY_NAME"
code_text invalid_algorithm = "INVALID_ALGORITHM"
code_text invalid_key_size = "INVALID_KEY_SIZE"
code_text invalid_tenant = "INVALID_TENANT"
code_text key_not_found = "KEY_NOT_FOUND"
code_text key_inactive = "KEY_INACTIVE"
code_text invalid_key_usage = "INVALID_KEY_USAGE"
code_text hsm_operation_failed = "HSM_OPERATION_FAILED"
code_text invalid_token = "INVALID_TOKEN"
code_text session_expired = "SESSION_EXPIRED"
code_text session_not_found = "SESSION_NOT_FOUND"
code_text invalid_audit_action = "INVALID_AUDIT_ACTION"
code_text invalid_audit_actor = "INVALID_AUDIT_ACTOR"
code_text invalid_resource_type = "INVALID_RESOURCE_TYPE"
code_text not_implemented = "NOT_IMPLEMENTED"
code_text invalid_key_algorithm = "INVALID_KEY_ALGORITHM"
code_text tenant_not_found = "TENANT_NOT_FOUND"
code_text tenant_required = "TENANT_REQUIRED"
code_text invalid_input = "INVALID_INPUT"
code_text owner_id_required = "OWNER_ID_REQUIRED"
code_text invalid_owner_type = "INVALID_OWNER_TYPE"
code_text slot_not_found = "SLOT_NOT_FOUND"
code_text create_slot_failed = "CREATE_SLOT_FAILED"
code_text create_hsm_metadata_failed = "CREATE_HSM_METADATA_FAILED"
code_text pkcs11_library_not_found = "PKCS11_LIBRARY_NOT_FOUND"
code_text invalid_aes_key_size = "INVALID_AES_KEY_SIZE"
code_text aes_create_cipher = "AES_CREATE_CIPHER_FAILED"
code_text aes_create_gcm = "AES_CREATE_GCM_FAILED"
code_text aes_create_nonce = "AES_CREATE_NONCE_FAILED"
code_text aes_invalid_key = "AES_INVALID_KEY"
code_text aes_decrypt_failed = "AES_DECRYPT_FAILED"
code_text invalid_base64 = "INVALID_BASE64_DATA"
code_text key_idmismatch = "KEY_ID_MISMATCH"
code_text wrapping_key_length = "WRAPPING_KEY_INVALID_LENGTH"
code_text wrapping_key_short = "WRAPPING_KEY_TOO_SHORT"
code_text key_to_wrap_length_invalid = "KEY_TO_WRAP_INVALID_LENGTH"
code_text k8s_secret_not_found = "K8S_SECRET_NOT_FOUND"
code_text k8s_key_not_found = "K8S_KEY_NOT_FOUND"
code_text fail_wrap_key = "FAIL_WRAP_KEY"
code_text fail_uunwrap_key = "FAIL_UNWRAP_KEY"
code_text fail_create_aes_key = "FAIL_CREATE_AES_KEY"
code_text fail_encrypt_data = "FAIL_ENCRYPT_DATA"
code_text fail_decrypt_data = "FAIL_DECRYPT_DATA"
code_text internal_error = "INTERNAL_ERROR"

-- The Go errors of the program: `errors.New`, `*DomainError`, and `fmt.Errorf("…: %w", err)`.
pub data GoError : Type 0 where
  plain : String → GoError
  domain : ErrorCode → String → List (String × String) → GoError
  wrapped : String → GoError → GoError

unfoldable pub new_domain_error : ErrorCode → String → GoError
new_domain_error code message = domain code message []

-- The predefined messages; a code with no predefined error has the empty one.
unfoldable pub predefined_message : ErrorCode → String
predefined_message invalid_key_name = "The provided key name is invalid"
predefined_message invalid_algorithm = "The specified algorithm is not supported"
predefined_message invalid_key_size = "The specified key size is not supported"
predefined_message invalid_tenant = "The tenant ID is invalid or missing"
predefined_message key_not_found = "The requested key was not found"
predefined_message key_inactive = "The requested key is inactive"
predefined_message invalid_key_usage = "The key usage is invalid for this operation"
predefined_message hsm_operation_failed = "The HSM operation failed"
predefined_message invalid_token = "The provided token is invalid"
predefined_message session_expired = "The session has expired"
predefined_message session_not_found = "The session was not found"
predefined_message invalid_audit_action = "The audit event action is invalid"
predefined_message invalid_audit_actor = "The audit event actor is invalid"
predefined_message invalid_resource_type = "The audit event resource type is invalid"
predefined_message not_implemented = "This feature is not yet implemented"
predefined_message invalid_key_algorithm = "The specified key algorithm is not supported"
predefined_message tenant_not_found = "The specified tenant not found"
predefined_message tenant_required = "The tenant required for this operation"
predefined_message invalid_input = "The input provided is invalid"
predefined_message owner_id_required = "The owner ID is required"
predefined_message invalid_owner_type = "The owner type is invalid"
predefined_message slot_not_found = "The specified slot was not found"
predefined_message create_slot_failed = "Failed to create HSM slot"
predefined_message create_hsm_metadata_failed = "Failed to create HSM metadata"
predefined_message pkcs11_library_not_found = "The PKCS#11 library was not found"
predefined_message invalid_aes_key_size = "The AES key size is invalid"
predefined_message aes_create_cipher = "Failed to create AES cipher"
predefined_message aes_create_gcm = "Failed to create AES GCM instance"
predefined_message aes_create_nonce = "Failed to create AES nonce"
predefined_message aes_invalid_key = "The AES key is invalid"
predefined_message aes_decrypt_failed = "AES decryption failed"
predefined_message invalid_base64 = "The provided data is not valid base64"
predefined_message key_idmismatch = "The key ID does not match"
predefined_message wrapping_key_length = "The wrapping key length is invalid"
predefined_message wrapping_key_short = "The wrapping key is too short"
predefined_message key_to_wrap_length_invalid = "The key to wrap length is invalid"
predefined_message k8s_secret_not_found = "The Kubernetes secret was not found"
predefined_message k8s_key_not_found = "The key was not found in Kubernetes secret"
predefined_message fail_wrap_key = "Failed to wrap the key"
predefined_message fail_uunwrap_key = "Failed to unwrap the key"
predefined_message fail_create_aes_key = "Failed to create AES key"
predefined_message fail_encrypt_data = "Failed to encrypt data"
predefined_message fail_decrypt_data = "Failed to decrypt data"
predefined_message _ = ""

unfoldable pub predefined : ErrorCode → GoError
unfolding new_domain_error predefined_message
predefined code = new_domain_error code (predefined_message code)

-- `e.Details[key] = value`
unfoldable pub set_detail : String → String → List (String × String) → List (String × String)
set_detail key value [] = (key, value) ∷ []
set_detail key value ((k, v) ∷ rest) =
    if str_eq k key then (key, value) ∷ rest else (k, v) ∷ set_detail key value rest

unfoldable pub with_detail : String → String → GoError → GoError
unfolding set_detail
with_detail key value (domain code message details) =
    domain code message (set_detail key value details)
with_detail key value e = e

-- `err.Error()`
unfoldable pub error_text : GoError → String
unfolding code_text
error_text (plain message) = message
error_text (domain code message details) = cat (code_text code) (cat ": " message)
error_text (wrapped message e) = cat message (cat ": " (error_text e))

unfoldable pub err_to_string : Option GoError → String
unfolding error_text
err_to_string none = ""
err_to_string (some e) = error_text e

-- `GetCode`: the type switch sees a `*DomainError` only where it is the outermost error.
unfoldable pub get_code : Option GoError → String
unfolding code_text
get_code none = "SUCCESS"
get_code (some (domain code message details)) = code_text code
get_code (some (plain message)) = "INTERNAL_ERROR"
get_code (some (wrapped message e)) = "INTERNAL_ERROR"

-- `errors.As(err, &domainErr)`: the first `*DomainError` of the chain.
unfoldable pub as_domain : GoError → Option (ErrorCode × String × List (String × String))
as_domain (plain message) = none
as_domain (domain code message details) = some (code, message, details)
as_domain (wrapped message e) = as_domain e
