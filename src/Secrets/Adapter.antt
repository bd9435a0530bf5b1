-- ===== src/Secrets/Adapter.antt =====
-- internal/infrastructure/secrets/aes_key_manager_adapter.go: a key manager whose calls are audited.
-- `EncryptWithKeyID`, `DecryptWithKeyID`, `EncryptWithKey` and `DecryptWithKey` do not call the
-- manager's: they call pkg/crypto themselves.
pub mod Values
mod Runs
use hsm_service.Prelude.{
  String, Bool, true, false, not, Option, none, some, List, [], ◌∷◌, length, str_eq, if◌then◌else◌,
}
use hsm_service.Prelude.Int.{pos}
use hsm_service.Domain.Errors.{GoError, predefined, key_idmismatch}
use hsm_service.Domain.Entities.{Bytes, Detail, number, AuditData}
use hsm_service.Exec.{Reply, ok, err}
use hsm_service.Ports.AesKeys.{AesKeyManager}
use hsm_service.Aes.{Aead, EncryptAesGcm, encrypt_aes_gcm, decrypt_aes_gcm}
use hsm_service.Secrets.{tagged}
use hsm_service.Services.Helpers.{operation_data}

-- A record with its `ResourceID`.
pub record KeyRecord : Type 0 where
  pub data' : AuditData
  pub resource_id : String

-- What lies behind the manager, and the records, newest first.
pub record Audited (W : Type 0) : Type 0 where
  pub env : W
  pub records : List KeyRecord

abbrev services_name_aes_key_manager : String
services_name_aes_key_manager = "aes-key-manager-adapter"

unfoldable pub reply_error : {A : Type 0} → Reply A → Option GoError
reply_error (ok a) = none
reply_error (err e) = some e

abbrev length_detail : String → Bytes → List (String × Detail)
length_detail name bytes = (name, number (pos (length bytes))) ∷ []

module _ {W A : Type 0} (has_dispatcher : Bool) where
  recorded :
      String → String → List (String × Detail) → Reply A × W → Audited W → Reply A × Audited W
  unfolding reply_error
  recorded operation key_id metadata (r, w') a =
      let entry : KeyRecord = record {
        data' = operation_data services_name_aes_key_manager operation (reply_error r) metadata;
        resource_id = key_id;
      } in
      (r, record { env = w'; records = if has_dispatcher then entry ∷ a.records else a.records })

  -- A call under the deferred function that audits it.
  unfoldable pub audited_call :
      String → String → List (String × Detail) → (W → Reply A × W) → Audited W → Reply A × Audited W
  unfolding recorded
  audited_call operation key_id metadata call a = recorded operation key_id metadata (call a.env) a

  plain_call : (W → Reply A × W) → Audited W → Reply A × Audited W
  plain_call call a = let (r, w') = call a.env in (r, record a { env = w' })

module _ {W : Type 0} (C : Aead W) (M : AesKeyManager W) where
  encrypt_got : String → Bytes → Reply Bytes × W → Reply EncryptAesGcm × W
  unfolding tagged
  encrypt_got key_id plaintext (err x, w) = (err x, w)
  encrypt_got key_id plaintext (ok key, w) =
      tagged (λ x. x) key_id (encrypt_aes_gcm C key plaintext w)

  decrypt_got : EncryptAesGcm → Reply Bytes × W → Reply Bytes × W
  decrypt_got encrypted (err x, w) = (err x, w)
  decrypt_got encrypted (ok key, w) = (decrypt_aes_gcm C key encrypted, w)

  encrypt_by_id : String → Bytes → W → Reply EncryptAesGcm × W
  unfolding encrypt_got
  encrypt_by_id key_id plaintext w = encrypt_got key_id plaintext (M.get_key key_id w)

  decrypt_by_id : String → EncryptAesGcm → W → Reply Bytes × W
  unfolding decrypt_got
  decrypt_by_id key_id encrypted w =
      if not (str_eq encrypted.key_id key_id)
      then (err (predefined key_idmismatch), w)
      else decrypt_got encrypted (M.get_key key_id w)

  module _ (has_dispatcher : Bool) where
    unfoldable pub adapter_get_key : String → Audited W → Reply Bytes × Audited W
    unfolding audited_call
    adapter_get_key key_id = audited_call has_dispatcher "get_key" key_id [] (M.get_key key_id)

    unfoldable pub adapter_generate_data_key : Audited W → Reply Bytes × Audited W
    unfolding audited_call
    adapter_generate_data_key =
        audited_call has_dispatcher "generate_data_key" "" [] M.generate_data_key

    unfoldable pub adapter_wrap_key : String → Bytes → Audited W → Reply Bytes × Audited W
    unfolding audited_call
    adapter_wrap_key key_id plain_key =
        audited_call has_dispatcher "wrap_key" key_id
          (length_detail "plaintext_key_length" plain_key) (M.wrap_key key_id plain_key)

    unfoldable pub adapter_unwrap_key : String → Bytes → Audited W → Reply Bytes × Audited W
    unfolding audited_call
    adapter_unwrap_key key_id wrapped_key =
        audited_call has_dispatcher "unwrap_key" key_id
          (length_detail "wrapped_key_length" wrapped_key) (M.unwrap_key key_id wrapped_key)

    unfoldable pub adapter_encrypt_with_key_id :
        String → Bytes → Audited W → Reply EncryptAesGcm × Audited W
    unfolding audited_call encrypt_by_id
    adapter_encrypt_with_key_id key_id plaintext =
        audited_call has_dispatcher "encrypt_aes_gcm" key_id
          (length_detail "plaintext_length" plaintext) (encrypt_by_id key_id plaintext)

    unfoldable pub adapter_decrypt_with_key_id :
        String → EncryptAesGcm → Audited W → Reply Bytes × Audited W
    unfolding audited_call decrypt_by_id
    adapter_decrypt_with_key_id key_id encrypted =
        audited_call has_dispatcher "decrypt_aes_gcm" key_id
          (length_detail "encrypted_length" encrypted.ciphertext) (decrypt_by_id key_id encrypted)

    unfoldable pub adapter_encrypt_with_key :
        Bytes → Bytes → Audited W → Reply EncryptAesGcm × Audited W
    unfolding audited_call tagged
    adapter_encrypt_with_key key plaintext =
        audited_call has_dispatcher "encrypt_aes_gcm" M.current_key_id
          (length_detail "plaintext_length" plaintext)
          (λ w. tagged (λ x. x) M.current_key_id (encrypt_aes_gcm C key plaintext w))

    unfoldable pub adapter_decrypt_with_key :
        Bytes → EncryptAesGcm → Audited W → Reply Bytes × Audited W
    unfolding audited_call
    adapter_decrypt_with_key key encrypted =
        audited_call has_dispatcher "decrypt_aes_gcm" encrypted.key_id
          (length_detail "encrypted_length" encrypted.ciphertext)
          (λ w. (decrypt_aes_gcm C key encrypted, w))

    unfoldable pub adapter_rewrap_key :
        String → String → Bytes → Audited W → Reply Bytes × Audited W
    unfolding plain_call
    adapter_rewrap_key old_key_id new_key_id wrapped_key =
        plain_call has_dispatcher (M.rewrap_key old_key_id new_key_id wrapped_key)

    unfoldable pub adapter : AesKeyManager (Audited W)
    adapter = record {
      current_key_id = M.current_key_id;
      get_key = adapter_get_key;
      generate_data_key = adapter_generate_data_key;
      wrap_key = adapter_wrap_key;
      unwrap_key = adapter_unwrap_key;
      rewrap_key = adapter_rewrap_key;
      encrypt_with_key_id = adapter_encrypt_with_key_id;
      decrypt_with_key_id = adapter_decrypt_with_key_id;
      encrypt_with_key = adapter_encrypt_with_key;
      decrypt_with_key = adapter_decrypt_with_key;
    }
