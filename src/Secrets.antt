-- ===== src/Secrets.antt =====
-- internal/infrastructure/secrets/local_manager.go, over the AES-GCM of pkg/crypto. Details of an
-- error that are numbers are kept as their decimal texts. The Base64 decoding of the configured
-- key is done before: the master key is bytes.
pub mod Envelope
pub mod K8s
pub mod Adapter
mod Runs
use hsm_service.Prelude.{
  ℕ, zero, suc, String, Bool, not, List, [], ◌∷◌, length, ltb, ◌==◌, str_eq, if◌then◌else◌,
}
use hsm_service.Prelude.Decimal.{decimal}
use hsm_service.Domain.Errors.{
  GoError, predefined, with_detail, error_text, invalid_aes_key_size, wrapping_key_length,
  fail_encrypt_data, fail_decrypt_data, fail_uunwrap_key, fail_wrap_key, key_idmismatch,
}
use hsm_service.Domain.Entities.{Bytes}
use hsm_service.Exec.{Reply, ok, err}
use hsm_service.Aes.{
  Aead, EncryptAesGcm, and_then, with_error, generate_aes256_key, encrypt_aes_gcm, decrypt_aes_gcm,
  wrap_key, unwrap_key,
}

pub record LocalAesKeyManager : Type 0 where
  pub master_key : Bytes
  pub key_id : String

-- `zeroBytes`
unfoldable pub zero_bytes : Bytes → Bytes
zero_bytes [] = []
zero_bytes (b ∷ rest) = 0 ∷ zero_bytes rest

-- The error with the expected and the actual length.
abbrev pub size_error : GoError → String → ℕ → ℕ → GoError
size_error e name expected actual =
    with_detail "actual" (decimal actual) (with_detail name (decimal expected) e)

-- `encrypted.KeyID = keyID` on a value that was made.
unfoldable pub tagged :
    {W : Type 0} → (GoError → GoError) → String → Reply EncryptAesGcm × W → Reply EncryptAesGcm × W
tagged f key_id (ok e, w) = (ok (record e { key_id = key_id }), w)
tagged f key_id (err x, w) = (err (f x), w)

abbrev pub encrypt_error : GoError → GoError
encrypt_error x = with_detail "error" (error_text x) (predefined fail_encrypt_data)

module _ {W : Type 0} (C : Aead W) (l : LocalAesKeyManager) where
  -- Always the master key: the id is not used.
  unfoldable pub get_key : String → Reply Bytes
  get_key key_id = ok l.master_key

  unfoldable pub get_current_key_id : String
  get_current_key_id = l.key_id

  unfoldable pub generate_data_key : W → Reply Bytes × W
  generate_data_key w = generate_aes256_key C w

  wrap_under : Reply Bytes → Bytes → W → Reply Bytes × W
  wrap_under (err x) plain_key w = (err x, w)
  wrap_under (ok master) plain_key w =
      if not (length plain_key == 32)
      then (err (size_error (predefined invalid_aes_key_size) "expected" 32 (length plain_key)), w)
      else wrap_key C master plain_key w

  unfoldable pub local_wrap_key : String → Bytes → W → Reply Bytes × W
  unfolding wrap_under get_key
  local_wrap_key key_id plain_key w = wrap_under (get_key key_id) plain_key w

  unfoldable pub local_unwrap_key : String → Bytes → Reply Bytes
  unfolding get_key
  local_unwrap_key key_id wrapped_key = and_then (get_key key_id) λ master.
      if ltb (length wrapped_key) 28
      then err
          (size_error (predefined wrapping_key_length) "minimum_expected" 28 (length wrapped_key))
      else unwrap_key C master wrapped_key

  encrypt_under : Reply Bytes → String → Bytes → W → Reply EncryptAesGcm × W
  unfolding tagged
  encrypt_under (err x) key_id plaintext w = (err x, w)
  encrypt_under (ok key) key_id plaintext w =
      tagged encrypt_error key_id (encrypt_aes_gcm C key plaintext w)

  unfoldable pub encrypt_with_key_id : String → Bytes → W → Reply EncryptAesGcm × W
  unfolding encrypt_under get_key
  encrypt_with_key_id key_id plaintext w = encrypt_under (get_key key_id) key_id plaintext w

  unfoldable pub decrypt_with_key_id : String → EncryptAesGcm → Reply Bytes
  unfolding get_key
  decrypt_with_key_id key_id encrypted =
      if not (str_eq encrypted.key_id key_id)
      then err (predefined key_idmismatch)
      else and_then (get_key key_id) λ key. decrypt_aes_gcm C key encrypted

  unfoldable pub encrypt_with_key : Bytes → Bytes → W → Reply EncryptAesGcm × W
  unfolding tagged
  encrypt_with_key key plaintext w =
      if not (length key == 32)
      then (err (size_error (predefined invalid_aes_key_size) "expected" 32 (length key)), w)
      else tagged encrypt_error l.key_id (encrypt_aes_gcm C key plaintext w)

  unfoldable pub decrypt_with_key : Bytes → EncryptAesGcm → Reply Bytes
  decrypt_with_key key encrypted =
      if not (length key == 32)
      then err (size_error (predefined invalid_aes_key_size) "expected" 32 (length key))
      else with_error (λ x. with_detail "error" (error_text x) (predefined fail_decrypt_data))
          (decrypt_aes_gcm C key encrypted)

  rewrapped : Reply Bytes × W → Reply Bytes × W
  rewrapped (ok new, w) = (ok new, w)
  rewrapped (err x, w) =
      (err (with_detail "original_error" (error_text x) (predefined fail_wrap_key)), w)

  rewrap_plain : Reply Bytes → W → Reply Bytes × W
  unfolding rewrapped
  rewrap_plain (err x) w =
      (err (with_detail "original_error" (error_text x) (predefined fail_uunwrap_key)), w)
  rewrap_plain (ok plain_key) w = rewrapped (wrap_key C l.master_key plain_key w)

  -- `RewrapKey`: both lookups give the master key, whatever the ids.
  unfoldable pub rewrap_key : String → String → Bytes → W → Reply Bytes × W
  unfolding rewrap_plain
  rewrap_key old_key_id new_key_id wrapped_key w =
      rewrap_plain (unwrap_key C l.master_key wrapped_key) w
