-- ===== src/Hsm/Bootstrap.antt =====
-- internal/infrastructure/hsm/bootstrapper.go, `initializeSlot`: how the PIN of a stored slot is
-- recovered when the process starts.
use hsm_service.Domain.Errors.{wrapped}
use hsm_service.Domain.Entities.{Bytes, HsmSlot}
use hsm_service.Exec.{Reply, ok, err}
use hsm_service.Aes.{EncryptAesGcm, aes_gcm}
use hsm_service.Ports.AesKeys.{AesKeyManager}
use hsm_service.Services.Slots.{AesKeyMetadata}

-- The `EncryptAESGCM` that the stored columns stand for.
unfoldable pub encrypted_pin : HsmSlot → AesKeyMetadata → EncryptAesGcm
encrypted_pin slot m = record {
  iv = slot.pin_iv;
  ciphertext = slot.pin_ciphertext;
  tag = slot.pin_auth_tag;
  algorithm = aes_gcm;
  key_id = m.version_id;
}

module _ {W : Type 0} (K : AesKeyManager W) where
  decrypted : Reply Bytes × W → Reply Bytes × W
  decrypted (ok pin, w) = (ok pin, w)
  decrypted (err x, w) = (err (wrapped "failed to decrypt PIN" x), w)

  unwrapped : HsmSlot → AesKeyMetadata → Reply Bytes × W → Reply Bytes × W
  unfolding decrypted encrypted_pin
  unwrapped slot m (ok slot_key, w) =
      decrypted (K.decrypt_with_key slot_key (encrypted_pin slot m) w)
  unwrapped slot m (err x, w) = (err (wrapped "failed to unwrap slot key" x), w)

  unfoldable pub recover_pin : HsmSlot → AesKeyMetadata → W → Reply Bytes × W
  unfolding unwrapped
  recover_pin slot m w = unwrapped slot m (K.unwrap_key m.version_id m.wrapped_data_key w)
