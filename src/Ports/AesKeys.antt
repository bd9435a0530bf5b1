-- ===== src/Ports/AesKeys.antt =====
-- internal/domain/ports/output/aes_key_manager.go, without `ListKeyVersions`, which the local manager
-- does not have. The current key id is fixed when a manager is made.
use hsm_service.Prelude.{String}
use hsm_service.Domain.Entities.{Bytes}
use hsm_service.Exec.{Reply}
use hsm_service.Aes.{EncryptAesGcm}

pub record AesKeyManager (W : Type 0) : Type 0 where
  pub current_key_id : String
  pub get_key : String → W → Reply Bytes × W
  pub generate_data_key : W → Reply Bytes × W
  pub wrap_key : String → Bytes → W → Reply Bytes × W
  pub unwrap_key : String → Bytes → W → Reply Bytes × W
  pub rewrap_key : String → String → Bytes → W → Reply Bytes × W
  pub encrypt_with_key_id : String → Bytes → W → Reply EncryptAesGcm × W
  pub decrypt_with_key_id : String → EncryptAesGcm → W → Reply Bytes × W
  pub encrypt_with_key : Bytes → Bytes → W → Reply EncryptAesGcm × W
  pub decrypt_with_key : Bytes → EncryptAesGcm → W → Reply Bytes × W
