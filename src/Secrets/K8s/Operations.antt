-- ===== src/Secrets/K8s/Operations.antt =====
-- k8s_manager.go: what the manager does with the keys that `GetKey` gives.
use hsm_service.Prelude.{String, not, length, ltb, ◌==◌, str_eq, if◌then◌else◌}
use hsm_service.Domain.Errors.{
  GoError, predefined, with_detail, error_text, invalid_aes_key_size, wrapping_key_length,
  fail_uunwrap_key, fail_wrap_key, fail_create_aes_key, key_idmismatch, k8s_secret_not_found,
}
use hsm_service.Domain.Entities.{Bytes}
use hsm_service.Exec.{Reply, ok, err}
use hsm_service.Ports.AesKeys.{AesKeyManager}
use hsm_service.Aes.{
  Aead, EncryptAesGcm, with_error, generate_aes256_key, encrypt_aes_gcm, decrypt_aes_gcm, wrap_key,
  unwrap_key,
}
use hsm_service.Secrets.{size_error, tagged, encrypt_error}
use hsm_service.Secrets.K8s.{
  K8sConfig, K8sAesKeyManager, Cluster, not_found, with_original_error, k8s_get_key,
}

module _ {W : Type 0} {A : Type 0} where
  -- A call of pkg/crypto, beside the manager.
  unfoldable pub beside :
      (W → Reply A × W) → K8sAesKeyManager × W → Reply A × (K8sAesKeyManager × W)
  beside call (k, w) = let (r, w') = call w in (r, (k, w'))

  -- What follows a `GetKey`, with what is made of its error.
  unfoldable pub with_key :
      (K8sConfig → GoError → GoError)
      → (Bytes → K8sAesKeyManager × W → Reply A × (K8sAesKeyManager × W))
      → Reply Bytes × (K8sAesKeyManager × W)
      → Reply A × (K8sAesKeyManager × W)
  with_key f g (err x, s) = (err (f s.0.config x), s)
  with_key f g (ok key, s) = g key s

module _ {W : Type 0} (C : Aead W) (K : Cluster W) where
  unfoldable pub data_key_created : Reply Bytes × W → Reply Bytes × W
  data_key_created (r, w) =
      (with_error (λ x. with_detail "error" (error_text x) (predefined fail_create_aes_key)) r, w)

  unfoldable pub k8s_generate_data_key : K8sAesKeyManager × W → Reply Bytes × (K8sAesKeyManager × W)
  unfolding beside data_key_created
  k8s_generate_data_key s = beside (λ w. data_key_created (generate_aes256_key C w)) s

  unfoldable pub wrapped_with :
      Bytes → Bytes → K8sAesKeyManager × W → Reply Bytes × (K8sAesKeyManager × W)
  unfolding beside
  wrapped_with plain_key master s =
      if not (length plain_key == 32)
      then (err (size_error (predefined invalid_aes_key_size) "expected" 32 (length plain_key)), s)
      else beside (wrap_key C master plain_key) s

  unfoldable pub k8s_wrap_key :
      String → Bytes → K8sAesKeyManager × W → Reply Bytes × (K8sAesKeyManager × W)
  unfolding with_key wrapped_with
  k8s_wrap_key key_id plain_key s =
      with_key not_found (wrapped_with plain_key) (k8s_get_key K key_id s)

  unfoldable pub unwrapped_with : Bytes → Bytes → Reply Bytes
  unwrapped_with wrapped_key master =
      if ltb (length wrapped_key) 28
      then err
          (size_error (predefined wrapping_key_length) "minimum_expected" 28 (length wrapped_key))
      else with_error (λ x. with_detail "error" (error_text x) (predefined fail_uunwrap_key))
          (unwrap_key C master wrapped_key)

  unfoldable pub k8s_unwrap_key :
      String → Bytes → K8sAesKeyManager × W → Reply Bytes × (K8sAesKeyManager × W)
  unfolding with_key unwrapped_with
  k8s_unwrap_key key_id wrapped_key s =
      with_key not_found (λ master s'. (unwrapped_with wrapped_key master, s'))
        (k8s_get_key K key_id s)

  unfoldable pub k8s_encrypt_with_key_id :
      String → Bytes → K8sAesKeyManager × W → Reply EncryptAesGcm × (K8sAesKeyManager × W)
  unfolding with_key beside tagged
  k8s_encrypt_with_key_id key_id plaintext s =
      with_key (λ config x. x)
        (λ key. beside (λ w. tagged encrypt_error key_id (encrypt_aes_gcm C key plaintext w)))
        (k8s_get_key K key_id s)

  unfoldable pub k8s_decrypt_with_key_id :
      String → EncryptAesGcm → K8sAesKeyManager × W → Reply Bytes × (K8sAesKeyManager × W)
  unfolding with_key
  k8s_decrypt_with_key_id key_id encrypted s =
      let got =
        with_key (λ config x. x) (λ key s'. (decrypt_aes_gcm C key encrypted, s'))
          (k8s_get_key K key_id s) in
      if not (str_eq encrypted.key_id key_id) then (err (predefined key_idmismatch), s) else got

  unfoldable pub k8s_encrypt_with_key :
      Bytes → Bytes → K8sAesKeyManager × W → Reply EncryptAesGcm × (K8sAesKeyManager × W)
  unfolding beside tagged
  k8s_encrypt_with_key key plaintext (k, w) =
      if not (length key == 32)
      then (err (size_error (predefined invalid_aes_key_size) "expected" 32 (length key)), (k, w))
      else beside (λ w'. tagged encrypt_error k.current_key_id (encrypt_aes_gcm C key plaintext w'))
          (k, w)

  unfoldable pub k8s_decrypt_with_key : Bytes → EncryptAesGcm → Reply Bytes
  k8s_decrypt_with_key key encrypted =
      if not (length key == 32)
      then err (size_error (predefined invalid_aes_key_size) "expected" 32 (length key))
      else decrypt_aes_gcm C key encrypted

  -- `RewrapKey` from the second `GetKey` on.
  unfoldable pub rewrapped_with :
      Bytes → Bytes → K8sAesKeyManager × W → Reply Bytes × (K8sAesKeyManager × W)
  unfolding beside
  rewrapped_with plain_key new_key s =
      let (r, s') = beside (wrap_key C new_key plain_key) s in
      (with_error (with_original_error fail_wrap_key) r, s')

  unfoldable pub rewrapped_from :
      String → Reply Bytes → K8sAesKeyManager × W → Reply Bytes × (K8sAesKeyManager × W)
  unfolding with_key rewrapped_with
  rewrapped_from new_key_id (err x) s = (err (with_original_error fail_uunwrap_key x), s)
  rewrapped_from new_key_id (ok plain_key) s =
      with_key (λ config. with_original_error k8s_secret_not_found) (rewrapped_with plain_key)
        (k8s_get_key K new_key_id s)

  unfoldable pub k8s_rewrap_key :
      String → String → Bytes → K8sAesKeyManager × W → Reply Bytes × (K8sAesKeyManager × W)
  unfolding with_key rewrapped_from
  k8s_rewrap_key old_key_id new_key_id wrapped_key s =
      with_key (λ config. with_original_error k8s_secret_not_found)
        (λ old_key. rewrapped_from new_key_id (unwrap_key C old_key wrapped_key))
        (k8s_get_key K old_key_id s)

  -- The manager as the port: the key id is the one of the manager that `NewK8SAESKeyManager` made.
  unfoldable pub k8s_manager : K8sAesKeyManager → AesKeyManager (K8sAesKeyManager × W)
  k8s_manager made = record {
    current_key_id = made.current_key_id;
    get_key = k8s_get_key K;
    generate_data_key = k8s_generate_data_key;
    wrap_key = k8s_wrap_key;
    unwrap_key = k8s_unwrap_key;
    rewrap_key = k8s_rewrap_key;
    encrypt_with_key_id = k8s_encrypt_with_key_id;
    decrypt_with_key_id = k8s_decrypt_with_key_id;
    encrypt_with_key = k8s_encrypt_with_key;
    decrypt_with_key = λ key e s. (k8s_decrypt_with_key key e, s);
  }
