-- ===== src/Secrets/Envelope.antt =====
-- local_manager.go: data keys come back from their wrapping, also after a rewrap, and texts from
-- their encryption.
use hsm_service.Prelude.{◌<◌, ◌≡◌, refl, String, length, str_eq, if◌then◌else◌, arith}
use hsm_service.Domain.Errors.{predefined, key_idmismatch}
use hsm_service.Domain.Entities.{Bytes}
use hsm_service.Exec.{ok, err}
use hsm_service.Aes.{Aead, EncryptAesGcm, is_valid, decrypt_aes_gcm, iv_size, key_size}
use hsm_service.Aes.Laws.{AeadLaws}
use hsm_service.Aes.RoundTrip.{decrypt-encrypt, unwrap-wrap}
use hsm_service.Secrets.{
  LocalAesKeyManager, get_key, local_wrap_key, local_unwrap_key, wrap_under, rewrap_key,
  rewrap_plain, rewrapped, tagged, encrypt_under, encrypt_with_key_id, decrypt_with_key_id,
  encrypt_with_key, decrypt_with_key,
}

module _ {W : Type 0} (C : Aead W) (L : AeadLaws C) (l : LocalAesKeyManager) where
  -- With a master key and a data key of 32 bytes, `WrapKey` gives a value whenever an IV is read,
  -- `UnwrapKey` gives the data key back from it under any key id, and so it does from what
  -- `RewrapKey` makes of the value whenever a second IV is read.
  pub local_unwrap-rewrap :
      (key_id old_key_id new_key_id : String) (data_key iv iv' : Bytes) (w w' : W)
      → length l.master_key ≡ key_size
      → length data_key ≡ 32
      → (C.read iv_size w).0 ≡ ok iv
      → (C.read iv_size w').0 ≡ ok iv'
      → (wrapped : Bytes) × (rewrapped_key : Bytes) × ((local_wrap_key C l key_id data_key w).0
          ≡ ok wrapped)
        × (local_unwrap_key C l old_key_id wrapped ≡ ok data_key)
        × ((rewrap_key C l old_key_id new_key_id wrapped w').0 ≡ ok rewrapped_key)
        × (local_unwrap_key C l new_key_id rewrapped_key ≡ ok data_key)
  unfolding local_wrap_key local_unwrap_key wrap_under get_key rewrap_key rewrap_plain rewrapped
  local_unwrap-rewrap key_id old_key_id new_key_id data_key iv iv' w w' hm hd hr hr' =
      let (a, a1, a2, a3) =
        unwrap-wrap C L l.master_key data_key iv w hm (omega (arith, hd)) (omega (arith, hd)) hr in
      let (b, b1, b2, b3) =
        unwrap-wrap C L l.master_key data_key iv' w' hm (omega (arith, hd)) (omega (arith, hd))
          hr' in
      (
        a,
        b,
        ground (arith, hd, a1),
        ground (arith, hd, a2, a3),
        ground (arith, a3, b1),
        ground (arith, hd, b2, b3),
      )

  pub decrypt_tagged :
      (key : Bytes) (key_id : String) (e : EncryptAesGcm)
      → decrypt_aes_gcm C key (record e { key_id = key_id }) ≡ decrypt_aes_gcm C key e
  unfolding decrypt_aes_gcm is_valid
  decrypt_tagged key key_id e = refl

  -- A text that is not empty, encrypted under a key id, decrypts under that id, and under any other
  -- id is refused with KEY_ID_MISMATCH.
  pub decrypt-encrypt_key_id :
      (key_id other : String) (plaintext nonce : Bytes) (w : W)
      → length l.master_key ≡ key_size
      → 0 < length plaintext
      → (C.read iv_size w).0 ≡ ok nonce
      → (e : EncryptAesGcm) × ((encrypt_with_key_id C l key_id plaintext w).0 ≡ ok e)
        × (decrypt_with_key_id C l other e
            ≡ (if str_eq key_id other then ok plaintext else err (predefined key_idmismatch)))
  unfolding encrypt_with_key_id decrypt_with_key_id encrypt_under get_key tagged
  decrypt-encrypt_key_id key_id other plaintext nonce w hm hp hr =
      let (e, e1, e2, e3) = decrypt-encrypt C L l.master_key plaintext nonce w hm hr in
      (
        record e { key_id = key_id },
        ground (arith, e1),
        ground (arith, e3, hp, decrypt_tagged l.master_key key_id e),
      )

  -- A text that is not empty, encrypted with a data key of 32 bytes, decrypts with that key. The
  -- value carries the manager's key id.
  pub decrypt-encrypt_data_key :
      (data_key plaintext nonce : Bytes) (w : W)
      → length data_key ≡ key_size
      → 0 < length plaintext
      → (C.read iv_size w).0 ≡ ok nonce
      → (e : EncryptAesGcm) × ((encrypt_with_key C l data_key plaintext w).0 ≡ ok e)
        × (e.key_id ≡ l.key_id)
        × (decrypt_with_key C l data_key e ≡ ok plaintext)
  unfolding encrypt_with_key decrypt_with_key tagged
  decrypt-encrypt_data_key data_key plaintext nonce w hk hp hr =
      let (e, e1, e2, e3) = decrypt-encrypt C L data_key plaintext nonce w hk hr in
      (
        record e { key_id = l.key_id },
        ground (arith, e1, hk),
        refl,
        ground (arith, e3, hp, hk, decrypt_tagged data_key l.key_id e),
      )
