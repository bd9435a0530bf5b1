-- ===== src/Aes/Laws.antt =====
-- What pkg/crypto relies on of Go's AES-GCM and of its random source.
use hsm_service.Prelude.{ℕ, ◌+◌, ◌≡◌, length}
use hsm_service.Domain.Entities.{Bytes}
use hsm_service.Exec.{ok}
use hsm_service.Aes.{Aead, key_size, iv_size, tag_size}

-- A key of 32 bytes gives a cipher, GCM has tags of 16 bytes, sealing adds the tag, and what was
-- sealed under a nonce of 12 bytes opens under it.
pub record AeadLaws {W : Type 0} (C : Aead W) : Type 0 where
  pub block : Bytes → C.Block
  pub gcm : Bytes → C.Gcm
  pub cipher_made : (key : Bytes) → length key ≡ key_size → C.new_cipher key ≡ ok (block key)
  pub gcm_made : (key : Bytes) → length key ≡ key_size → C.new_gcm (block key) ≡ ok (gcm key)
  pub overhead_is : (g : C.Gcm) → C.overhead g ≡ tag_size
  pub length-seal :
      (g : C.Gcm) (nonce text : Bytes)
      → length nonce ≡ iv_size
      → length (C.seal g nonce text) ≡ length text + tag_size
  pub open-seal :
      (g : C.Gcm) (nonce text : Bytes)
      → length nonce ≡ iv_size
      → C.open_sealed g nonce (C.seal g nonce text) ≡ ok text
  pub length-read : (n : ℕ) (w : W) (bs : Bytes) → (C.read n w).0 ≡ ok bs → length bs ≡ n
