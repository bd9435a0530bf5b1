-- ===== src/Services/Crypto/Uses.antt =====
-- crypto_service.go: which key each operation uses, and under which conditions.
use hsm_service.Prelude.{String, refl}
use hsm_service.Domain.Values.{IdentityContext}
use hsm_service.Domain.Entities.{Bytes}
use hsm_service.Exec.{signed, verified, encrypted, decrypted, World, deferring, ◌>>=◌}
use hsm_service.Ports.{Ports, sign, verify, encrypt, decrypt, hsm_calls}
use hsm_service.Services.Crypto.{
  operation_failed, audited_operation, sign_body, verify_body, encrypt_body, decrypt_body,
  sign_data, verify_signature, encrypt_data, decrypt_data, sign_hash, verify_hash_signature,
}
use hsm_service.Services.Crypto.Lookup.{Uses, body_Uses, audited_quiet}

module _ {W : Type 0} (P : Ports W) where
  sign_body-Uses :
      (label tenant_id operation : String) (hash : Bytes) (identity : IdentityContext) (w : World W)
      → let r = sign_body P label hash tenant_id identity operation w in
        Uses P label tenant_id "SIGNING"
          (λ key n reply. signed key.key_handle hash n reply)
          (operation_failed operation)
          w
          r.0
          (hsm_calls r.1.trace)
  unfolding sign_body sign ◌>>=◌ hsm_calls
  sign_body-Uses label tenant_id operation hash identity w =
      body_Uses P label tenant_id "SIGNING" (λ key n reply. signed key.key_handle hash n reply)
        (operation_failed operation) (λ key n. P.hsm_sign key.key_handle hash n identity)
        (sign_body P label hash tenant_id identity operation) (λ w'. refl) (λ key n r es. refl) w

  verify_body-Uses :
      (label tenant_id operation : String) (hash signature : Bytes) (w : World W)
      → let r = verify_body P label hash signature tenant_id operation w in
        Uses P label tenant_id "SIGNING"
          (λ key n reply. verified key.key_handle hash signature n reply)
          (operation_failed operation)
          w
          r.0
          (hsm_calls r.1.trace)
  unfolding verify_body verify ◌>>=◌ hsm_calls
  verify_body-Uses label tenant_id operation hash signature w =
      body_Uses P label tenant_id "SIGNING"
        (λ key n reply. verified key.key_handle hash signature n reply) (operation_failed operation)
        (λ key n. P.hsm_verify key.key_handle hash signature n)
        (verify_body P label hash signature tenant_id operation) (λ w'. refl) (λ key n r es. refl) w

  -- `SignData` and `SignHash` use a key only as `Uses` says: at most once, a key that the HSM lists
  -- under this label and this tenant, for signing or for both. `SignData` signs the SHA-256 of
  -- the data, and every error of the HSM becomes HSM_OPERATION_FAILED.
  pub sign-Uses :
      (label tenant_id : String) (message : Bytes) (identity : IdentityContext) (w : World W)
      → (let r = sign_data P label message tenant_id identity w in
          Uses P label tenant_id "SIGNING"
            (λ key n reply. signed key.key_handle (P.sha256 message) n reply)
            (operation_failed "sign_data")
            w
            r.0
            (hsm_calls r.1.trace))
        × (let r = sign_hash P label message tenant_id identity w in
            Uses P label tenant_id "SIGNING"
              (λ key n reply. signed key.key_handle message n reply)
              (operation_failed "sign_hash")
              w
              r.0
              (hsm_calls r.1.trace))
  unfolding sign_data sign_hash ◌>>=◌ deferring audited_operation
  sign-Uses label tenant_id message identity w = (
    rw (audited_quiet P label "SIGN_DATA" _ w)
        (sign_body-Uses label tenant_id "sign_data" (P.sha256 message) identity w),
    rw (audited_quiet P label "SIGN_HASH" _ w)
        (sign_body-Uses label tenant_id "sign_hash" message identity w),
  )

  -- `VerifySignature` and `VerifyHashSignature` use a key only as `Uses` says: at most once, a key
  -- that the HSM lists under this label and this tenant, for signing or for both.
  -- `VerifySignature` verifies the SHA-256 of the data, and every error of the HSM becomes
  -- HSM_OPERATION_FAILED.
  pub verify-Uses :
      (label tenant_id : String) (message signature : Bytes) (w : World W)
      → (let r = verify_signature P label message signature tenant_id w in
          Uses P label tenant_id "SIGNING"
            (λ key n reply. verified key.key_handle (P.sha256 message) signature n reply)
            (operation_failed "verify_signature")
            w
            r.0
            (hsm_calls r.1.trace))
        × (let r = verify_hash_signature P label message signature tenant_id w in
            Uses P label tenant_id "SIGNING"
              (λ key n reply. verified key.key_handle message signature n reply)
              (operation_failed "verify_hash_signature")
              w
              r.0
              (hsm_calls r.1.trace))
  unfolding verify_signature verify_hash_signature ◌>>=◌ deferring audited_operation
  verify-Uses label tenant_id message signature w = (
    rw (audited_quiet P label "VERIFY_SIGNATURE" _ w)
        (verify_body-Uses label tenant_id "verify_signature" (P.sha256 message) signature w),
    rw (audited_quiet P label "VERIFY_HASH_SIGNATURE" _ w)
        (verify_body-Uses label tenant_id "verify_hash_signature" message signature w),
  )

  encrypt_body-Uses :
      (label tenant_id : String) (text : Bytes) (w : World W)
      → let r = encrypt_body P label text tenant_id w in
        Uses P label tenant_id "ENCRYPTION"
          (λ key n reply. encrypted key.key_handle text n reply)
          (operation_failed "encrypt")
          w
          r.0
          (hsm_calls r.1.trace)
  unfolding encrypt_body encrypt ◌>>=◌ hsm_calls
  encrypt_body-Uses label tenant_id text w =
      body_Uses P label tenant_id "ENCRYPTION"
        (λ key n reply. encrypted key.key_handle text n reply) (operation_failed "encrypt")
        (λ key n. P.hsm_encrypt key.key_handle text n) (encrypt_body P label text tenant_id)
        (λ w'. refl) (λ key n r es. refl) w

  decrypt_body-Uses :
      (label tenant_id : String) (text : Bytes) (w : World W)
      → let r = decrypt_body P label text tenant_id w in
        Uses P label tenant_id "ENCRYPTION"
          (λ key n reply. decrypted key.key_handle text n reply)
          (operation_failed "decrypt")
          w
          r.0
          (hsm_calls r.1.trace)
  unfolding decrypt_body decrypt ◌>>=◌ hsm_calls
  decrypt_body-Uses label tenant_id text w =
      body_Uses P label tenant_id "ENCRYPTION"
        (λ key n reply. decrypted key.key_handle text n reply) (operation_failed "decrypt")
        (λ key n. P.hsm_decrypt key.key_handle text n) (decrypt_body P label text tenant_id)
        (λ w'. refl) (λ key n r es. refl) w

  -- `EncryptData` and `DecryptData` use a key only as `Uses` says: at most once, a key that the HSM
  -- lists under this label and this tenant, for encryption or for both, and every error of the
  -- HSM becomes HSM_OPERATION_FAILED.
  pub cipher-Uses :
      (label tenant_id : String) (text : Bytes) (w : World W)
      → (let r = encrypt_data P label text tenant_id w in
          Uses P label tenant_id "ENCRYPTION"
            (λ key n reply. encrypted key.key_handle text n reply)
            (operation_failed "encrypt")
            w
            r.0
            (hsm_calls r.1.trace))
        × (let r = decrypt_data P label text tenant_id w in
            Uses P label tenant_id "ENCRYPTION"
              (λ key n reply. decrypted key.key_handle text n reply)
              (operation_failed "decrypt")
              w
              r.0
              (hsm_calls r.1.trace))
  unfolding encrypt_data decrypt_data ◌>>=◌ deferring audited_operation
  cipher-Uses label tenant_id text w = (
    rw (audited_quiet P label "ENCRYPT_DATA" _ w) (encrypt_body-Uses label tenant_id text w),
    rw (audited_quiet P label "DECRYPT_DATA" _ w) (decrypt_body-Uses label tenant_id text w),
  )
