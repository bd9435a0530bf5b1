-- ===== src/Aes/Runs.antt =====
-- The theorems on AES-GCM values at concrete inputs.
use hsm_service.Prelude.{◌+◌, ◌≡◌, refl, true, [], ◌∷◌, length, arith}
use hsm_service.Domain.Entities.{Bytes}
use hsm_service.Exec.{ok}
use hsm_service.Aes.{
  EncryptAesGcm, encrypt_aes_gcm, decrypt_aes_gcm, is_valid, wrap_key, unwrap_key, aes_gcm,
}
use hsm_service.Aes.RoundTrip.{decrypt-encrypt, unwrap-wrap}
use hsm_service.Aes.Plain.{zeros, length-zeros, toy, toy-AeadLaws, some_key}

abbrev stored : EncryptAesGcm
stored = record {
  iv = zeros 12;
  ciphertext = 1 ∷ 2 ∷ [];
  tag = zeros 16;
  algorithm = aes_gcm;
  key_id = "kek-1";
}

decrypt-encrypt_example :
    (e : EncryptAesGcm) × ((encrypt_aes_gcm toy some_key (1 ∷ 2 ∷ []) 5).0 ≡ ok e)
    × (is_valid e ≡ true)
    × (decrypt_aes_gcm toy some_key e ≡ ok (1 ∷ 2 ∷ []))
unfolding toy
decrypt-encrypt_example =
    decrypt-encrypt toy toy-AeadLaws some_key (1 ∷ 2 ∷ []) (zeros 12) 5 (length-zeros 32) refl

unwrap-wrap_example :
    (wrapped : Bytes) × ((wrap_key toy some_key (1 ∷ 2 ∷ []) 5).0 ≡ ok wrapped)
    × (length wrapped ≡ 2 + 28)
    × (unwrap_key toy some_key wrapped ≡ ok (1 ∷ 2 ∷ []))
unfolding toy
unwrap-wrap_example =
    unwrap-wrap toy toy-AeadLaws some_key (1 ∷ 2 ∷ []) (zeros 12) 5 (length-zeros 32) (omega arith)
      (omega arith) refl
