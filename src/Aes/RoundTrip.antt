-- ===== src/Aes/RoundTrip.antt =====
-- aesgcm.go and keywrap.go: what is encrypted is decrypted, and what is wrapped is unwrapped.
use hsm_service.Prelude.{
  if◌then◌else◌, ◌+◌, ◌-◌, ◌≤◌, ◌<◌, ◌≡◌, refl, ap, ◌∙◌, ◌++◌, length, length-append, length-take,
  length-drop, take-append, drop-append, take-append-drop, arith, str_eq, ltb,
}
use hsm_service.Domain.Errors.{
  GoError, predefined, aes_create_cipher, aes_create_gcm, aes_invalid_key,
}
use hsm_service.Domain.Entities.{Bytes}
use hsm_service.Exec.{ok, err}
use hsm_service.Aes.{
  Aead, EncryptAesGcm, is_valid, gcm_of, split_sealed, seal_with, encrypt_aes_gcm, decrypt_aes_gcm,
  encrypt_with, wrap_key, wrap_with, wrap_iv, unwrap_key, iv_size, key_size, aes_gcm,
}
use hsm_service.Aes.Laws.{AeadLaws}

module _ {W : Type 0} (C : Aead W) (L : AeadLaws C) where
  gcm_made :
      (f g : GoError → GoError) (key : Bytes)
      → length key ≡ key_size
      → gcm_of C f g key ≡ ok (L.gcm key)
  unfolding gcm_of
  gcm_made f g key h = ground (arith, L.cipher_made key h, L.gcm_made key h)

  encrypted_as :
      (key plaintext nonce : Bytes) (w : W)
      → length key ≡ key_size
      → (C.read iv_size w).0 ≡ ok nonce
      → (encrypt_aes_gcm C key plaintext w).0
        ≡ ok (split_sealed C (L.gcm key) nonce (C.seal (L.gcm key) nonce plaintext))
  unfolding encrypt_aes_gcm encrypt_with seal_with
  encrypted_as key plaintext nonce w hk hr = ground (
    arith,
    hk,
    hr,
    gcm_made (λ _. predefined aes_create_cipher) (λ _. predefined aes_create_gcm) key hk,
  )

  -- The tag that is cut off a sealed text has 16 bytes, the rest is as long as the plaintext, and
  -- they append to the sealed text.
  split_parts :
      (g : C.Gcm) (nonce plaintext : Bytes)
      → length nonce ≡ iv_size
      → let sealed = C.seal g nonce plaintext in
        let e = split_sealed C g nonce sealed in
        (e.ciphertext ++ e.tag ≡ sealed)
        × (length e.tag ≡ 16)
        × (length e.ciphertext ≡ length plaintext)
  unfolding split_sealed
  split_parts g nonce plaintext hn =
      let sealed = C.seal g nonce plaintext in
      let m = length sealed - C.overhead g in
      let ho = L.overhead_is g in
      let hs = L.length-seal g nonce plaintext hn in
      (
        take-append-drop m sealed,
        omega (arith, ho, hs, length-drop m sealed),
        omega (arith, ho, hs, length-take m sealed),
      )

  opens :
      (key plaintext : Bytes) (e : EncryptAesGcm)
      → length key ≡ key_size
      → length e.iv ≡ 12
      → length e.tag ≡ 16
      → e.algorithm ≡ aes_gcm
      → length e.ciphertext ≡ length plaintext
      → C.open_sealed (L.gcm key) e.iv (e.ciphertext ++ e.tag) ≡ ok plaintext
      → (is_valid e ≡ ltb 0 (length plaintext))
        × (decrypt_aes_gcm C key e
            ≡ (if ltb 0 (length plaintext) then ok plaintext else err (predefined aes_invalid_key)))
  unfolding is_valid decrypt_aes_gcm
  opens key plaintext e hk hi ht ha hc ho =
      let made =
        gcm_made (λ _. predefined aes_create_cipher) (λ _. predefined aes_create_gcm) key hk in
      let named = ap (λ a. str_eq a aes_gcm) ha in
      (ground (arith, hi, ht, named, hc), ground (arith, hk, hi, ht, named, hc, made, ho))

  -- `EncryptAESGCM` with a key of 32 bytes gives a value whenever a nonce is read. The value is
  -- valid, and decrypts to the plaintext under the same key, exactly when the plaintext is not
  -- empty; the value of an empty plaintext is refused with AES_INVALID_KEY.
  pub decrypt-encrypt :
      (key plaintext nonce : Bytes) (w : W)
      → length key ≡ key_size
      → (C.read iv_size w).0 ≡ ok nonce
      → (e : EncryptAesGcm) × ((encrypt_aes_gcm C key plaintext w).0 ≡ ok e)
        × (is_valid e ≡ ltb 0 (length plaintext))
        × (decrypt_aes_gcm C key e
            ≡ (if ltb 0 (length plaintext) then ok plaintext else err (predefined aes_invalid_key)))
  unfolding split_sealed
  decrypt-encrypt key plaintext nonce w hk hr =
      let g = L.gcm key in
      let hn = L.length-read iv_size w nonce hr in
      let sealed = C.seal g nonce plaintext in
      let (whole, ht, hc) = split_parts g nonce plaintext hn in
      let e = split_sealed C g nonce sealed in
      let r =
        opens key plaintext e hk hn ht refl hc
          (ap (C.open_sealed g nonce) whole ∙ L.open-seal g nonce plaintext hn) in
      (e, encrypted_as key plaintext nonce w hk hr, r.0, r.1)

  -- `WrapKey` with a wrapping key of 32 bytes and a key of 1 to 1024 bytes gives a value whenever
  -- an IV is read. It is 28 bytes longer than the key, and `UnwrapKey` gives the key back.
  pub unwrap-wrap :
      (wrapping_key plain_key iv : Bytes) (w : W)
      → length wrapping_key ≡ key_size
      → 0 < length plain_key
      → length plain_key ≤ 1024
      → (C.read iv_size w).0 ≡ ok iv
      → (wrapped : Bytes) × ((wrap_key C wrapping_key plain_key w).0 ≡ ok wrapped)
        × (length wrapped ≡ length plain_key + 28)
        × (unwrap_key C wrapping_key wrapped ≡ ok plain_key)
  unfolding wrap_key wrap_with wrap_iv unwrap_key
  unwrap-wrap wrapping_key plain_key iv w hk hl hu hr =
      let g = L.gcm wrapping_key in
      let sealed = C.seal g iv plain_key in
      let hn = L.length-read iv_size w iv hr in
      let made = gcm_made (λ e. e) (λ e. e) wrapping_key hk in
      let size : length (iv ++ sealed) ≡ length plain_key + 28 =
        omega (arith, length-append iv sealed, L.length-seal g iv plain_key hn, hn) in
      let front = take-append iv_size iv sealed hn in
      let back = drop-append iv_size iv sealed hn in
      let opened = L.open-seal g iv plain_key hn in
      (
        iv ++ sealed,
        ground (arith, hk, hl, hu, hr, made),
        size,
        ground (arith, hk, hl, size, made, front, back, opened),
      )
