-- ===== src/Aes.antt =====
-- pkg/crypto/aesgcm.go, pkg/crypto/keywrap.go and internal/domain/valueobjects/encrypt_aes_gcm.go.
-- Go's AES and GCM and its random source are parameters.
pub mod Laws
pub mod RoundTrip
pub mod Layout
pub mod Plain
mod Runs
use hsm_service.Prelude.{
  ℕ, ◌+◌, ◌-◌, String, Bool, not, ◌&&◌, ◌||◌, List, [], ◌∷◌, ◌++◌, length, take, drop, ltb, ◌==◌,
  str_eq, if◌then◌else◌,
}
use hsm_service.Domain.Errors.{
  GoError, plain, predefined, invalid_aes_key_size, aes_create_cipher, aes_create_gcm,
  aes_create_nonce, aes_invalid_key, aes_decrypt_failed, wrapping_key_length, wrapping_key_short,
  key_to_wrap_length_invalid,
}
use hsm_service.Domain.Entities.{Bytes}
use hsm_service.Exec.{Reply, ok, err}

abbrev pub iv_size : ℕ
iv_size = 12

abbrev pub tag_size : ℕ
tag_size = 16

abbrev pub key_size : ℕ
key_size = 32

abbrev pub aes_gcm : String
aes_gcm = "AES-256-GCM"

-- crypto/aes, crypto/cipher and crypto/rand: `read n` is `io.ReadFull` into `n` bytes.
pub record Aead (W : Type 0) : Type 1 where
  pub Block : Type 0
  pub Gcm : Type 0
  pub new_cipher : Bytes → Reply Block
  pub new_gcm : Block → Reply Gcm
  pub overhead : Gcm → ℕ
  pub seal : Gcm → Bytes → Bytes → Bytes
  pub open_sealed : Gcm → Bytes → Bytes → Reply Bytes
  pub read : ℕ → W → Reply Bytes × W

pub record EncryptAesGcm : Type 0 where
  pub iv : Bytes
  pub ciphertext : Bytes
  pub tag : Bytes
  pub algorithm : String
  pub key_id : String

unfoldable pub is_valid : EncryptAesGcm → Bool
is_valid e =
    (length e.iv == 12)
    && (length e.tag == 16)
    && ltb 0 (length e.ciphertext)
    && str_eq e.algorithm aes_gcm

unfoldable pub to_bytes : EncryptAesGcm → Bytes
to_bytes e = (e.iv ++ e.ciphertext) ++ e.tag

-- `data[12 : len(data)-16]` is what is between the two ends.
unfoldable pub new_encrypted_data_from_bytes : Bytes → Reply EncryptAesGcm
new_encrypted_data_from_bytes bytes =
    if ltb (length bytes) 28
    then err (plain "invalid encrypted data length")
    else ok record {
      iv = take 12 bytes;
      ciphertext = take (length bytes - 16 - 12) (drop 12 bytes);
      tag = drop (length bytes - 16) bytes;
      algorithm = aes_gcm;
      key_id = "";
    }

abbrev pub and_then : {A B : Type 0} → Reply A → (A → Reply B) → Reply B
and_then (ok a) f = f a
and_then (err e) f = err e

abbrev pub with_error : {A : Type 0} → (GoError → GoError) → Reply A → Reply A
with_error f (ok a) = ok a
with_error f (err e) = err (f e)

module _ {W : Type 0} (C : Aead W) where
  -- `aes.NewCipher` and `cipher.NewGCM`, with what the caller makes of their errors.
  unfoldable pub gcm_of : (GoError → GoError) → (GoError → GoError) → Bytes → Reply C.Gcm
  gcm_of f g key = and_then (with_error f (C.new_cipher key)) (λ b. with_error g (C.new_gcm b))

  abbrev domain_gcm : Bytes → Reply C.Gcm
  domain_gcm = gcm_of (λ _. predefined aes_create_cipher) (λ _. predefined aes_create_gcm)

  -- `GenerateAES256Key`
  unfoldable pub generate_aes256_key : W → Reply Bytes × W
  generate_aes256_key w = C.read key_size w

  -- The end of `EncryptAESGCM`: the tag is cut off the sealed text.
  unfoldable pub split_sealed : C.Gcm → Bytes → Bytes → EncryptAesGcm
  split_sealed gcm nonce sealed =
      let tag_start = length sealed - C.overhead gcm in
      record {
        iv = nonce;
        ciphertext = take tag_start sealed;
        tag = drop tag_start sealed;
        algorithm = aes_gcm;
        key_id = "";
      }

  seal_with : C.Gcm → Bytes → Reply Bytes → Reply EncryptAesGcm
  unfolding split_sealed
  seal_with gcm plaintext (err e) = err (predefined aes_create_nonce)
  seal_with gcm plaintext (ok nonce) = ok (split_sealed gcm nonce (C.seal gcm nonce plaintext))

  encrypt_with : Reply C.Gcm → Bytes → W → Reply EncryptAesGcm × W
  unfolding seal_with
  encrypt_with (err e) plaintext w = (err e, w)
  encrypt_with (ok gcm) plaintext w =
      let (nonce, w') = C.read iv_size w in (seal_with gcm plaintext nonce, w')

  unfoldable pub encrypt_aes_gcm : Bytes → Bytes → W → Reply EncryptAesGcm × W
  unfolding encrypt_with
  encrypt_aes_gcm key plaintext w =
      if not (length key == key_size)
      then (err (predefined invalid_aes_key_size), w)
      else encrypt_with (domain_gcm key) plaintext w

  unfoldable pub decrypt_aes_gcm : Bytes → EncryptAesGcm → Reply Bytes
  unfolding is_valid
  decrypt_aes_gcm key encrypted =
      if not (length key == key_size)
      then err (predefined invalid_aes_key_size)
      else if not (is_valid encrypted)
      then err (predefined aes_invalid_key)
      else and_then (domain_gcm key) λ gcm.
        with_error (λ _. predefined aes_decrypt_failed)
          (C.open_sealed gcm encrypted.iv (encrypted.ciphertext ++ encrypted.tag))

  wrap_iv : C.Gcm → Bytes → Reply Bytes → Reply Bytes
  wrap_iv gcm plain_key (err e) = err e
  wrap_iv gcm plain_key (ok iv) = ok (iv ++ C.seal gcm iv plain_key)

  wrap_with : Reply C.Gcm → Bytes → W → Reply Bytes × W
  unfolding wrap_iv
  wrap_with (err e) plain_key w = (err e, w)
  wrap_with (ok gcm) plain_key w = let (iv, w') = C.read iv_size w in (wrap_iv gcm plain_key iv, w')

  unfoldable pub wrap_key : Bytes → Bytes → W → Reply Bytes × W
  unfolding wrap_with
  wrap_key wrapping_key plain_key w =
      if not (length wrapping_key == key_size)
      then (err (predefined wrapping_key_length), w)
      else if (length plain_key == 0) || ltb 1024 (length plain_key)
      then (err (predefined key_to_wrap_length_invalid), w)
      else wrap_with (gcm_of (λ e. e) (λ e. e) wrapping_key) plain_key w

  unfoldable pub unwrap_key : Bytes → Bytes → Reply Bytes
  unwrap_key wrapping_key wrapped_key =
      if not (length wrapping_key == key_size)
      then err (predefined wrapping_key_length)
      else if ltb (length wrapped_key) (iv_size + 16)
      then err (predefined wrapping_key_short)
      else and_then (gcm_of (λ e. e) (λ e. e) wrapping_key)
          λ gcm. C.open_sealed gcm (take iv_size wrapped_key) (drop iv_size wrapped_key)
