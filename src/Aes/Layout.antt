-- ===== src/Aes/Layout.antt =====
-- encrypt_aes_gcm.go: the byte layout IV | ciphertext | tag.
use hsm_service.Prelude.{
  str_eq, Bool-cases, inl, inr, drop-drop, ℕ, ◌+◌, ◌-◌, ◌≤◌, ◌≡◌, ap, ◌++◌, length, take, drop, ltb,
  length-append, length-take, length-drop, take-append, drop-append, take-append-drop, append_assoc,
  arith,
}
use hsm_service.Domain.Entities.{Bytes}
use hsm_service.Exec.{ok}
use hsm_service.Aes.{EncryptAesGcm, is_valid, to_bytes, new_encrypted_data_from_bytes, aes_gcm}

length-to_bytes :
    (e : EncryptAesGcm) → length (to_bytes e) ≡ length e.iv + length e.ciphertext + length e.tag
unfolding to_bytes
length-to_bytes e =
    omega (arith, length-append (e.iv ++ e.ciphertext) e.tag, length-append e.iv e.ciphertext)

-- An encrypted value whose IV has 12 bytes and whose tag has 16 is read back from its bytes, but
-- for the key's id, which is lost, and the algorithm, which is always AES-256-GCM.
pub bytes_round_trip :
    (e : EncryptAesGcm)
    → length e.iv ≡ 12
    → length e.tag ≡ 16
    → new_encrypted_data_from_bytes (to_bytes e)
      ≡ ok (record e { algorithm = aes_gcm; key_id = "" })
unfolding new_encrypted_data_from_bytes to_bytes
bytes_round_trip e hi ht =
    let front = length-append e.iv e.ciphertext in
    let whole = length-append (e.iv ++ e.ciphertext) e.tag in
    let tag_eq =
      drop-append (length (to_bytes e) - 16) (e.iv ++ e.ciphertext) e.tag
        (omega (arith, front, whole, hi, ht)) in
    let iv_eq = take-append 12 e.iv (e.ciphertext ++ e.tag) hi in
    let rest = drop-append 12 e.iv (e.ciphertext ++ e.tag) hi in
    let text_eq =
      take-append (length (to_bytes e) - 16 - 12) e.ciphertext e.tag
        (omega (arith, front, whole, hi, ht)) in
    let assoc = append_assoc e.iv e.ciphertext e.tag in
    ground (arith, front, whole, tag_eq, iv_eq, rest, text_eq, assoc)

module _ (bytes : Bytes) (long : 28 ≤ length bytes) where
  parts_whole :
      (take 12 bytes ++ take (length bytes - 16 - 12) (drop 12 bytes))
        ++ drop (length bytes - 16) bytes
      ≡ bytes
  parts_whole =
      let n = length bytes - 16 - 12 in
      let e = drop-drop n 12 bytes in
      let m = take-append-drop n (drop 12 bytes) in
      let k = ap (λ i. drop i bytes) {x = 12 + n} {y = length bytes - 16} (omega (arith, long)) in
      grind (
        arith,
        append_assoc (take 12 bytes) (take n (drop 12 bytes)) (drop (length bytes - 16) bytes),
        e,
        k,
        m,
        take-append-drop 12 bytes,
      )

valid_sized :
    (e : EncryptAesGcm) (n : ℕ)
    → length e.iv ≡ 12
    → length e.tag ≡ 16
    → e.algorithm ≡ aes_gcm
    → length e.ciphertext + 28 ≡ n
    → is_valid e ≡ ltb 28 n
unfolding is_valid
valid_sized e n hi ht ha hc =
    let named = ap (λ a. str_eq a aes_gcm) ha in ground (arith, hi, ht, named, hc)

-- What is read from bytes prints as those bytes, and `IsValid` accepts it exactly when there is
-- at least one byte of text between the IV and the tag.
pub parsed_bytes :
    (bytes : Bytes) (e : EncryptAesGcm)
    → new_encrypted_data_from_bytes bytes ≡ ok e
    → (to_bytes e ≡ bytes) × (is_valid e ≡ ltb 28 (length bytes))
unfolding new_encrypted_data_from_bytes to_bytes is_valid
parsed_bytes bytes e h = elim (Bool-cases (ltb (length bytes) 28)) [
  | inl short ↦ absurd (ground (arith, short))
  | inr long ↦
      let m = length bytes - 16 in
      let le : 28 ≤ length bytes = ground arith in
      (
        ground (arith, parts_whole bytes le),
        valid_sized e (length bytes) (ground (arith, length-take 12 bytes))
            (ground (arith, length-drop m bytes)) (ground arith)
            (ground (arith, length-take (m - 12) (drop 12 bytes), length-drop 12 bytes)),
      )
]
