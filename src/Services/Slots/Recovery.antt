-- ===== src/Services/Slots/Recovery.antt =====
-- slot_service.go and bootstrapper.go over the local key manager: a PIN that was stored is
-- recovered.
use hsm_service.Prelude.{ℕ, ◌<◌, ◌≡◌, String, none, ◌∷◌, length, eq_iff, arith}
use hsm_service.Domain.Entities.{Bytes, HsmSlot}
use hsm_service.Exec.{ok}
use hsm_service.Aes.{
  Aead, EncryptAesGcm, is_valid, decrypt_aes_gcm, generate_aes256_key, aes_gcm, iv_size, key_size,
}
use hsm_service.Aes.Laws.{AeadLaws}
use hsm_service.Secrets.{
  LocalAesKeyManager, generate_data_key, get_current_key_id, get_key, rewrap_key,
  encrypt_with_key_id, decrypt_with_key_id, encrypt_with_key, decrypt_with_key, local_wrap_key,
  local_unwrap_key,
}
use hsm_service.Secrets.Envelope.{decrypt-encrypt_data_key, local_unwrap-rewrap}
use hsm_service.Ports.AesKeys.{AesKeyManager}
use hsm_service.Services.Slots.{
  AesKeyMetadata, SlotStore, slot_created, metadata_created, SlotWorld, zeroed, new_slot,
  new_metadata, metadata_saved, slot_saved, key_wrapped, pin_encrypted, key_generated,
  create_hsm_slot,
}
use hsm_service.Hsm.Bootstrap.{recover_pin}

-- The local key manager as the one that the slot service is given.
unfoldable pub local_manager : {W : Type 0} → Aead W → LocalAesKeyManager → AesKeyManager W
unfolding get_current_key_id
local_manager C l = record {
  current_key_id = get_current_key_id C l;
  get_key = λ key_id w. (get_key C l key_id, w);
  generate_data_key = generate_data_key C l;
  encrypt_with_key = encrypt_with_key C l;
  wrap_key = local_wrap_key C l;
  unwrap_key = λ key_id wrapped w. (local_unwrap_key C l key_id wrapped, w);
  rewrap_key = rewrap_key C l;
  encrypt_with_key_id = encrypt_with_key_id C l;
  decrypt_with_key_id = λ key_id e w. (decrypt_with_key_id C l key_id e, w);
  decrypt_with_key = λ key e w. (decrypt_with_key C l key e, w);
}

module _ {W : Type 0} (K : AesKeyManager W) (R : SlotStore W) where
  -- When every step succeeds, what is saved and returned.
  all_saved :
      (number : ℕ) (label : String) (pin slot_key wrapped : Bytes) (e : EncryptAesGcm)
      (w : SlotWorld W)
      → let w1 = (K.generate_data_key w.env).1 in
        let w2 = (K.encrypt_with_key slot_key pin w1).1 in
        let w3 = (K.wrap_key K.current_key_id slot_key w2).1 in
        let (metadata_id, w4) = R.new_uuid w3 in
        let (slot_id, w5) = R.new_uuid w4 in
        let slot = new_slot metadata_id slot_id label number e in
        let m = new_metadata metadata_id slot_id K.current_key_id wrapped in
        (K.generate_data_key w.env).0 ≡ ok slot_key
        → (K.encrypt_with_key slot_key pin w1).0 ≡ ok e
        → (K.wrap_key K.current_key_id slot_key w2).0 ≡ ok wrapped
        → (R.create_slot slot w5).0 ≡ none
        → (R.create_metadata m (R.create_slot slot w5).1).0 ≡ none
        → ((create_hsm_slot K R number label pin w).0 ≡ ok (zeroed slot))
          × ((create_hsm_slot K R number label pin w).1.trace
              ≡ metadata_created m none ∷ slot_created slot none ∷ w.trace)
  unfolding create_hsm_slot key_generated pin_encrypted key_wrapped slot_saved metadata_saved
  all_saved number label pin slot_key wrapped e w h1 h2 h3 h4 h5 =
      (ground (arith, h1, h2, h3, h4, h5), ground (arith, h1, h2, h3, h4, h5))

module _ {W : Type 0} (C : Aead W) (l : LocalAesKeyManager) where
  decrypt_columns :
      (key pin : Bytes) (key_id : String) (e : EncryptAesGcm)
      → decrypt_with_key C l key e ≡ ok pin
      → decrypt_with_key C l key (record e { algorithm = aes_gcm; key_id = key_id }) ≡ ok pin
  unfolding decrypt_with_key decrypt_aes_gcm is_valid
  decrypt_columns key pin key_id e h = ground (arith, h, eq_iff e.algorithm aes_gcm)

module _ {W : Type 0} (C : Aead W) (L : AeadLaws C) (l : LocalAesKeyManager) (R : SlotStore W)
    (reads : (n : ℕ) (w : W) → (bs : Bytes) × ((C.read n w).0 ≡ ok bs))
    (saves : (slot : HsmSlot) (w : W) → (R.create_slot slot w).0 ≡ none)
    (saves_metadata : (m : AesKeyMetadata) (w : W) → (R.create_metadata m w).0 ≡ none) where
  -- When the random source gives bytes and the repositories save, `createHSMSlot` with a master key
  -- of 32 bytes and a PIN that is not empty succeeds. From the slot and the metadata that it saves,
  -- the bootstrapper recovers the PIN at any later time.
  pub recover_pin-create_hsm_slot :
      (number : ℕ) (label : String) (pin : Bytes) (w : SlotWorld W) (later : W)
      → length l.master_key ≡ key_size
      → 0 < length pin
      → (slot : HsmSlot) × (m : AesKeyMetadata) × ((create_hsm_slot
            (local_manager C l)
            R
            number
            label
            pin
            w).0
          ≡ ok (zeroed slot))
        × ((create_hsm_slot (local_manager C l) R number label pin w).1.trace
            ≡ metadata_created m none ∷ slot_created slot none ∷ w.trace)
        × ((recover_pin (local_manager C l) slot m later).0 ≡ ok pin)
  unfolding local_manager recover_pin generate_data_key generate_aes256_key new_slot new_metadata
  recover_pin-create_hsm_slot number label pin w later hm hp =
      let K = local_manager C l in
      let (key, gk) = reads key_size w.env in
      let hk = L.length-read key_size w.env key gk in
      let w1 = (C.read key_size w.env).1 in
      let (nonce, rn) = reads iv_size w1 in
      let (e, e1, e2, e3) = decrypt-encrypt_data_key C L l key pin nonce w1 hk hp rn in
      let w2 = (encrypt_with_key C l key pin w1).1 in
      let (iv, ri) = reads iv_size w2 in
      let (wrapped, again, a1, a2, a3, a4) =
        local_unwrap-rewrap C L l l.key_id l.key_id l.key_id key iv iv w2 w2 hm hk ri ri in
      let w3 = (local_wrap_key C l l.key_id key w2).1 in
      let (metadata_id, w4) = R.new_uuid w3 in
      let (slot_id, w5) = R.new_uuid w4 in
      let slot = new_slot metadata_id slot_id label number e in
      let m = new_metadata metadata_id slot_id l.key_id wrapped in
      let done =
        all_saved K R number label pin key wrapped e w gk e1 a1 (saves slot w5)
          (saves_metadata m (R.create_slot slot w5).1) in
      (slot, m, done.0, done.1, ground (arith, a2, decrypt_columns C l key pin l.key_id e e3))
