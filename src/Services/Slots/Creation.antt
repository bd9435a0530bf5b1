-- ===== src/Services/Slots/Creation.antt =====
-- slot_service.go, `createHSMSlot`: what it writes to the two repositories.
use hsm_service.Prelude.{ℕ, String, ◌≡◌, refl, ap, Option, none, some, List, ◌∷◌}
use hsm_service.Domain.Errors.{
  GoError, predefined, aes_create_gcm, fail_encrypt_data, fail_wrap_key, create_slot_failed,
  create_hsm_metadata_failed,
}
use hsm_service.Domain.Entities.{Bytes, HsmSlot}
use hsm_service.Exec.{Reply, ok, err}
use hsm_service.Aes.{EncryptAesGcm}
use hsm_service.Ports.AesKeys.{AesKeyManager}
use hsm_service.Services.Slots.{
  AesKeyMetadata, SlotStore, Write, slot_created, slot_deleted, metadata_created, SlotWorld, zeroed,
  cleanup, refused, new_slot, new_metadata, metadata_saved, slot_saved, key_wrapped, pin_encrypted,
  key_generated, create_hsm_slot, original,
}

-- How the writes of a `createHSMSlot` grow the trace, with the reply that goes with it.
pub data CreatesSlot (number : ℕ) (label : String) (o : Reply HsmSlot) (before after : List Write)
    : Type 0 where
  nothing : (e : GoError) → o ≡ err e → after ≡ before → CreatesSlot number label o before after
  no_slot :
      (slot : HsmSlot) (x e : GoError)
      → o ≡ err e
      → after ≡ slot_created slot (some x) ∷ before
      → CreatesSlot number label o before after
  taken_back :
      (slot : HsmSlot) (m : AesKeyMetadata) (x e : GoError) (r₁ r₂ : Option GoError)
      → o ≡ err e
      → after
        ≡ slot_deleted slot.id r₂
          ∷ slot_deleted slot.id r₁
          ∷ metadata_created m (some x)
          ∷ slot_created slot none
          ∷ before
      → CreatesSlot number label o before after
  both_created :
      (slot : HsmSlot) (m : AesKeyMetadata)
      → o ≡ ok (zeroed slot)
      → slot.label ≡ label
      → slot.slot_number ≡ number
      → slot.key_metadata_id ≡ m.id
      → m.hsm_slot_id ≡ slot.id
      → after ≡ metadata_created m none ∷ slot_created slot none ∷ before
      → CreatesSlot number label o before after

module _ {W : Type 0} (K : AesKeyManager W) (R : SlotStore W) (number : ℕ) (label : String) where
  metadata_saved-CreatesSlot :
      (m : AesKeyMetadata) (slot : HsmSlot) (r : Option GoError × W) (before : List Write)
      (w : SlotWorld W)
      → slot.label ≡ label
      → slot.slot_number ≡ number
      → slot.key_metadata_id ≡ m.id
      → m.hsm_slot_id ≡ slot.id
      → w.trace ≡ slot_created slot none ∷ before
      → let (o, w') = metadata_saved K R m slot r w in CreatesSlot number label o before w'.trace
  unfolding metadata_saved refused cleanup
  metadata_saved-CreatesSlot m slot (none, e) before w h1 h2 h3 h4 t =
      both_created slot m refl h1 h2 h3 h4 (ap (λ es. metadata_created m none ∷ es) t)
  metadata_saved-CreatesSlot m slot (some x, e) before w h1 h2 h3 h4 t =
      let (r₁, e₁) = R.delete_slot slot.id e in
      taken_back slot m x (original (predefined create_hsm_metadata_failed) x) r₁
        (R.delete_slot slot.id e₁).0 refl
        (ap
          (λ es.
            slot_deleted slot.id (R.delete_slot slot.id e₁).0
            ∷ slot_deleted slot.id r₁
            ∷ metadata_created m (some x)
            ∷ es)
          t)

  slot_saved-CreatesSlot :
      (m : AesKeyMetadata) (slot : HsmSlot) (r : Option GoError × W) (w : SlotWorld W)
      → slot.label ≡ label
      → slot.slot_number ≡ number
      → slot.key_metadata_id ≡ m.id
      → m.hsm_slot_id ≡ slot.id
      → let (o, w') = slot_saved K R m slot r w in CreatesSlot number label o w.trace w'.trace
  unfolding slot_saved refused cleanup
  slot_saved-CreatesSlot m slot (some x, e) w h1 h2 h3 h4 =
      no_slot slot x (original (predefined create_slot_failed) x) refl refl
  slot_saved-CreatesSlot m slot (none, e) w h1 h2 h3 h4 =
      metadata_saved-CreatesSlot m slot (R.create_metadata m e) w.trace
        (record { env = e; trace = slot_created slot none ∷ w.trace }) h1 h2 h3 h4 refl

  key_wrapped-CreatesSlot :
      (pin : EncryptAesGcm) (r : Reply Bytes × W) (w : SlotWorld W)
      → let (o, w') = key_wrapped K R number label pin r w in
        CreatesSlot number label o w.trace w'.trace
  unfolding key_wrapped refused cleanup new_slot new_metadata
  key_wrapped-CreatesSlot pin (err x, e) w =
      nothing (original (predefined fail_wrap_key) x) refl refl
  key_wrapped-CreatesSlot pin (ok wrapped, e) w =
      let (metadata_id, e1) = R.new_uuid e in
      let (slot_id, e2) = R.new_uuid e1 in
      let slot = new_slot metadata_id slot_id label number pin in
      slot_saved-CreatesSlot (new_metadata metadata_id slot_id K.current_key_id wrapped) slot
        (R.create_slot slot e2) (record w { env = e2 }) refl refl refl refl

  pin_encrypted-CreatesSlot :
      (slot_key : Bytes) (r : Reply EncryptAesGcm × W) (w : SlotWorld W)
      → let (o, w') = pin_encrypted K R number label slot_key r w in
        CreatesSlot number label o w.trace w'.trace
  unfolding pin_encrypted refused cleanup
  pin_encrypted-CreatesSlot slot_key (err x, e) w =
      nothing (original (predefined fail_encrypt_data) x) refl refl
  pin_encrypted-CreatesSlot slot_key (ok pin, e) w =
      key_wrapped-CreatesSlot pin (K.wrap_key K.current_key_id slot_key e) (record w { env = e })

  key_generated-CreatesSlot :
      (pin : Bytes) (r : Reply Bytes × W) (w : SlotWorld W)
      → let (o, w') = key_generated K R number label pin r w in
        CreatesSlot number label o w.trace w'.trace
  unfolding key_generated refused cleanup
  key_generated-CreatesSlot pin (err x, e) w =
      nothing (original (predefined aes_create_gcm) x) refl refl
  key_generated-CreatesSlot pin (ok slot_key, e) w =
      pin_encrypted-CreatesSlot slot_key (K.encrypt_with_key slot_key pin e) (record w { env = e })

  -- `createHSMSlot` on every branch. It writes nothing and fails; or the slot is refused and it
  -- fails; or the slot is saved, its key's metadata is refused, and the slot is deleted again,
  -- twice, with an error; or the slot and the metadata are saved, each with the id of the other,
  -- and the slot is returned with its encrypted PIN zeroed.
  pub create_hsm_slot-CreatesSlot :
      (pin : Bytes) (w : SlotWorld W)
      → let (o, w') = create_hsm_slot K R number label pin w in
        CreatesSlot number label o w.trace w'.trace
  unfolding create_hsm_slot
  create_hsm_slot-CreatesSlot pin w = key_generated-CreatesSlot pin (K.generate_data_key w.env) w
