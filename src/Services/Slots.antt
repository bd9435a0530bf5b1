-- ===== src/Services/Slots.antt =====
-- internal/application/services/slot_service.go, `createHSMSlot` with its cleanup handler. The key
-- manager and the two repositories are parameters. The PIN is taken as its bytes. The trace lists
-- the writes to the repositories, newest first.
pub mod Creation
pub mod Provision
pub mod Recovery
mod Runs
use hsm_service.Prelude.{ℕ, String, Bool, true, false, Option, none, some, List, [], ◌∷◌}
use hsm_service.Domain.Errors.{
  GoError, predefined, with_detail, error_text, aes_create_gcm, fail_encrypt_data, fail_wrap_key,
  create_slot_failed, create_hsm_metadata_failed,
}
use hsm_service.Domain.Entities.{Bytes, HsmSlot}
use hsm_service.Exec.{Reply, ok, err}
use hsm_service.Aes.{EncryptAesGcm}
use hsm_service.Ports.AesKeys.{AesKeyManager}
use hsm_service.Secrets.{zero_bytes}

-- `entities.AESKeyMetadata`, without its times.
pub record AesKeyMetadata : Type 0 where
  pub id : String
  pub hsm_slot_id : String
  pub version_id : String
  pub active : Bool
  pub algorithm : String
  pub source : String
  pub description : String
  pub wrapped_data_key : Bytes
  pub wrapped_key_version : String

pub record SlotStore (W : Type 0) : Type 0 where
  pub new_uuid : W → String × W
  pub create_slot : HsmSlot → W → Option GoError × W
  pub delete_slot : String → W → Option GoError × W
  pub create_metadata : AesKeyMetadata → W → Option GoError × W
  pub delete_metadata : String → W → Option GoError × W

pub data Write : Type 0 where
  slot_created : HsmSlot → Option GoError → Write
  slot_deleted : String → Option GoError → Write
  metadata_created : AesKeyMetadata → Option GoError → Write
  metadata_deleted : String → Option GoError → Write

pub record SlotWorld (W : Type 0) : Type 0 where
  pub env : W
  pub trace : List Write

-- One closure of the `cleanupHandler`.
pub data Cleanup : Type 0 where
  slot_cleanup : String → Cleanup
  metadata_cleanup : String → Cleanup

-- `DomainErr….WithDetail("original_error", err.Error())`
abbrev pub original : (e x : GoError) → GoError
original e x = with_detail "original_error" (error_text x) e

unfoldable pub new_metadata : String → String → String → Bytes → AesKeyMetadata
new_metadata metadata_id slot_id master_key_id wrapped = record {
  id = metadata_id;
  hsm_slot_id = slot_id;
  version_id = master_key_id;
  active = true;
  algorithm = "AES-256-GCM";
  source = "LOCAL_GENERATED";
  description = "AES key for HSM slot PIN encryption";
  wrapped_data_key = wrapped;
  wrapped_key_version = master_key_id;
}

unfoldable pub new_slot : String → String → String → ℕ → EncryptAesGcm → HsmSlot
new_slot metadata_id slot_id label number pin = record {
  id = slot_id;
  label = label;
  slot_number = number;
  is_temporary_id = false;
  pin_iv = pin.iv;
  pin_ciphertext = pin.ciphertext;
  pin_auth_tag = pin.tag;
  key_metadata_id = metadata_id;
}

-- The slot after `zeroBytes` on the slices that it shares with the encrypted PIN.
unfoldable pub zeroed : HsmSlot → HsmSlot
zeroed slot = record slot {
  pin_iv = zero_bytes slot.pin_iv;
  pin_ciphertext = zero_bytes slot.pin_ciphertext;
  pin_auth_tag = zero_bytes slot.pin_auth_tag;
}

module _ {W : Type 0} (K : AesKeyManager W) (R : SlotStore W) where
  abbrev delete_slot : String → SlotWorld W → SlotWorld W
  delete_slot id w =
      let (r, e) = R.delete_slot id w.env in record { env = e; trace = slot_deleted id r ∷ w.trace }

  abbrev delete_metadata : String → SlotWorld W → SlotWorld W
  delete_metadata id w =
      let (r, e) = R.delete_metadata id w.env in
      record { env = e; trace = metadata_deleted id r ∷ w.trace }

  -- `cleanup`: the operations, of which the last added stands first.
  unfoldable pub cleanup : List Cleanup → SlotWorld W → SlotWorld W
  cleanup [] w = w
  cleanup (slot_cleanup id ∷ rest) w = cleanup rest (delete_slot id w)
  cleanup (metadata_cleanup id ∷ rest) w = cleanup rest (delete_metadata id w)

  -- A return with an error: the deferred function cleans up.
  unfoldable pub refused : GoError → List Cleanup → SlotWorld W → Reply HsmSlot × SlotWorld W
  unfolding cleanup
  refused e operations w = (err e, cleanup operations w)

  metadata_saved :
      AesKeyMetadata → HsmSlot → Option GoError × W → SlotWorld W → Reply HsmSlot × SlotWorld W
  unfolding refused zeroed
  metadata_saved m slot (none, e) w =
      (ok (zeroed slot), record { env = e; trace = metadata_created m none ∷ w.trace })
  metadata_saved m slot (some x, e) w =
      refused (original (predefined create_hsm_metadata_failed) x) (slot_cleanup slot.id ∷ [])
        (delete_slot slot.id (record { env = e; trace = metadata_created m (some x) ∷ w.trace }))

  slot_saved :
      AesKeyMetadata → HsmSlot → Option GoError × W → SlotWorld W → Reply HsmSlot × SlotWorld W
  unfolding metadata_saved
  slot_saved m slot (some x, e) w =
      refused (original (predefined create_slot_failed) x) []
        (record { env = e; trace = slot_created slot (some x) ∷ w.trace })
  slot_saved m slot (none, e) w =
      metadata_saved m slot (R.create_metadata m e)
        (record { env = e; trace = slot_created slot none ∷ w.trace })

  key_wrapped :
      ℕ → String → EncryptAesGcm → Reply Bytes × W → SlotWorld W → Reply HsmSlot × SlotWorld W
  unfolding slot_saved new_metadata new_slot
  key_wrapped number label pin (err x, e) w =
      refused (original (predefined fail_wrap_key) x) [] (record w { env = e })
  key_wrapped number label pin (ok wrapped, e) w =
      let (metadata_id, e1) = R.new_uuid e in
      let (slot_id, e2) = R.new_uuid e1 in
      let slot = new_slot metadata_id slot_id label number pin in
      slot_saved (new_metadata metadata_id slot_id K.current_key_id wrapped) slot
        (R.create_slot slot e2) (record w { env = e2 })

  pin_encrypted :
      ℕ → String → Bytes → Reply EncryptAesGcm × W → SlotWorld W → Reply HsmSlot × SlotWorld W
  unfolding key_wrapped
  pin_encrypted number label slot_key (err x, e) w =
      refused (original (predefined fail_encrypt_data) x) [] (record w { env = e })
  pin_encrypted number label slot_key (ok pin, e) w =
      key_wrapped number label pin (K.wrap_key K.current_key_id slot_key e) (record w { env = e })

  key_generated : ℕ → String → Bytes → Reply Bytes × W → SlotWorld W → Reply HsmSlot × SlotWorld W
  unfolding pin_encrypted
  key_generated number label pin (err x, e) w =
      refused (original (predefined aes_create_gcm) x) [] (record w { env = e })
  key_generated number label pin (ok slot_key, e) w =
      pin_encrypted number label slot_key (K.encrypt_with_key slot_key pin e) (record w { env = e })

  unfoldable pub create_hsm_slot : ℕ → String → Bytes → SlotWorld W → Reply HsmSlot × SlotWorld W
  unfolding key_generated
  create_hsm_slot real_slot label pin w =
      key_generated real_slot label pin (K.generate_data_key w.env) w
