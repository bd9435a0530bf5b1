-- ===== src/Services/Slots/Runs.antt =====
-- The theorems on slots at a concrete key manager and concrete repositories.
use hsm_service.Prelude.{
  ℕ, suc, ◌≡◌, refl, true, false, if◌then◌else◌, ◌==◌, none, some, [], ◌∷◌, arith,
}
use hsm_service.Domain.Entities.{HsmSlot, Tenant}
use hsm_service.Prelude.Int.{pos}
use hsm_service.Exec.{World, ok}
use hsm_service.Domain.Values.{IdentityContext}
use hsm_service.Services.Slots.Provision.{Provisioning, tenant_slot_label, initialize_slot}
use hsm_service.Services.Slots.Provision.Writes.{InitializesSlot}
use hsm_service.Services.Slots.Provision.Initialized.{initialize_slot-InitializesSlot}
use hsm_service.Aes.Plain.{zeros, length-zeros, toy, toy-AeadLaws, some_key}
use hsm_service.Secrets.{LocalAesKeyManager}
use hsm_service.Services.Slots.{
  AesKeyMetadata, SlotStore, slot_created, metadata_created, SlotWorld, zeroed, create_hsm_slot,
}
use hsm_service.Services.Slots.Recovery.{local_manager, recover_pin-create_hsm_slot}
use hsm_service.Hsm.Bootstrap.{recover_pin}

abbrev manager : LocalAesKeyManager
manager = record { master_key = some_key; key_id = "kek-1" }

abbrev tables : SlotStore ℕ
tables = record {
  new_uuid = λ w. ("9b2f", suc w);
  create_slot = λ slot w. (none, w);
  delete_slot = λ id w. (none, w);
  create_metadata = λ m w. (none, w);
  delete_metadata = λ id w. (none, w);
}

abbrev before : SlotWorld ℕ
before = record { env = 5; trace = [] }

recover_pin-create_hsm_slot_example :
    (slot : HsmSlot) × (m : AesKeyMetadata) × ((create_hsm_slot
        (local_manager toy manager)
        tables
        7
        "t-acme"
        (1 ∷ 2 ∷ [])
        before).0
      ≡ ok (zeroed slot))
    × ((create_hsm_slot (local_manager toy manager) tables 7 "t-acme" (1 ∷ 2 ∷ []) before).1.trace
        ≡ metadata_created m none ∷ slot_created slot none ∷ [])
    × ((recover_pin (local_manager toy manager) slot m 99).0 ≡ ok (1 ∷ 2 ∷ []))
unfolding toy
recover_pin-create_hsm_slot_example =
    recover_pin-create_hsm_slot toy toy-AeadLaws manager tables (λ n w. (zeros n, refl))
      (λ slot w. refl) (λ m w. refl) 7 "t-acme" (1 ∷ 2 ∷ []) before 99 (length-zeros 32)
      (omega arith)

abbrev tenant : Tenant
tenant = record { id = "acme"; name = "Acme"; status = "ACTIVE"; hsm_slot_id = none }

abbrev caller : IdentityContext
caller = record {
  tenant_id = "acme";
  owner_type = "TENANT";
  owner_id = "acme";
  organization_id = none;
  parent_key_id = none;
  user_id = "alice";
  cert_level = pos 0;
  max_cert_level = pos 1;
  can_certify = false;
  certification_path = "";
}

-- A library with the initialized slot 0 and the fresh slot 7.
abbrev library : Provisioning ℕ
library = record {
  has_dispatcher = true;
  so_pin = "so";
  bytes_of = λ s. 1 ∷ 2 ∷ [];
  remove_dashes = λ id. id;
  base36_of_hex = λ hex. hex;
  find_tenant = λ id w. (ok (some tenant), w);
  audit_operation = λ d w. w;
  get_context = λ w. (ok (some tt), w);
  get_slot_list = λ b w. (ok (0 ∷ 7 ∷ []), w);
  get_token_info = λ n w. (ok (if n == 0 then "t-other" else ""), w);
  init_token = λ n p l w. (none, w);
  open_session = λ n w. (ok n, w);
  close_session = λ n w. w;
  login = λ n p w. (none, w);
  init_pin = λ n p w. (none, w);
  logout = λ n w. w;
  random = λ n w. (234, w);
  new_client = λ p n w. (none, w);
  register_client = λ n w. w;
}

abbrev fresh : World (SlotWorld ℕ)
fresh = record { env = before; trace = [] }

initialize_slot-InitializesSlot_example :
    let (o, w') = initialize_slot library (local_manager toy manager) tables caller fresh in
    InitializesSlot (λ slot. slot.id) (tenant_slot_label library "acme") o [] w'.env.trace
initialize_slot-InitializesSlot_example =
    initialize_slot-InitializesSlot library (local_manager toy manager) tables caller fresh
