-- ===== src/Services/Keys.antt =====
-- internal/application/services/key_service.go
pub mod Create
pub mod Rotate
pub mod InsertOnly
pub mod Records
use Prim.Native.String.{◌++◌ as cat, slice}
use hsm_service.Prelude.{
  ℕ, ◌+◌, String, Bool, true, false, not, ◌||◌, Option, none, some, List, [], ◌∷◌, str_eq,
  if◌then◌else◌,
}
use hsm_service.Prelude.Int.{ℤ, pos, int_of_uint}
use hsm_service.Domain.Errors.{
  GoError, plain, code_text, err_to_string, key_not_found, invalid_key_algorithm, invalid_key_usage,
  hsm_operation_failed,
}
use hsm_service.Domain.Values.{IdentityContext, algorithm_is_valid, usage_is_valid}
use hsm_service.Domain.Entities.{
  Bytes, CryptographicKey, HsmSlot, KeyOperation, Detail, validate, deactivate,
}
use hsm_service.Exec.{
  World, Outcome, returned, failed, panicked, outcome_error, Exec, pure, fail, ask, rethrow,
  deferring, rescue, ignoring, continue, ◌>>=◌, ◌>>◌,
}
use hsm_service.Ports.{
  Ports, audit, track, generate, destroy, save, remove, fresh_uuid, current_time,
}
use hsm_service.Services.Helpers.{operation_data, tenant_slot, slot_check_error, slot_error_kept}

abbrev pub key_service_name : String
key_service_name = "key-service"

-- `keyCreationContext`, without its start time.
pub record CreationContext : Type 0 where
  pub name : String
  pub algorithm : String
  pub size : ℤ
  pub usage : String
  pub identity : IdentityContext

-- 365 days, in seconds.
abbrev pub one_year : ℕ
one_year = 31536000

unfoldable pub validate_key_parameters : String → String → Option GoError
unfolding algorithm_is_valid usage_is_valid
validate_key_parameters algorithm usage =
    if not (algorithm_is_valid algorithm)
    then some (plain (code_text invalid_key_algorithm))
    else if not (usage_is_valid usage)
    then some (plain (code_text invalid_key_usage))
    else none

unfoldable pub key_label : CreationContext → String → String
key_label c uuid = cat c.identity.tenant_id (cat "_" (cat c.name (cat "_" (slice uuid 0 8))))

-- The entity that `generateAndSaveKey` builds.
unfoldable pub new_key :
    CreationContext → HsmSlot → String → Bytes → String → String → ℕ → CryptographicKey
new_key c slot label public_key handle id now = record {
  id = id;
  tenant_id = c.identity.tenant_id;
  owner_type = c.identity.owner_type;
  owner_id = c.identity.owner_id;
  parent_key_id = c.identity.parent_key_id;
  cert_level = c.identity.cert_level;
  name = c.name;
  key_alias = label;
  algorithm = c.algorithm;
  key_size = c.size;
  purpose = c.usage;
  public_key = public_key;
  key_handle = handle;
  key_label = label;
  is_hardware_backed = true;
  hsm_slot_id = slot.id;
  is_active = true;
  version = 1;
  expiration_date = now + one_year;
}

-- What `RotateKey` asks `CreateKey` for.
abbrev pub rotation : CryptographicKey → IdentityContext → CreationContext
rotation existing identity = record {
  name = cat existing.name "-rotated";
  algorithm = existing.algorithm;
  size = existing.key_size;
  usage = existing.purpose;
  identity = identity;
}

-- `key` and `slot` where the deferred function reads them.
abbrev pub value_of : {A : Type 0} → Outcome A → Option A
value_of (returned a) = some a
value_of (failed e) = none
value_of panicked = none

unfoldable pub creation_metadata : CreationContext → Option HsmSlot → List (String × Detail)
creation_metadata c slot =
    ("key_name", Detail.text c.name)
    ∷ ("algorithm", Detail.text c.algorithm)
    ∷ ("key_size", Detail.number c.size)
    ∷ ("usage", Detail.text c.usage)
    ∷ ("parent_key_id", Detail.pointer c.identity.parent_key_id)
    ∷ ("organization_id", Detail.pointer c.identity.organization_id)
    ∷ elim slot [ none ↦ [] | some s ↦ ("slot_id", Detail.text s.id) ∷ [] ]

unfoldable pub get_operation_status : Option GoError → String
get_operation_status none = "SUCCESS"
get_operation_status (some e) = "FAILED"

unfoldable pub get_result_summary : Option GoError → String
get_result_summary none = "Success"
get_result_summary (some e) = err_to_string (some e)

unfoldable pub get_error_details : Option GoError → String
get_error_details e = err_to_string e

unfoldable pub creation_operation :
    Option GoError → CryptographicKey → CreationContext → KeyOperation
unfolding get_operation_status get_result_summary get_error_details
creation_operation e key c = record {
  key_id = key.id;
  tenant_id = c.identity.tenant_id;
  organization_id = c.identity.organization_id;
  operation_type = "GENERATE";
  status = get_operation_status e;
  level = "HIGH";
  initialized_by = c.identity.user_id;
  input_size_bytes = 0;
  output_size_bytes = 0;
  result_summary = get_result_summary e;
  error_details = get_error_details e;
}

abbrev key_id_metadata : String → List (String × Detail)
key_id_metadata key_id = ("key_id", Detail.text key_id) ∷ []

abbrev pub generation_error : GoError
generation_error = plain (cat (code_text hsm_operation_failed) ": operation=generate_key_pair")

abbrev pub deletion_error : GoError
deletion_error = plain (cat (code_text hsm_operation_failed) ": operation=delete_key")

module _ {W : Type 0} (P : Ports W) where
  unfoldable pub get_tenant_slot : String → Exec W HsmSlot
  get_tenant_slot tenant_id = tenant_slot P slot_check_error tenant_id

  -- `Validate` and `Save` with their rollback: the key pair is deleted from the HSM.
  unfoldable pub save_or_roll_back : HsmSlot → CryptographicKey → Exec W CryptographicKey
  save_or_roll_back slot key = elim (validate key) [
    | some e ↦ do _ ← ignoring (destroy P key.key_handle (int_of_uint slot.slot_number)); fail e
    | none ↦ do
      _ ←
          rescue (save P key)
            (λ e. do _ ← ignoring (destroy P key.key_handle (int_of_uint slot.slot_number)); fail e)
      pure key
  ]

  unfoldable pub generate_and_save_key : CreationContext → HsmSlot → Exec W CryptographicKey
  unfolding save_or_roll_back
  generate_and_save_key c slot = do
    uuid ← fresh_uuid P
    (public_key, handle) ←
        rethrow (λ _. generation_error)
          (generate P c.algorithm c.size (key_label c uuid) (int_of_uint slot.slot_number))
    id ← fresh_uuid P
    now ← current_time P
    save_or_roll_back slot (new_key c slot (key_label c uuid) public_key handle id now)

  unfoldable pub track_creation :
      Option CryptographicKey → Option GoError → CreationContext → World W → World W
  track_creation none e c w = w
  track_creation (some key) e c w =
      if str_eq key.id "" then w else track P (creation_operation e key c) w

  unfoldable pub audit_and_track_key_creation :
      Outcome CryptographicKey → Option HsmSlot → CreationContext → World W → World W
  unfolding track_creation
  audit_and_track_key_creation o slot c w = track_creation (value_of o) (outcome_error o) c (
      audit P
        (operation_data key_service_name "CREATE_KEY" (outcome_error o) (creation_metadata c slot))
        (some c.identity) w)

  -- The part of `CreateKey` that ends with the slot.
  unfoldable pub checked_slot : CreationContext → Exec W HsmSlot
  unfolding get_tenant_slot
  checked_slot c = elim (validate_key_parameters c.algorithm c.usage) [
    | some e ↦ fail e
    | none ↦ get_tenant_slot c.identity.tenant_id
  ]

  unfoldable pub create_key : CreationContext → Exec W CryptographicKey
  unfolding checked_slot generate_and_save_key audit_and_track_key_creation
  create_key c w =
      let (s, w1) = checked_slot c w in
      let (o, w2) = continue s (generate_and_save_key c) w1 in
      (o, audit_and_track_key_creation o (value_of s) c w2)

  unfoldable pub get_key : String → String → Exec W CryptographicKey
  get_key key_id tenant_id =
      rethrow (λ _. plain (code_text key_not_found)) (ask (P.find_key key_id tenant_id))

  unfoldable pub list_keys : String → Exec W (List CryptographicKey)
  list_keys tenant_id = ask (P.find_keys tenant_id)

  -- The end of `RotateKey`: the old key is saved inactive, or the new one is taken back.
  unfoldable pub retire : CryptographicKey → CryptographicKey → HsmSlot → Exec W CryptographicKey
  retire existing key slot = do
    _ ← rescue (save P (deactivate existing)) (λ e. do
      _ ← ignoring (destroy P key.key_handle (int_of_uint slot.slot_number))
      _ ← ignoring (remove P key.id)
      fail e)
    pure key

  rotate_body : String → IdentityContext → Exec W CryptographicKey
  unfolding retire
  rotate_body key_id identity = do
    existing ← ask (P.find_key key_id identity.tenant_id)
    key ← create_key (rotation existing identity)
    slot ← tenant_slot P slot_error_kept identity.tenant_id
    retire existing key slot

  unfoldable pub rotate_key : String → IdentityContext → Exec W CryptographicKey
  unfolding rotate_body
  rotate_key key_id identity = deferring (rotate_body key_id identity) (λ o.
      audit P
        (operation_data key_service_name "ROTATE_KEY" (outcome_error o) (key_id_metadata key_id))
        (some identity))

  delete_body : String → String → Exec W (Unit {0})
  delete_body key_id tenant_id = do
    key ← ask (P.find_key key_id tenant_id)
    slot ← tenant_slot P slot_error_kept tenant_id
    _ ← rethrow (λ _. deletion_error) (destroy P key.key_handle (int_of_uint slot.slot_number))
    remove P key_id

  unfoldable pub delete_key : String → String → Exec W (Unit {0})
  unfolding delete_body
  delete_key key_id tenant_id = deferring (delete_body key_id tenant_id) (λ o.
      audit P
        (operation_data key_service_name "DELETE_KEY" (outcome_error o) (key_id_metadata key_id))
        none)
