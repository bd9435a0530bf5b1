-- ===== src/Services/HsmKeys.antt =====
-- internal/application/services/hsm_key_service.go
pub mod Isolation
use Prim.Native.String.{◌++◌ as cat}
use hsm_service.Prelude.{
  ℕ, ◌-◌, ◌%◌, String, Bool, true, ◌&&◌, Option, none, some, List, [], ◌∷◌, str_eq, if◌then◌else◌,
}
use hsm_service.Prelude.Int.{ℤ, pos, negsuc, int_of_uint}
use hsm_service.Domain.Errors.{GoError, plain, code_text, key_not_found, hsm_operation_failed}
use hsm_service.Domain.Values.{both}
use hsm_service.Domain.Entities.{Bytes, HsmKey, Detail}
use hsm_service.Exec.{Exec, pure, fail, ask, rethrow, deferring, outcome_error, ◌>>=◌}
use hsm_service.Ports.{Ports, audit, generate}
use hsm_service.Services.Helpers.{operation_data, tenant_slot, slot_error_kept}

abbrev pub hsm_key_service_name : String
hsm_key_service_name = "hsm-key-service"

-- `uint32(size)`: the low 32 bits.
unfoldable pub uint32_of_int : ℤ → ℕ
uint32_of_int (pos n) = n % 4294967296
uint32_of_int (negsuc n) = 4294967295 - n % 4294967296

-- The loop of `ListHSMKeys`.
unfoldable pub keys_of_tenant : String → List HsmKey → List HsmKey
keys_of_tenant tenant_id [] = []
keys_of_tenant tenant_id (key ∷ rest) =
    if str_eq key.tenant_id tenant_id
    then key ∷ keys_of_tenant tenant_id rest
    else keys_of_tenant tenant_id rest

-- The loop of `GetHSMPublicKey`.
unfoldable pub public_key_of : String → String → List HsmKey → Option Bytes
public_key_of label tenant_id [] = none
public_key_of label tenant_id (key ∷ rest) =
    if str_eq key.label label && str_eq key.tenant_id tenant_id
    then some key.public_key
    else public_key_of label tenant_id rest

-- The entity that `CreateHSMKey` returns.
unfoldable pub new_hsm_key : String → String → ℤ → String → Bytes → String → HsmKey
unfolding uint32_of_int
new_hsm_key label algorithm size tenant_id public_key handle = record {
  label = label;
  type = algorithm;
  size = uint32_of_int size;
  tenant_id = tenant_id;
  public_key = public_key;
  key_handle = handle;
  is_active = true;
  usage = both;
}

abbrev pub hsm_generation_error : GoError
hsm_generation_error = plain (cat (code_text hsm_operation_failed) ": operation=generate_key_pair")

module _ {W : Type 0} (P : Ports W) where
  audited : {A : Type 0} → String → List (String × Detail) → Exec W A → Exec W A
  audited operation metadata body =
      deferring body (λ o.
        audit P (operation_data hsm_key_service_name operation (outcome_error o) metadata) none)

  create_body : String → String → ℤ → String → Exec W HsmKey
  unfolding new_hsm_key
  create_body label algorithm size tenant_id = do
    slot ← tenant_slot P slot_error_kept tenant_id
    (public_key, handle) ←
        rethrow (λ _. hsm_generation_error)
          (generate P algorithm size label (int_of_uint slot.slot_number))
    pure (new_hsm_key label algorithm size tenant_id public_key handle)

  unfoldable pub create_hsm_key : String → String → ℤ → String → Exec W HsmKey
  unfolding create_body audited
  create_hsm_key label algorithm size tenant_id =
      audited "CREATE_HSM_KEY"
        (("label", Detail.text label)
          ∷ ("algorithm", Detail.text algorithm)
          ∷ ("size", Detail.number size)
          ∷ [])
        (create_body label algorithm size tenant_id)

  list_body : String → Exec W (List HsmKey)
  unfolding keys_of_tenant
  list_body tenant_id = do
    slot ← tenant_slot P slot_error_kept tenant_id
    keys ← ask (P.hsm_list (int_of_uint slot.slot_number))
    pure (keys_of_tenant tenant_id keys)

  unfoldable pub list_hsm_keys : String → Exec W (List HsmKey)
  unfolding list_body audited
  list_hsm_keys tenant_id = audited "LIST_HSM_KEYS" [] (list_body tenant_id)

  found_public_key : Option Bytes → Exec W Bytes
  found_public_key none = fail (plain (code_text key_not_found))
  found_public_key (some key) = pure key

  public_key_body : String → String → Exec W Bytes
  unfolding public_key_of found_public_key
  public_key_body label tenant_id = do
    slot ← tenant_slot P slot_error_kept tenant_id
    keys ← ask (P.hsm_list (int_of_uint slot.slot_number))
    found_public_key (public_key_of label tenant_id keys)

  unfoldable pub get_hsm_public_key : String → String → Exec W Bytes
  unfolding public_key_body audited
  get_hsm_public_key label tenant_id =
      audited "GET_HSM_PUBLIC_KEY" [] (public_key_body label tenant_id)
