-- ===== src/Memory.antt =====
-- An in-memory repository, HSM and audit log on which the services can be run: the ports of
-- internal/domain/ports/output made concrete. Its `save_key` only inserts.
pub mod Data
mod Runs
mod Keeping
use hsm_service.Prelude.{
  ℕ, zero, suc, ◌+◌, String, Bool, true, false, ◌&&◌, ◌||◌, Option, none, some, List, [], ◌∷◌,
  str_eq, if◌then◌else◌,
}
use hsm_service.Prelude.Int.{ℤ, pos}
use hsm_service.Domain.Errors.{GoError, plain, predefined, key_not_found}
use hsm_service.Domain.Values.{IdentityContext}
use hsm_service.Domain.Entities.{Bytes, CryptographicKey, HsmKey, HsmSlot, Tenant}
use hsm_service.Exec.{Reply, ok, err, World}
use hsm_service.Ports.{Ports}

pub record Store : Type 0 where
  pub keys : List CryptographicKey
  pub objects : List HsmKey
  pub clock : ℕ

unfoldable pub has_id : String → List CryptographicKey → Bool
has_id id [] = false
has_id id (k ∷ rest) = str_eq k.id id || has_id id rest

unfoldable pub look_up : String → String → List CryptographicKey → Reply CryptographicKey
look_up id tenant_id [] = err (predefined key_not_found)
look_up id tenant_id (k ∷ rest) =
    if str_eq k.id id && str_eq k.tenant_id tenant_id then ok k else look_up id tenant_id rest

unfoldable pub insert : CryptographicKey → Store → Option GoError × Store
insert k e =
    if has_id k.id e.keys
    then (some (plain "duplicate id"), e)
    else (none, record e { keys = k ∷ e.keys })

unfoldable pub without : String → List CryptographicKey → List CryptographicKey
without id [] = []
without id (k ∷ rest) = if str_eq k.id id then without id rest else k ∷ without id rest

abbrev slot_one : HsmSlot
slot_one = record {
  id = "slot-1";
  label = "acme";
  slot_number = 7;
  is_temporary_id = false;
  pin_iv = [];
  pin_ciphertext = [];
  pin_auth_tag = [];
  key_metadata_id = "kek-1";
}

abbrev acme_tenant : Tenant
acme_tenant = record { id = "acme"; name = "Acme"; status = "ACTIVE"; hsm_slot_id = some "slot-1" }

unfoldable pub memory : Ports Store
unfolding look_up insert without
memory = record {
  has_dispatcher = true;
  has_operation_repo = true;
  find_key = λ id tenant_id e. (look_up id tenant_id e.keys, e);
  find_key_by_id = λ id e. (look_up id "acme" e.keys, e);
  find_keys = λ tenant_id e. (ok e.keys, e);
  save_key = insert;
  delete_key = λ id e. (none, record e { keys = without id e.keys });
  find_tenant = λ id e. (ok (some acme_tenant), e);
  find_slot = λ id e. (ok (some slot_one), e);
  save_operation = λ op e. (none, e);
  audit_operation = λ d i e. e;
  hsm_generate = λ algorithm size label slot e. (ok (1 ∷ 2 ∷ [], "11"), e);
  hsm_delete = λ handle slot e. (none, e);
  hsm_list = λ slot e. (ok e.objects, e);
  hsm_sign = λ label hash slot identity e. (ok (9 ∷ hash), e);
  hsm_verify = λ label hash signature slot e. (ok true, e);
  hsm_encrypt = λ label text slot e. (ok (5 ∷ text), e);
  hsm_decrypt = λ label text slot e. (ok text, e);
  new_uuid = λ e. ("0123456789abcdef", record e { clock = e.clock + 1 });
  now = λ e. (e.clock, e);
  sha256 = λ bytes. 3 ∷ bytes;
}
