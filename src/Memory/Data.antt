-- ===== src/Memory/Data.antt =====
-- A caller, a key and a world to run the services on.
use hsm_service.Prelude.{String, true, false, none, [], ◌∷◌}
use hsm_service.Prelude.Int.{pos}
use hsm_service.Domain.Values.{IdentityContext}
use hsm_service.Domain.Entities.{CryptographicKey, HsmKey}
use hsm_service.Exec.{World}
use hsm_service.Services.Keys.{CreationContext}
use hsm_service.Memory.{Store}

abbrev pub alice : IdentityContext
alice = record {
  tenant_id = "acme";
  owner_type = "TENANT";
  owner_id = "acme";
  organization_id = none;
  parent_key_id = none;
  user_id = "alice";
  cert_level = pos 0;
  max_cert_level = pos 1;
  can_certify = false;
  certification_path = "";
}

abbrev pub root_key : CryptographicKey
root_key = record {
  id = "key-1";
  tenant_id = "acme";
  owner_type = "TENANT";
  owner_id = "acme";
  parent_key_id = none;
  cert_level = pos 0;
  name = "root";
  key_alias = "acme_root_01234567";
  algorithm = "RSA";
  key_size = pos 2048;
  purpose = "SIGNING";
  public_key = 1 ∷ 2 ∷ [];
  key_handle = "10";
  key_label = "acme_root_01234567";
  is_hardware_backed = true;
  hsm_slot_id = "slot-1";
  is_active = true;
  version = 1;
  expiration_date = 31536000;
}

abbrev pub object_of : String → String → HsmKey
object_of label tenant_id = record {
  label = label;
  type = "RSA";
  size = 2048;
  tenant_id = tenant_id;
  public_key = 1 ∷ 2 ∷ [];
  key_handle = "10";
  is_active = true;
  usage = "BOTH";
}

abbrev pub start : World Store
start = record {
  env = record {
    keys = root_key ∷ [];
    objects = object_of "box" "other" ∷ object_of "box" "acme" ∷ [];
    clock = 100;
  };
  trace = [];
}

abbrev pub intermediate : CreationContext
intermediate = record {
  name = "intermediate";
  algorithm = "ECDSA";
  size = pos 256;
  usage = "SIGNING";
  identity = alice;
}
