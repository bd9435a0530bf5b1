-- ===== src/Storage/Columns.antt =====
-- key_storage.go: which columns each statement writes and reads. A field that no column fills has
-- Go's zero value.
use hsm_service.Prelude.{true, false, none, []}
use hsm_service.Prelude.Int.{pos}
use hsm_service.Domain.Entities.{CryptographicKey}

abbrev pub blank : CryptographicKey
blank = record {
  id = "";
  tenant_id = "";
  owner_type = "";
  owner_id = "";
  parent_key_id = none;
  cert_level = pos 0;
  name = "";
  key_alias = "";
  algorithm = "";
  key_size = pos 0;
  purpose = "";
  public_key = [];
  key_handle = "";
  key_label = "";
  is_hardware_backed = false;
  hsm_slot_id = "";
  is_active = false;
  version = 0;
  expiration_date = 0;
}

-- `Save`
unfoldable pub inserted_row : CryptographicKey → CryptographicKey
inserted_row key = record key { is_hardware_backed = true }

-- `FindByID` reads the expiration and the activity and then writes variables over them that were
-- never set.
unfoldable pub by_id_columns : CryptographicKey → CryptographicKey
by_id_columns row = record blank { id = row.id; name = row.name; public_key = row.public_key }

-- `FindByIDAndTenant`
unfoldable pub by_id_and_tenant_columns : CryptographicKey → CryptographicKey
by_id_and_tenant_columns row = record blank {
  id = row.id;
  name = row.name;
  algorithm = row.algorithm;
  key_size = row.key_size;
  purpose = row.purpose;
  public_key = row.public_key;
  key_handle = row.key_handle;
  key_label = row.key_label;
  tenant_id = row.tenant_id;
  version = row.version;
  is_active = row.is_active;
}

-- `FindByOwner`, which reads no label.
unfoldable pub by_owner_columns : CryptographicKey → CryptographicKey
by_owner_columns row = record blank {
  id = row.id;
  name = row.name;
  algorithm = row.algorithm;
  key_size = row.key_size;
  purpose = row.purpose;
  public_key = row.public_key;
  key_handle = row.key_handle;
  tenant_id = row.tenant_id;
  version = row.version;
  is_active = row.is_active;
}

-- `FindByTenant` and `FindByOwnerType`, which read the purpose and then write a variable over it
-- that was never set.
unfoldable pub list_columns : CryptographicKey → CryptographicKey
list_columns row = record blank {
  id = row.id;
  name = row.name;
  key_alias = row.key_alias;
  algorithm = row.algorithm;
  key_size = row.key_size;
  public_key = row.public_key;
  key_handle = row.key_handle;
  key_label = row.key_label;
  tenant_id = row.tenant_id;
  version = row.version;
  is_active = row.is_active;
  expiration_date = row.expiration_date;
}
