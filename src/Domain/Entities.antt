-- ===== src/Domain/Entities.antt =====
-- internal/domain/entities: the records that the services read and write. Times are numbers; fields
-- that no modelled code reads (`RotationDate`, `Metadata`, creation times) are left out.
use hsm_service.Prelude.{
  ℕ, String, Bool, true, false, Option, none, some, List, [], ◌∷◌, not, str_eq, if◌then◌else◌,
}
use hsm_service.Prelude.Int.{ℤ, pos, eqb_ℤ}
use hsm_service.Domain.Errors.{
  GoError, plain, code_text, invalid_key_name, invalid_algorithm, invalid_key_size, invalid_tenant,
  invalid_key_usage,
}
use hsm_service.Domain.Values.{algorithm_is_valid, usage_is_valid}

abbrev pub Bytes : Type 0
Bytes = List ℕ

pub record CryptographicKey : Type 0 where
  pub id : String
  pub tenant_id : String
  pub owner_type : String
  pub owner_id : String
  pub parent_key_id : Option String
  pub cert_level : ℤ
  pub name : String
  pub key_alias : String
  pub algorithm : String
  pub key_size : ℤ
  pub purpose : String
  pub public_key : Bytes
  pub key_handle : String
  pub key_label : String
  pub is_hardware_backed : Bool
  pub hsm_slot_id : String
  pub is_active : Bool
  pub version : ℕ
  pub expiration_date : ℕ

-- The table of `isValidKeySize`, and the loop over its row.
unfoldable pub valid_sizes : String → List ℤ
valid_sizes algorithm =
    if str_eq algorithm "RSA"
    then pos 2048 ∷ pos 3072 ∷ pos 4096 ∷ []
    else if str_eq algorithm "ECDSA"
    then pos 256 ∷ pos 384 ∷ pos 521 ∷ []
    else if str_eq algorithm "Ed25519"
    then pos 256 ∷ []
    else []

unfoldable pub one_of : ℤ → List ℤ → Bool
one_of size [] = false
one_of size (s ∷ rest) = if eqb_ℤ size s then true else one_of size rest

unfoldable pub is_valid_key_size : CryptographicKey → Bool
unfolding valid_sizes one_of
is_valid_key_size k = one_of k.key_size (valid_sizes k.algorithm)

-- `Validate`: `none` is Go's nil error.
unfoldable pub validate : CryptographicKey → Option GoError
unfolding algorithm_is_valid usage_is_valid is_valid_key_size
validate k =
    if str_eq k.name ""
    then some (plain (code_text invalid_key_name))
    else if not (algorithm_is_valid k.algorithm)
    then some (plain (code_text invalid_algorithm))
    else if not (is_valid_key_size k)
    then some (plain (code_text invalid_key_size))
    else if str_eq k.tenant_id ""
    then some (plain (code_text invalid_tenant))
    else if not (usage_is_valid k.purpose)
    then some (plain (code_text invalid_key_usage))
    else none

unfoldable pub deactivate : CryptographicKey → CryptographicKey
deactivate k = record k { is_active = false }

-- `entities.HSMKey`: what a client reports of a key object in its token.
pub record HsmKey : Type 0 where
  pub label : String
  pub type : String
  pub size : ℕ
  pub tenant_id : String
  pub public_key : Bytes
  pub key_handle : String
  pub is_active : Bool
  pub usage : String

pub record HsmSlot : Type 0 where
  pub id : String
  pub label : String
  pub slot_number : ℕ
  pub is_temporary_id : Bool
  pub pin_iv : Bytes
  pub pin_ciphertext : Bytes
  pub pin_auth_tag : Bytes
  pub key_metadata_id : String

-- `HSMSlotID` is a pointer that may be nil.
pub record Tenant : Type 0 where
  pub id : String
  pub name : String
  pub status : String
  pub hsm_slot_id : Option String

-- One entry of the `map[string]interface{}` of an audit record.
pub data Detail : Type 0 where
  text : String → Detail
  number : ℤ → Detail
  flag : Bool → Detail
  pointer : Option String → Detail

-- `valueobjects.AuditData` without its duration.
pub record AuditData : Type 0 where
  pub service_name : String
  pub event_type : String
  pub operation : String
  pub actor_type : String
  pub success : Bool
  pub status_code : String
  pub err_msg : String
  pub metadata : List (String × Detail)

-- The fields of `entities.KeyOperation` that the services fill in, without its duration.
pub record KeyOperation : Type 0 where
  pub key_id : String
  pub tenant_id : String
  pub organization_id : Option String
  pub operation_type : String
  pub status : String
  pub level : String
  pub initialized_by : String
  pub input_size_bytes : ℕ
  pub output_size_bytes : ℕ
  pub result_summary : String
  pub error_details : String
