-- ===== src/Domain/Values.antt =====
-- internal/domain/valueobjects: Go's string types are texts, so that a value outside the constants
-- is a value here too. `IdentityContext.Permissions` is read by no modelled code and left out.
use hsm_service.Prelude.{String, Bool, Option, none, some, ◌&&◌, ◌||◌, str_eq, if◌then◌else◌}
use hsm_service.Prelude.Int.{ℤ, leb_ℤ}
use hsm_service.Domain.Errors.{
  GoError, predefined, tenant_required, owner_id_required, invalid_owner_type,
}

unfoldable pub algorithm_is_valid : String → Bool
algorithm_is_valid a = str_eq a "RSA" || (str_eq a "ECDSA" || str_eq a "Ed25519")

abbrev pub signing : String
signing = "SIGNING"

abbrev pub encryption : String
encryption = "ENCRYPTION"

abbrev pub both : String
both = "BOTH"

unfoldable pub usage_is_valid : String → Bool
usage_is_valid u = str_eq u signing || (str_eq u encryption || str_eq u both)

unfoldable pub usage_can_sign : String → Bool
usage_can_sign u = str_eq u signing || str_eq u both

unfoldable pub usage_can_encrypt : String → Bool
usage_can_encrypt u = str_eq u encryption || str_eq u both

unfoldable pub owner_type_is_valid : String → Bool
owner_type_is_valid t = str_eq t "TENANT" || (str_eq t "USER" || str_eq t "ORGANIZATION")

pub record IdentityContext : Type 0 where
  pub tenant_id : String
  pub owner_type : String
  pub owner_id : String
  pub organization_id : Option String
  pub parent_key_id : Option String
  pub user_id : String
  pub cert_level : ℤ
  pub max_cert_level : ℤ
  pub can_certify : Bool
  pub certification_path : String

-- `Validate`: `none` is Go's nil error.
unfoldable pub validate_identity : IdentityContext → Option GoError
unfolding owner_type_is_valid
validate_identity i =
    if str_eq i.tenant_id ""
    then some (predefined tenant_required)
    else if str_eq i.owner_id ""
    then some (predefined owner_id_required)
    else if owner_type_is_valid i.owner_type
    then none
    else some (predefined invalid_owner_type)

unfoldable pub can_certify_level : IdentityContext → ℤ → Bool
can_certify_level i level = i.can_certify && leb_ℤ level i.max_cert_level
