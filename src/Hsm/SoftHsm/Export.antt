-- ===== src/Hsm/SoftHsm/Export.antt =====
-- internal/infrastructure/hsm/client_export.go. The encodings of encoding/asn1 and crypto/x509 are
-- parameters. A big integer is a natural number.
use Prim.Native.Nat.{◌/◌}
use hsm_service.Prelude.{
  ℕ, ◌+◌, ◌*◌, ◌%◌, String, Bool, true, false, not, ◌||◌, ◌&&◌, Option, none, some, List, [], ◌∷◌,
  length, take, drop, ◌==◌, if◌then◌else◌,
}
use hsm_service.Prelude.Int.{ℤ, int_of_uint}
use hsm_service.Domain.Errors.{plain, wrapped}
use hsm_service.Domain.Entities.{Bytes}
use hsm_service.Exec.{Reply, ok, err, Exec, fail, rethrow, lift, ◌>>=◌}
use hsm_service.Hsm.SoftHsm.{
  Session, Client, Attributes, AttributeType, a_key_type, a_modulus, a_public_exponent, a_ec_point,
  a_ec_params, session_call,
}

pub data Curve : Type 0 where
  p256 p384 p521 : Curve

-- `unmarshal_octets` gives the octets and what is left, `marshal_rsa` takes the modulus and the
-- exponent, `marshal_ec` the two coordinates.
pub record Encodings : Type 0 where
  pub marshal_oid : List ℕ → Reply Bytes
  pub unmarshal_oid : Bytes → Reply (List ℕ)
  pub unmarshal_octets : Bytes → Reply (Bytes × Bytes)
  pub oid_text : List ℕ → String
  pub marshal_rsa : ℕ → ℤ → Reply Bytes
  pub marshal_ec : Curve → ℕ → ℕ → Reply Bytes

unfoldable pub curve_oid : Curve → List ℕ
curve_oid p256 = 1 ∷ 2 ∷ 840 ∷ 10045 ∷ 3 ∷ 1 ∷ 7 ∷ []
curve_oid p384 = 1 ∷ 3 ∷ 132 ∷ 0 ∷ 34 ∷ []
curve_oid p521 = 1 ∷ 3 ∷ 132 ∷ 0 ∷ 35 ∷ []

-- `oid.Equal`
oid_eq : List ℕ → List ℕ → Bool
oid_eq [] [] = true
oid_eq [] (b ∷ bs) = false
oid_eq (a ∷ rest) [] = false
oid_eq (a ∷ rest) (b ∷ bs) = (a == b) && oid_eq rest bs

-- The `switch` on the curve.
unfoldable pub curve_of_oid : List ℕ → Option Curve
unfolding oid_eq curve_oid
curve_of_oid oid =
    if oid_eq oid (curve_oid p256)
    then some p256
    else if oid_eq oid (curve_oid p384)
    then some p384
    else if oid_eq oid (curve_oid p521)
    then some p521
    else none

-- `new(big.Int).SetBytes(bytes)`, after the bytes that give `n`.
big_endian : ℕ → Bytes → ℕ
big_endian n [] = n
big_endian n (b ∷ rest) = big_endian (n * 256 + b) rest

-- `int(….Int64())`: the low 64 bits.
abbrev int64_of : ℕ → ℤ
int64_of n = int_of_uint (n % 18446744073709551616)

is_type : AttributeType → AttributeType → Bool
is_type a_modulus a_modulus = true
is_type a_public_exponent a_public_exponent = true
is_type a_ec_point a_ec_point = true
is_type a_ec_params a_ec_params = true
is_type _ _ = false

-- The value that the loops over the attributes leave: the last one of the type, or nothing.
value_of_type : AttributeType → Bytes → Attributes → Bytes
unfolding is_type
value_of_type t before [] = before
value_of_type t before ((u, value) ∷ rest) =
    if is_type t u then value_of_type t value rest else value_of_type t before rest

abbrev is_empty : Bytes → Bool
is_empty bytes = length bytes == 0

-- The first bytes of the first attribute.
pub key_type_byte : Attributes → Option ℕ
key_type_byte [] = none
key_type_byte ((t, []) ∷ rest) = none
key_type_byte ((t, b ∷ bytes) ∷ rest) = some b

module _ (E : Encodings) where
  rsa_public_key : Attributes → Reply Bytes
  unfolding value_of_type big_endian
  rsa_public_key attrs =
      let modulus = value_of_type a_modulus [] attrs in
      let exponent = value_of_type a_public_exponent [] attrs in
      if is_empty modulus || is_empty exponent
      then err (plain "RSA attributes missing")
      else E.marshal_rsa (big_endian 0 modulus) (int64_of (big_endian 0 exponent))

  -- The point itself, or the octets that it wraps.
  unwrapped_point : Bytes → Reply (Bytes × Bytes) → Bytes
  unwrapped_point ec_point (ok (raw, [])) = raw
  unwrapped_point ec_point (ok (raw, b ∷ rest)) = ec_point
  unwrapped_point ec_point (err e) = ec_point

  point_on : Curve → Bytes → Reply Bytes
  unfolding big_endian
  point_on curve [] = err (plain "unexpected EC point format")
  point_on curve (b ∷ coordinates) =
      let coord_len = length coordinates / 2 in
      if not (b == 4)
      then err (plain "unexpected EC point format")
      else E.marshal_ec curve (big_endian 0 (take coord_len coordinates))
          (big_endian 0 (drop coord_len coordinates))

  on_curve : List ℕ → Option Curve → Bytes → Reply Bytes
  unfolding point_on
  on_curve oid none raw = err (wrapped "unsupported EC curve OID" (plain (E.oid_text oid)))
  on_curve oid (some curve) raw = point_on curve raw

  with_oid : Reply (List ℕ) → Bytes → Reply Bytes
  unfolding on_curve curve_of_oid
  with_oid (err e) raw = err (wrapped "failed to unmarshal EC params" e)
  with_oid (ok oid) raw = on_curve oid (curve_of_oid oid) raw

  ec_public_key : Attributes → Reply Bytes
  unfolding value_of_type with_oid unwrapped_point
  ec_public_key attrs =
      let ec_point = value_of_type a_ec_point [] attrs in
      let ec_params = value_of_type a_ec_params [] attrs in
      if is_empty ec_point || is_empty ec_params
      then err (plain "EC attributes missing")
      else with_oid (E.unmarshal_oid ec_params)
          (unwrapped_point ec_point (E.unmarshal_octets ec_point))

module _ {W : Type 0} (S : Session W) (E : Encodings) where
  unfoldable pub export_rsa_public_key : ℕ → Exec (Client W) Bytes
  unfolding ◌>>=◌ session_call rsa_public_key
  export_rsa_public_key handle = do
    attrs ←
        rethrow (wrapped "failed to get RSA attributes")
          (session_call (S.get_attribute_value handle (a_modulus ∷ a_public_exponent ∷ [])))
    lift (rsa_public_key E attrs)

  unfoldable pub export_ec_public_key : ℕ → Exec (Client W) Bytes
  unfolding ◌>>=◌ session_call ec_public_key
  export_ec_public_key handle = do
    attrs ←
        rethrow (wrapped "failed to get EC attributes")
          (session_call (S.get_attribute_value handle (a_ec_point ∷ a_ec_params ∷ [])))
    lift (ec_public_key E attrs)

  unfoldable pub export_by_type : ℕ → Option ℕ → Exec (Client W) Bytes
  unfolding ◌>>=◌ export_rsa_public_key export_ec_public_key
  export_by_type handle none w = fail (plain "cannot determine key type") w
  export_by_type handle (some b) w =
      let rsa = export_rsa_public_key handle w in
      let ec = export_ec_public_key handle w in
      if b == 0 then rsa else if b == 3 then ec else fail (plain "unsupported key type") w

  unfoldable pub export_public_key : ℕ → Exec (Client W) Bytes
  unfolding ◌>>=◌ session_call export_by_type key_type_byte
  export_public_key handle = do
    attrs ←
        rethrow (wrapped "failed to get key type")
          (session_call (S.get_attribute_value handle (a_key_type ∷ [])))
    export_by_type handle (key_type_byte attrs)
