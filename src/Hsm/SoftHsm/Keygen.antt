-- ===== src/Hsm/SoftHsm/Keygen.antt =====
-- internal/infrastructure/hsm/client_keygen.go

pub mod Exports
pub mod Pairs
use Prim.Native.String.{◌++◌ as cat}
use hsm_service.Prelude.{
  ℕ, String, Bool, true, false, not, ◌||◌, Option, none, some, List, [], ◌∷◌, length, str_eq,
  if◌then◌else◌,
}
use hsm_service.Prelude.Int.{ℤ, pos, eqb_ℤ}
use hsm_service.Prelude.Decimal.{decimal_int}
use hsm_service.Domain.Errors.{
  GoError, plain, wrapped, predefined, invalid_algorithm, invalid_key_size,
}
use hsm_service.Domain.Entities.{Bytes, Detail}
use hsm_service.Exec.{
  Reply, ok, err, Outcome, returned, failed, panicked, Exec, pure, fail, rethrow, rescue, ignoring,
  lift, ◌>>=◌,
}
use hsm_service.Hsm.SoftHsm.{
  Session, Client, Attribute, class_is, kind_is, label_is, modulus_bits, public_exponent, ec_params,
  may_verify, may_encrypt, may_sign, may_decrypt, token, sensitive, extractable, private_key,
  public_key, rsa_kind, ec_kind, rsa_pkcs_key_pair_gen, ec_key_pair_gen, session_call, effect,
  not_closed, audited_method,
}
use hsm_service.Hsm.SoftHsm.Export.{
  Curve, p256, p384, p521, Encodings, curve_oid, export_public_key,
}

-- The public key's length in the record.
abbrev exported_length : Outcome (Bytes × String) → ℕ
exported_length (returned (key, handle)) = length key
exported_length (failed e) = 0
exported_length panicked = 0

unfoldable pub rsa_public_template : ℕ → String → List Attribute
rsa_public_template bits label =
    class_is public_key
    ∷ kind_is rsa_kind
    ∷ modulus_bits bits
    ∷ public_exponent (1 ∷ 0 ∷ 1 ∷ [])
    ∷ may_verify true
    ∷ may_encrypt true
    ∷ token true
    ∷ label_is label
    ∷ []

unfoldable pub rsa_private_template : String → List Attribute
rsa_private_template label =
    class_is private_key
    ∷ kind_is rsa_kind
    ∷ may_sign true
    ∷ may_decrypt true
    ∷ token true
    ∷ sensitive true
    ∷ extractable false
    ∷ label_is label
    ∷ []

unfoldable pub ec_public_template : Bytes → String → List Attribute
ec_public_template params label =
    class_is public_key
    ∷ kind_is ec_kind
    ∷ ec_params params
    ∷ may_verify true
    ∷ token true
    ∷ label_is label
    ∷ []

unfoldable pub ec_private_template : String → List Attribute
ec_private_template label =
    class_is private_key
    ∷ kind_is ec_kind
    ∷ may_sign true
    ∷ token true
    ∷ sensitive true
    ∷ extractable false
    ∷ label_is label
    ∷ []

-- The sizes that the two generators take.
unfoldable pub rsa_bits : ℤ → Option ℕ
rsa_bits size =
    if eqb_ℤ size (pos 2048)
    then some 2048
    else if eqb_ℤ size (pos 3072)
    then some 3072
    else if eqb_ℤ size (pos 4096)
    then some 4096
    else none

unfoldable pub curve_of_size : ℤ → Option Curve
curve_of_size size =
    if eqb_ℤ size (pos 256)
    then some p256
    else if eqb_ℤ size (pos 384)
    then some p384
    else if eqb_ℤ size (pos 521)
    then some p521
    else none

module _ {W : Type 0} (S : Session W) (E : Encodings) where
  rsa_pair : ℤ → String → Option ℕ → Exec (Client W) (ℕ × ℕ)
  unfolding ◌>>=◌ session_call rsa_public_template rsa_private_template
  rsa_pair size label none = fail (plain (cat "unsupported RSA key size: " (decimal_int size)))
  rsa_pair size label (some bits) = session_call (
      S.generate_key_pair rsa_pkcs_key_pair_gen (rsa_public_template bits label)
        (rsa_private_template label))

  unfoldable pub generate_rsa_key_pair : ℤ → String → Exec (Client W) (ℕ × ℕ)
  unfolding rsa_pair
  generate_rsa_key_pair size label = rsa_pair size label (rsa_bits size)

  ec_pair : String → Option Curve → Exec (Client W) (ℕ × ℕ)
  unfolding ◌>>=◌ session_call ec_public_template ec_private_template
  ec_pair label none = fail (predefined invalid_key_size)
  ec_pair label (some curve) = do
    params ←
        rethrow (wrapped "failed to marshal EC params") (lift (E.marshal_oid (curve_oid curve)))
    session_call (
        S.generate_key_pair ec_key_pair_gen (ec_public_template params label)
          (ec_private_template label))

  unfoldable pub generate_ecdsa_key_pair : ℤ → String → Exec (Client W) (ℕ × ℕ)
  unfolding ec_pair
  generate_ecdsa_key_pair size label = ec_pair label (curve_of_size size)

  -- The `switch` on the algorithm.
  pair_generated : String → ℤ → String → Exec (Client W) (ℕ × ℕ)
  unfolding ◌>>=◌ generate_rsa_key_pair generate_ecdsa_key_pair
  pair_generated algorithm size label w =
      let rsa = generate_rsa_key_pair size label w in
      let ec = generate_ecdsa_key_pair size label w in
      if str_eq algorithm "RSA"
      then rsa
      else if str_eq algorithm "ECDSA"
      then ec
      else if str_eq algorithm "Ed25519"
      then fail (plain "Ed25519 not supported by SoftHSMv2") w
      else fail (predefined invalid_algorithm) w

  -- The export of the new public key, or else the pair is destroyed.
  exported : ℕ × ℕ → Exec (Client W) Bytes
  unfolding ◌>>=◌ effect
  exported (public_handle, private_handle) = rescue (export_public_key S E public_handle) λ e. do
    _ ← ignoring (effect (S.destroy_object public_handle))
    _ ← ignoring (effect (S.destroy_object private_handle))
    fail e

  pair_body : String → ℤ → String → Exec (Client W) (Bytes × String)
  unfolding ◌>>=◌ pair_generated exported
  pair_body algorithm size label = do
    handles ←
        rethrow (wrapped "HSM_OPERATION_FAILED: operation=generate_key_pair")
          (pair_generated algorithm size label)
    key ← exported handles
    pure (key, label)

  opened_body : String → ℤ → String → Exec (Client W) (Bytes × String)
  unfolding ◌>>=◌ not_closed pair_body
  opened_body algorithm size label = do _ ← not_closed; pair_body algorithm size label

  unfoldable pub softhsm_generate_key_pair :
      Bool → String → ℤ → String → Exec (Client W) (Bytes × String)
  unfolding ◌>>=◌ audited_method opened_body
  softhsm_generate_key_pair has_dispatcher algorithm size label =
      let opened = opened_body algorithm size label in
      audited_method has_dispatcher "GENERATE_KEY_PAIR"
        (λ o.
          ("public_key_length", Detail.number (pos (exported_length o)))
          ∷ ("algorithm", Detail.text algorithm)
          ∷ ("key_size", Detail.number size)
          ∷ ("label", Detail.text label)
          ∷ [])
        (λ w. if str_eq label "" then (failed (plain "key label cannot be empty"), w) else opened w)

  unfoldable pub softhsm_generate_key_pair_with_label :
      Bool → String → ℤ → String → String → Exec (Client W) (Bytes × String)
  unfolding softhsm_generate_key_pair
  softhsm_generate_key_pair_with_label has_dispatcher algorithm size label tenant_id =
      softhsm_generate_key_pair has_dispatcher algorithm size (cat tenant_id (cat "_" label))
