-- ===== src/Hsm/SoftHsm.antt =====
-- internal/infrastructure/hsm/client.go with client_helpers.go: the client of one slot. The PKCS#11
-- session, and the encodings of asn1 and x509, are parameters. The mutex makes each call one step.
pub mod Closed
pub mod Opening
mod Runs
pub mod Crypto
pub mod Export
pub mod Keygen
pub mod Inventory
use Prim.Native.String.{◌++◌ as cat}
use hsm_service.Prelude.{
  ℕ, String, Bool, true, false, Option, none, some, List, [], ◌∷◌, if◌then◌else◌,
}
use hsm_service.Domain.Errors.{GoError, plain, wrapped}
use hsm_service.Domain.Entities.{Bytes, Detail, AuditData}
use hsm_service.Exec.{
  Reply, ok, err, World, Event, audited, Outcome, returned, failed, answer, outcome_error, Exec,
  pure, fail, rethrow, deferring, ◌>>=◌, ◌>>◌,
}
use hsm_service.Services.Helpers.{operation_data}

-- The attributes of templates, and the types of those that are read.
pub data ObjectClass : Type 0 where
  private_key public_key : ObjectClass

pub data KeyKind : Type 0 where
  rsa_kind ec_kind : KeyKind

pub data Attribute : Type 0 where
  class_is : ObjectClass → Attribute
  kind_is : KeyKind → Attribute
  label_is : String → Attribute
  modulus_bits : ℕ → Attribute
  public_exponent ec_params : Bytes → Attribute
  may_verify may_encrypt may_sign may_decrypt token sensitive extractable : Bool → Attribute

pub data AttributeType : Type 0 where
  a_class a_label a_key_type a_id a_modulus a_public_exponent a_ec_point a_ec_params : AttributeType

pub data Mechanism : Type 0 where
  sha256_rsa_pkcs rsa_pkcs rsa_pkcs_key_pair_gen ec_key_pair_gen : Mechanism

abbrev pub Attributes : Type 0
Attributes = List (AttributeType × Bytes)

-- The calls of `pkcs11.Ctx` with the client's session. `is_signature_invalid` tells the error
-- CKR_SIGNATURE_INVALID.
pub record Session (W : Type 0) : Type 0 where
  pub find_objects_init : List Attribute → W → Option GoError × W
  pub find_objects : ℕ → W → Reply (List ℕ) × W
  pub find_objects_final : W → W
  pub get_attribute_value : ℕ → List AttributeType → W → Reply Attributes × W
  pub sign_init : Mechanism → ℕ → W → Option GoError × W
  pub sign : Bytes → W → Reply Bytes × W
  pub verify_init : Mechanism → ℕ → W → Option GoError × W
  pub verify : Bytes → Bytes → W → Option GoError × W
  pub encrypt_init : Mechanism → ℕ → W → Option GoError × W
  pub encrypt : Bytes → W → Reply Bytes × W
  pub decrypt_init : Mechanism → ℕ → W → Option GoError × W
  pub decrypt : Bytes → W → Reply Bytes × W
  pub destroy_object : ℕ → W → Option GoError × W
  pub generate_key_pair : Mechanism → List Attribute → List Attribute → W → Reply (ℕ × ℕ) × W
  pub session_info : W → Option GoError × W
  pub logout : W → W
  pub close_session : W → W
  pub is_signature_invalid : GoError → Bool
  pub text_of : Bytes → String

-- The client's state, and what lies behind its session.
pub record Client (W : Type 0) : Type 0 where
  pub closed : Bool
  pub behind : W

abbrev pub closed_error : GoError
closed_error = plain "HSM client is closed"

abbrev pub softhsm_service_name : String
softhsm_service_name = "soft-hsm-client"

-- `fmt.Errorf("… '%s': %w", label, err)` and the like.
abbrev pub about_label : String → String → String → GoError → GoError
about_label before label after = wrapped (cat before (cat label after))

effect_outcome : Option GoError → Outcome (Unit {0})
effect_outcome none = returned tt
effect_outcome (some e) = failed e

-- The first object of a search for one.
pub first_of : String → String → List ℕ → Reply ℕ
first_of kind label [] =
    err (plain (cat kind (cat " with label '" (cat label "' not found in HSM"))))
first_of kind label (handle ∷ rest) = ok handle

abbrev pub class_name : ObjectClass → String
class_name private_key = "private key"
class_name public_key = "public key"

module _ {W A : Type 0} where
  -- A call of the session with a value, or with an error alone.
  unfoldable pub session_call : (W → Reply A × W) → Exec (Client W) A
  session_call f w =
      let (r, b) = f w.env.behind in
      (answer r, record { env = record w.env { behind = b }; trace = w.trace })

module _ {W : Type 0} where
  unfoldable pub effect : (W → Option GoError × W) → Exec (Client W) (Unit {0})
  unfolding effect_outcome
  effect f w =
      let (r, b) = f w.env.behind in
      (effect_outcome r, record { env = record w.env { behind = b }; trace = w.trace })

  -- A call of the session that is deferred.
  unfoldable pub afterwards : (W → W) → World (Client W) → World (Client W)
  afterwards f w = record w { env = record w.env { behind = f w.env.behind } }

  -- `if c.closed { return errors.New(hsmClosedMsg) }`
  unfoldable pub not_closed : Exec (Client W) (Unit {0})
  not_closed w = if w.env.closed then (failed closed_error, w) else (returned tt, w)

module _ {W : Type 0} (has_dispatcher : Bool) where
  record_call : AuditData → World (Client W) → World (Client W)
  record_call data' w =
      if has_dispatcher then record w { trace = audited data' none ∷ w.trace } else w

  -- A method under the deferred function that audits it.
  unfoldable pub audited_method :
      {A : Type 0}
      → String
      → (Outcome A → List (String × Detail))
      → Exec (Client W) A
      → Exec (Client W) A
  unfolding record_call
  audited_method operation metadata body = deferring body λ o.
      record_call (operation_data softhsm_service_name operation (outcome_error o) (metadata o))

module _ {W : Type 0} (S : Session W) where
  found_object : ObjectClass → String → Exec (Client W) ℕ
  unfolding ◌>>=◌ session_call
  found_object class label = do
    objects ← rethrow (wrapped "failed to find objects") (session_call (S.find_objects 1))
    λ w. (answer (first_of (class_name class) label objects), w)

  -- `findPrivateKeyByLabel` and `findPublicKeyByLabel`
  unfoldable pub find_by_label : ObjectClass → String → Exec (Client W) ℕ
  unfolding ◌>>=◌ session_call effect found_object afterwards
  find_by_label class label = do
    _ ←
        rethrow (wrapped "failed to initialize object search")
          (effect (S.find_objects_init (class_is class ∷ label_is label ∷ [])))
    deferring (found_object class label) (λ o. afterwards S.find_objects_final)

  module _ (has_dispatcher : Bool) where
    health_record : Option GoError → AuditData
    health_record e = record (operation_data softhsm_service_name "HEALTH_CHECK" e []) {
      actor_type = "EXTERNAL";
    }

    -- The record of `HealthCheck` is written only when the client is open.
    unfoldable pub softhsm_health_check : Exec (Client W) (Unit {0})
    unfolding not_closed effect record_call health_record ◌>>=◌
    softhsm_health_check = do
      _ ← not_closed
      deferring (effect S.session_info)
          (λ o. record_call has_dispatcher (health_record (outcome_error o)))

  -- `Close`, which never fails.
  unfoldable pub softhsm_close : World (Client W) → World (Client W)
  softhsm_close w = if w.env.closed then w else record w {
    env = record { closed = true; behind = S.close_session (S.logout w.env.behind) };
  }
