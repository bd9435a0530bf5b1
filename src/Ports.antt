-- ===== src/Ports.antt =====
-- internal/domain/ports/output: what the services call. The repositories, the HSM manager, the
-- audit dispatcher, the clock, the source of UUIDs and SHA-256 are fields of one record over an
-- arbitrary type `W` of what lies behind them; the two fields `has_…` say which pointer is not nil.
pub mod AesKeys
use hsm_service.Prelude.{ℕ, String, Bool, Option, none, some, List, [], ◌∷◌, if◌then◌else◌}
use hsm_service.Prelude.Int.{ℤ}
use hsm_service.Domain.Errors.{GoError}
use hsm_service.Domain.Values.{IdentityContext}
use hsm_service.Domain.Entities.{
  Bytes, CryptographicKey, HsmKey, HsmSlot, Tenant, AuditData, KeyOperation,
}
use hsm_service.Exec.{
  Reply, Event, audited, tracked, generated, destroyed, signed, verified, encrypted, decrypted,
  saved, removed, World, Outcome, returned, failed, Exec, answer,
}

pub record Ports (W : Type 0) : Type 0 where
  pub has_dispatcher : Bool
  pub has_operation_repo : Bool
  pub find_key : String → String → W → Reply CryptographicKey × W
  pub find_key_by_id : String → W → Reply CryptographicKey × W
  pub find_keys : String → W → Reply (List CryptographicKey) × W
  pub save_key : CryptographicKey → W → Option GoError × W
  pub delete_key : String → W → Option GoError × W
  pub find_tenant : String → W → Reply (Option Tenant) × W
  pub find_slot : String → W → Reply (Option HsmSlot) × W
  pub save_operation : KeyOperation → W → Option GoError × W
  pub audit_operation : AuditData → Option IdentityContext → W → W
  pub hsm_generate : String → ℤ → String → ℤ → W → Reply (Bytes × String) × W
  pub hsm_delete : String → ℤ → W → Option GoError × W
  pub hsm_list : ℤ → W → Reply (List HsmKey) × W
  pub hsm_sign : String → Bytes → ℤ → IdentityContext → W → Reply Bytes × W
  pub hsm_verify : String → Bytes → Bytes → ℤ → W → Reply Bool × W
  pub hsm_encrypt : String → Bytes → ℤ → W → Reply Bytes × W
  pub hsm_decrypt : String → Bytes → ℤ → W → Reply Bytes × W
  pub new_uuid : W → String × W
  pub now : W → ℕ × W
  pub sha256 : Bytes → Bytes

abbrev pub unless_error : Option GoError → Outcome (Unit {0})
unless_error none = returned tt
unless_error (some e) = failed e

module _ {W : Type 0} (P : Ports W) where
  open P use {
    has_dispatcher, has_operation_repo, save_key, delete_key, save_operation, audit_operation,
    hsm_generate, hsm_delete, hsm_sign, hsm_verify, hsm_encrypt, hsm_decrypt, new_uuid,
  }

  -- `if s.auditDispatcher != nil { s.auditDispatcher.AuditOperation(ctx, data, identity) }`
  unfoldable pub audit : AuditData → Option IdentityContext → World W → World W
  audit data' identity w =
      if has_dispatcher
      then record {
        env = audit_operation data' identity w.env;
        trace = audited data' identity ∷ w.trace;
      }
      else w

  -- `if s.keyOperationRepo != nil { s.keyOperationRepo.Save(ctx, operation) }`, its error dropped.
  unfoldable pub track : KeyOperation → World W → World W
  track op w =
      if has_operation_repo
      then record { env = (save_operation op w.env).1; trace = tracked op ∷ w.trace }
      else w

  unfoldable pub generate : String → ℤ → String → ℤ → Exec W (Bytes × String)
  generate algorithm size label slot w =
      let (r, e) = hsm_generate algorithm size label slot w.env in
      (answer r, record { env = e; trace = generated label slot r ∷ w.trace })

  -- Deletes a key object; `rollback` drops the error.
  unfoldable pub destroy : String → ℤ → Exec W (Unit {0})
  destroy handle slot w =
      let (r, e) = hsm_delete handle slot w.env in
      (unless_error r, record { env = e; trace = destroyed handle slot r ∷ w.trace })

  unfoldable pub save : CryptographicKey → Exec W (Unit {0})
  save key w =
      let (r, e) = save_key key w.env in
      (unless_error r, record { env = e; trace = saved key r ∷ w.trace })

  unfoldable pub remove : String → Exec W (Unit {0})
  remove id w =
      let (r, e) = delete_key id w.env in
      (unless_error r, record { env = e; trace = removed id r ∷ w.trace })

  unfoldable pub sign : String → Bytes → ℤ → IdentityContext → Exec W Bytes
  sign label hash slot identity w =
      let (r, e) = hsm_sign label hash slot identity w.env in
      (answer r, record { env = e; trace = signed label hash slot r ∷ w.trace })

  unfoldable pub verify : String → Bytes → Bytes → ℤ → Exec W Bool
  verify label hash signature slot w =
      let (r, e) = hsm_verify label hash signature slot w.env in
      (answer r, record { env = e; trace = verified label hash signature slot r ∷ w.trace })

  unfoldable pub encrypt : String → Bytes → ℤ → Exec W Bytes
  encrypt label plaintext slot w =
      let (r, e) = hsm_encrypt label plaintext slot w.env in
      (answer r, record { env = e; trace = encrypted label plaintext slot r ∷ w.trace })

  unfoldable pub decrypt : String → Bytes → ℤ → Exec W Bytes
  decrypt label ciphertext slot w =
      let (r, e) = hsm_decrypt label ciphertext slot w.env in
      (answer r, record { env = e; trace = decrypted label ciphertext slot r ∷ w.trace })

  unfoldable pub fresh_uuid : Exec W String
  fresh_uuid w = let (u, e) = new_uuid w.env in (returned u, record w { env = e })

  unfoldable pub current_time : Exec W ℕ
  current_time w = let (t, e) = P.now w.env in (returned t, record w { env = e })

-- The calls of a trace that use the HSM.
unfoldable pub hsm_calls : List Event → List Event
hsm_calls [] = []
hsm_calls (audited d i ∷ es) = hsm_calls es
hsm_calls (tracked op ∷ es) = hsm_calls es
hsm_calls (saved k r ∷ es) = hsm_calls es
hsm_calls (removed id r ∷ es) = hsm_calls es
hsm_calls (e ∷ es) = e ∷ hsm_calls es

-- The calls of a trace that use the HSM or write the key repository.
unfoldable pub effects : List Event → List Event
effects [] = []
effects (audited d i ∷ es) = effects es
effects (tracked op ∷ es) = effects es
effects (e ∷ es) = e ∷ effects es
