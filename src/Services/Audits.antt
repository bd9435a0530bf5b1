-- ===== src/Services/Audits.antt =====
-- What the traces of the services are asked: which keys were used, which operations were recorded.
-- The shared lookups write records of their own service and nothing else.
use hsm_service.Prelude.{
  String, Bool, Option, none, some, List, [], ◌∷◌, str_eq, if◌then◌else◌, arith,
}
use hsm_service.Domain.Errors.{GoError}
use hsm_service.Domain.Values.{IdentityContext}
use hsm_service.Domain.Entities.{HsmSlot, Tenant, AuditData, KeyOperation}
use hsm_service.Exec.{Reply, Event, audited, tracked, World, ask, outcome_error}
use hsm_service.Exec.Keeps.{
  Keeps, Keeps-deferring, Keeps-rethrow, Keeps-bind, Keeps-deref, Keeps-fail, Keeps-pure,
}
use hsm_service.Ports.{Ports, audit, track}
use hsm_service.Services.Helpers.{
  operation_data, get_tenant_with_audit, get_slot_with_audit, tenant_slot,
  tenant_helper_service_name,
}

-- The success flags of the audit records of one operation, newest first.
unfoldable pub audit_flags : String → List Event → List Bool
audit_flags operation [] = []
audit_flags operation (audited d i ∷ es) =
    if str_eq d.operation operation
    then d.success ∷ audit_flags operation es
    else audit_flags operation es
audit_flags operation (e ∷ es) = audit_flags operation es

-- The tracked operations, newest first.
unfoldable pub tracked_operations : List Event → List KeyOperation
tracked_operations [] = []
tracked_operations (tracked op ∷ es) = op ∷ tracked_operations es
tracked_operations (e ∷ es) = tracked_operations es

module _ {W : Type 0} (P : Ports W) (Q : List Event → Type 0) where
  abbrev pub On : World W → Type 0
  On w = Q w.trace

  pub Keeps-ask : {A : Type 0} (port : W → Reply A × W) → Keeps On (ask port)
  unfolding ask
  Keeps-ask port = record { at = λ w h. h }

  pub audit-On :
      (d : AuditData) (i : Option IdentityContext)
      → ((es : List Event) → Q es → Q (audited d i ∷ es))
      → (w : World W) → On w
      → On (audit P d i w)
  unfolding audit
  audit-On d i rec w h = ground (arith, rec w.trace)

  pub track-On :
      (op : KeyOperation)
      → ((es : List Event) → Q es → Q (tracked op ∷ es))
      → (w : World W) → On w
      → On (track P op w)
  unfolding track
  track-On op rec w h = ground (arith, rec w.trace)

-- A record that one of the shared lookups may write.
abbrev pub lookup_data : String → Option GoError → AuditData
lookup_data operation e = operation_data tenant_helper_service_name operation e []

module _ {W : Type 0} (P : Ports W) (Q : List Event → Type 0)
    (tenant_rec : (e : Option GoError) (es : List Event)
      → Q es
      → Q (audited (lookup_data "GET_TENANT" e) none ∷ es))
    (slot_rec : (e : Option GoError) (es : List Event)
      → Q es
      → Q (audited (lookup_data "GET_SLOT" e) none ∷ es)) where
  get_tenant-On : (tenant_id : String) → Keeps (On P Q) (get_tenant_with_audit P tenant_id)
  unfolding get_tenant_with_audit
  get_tenant-On tenant_id =
      Keeps-deferring _ _
        (Keeps-bind {A = Option Tenant} _ _ (Keeps-rethrow _ _ (Keeps-ask P Q _))
          (elim [ none ↦ Keeps-fail _ | some t ↦ Keeps-pure t ]))
        (λ o w h. audit-On P Q _ none (tenant_rec (outcome_error o)) w h)

  get_slot-On : (slot_id : String) → Keeps (On P Q) (get_slot_with_audit P slot_id)
  unfolding get_slot_with_audit
  get_slot-On slot_id =
      Keeps-deferring _ _
        (Keeps-bind {A = Option HsmSlot} _ _ (Keeps-rethrow _ _ (Keeps-ask P Q _))
          (elim [ none ↦ Keeps-fail _ | some t ↦ Keeps-pure t ]))
        (λ o w h. audit-On P Q _ none (slot_rec (outcome_error o)) w h)

  pub tenant_slot-On :
      (f : GoError → GoError) (tenant_id : String) → Keeps (On P Q) (tenant_slot P f tenant_id)
  unfolding tenant_slot
  tenant_slot-On f tenant_id =
      Keeps-bind _ _ (Keeps-rethrow _ _ (get_tenant-On tenant_id)) λ tenant.
        Keeps-bind _ _ (Keeps-deref tenant.hsm_slot_id)
          λ slot_id. Keeps-rethrow f _ (get_slot-On slot_id)
