-- ===== src/Services/Keys/Records.antt =====
-- key_service.go, `CreateKey`: its audit record and its tracked operation.
use hsm_service.Prelude.{
  ◌≡◌, refl, ◌∙◌, true, Option, none, some, List, ◌∷◌, str_eq, if◌then◌else◌, arith,
}
use hsm_service.Domain.Errors.{err_to_string}
use hsm_service.Domain.Entities.{CryptographicKey, HsmSlot, Tenant, KeyOperation}
use hsm_service.Exec.{
  ok, Event, World, Outcome, returned, failed, panicked, outcome_error, continue, ◌>>=◌,
}
use hsm_service.Ports.{Ports, audit, track, generate, destroy, save, fresh_uuid, current_time}
use hsm_service.Services.Helpers.{no_error, slot_check_error, tenant_slot, get_tenant_with_audit}
use hsm_service.Services.Audits.{audit_flags, tracked_operations, tenant_slot-On}
use hsm_service.Services.Keys.{
  CreationContext, validate_key_parameters, creation_operation, get_operation_status,
  get_result_summary, get_error_details, value_of, get_tenant_slot, checked_slot, save_or_roll_back,
  generate_and_save_key, track_creation, audit_and_track_key_creation, create_key,
}

module _ {W : Type 0} (P : Ports W) where
  -- The CREATE_KEY flags and the tracked operations are the same in both traces.
  abbrev SameRecords : List Event → List Event → Type 0
  SameRecords before after =
      (audit_flags "CREATE_KEY" after ≡ audit_flags "CREATE_KEY" before)
      × (tracked_operations after ≡ tracked_operations before)

  checked_slot_unrecorded :
      (c : CreationContext) (w : World W) → SameRecords w.trace (checked_slot P c w).1.trace
  unfolding checked_slot ◌>>=◌ audit_flags tracked_operations
  checked_slot_unrecorded c w =
      let h : SameRecords w.trace (tenant_slot P slot_check_error c.identity.tenant_id w).1.trace =
        (tenant_slot-On P (λ es. SameRecords w.trace es) (λ e es h. h) (λ e es h. h)
            slot_check_error c.identity.tenant_id).at
          w (refl, refl) in
      (ground (arith, h.0), ground (arith, h.1))

  generate_unrecorded :
      (c : CreationContext) (slot : HsmSlot) (w : World W)
      → SameRecords w.trace (generate_and_save_key P c slot w).1.trace
  unfolding generate_and_save_key save_or_roll_back ◌>>=◌ generate destroy save fresh_uuid
      current_time audit_flags tracked_operations
  generate_unrecorded c slot w = (ground arith, ground arith)

  -- The operation of a key that was made.
  abbrev pub generate_operation : CreationContext → CryptographicKey → KeyOperation
  generate_operation c key = record {
    key_id = key.id;
    tenant_id = c.identity.tenant_id;
    organization_id = c.identity.organization_id;
    operation_type = "GENERATE";
    status = "SUCCESS";
    level = "HIGH";
    initialized_by = c.identity.user_id;
    input_size_bytes = 0;
    output_size_bytes = 0;
    result_summary = "Success";
    error_details = "";
  }

  -- What the trace records of an outcome.
  abbrev pub RecordsCreation :
      CreationContext → Outcome CryptographicKey → List Event → List Event → Type 0
  RecordsCreation c o before after =
      (audit_flags "CREATE_KEY" after
        ≡ no_error (outcome_error o) ∷ audit_flags "CREATE_KEY" before)
      × (tracked_operations after ≡ elim (value_of o) [
        | none ↦ tracked_operations before
        | some key ↦
            if str_eq key.id ""
            then tracked_operations before
            else generate_operation c key ∷ tracked_operations before
      ])

  records_once :
      (o : Outcome CryptographicKey) (slot : Option HsmSlot) (c : CreationContext)
      (before : List Event) (w : World W)
      → P.has_dispatcher ≡ true
      → P.has_operation_repo ≡ true
      → SameRecords before w.trace
      → RecordsCreation c o before (audit_and_track_key_creation P o slot c w).trace
  unfolding audit_and_track_key_creation track_creation audit track audit_flags tracked_operations
      creation_operation get_operation_status get_result_summary get_error_details err_to_string
  records_once (returned key) slot c before w hd ho h =
      (ground (arith, hd, ho, h.0), ground (arith, hd, ho, h.1))
  records_once (failed e) slot c before w hd ho h =
      (ground (arith, hd, ho, h.0), ground (arith, hd, ho, h.1))
  records_once panicked slot c before w hd ho h =
      (ground (arith, hd, ho, h.0), ground (arith, hd, ho, h.1))

  continue_unrecorded :
      (s : Outcome HsmSlot) (c : CreationContext) (before : List Event) (w : World W)
      → SameRecords before w.trace
      → SameRecords before (continue s (generate_and_save_key P c) w).1.trace
  continue_unrecorded (returned slot) c before w h =
      let g = generate_unrecorded c slot w in (g.0 ∙ h.0, g.1 ∙ h.1)
  continue_unrecorded (failed e) c before w h = h
  continue_unrecorded panicked c before w h = h

  -- With an audit dispatcher and an operation repository, `CreateKey` writes exactly one CREATE_KEY
  -- record, a success exactly when no error is returned, and tracks one operation exactly when it
  -- returns a key with an id: a successful GENERATE of that key, for the caller's tenant and user.
  pub create_key-RecordsCreation :
      (c : CreationContext) (w : World W)
      → P.has_dispatcher ≡ true
      → P.has_operation_repo ≡ true
      → let (o, w') = create_key P c w in RecordsCreation c o w.trace w'.trace
  unfolding create_key
  create_key-RecordsCreation c w hd ho =
      let (s, w1) = checked_slot P c w in
      let (o, w2) = continue s (generate_and_save_key P c) w1 in
      records_once o (value_of s) c w.trace w2 hd ho
        (continue_unrecorded s c w.trace w1 (checked_slot_unrecorded c w))

  -- With an audit dispatcher and an operation repository, `CreateKey` with a valid algorithm and
  -- usage for a tenant that has no slot panics, and its CREATE_KEY record is a success.
  pub create_key_panics :
      (c : CreationContext) (w : World W) (tenant : Tenant)
      → P.has_dispatcher ≡ true
      → P.has_operation_repo ≡ true
      → validate_key_parameters c.algorithm c.usage ≡ none
      → (P.find_tenant c.identity.tenant_id w.env).0 ≡ ok (some tenant)
      → tenant.hsm_slot_id ≡ none
      → let (o, w') = create_key P c w in
        (o ≡ panicked)
        × (audit_flags "CREATE_KEY" w'.trace ≡ true ∷ audit_flags "CREATE_KEY" w.trace)
  unfolding create_key checked_slot get_tenant_slot tenant_slot get_tenant_with_audit ◌>>=◌
  create_key_panics c w tenant hd ho hv ht hs =
      let o : (create_key P c w).0 ≡ panicked = ground (arith, hv, ht, hs) in
      let r = create_key-RecordsCreation c w hd ho in (o, ground (arith, o, r.0))
