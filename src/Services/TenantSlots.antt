-- ===== src/Services/TenantSlots.antt =====
-- helpers.go: which slot the lookup of a tenant's slot gives, and why it gives none.
use hsm_service.Prelude.{String, ◌≡◌, refl, ◌⊎◌, inl, inr, none, some, arith, Option-cases}
use hsm_service.Domain.Errors.{GoError}
use hsm_service.Domain.Entities.{HsmSlot, Tenant}
use hsm_service.Exec.{
  ok, err, World, Outcome, returned, failed, panicked, IsRefused, ◌>>=◌, Reply-cases,
}
use hsm_service.Ports.{Ports}
use hsm_service.Services.Helpers.{
  tenant_slot, get_tenant_with_audit, some_tenant, get_slot_with_audit, some_slot,
}

module _ {W : Type 0} (P : Ports W) (tenant_id : String) (e : W) where
  -- The tenant repository, asked in `e`, has a tenant with this id; the tenant has a slot id, and the
  -- slot repository, asked later, has `slot` under it.
  abbrev pub IsTenantSlot : HsmSlot → Type 0
  IsTenantSlot slot =
      (tenant : Tenant) × (slot_id : String) × (later : W) × ((P.find_tenant tenant_id e).0
        ≡ ok (some tenant))
      × (tenant.hsm_slot_id ≡ some slot_id)
      × ((P.find_slot slot_id later).0 ≡ ok (some slot))

  -- One of the two repositories fails or has nothing, or the tenant has no slot id.
  pub data NoTenantSlot : Type 0 where
    tenant_error : (x : GoError) → (P.find_tenant tenant_id e).0 ≡ err x → NoTenantSlot
    no_tenant : (P.find_tenant tenant_id e).0 ≡ ok none → NoTenantSlot
    no_slot_id :
        (tenant : Tenant)
        → (P.find_tenant tenant_id e).0 ≡ ok (some tenant)
        → tenant.hsm_slot_id ≡ none
        → NoTenantSlot
    slot_error :
        (tenant : Tenant) (slot_id : String) (later : W) (x : GoError)
        → (P.find_tenant tenant_id e).0 ≡ ok (some tenant)
        → tenant.hsm_slot_id ≡ some slot_id
        → (P.find_slot slot_id later).0 ≡ err x
        → NoTenantSlot
    no_slot :
        (tenant : Tenant) (slot_id : String) (later : W)
        → (P.find_tenant tenant_id e).0 ≡ ok (some tenant)
        → tenant.hsm_slot_id ≡ some slot_id
        → (P.find_slot slot_id later).0 ≡ ok none
        → NoTenantSlot

gave_none : {A : Type 0} (o : Outcome A) → ((a : A) → o ≡ returned a → ⊥) → IsRefused o
gave_none (returned a) h = absurd (h a refl)
gave_none (failed e) h = inl (e, refl)
gave_none panicked h = inr refl

module _ {W : Type 0} (P : Ports W) (f : GoError → GoError) (tenant_id : String) (w : World W) where
  -- The tenant's slot is given exactly where there is one.
  abbrev Looked : Outcome HsmSlot → Type 0
  Looked o =
      ((slot : HsmSlot) × (o ≡ returned slot) × IsTenantSlot P tenant_id w.env slot)
      ⊎ (IsRefused o × NoTenantSlot P tenant_id w.env)

  pub tenant_slot-Looked : Looked (tenant_slot P f tenant_id w).0
  unfolding tenant_slot get_tenant_with_audit get_slot_with_audit some_tenant some_slot ◌>>=◌
  tenant_slot-Looked = elim (Reply-cases (P.find_tenant tenant_id w.env).0) [
    | inr (x, t) ↦
        inr (
          gave_none (tenant_slot P f tenant_id w).0 (λ a h. ground (arith, t, h)),
          tenant_error x t,
        )
    | inl (none, t) ↦
        inr (gave_none (tenant_slot P f tenant_id w).0 (λ a h. ground (arith, t, h)), no_tenant t)
    | inl (some tenant, t) ↦
        let later = (get_tenant_with_audit P tenant_id w).1.env in
        elim (Option-cases tenant.hsm_slot_id) [
          | inl i ↦ inr (
            gave_none (tenant_slot P f tenant_id w).0 (λ a h. ground (arith, t, i, h)),
            no_slot_id tenant t i,
          )
          | inr (slot_id, i) ↦ elim (Reply-cases (P.find_slot slot_id later).0) [
            | inr (x, r) ↦ inr (
              gave_none (tenant_slot P f tenant_id w).0 (λ a h. ground (arith, t, i, r, h)),
              slot_error tenant slot_id later x t i r,
            )
            | inl (none, r) ↦ inr (
              gave_none (tenant_slot P f tenant_id w).0 (λ a h. ground (arith, t, i, r, h)),
              no_slot tenant slot_id later t i r,
            )
            | inl (some slot, r) ↦
                inl (slot, ground (arith, t, i, r), (tenant, slot_id, later, t, i, r))
          ]
        ]
  ]

  pub slot-IsTenantSlot :
      (slot : HsmSlot)
      → (tenant_slot P f tenant_id w).0 ≡ returned slot
      → IsTenantSlot P tenant_id w.env slot
  slot-IsTenantSlot slot h = elim tenant_slot-Looked [
    | inl (s, e, (t, i, l, h1, h2, h3)) ↦ (t, i, l, h1, h2, ground (arith, e, h, h3))
    | inr (r, n) ↦ absurd (ground (arith, r, h))
  ]

  pub refused-NoTenantSlot :
      IsRefused (tenant_slot P f tenant_id w).0 → NoTenantSlot P tenant_id w.env
  refused-NoTenantSlot r = elim tenant_slot-Looked [
    | inl (s, e, h) ↦ absurd (ground (arith, r, e))
    | inr (r', n) ↦ n
  ]
