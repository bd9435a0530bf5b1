-- ===== src/Services/HsmKeys/Isolation.antt =====
-- hsm_key_service.go: what a tenant sees of the key objects in its slot, and what it creates there.
use hsm_service.Prelude.{
  String, ◌≡◌, refl, ◌⊎◌, inl, inr, ◌↔◌, if◌then◌else◌, ◌&&◌, some, List, [], ◌∷◌, arith, str_eq,
  eq_iff, Bool-cases,
}
use mathlib.Core.Logic.{ite}
use mathlib.Core.List.{Mem, filter, mem-filter, mem-cons_self, mem-cons_of_mem}
use hsm_service.Prelude.Int.{ℤ, int_of_uint}
use hsm_service.Domain.Errors.{GoError}
use hsm_service.Domain.Entities.{Bytes, HsmKey}
use hsm_service.Exec.{
  ok, err, Event, generated, World, Outcome, returned, failed, IsRefused, ◌>>=◌, Outcome-cases,
  Reply-cases,
}
use hsm_service.Ports.{Ports, audit, generate, effects}
use hsm_service.Services.Helpers.{tenant_slot, slot_error_kept}
use hsm_service.Services.Keys.Create.{slot_no_effects}
use hsm_service.Services.HsmKeys.{
  hsm_generation_error, new_hsm_key, keys_of_tenant, public_key_of, create_hsm_key, create_body,
  list_hsm_keys, list_body, get_hsm_public_key, public_key_body, found_public_key,
}

pub same_tenant : (tenant_id : String) (key : HsmKey) → Dec (key.tenant_id ≡ tenant_id)
same_tenant tenant_id key = elim (Bool-cases (str_eq key.tenant_id tenant_id)) [
  | inl e ↦ yes ((eq_iff key.tenant_id tenant_id).0 e)
  | inr e ↦ no λ h. absurd (ground (arith, eq_iff key.tenant_id tenant_id))
]

if_ite :
    (x y : String) (d : Dec (x ≡ y)) (a b : List HsmKey) → (if str_eq x y then a else b) ≡ ite d a b
if_ite x y (yes p) a b = ground (arith, eq_iff x y, p)
if_ite x y (no n) a b = ground (arith, eq_iff x y, n)

keys_of_tenant-filter :
    (tenant_id : String) (keys : List HsmKey)
    → keys_of_tenant tenant_id keys ≡ filter (same_tenant tenant_id) keys
unfolding keys_of_tenant
keys_of_tenant-filter tenant_id [] = refl
keys_of_tenant-filter tenant_id (key ∷ rest) = rw (keys_of_tenant-filter tenant_id rest) (
    if_ite key.tenant_id tenant_id (same_tenant tenant_id key)
      (key ∷ filter (same_tenant tenant_id) rest) (filter (same_tenant tenant_id) rest))

public_key_of_sound :
    (label tenant_id : String) (keys : List HsmKey) (public_key : Bytes)
    → public_key_of label tenant_id keys ≡ some public_key
    → (key : HsmKey) × Mem key keys
      × (key.label ≡ label)
      × (key.tenant_id ≡ tenant_id)
      × (key.public_key ≡ public_key)
unfolding public_key_of
public_key_of_sound label tenant_id [] public_key h = absurd (cc)
public_key_of_sound label tenant_id (key ∷ rest) public_key h =
    elim (Bool-cases (str_eq key.label label && str_eq key.tenant_id tenant_id)) [
      | inl e ↦ (
        key,
        mem-cons_self,
        ground (arith, eq_iff key.label label),
        ground (arith, eq_iff key.tenant_id tenant_id),
        ground arith,
      )
      | inr e ↦
          let (k, m, f1, f2, f3) =
            public_key_of_sound label tenant_id rest public_key (ground arith) in
          (k, mem-cons_of_mem key m, f1, f2, f3)
    ]

module _ {W : Type 0} (P : Ports W) where
  -- The effects and the outcome of a `CreateHSMKey`.
  abbrev pub CreatesObject :
      String → String → ℤ → String → Outcome HsmKey → List Event → List Event → Type 0
  CreatesObject label algorithm size tenant_id o before after =
      ((after ≡ before) × IsRefused o)
      ⊎ ((n : ℤ) × (((e : GoError) × (after ≡ generated label n (err e) ∷ before)
              × (o ≡ failed hsm_generation_error))
            ⊎ ((public_key : Bytes) × (handle : String) × (after
                  ≡ generated label n (ok (public_key, handle)) ∷ before)
                × (o ≡ returned (new_hsm_key label algorithm size tenant_id public_key handle)))))

  audit_unseen : (d : _) (i : _) (w : World W) → effects (audit P d i w).trace ≡ effects w.trace
  unfolding audit effects
  audit_unseen d i w = ground arith

  create_body-Creates :
      (label algorithm : String) (size : ℤ) (tenant_id : String) (w : World W)
      → let r = create_body P label algorithm size tenant_id w in
        CreatesObject label algorithm size tenant_id r.0 (effects w.trace) (effects r.1.trace)
  unfolding create_body ◌>>=◌ generate effects
  create_body-Creates label algorithm size tenant_id w =
      let (s, w1) = tenant_slot P slot_error_kept tenant_id w in
      let q = slot_no_effects P slot_error_kept tenant_id w in
      elim (Outcome-cases s) [
        | inr (inl (x, e)) ↦ inl (ground (arith, q), inl (x, ground arith))
        | inr (inr e) ↦ inl (ground (arith, q), inr (ground arith))
        | inl (slot, e) ↦
            let n = int_of_uint slot.slot_number in
            elim (Reply-cases (P.hsm_generate algorithm size label n w1.env).0) [
              | inr (x, g) ↦ inr (n, inl (x, ground (arith, q), ground arith))
              | inl ((pk, handle), g) ↦ inr (n, inr (pk, handle, ground (arith, q), ground arith))
            ]
      ]

  -- `CreateHSMKey` on every branch: it touches nothing and is refused, or it asks the HSM once for
  -- a key pair under the given label. An error becomes HSM_OPERATION_FAILED; else the entity with
  -- the pair's public key and handle is returned, and nothing is saved.
  pub create_hsm_key-Creates :
      (label algorithm : String) (size : ℤ) (tenant_id : String) (w : World W)
      → let r = create_hsm_key P label algorithm size tenant_id w in
        CreatesObject label algorithm size tenant_id r.0 (effects w.trace) (effects r.1.trace)
  unfolding create_hsm_key ◌>>=◌ hsm_service.Services.HsmKeys.audited
  create_hsm_key-Creates label algorithm size tenant_id w =
      rw (audit_unseen _ _ (create_body P label algorithm size tenant_id w).1)
        (create_body-Creates label algorithm size tenant_id w)

  -- When `ListHSMKeys` returns, the HSM listed the keys of some slot, and the returned ones are
  -- those among them with the tenant's id, in the same order: no other tenant's key is shown, and
  -- none of the tenant's own is left out.
  pub list_hsm_keys-Isolates :
      (tenant_id : String) (w : World W) (shown : List HsmKey)
      → (list_hsm_keys P tenant_id w).0 ≡ returned shown
      → (n : ℤ) × (e : W) × (keys : List HsmKey) × ((P.hsm_list n e).0 ≡ ok keys)
        × (shown ≡ filter (same_tenant tenant_id) keys)
        × ((key : HsmKey) → Mem key shown ↔ (Mem key keys × (key.tenant_id ≡ tenant_id)))
  unfolding list_hsm_keys list_body ◌>>=◌
  list_hsm_keys-Isolates tenant_id w shown h =
      let (s, w1) = tenant_slot P slot_error_kept tenant_id w in
      elim (Outcome-cases s) [
        | inr (inl (x, e)) ↦ absurd (ground arith)
        | inr (inr e) ↦ absurd (ground arith)
        | inl (slot, e) ↦
            let n = int_of_uint slot.slot_number in
            elim (Reply-cases (P.hsm_list n w1.env).0) [
              | inr (x, l) ↦ absurd (ground arith)
              | inl (keys, l) ↦
                  let same : shown ≡ filter (same_tenant tenant_id) keys =
                    ground (arith, keys_of_tenant-filter tenant_id keys) in
                  (n, w1.env, keys, l, same, λ key. rw same (mem-filter (same_tenant tenant_id)))
            ]
      ]

  -- A public key that `GetHSMPublicKey` returns is that of a key that the HSM listed in some slot
  -- with this label and this tenant's id.
  pub get_hsm_public_key-Isolates :
      (label tenant_id : String) (w : World W) (public_key : Bytes)
      → (get_hsm_public_key P label tenant_id w).0 ≡ returned public_key
      → (n : ℤ) × (e : W) × (keys : List HsmKey) × ((P.hsm_list n e).0 ≡ ok keys)
        × (key : HsmKey) × Mem key keys
        × (key.label ≡ label)
        × (key.tenant_id ≡ tenant_id)
        × (key.public_key ≡ public_key)
  unfolding get_hsm_public_key public_key_body found_public_key ◌>>=◌
  get_hsm_public_key-Isolates label tenant_id w public_key h =
      let (s, w1) = tenant_slot P slot_error_kept tenant_id w in
      elim (Outcome-cases s) [
        | inr (inl (x, e)) ↦ absurd (ground arith)
        | inr (inr e) ↦ absurd (ground arith)
        | inl (slot, e) ↦
            let n = int_of_uint slot.slot_number in
            elim (Reply-cases (P.hsm_list n w1.env).0) [
              | inr (x, l) ↦ absurd (ground arith)
              | inl (keys, l) ↦
                  let (k, m, f1, f2, f3) =
                    public_key_of_sound label tenant_id keys public_key (ground arith) in
                  (n, w1.env, keys, l, k, m, f1, f2, f3)
            ]
      ]
