-- ===== src/Services/Keys/InsertOnly.antt =====
-- key_service.go over a repository whose `Save` only inserts, as the one of
-- internal/infrastructure/storage/mysql/key_storage.go does.
use hsm_service.Prelude.{String, ◌≡◌, refl, inl, inr, Option, none, some, arith}
use hsm_service.Domain.Errors.{GoError}
use hsm_service.Domain.Values.{IdentityContext}
use hsm_service.Domain.Entities.{
  CryptographicKey, HsmSlot, Tenant, AuditData, KeyOperation, Bytes, deactivate,
}
use hsm_service.Prelude.Int.{ℤ, int_of_uint}
use hsm_service.Exec.{
  Reply, ok, World, Outcome, outcome_error, IsRefused, ask, continue, ◌>>=◌, Outcome-cases,
  Reply-cases,
}
use hsm_service.Exec.Keeps.{
  Keeps, Keeps-deferring, Keeps-bind, Keeps-rethrow, continue_keeps, Keeps-fail, Keeps-pure,
  Keeps-deref,
}
use hsm_service.Ports.{Ports, audit, track, generate, destroy, save, fresh_uuid, current_time}
use hsm_service.Services.Helpers.{
  get_tenant_with_audit, get_slot_with_audit, tenant_slot, slot_error_kept, slot_check_error,
}
use hsm_service.Services.Keys.{
  CreationContext, key_label, creation_operation, value_of, create_key, checked_slot,
  save_or_roll_back, generate_and_save_key, audit_and_track_key_creation, track_creation, rotation,
  retire, rotate_key, rotate_body,
}

-- `Holds id e`: in `e` the repository has a key with this id. A key that is found is held, no call
-- before the last save of a rotation takes a key away, and a held id is not saved again.
pub record InsertsOnly {W : Type 0} (P : Ports W) : Type 1 where
  pub Holds : String → W → Type 0
  pub found_held :
      (id tenant_id : String) (e : W) (k : CryptographicKey)
      → (P.find_key id tenant_id e).0 ≡ ok k
      → Holds k.id (P.find_key id tenant_id e).1
  pub refuses :
      (k : CryptographicKey) (e : W) → Holds k.id e → (x : GoError) × ((P.save_key k e).0 ≡ some x)
  pub after_save :
      (id : String) (k : CryptographicKey) (e : W) → Holds id e → Holds id (P.save_key k e).1
  pub after_tenant : (id t : String) (e : W) → Holds id e → Holds id (P.find_tenant t e).1
  pub after_slot : (id s : String) (e : W) → Holds id e → Holds id (P.find_slot s e).1
  pub after_operation :
      (id : String) (op : KeyOperation) (e : W) → Holds id e → Holds id (P.save_operation op e).1
  pub after_audit :
      (id : String) (d : AuditData) (i : Option IdentityContext) (e : W)
      → Holds id e
      → Holds id (P.audit_operation d i e)
  pub after_generate :
      (id a l : String) (n s : ℤ) (e : W) → Holds id e → Holds id (P.hsm_generate a n l s e).1
  pub after_hsm_delete :
      (id h : String) (s : ℤ) (e : W) → Holds id e → Holds id (P.hsm_delete h s e).1
  pub after_uuid : (id : String) (e : W) → Holds id e → Holds id (P.new_uuid e).1
  pub after_now : (id : String) (e : W) → Holds id e → Holds id (P.now e).1

module _ {W : Type 0} (P : Ports W) (L : InsertsOnly P) (id : String) where
  abbrev Held : World W → Type 0
  Held w = L.Holds id w.env

  audit-Held :
      (d : AuditData) (i : Option IdentityContext) (w : World W) → Held w → Held (audit P d i w)
  unfolding audit
  audit-Held d i w h = ground (arith, L.after_audit id d i w.env h)

  ask-Held :
      {A : Type 0} (port : W → Reply A × W)
      → ((e : W) → L.Holds id e → L.Holds id (port e).1)
      → Keeps Held (ask port)
  unfolding ask
  ask-Held port k = record { at = λ w h. k w.env h }

  tenant-Held : (t : String) → Keeps Held (get_tenant_with_audit P t)
  unfolding get_tenant_with_audit
  tenant-Held t =
      Keeps-deferring _ _
        (Keeps-bind {A = Option Tenant} _ _
          (Keeps-rethrow _ _ (ask-Held (P.find_tenant t) (L.after_tenant id t)))
          (elim [ none ↦ Keeps-fail _ | some t ↦ Keeps-pure t ]))
        (λ o w h. audit-Held _ none w h)

  slot-Held : (s : String) → Keeps Held (get_slot_with_audit P s)
  unfolding get_slot_with_audit
  slot-Held s =
      Keeps-deferring _ _
        (Keeps-bind {A = Option HsmSlot} _ _
          (Keeps-rethrow _ _ (ask-Held (P.find_slot s) (L.after_slot id s)))
          (elim [ none ↦ Keeps-fail _ | some t ↦ Keeps-pure t ]))
        (λ o w h. audit-Held _ none w h)

  tenant_slot-Held : (f : GoError → GoError) (t : String) → Keeps Held (tenant_slot P f t)
  unfolding tenant_slot
  tenant_slot-Held f t =
      Keeps-bind _ _ (Keeps-rethrow _ _ (tenant-Held t)) λ tenant.
        Keeps-bind _ _ (Keeps-deref tenant.hsm_slot_id) λ s. Keeps-rethrow f _ (slot-Held s)

  checked_slot-Held : (c : CreationContext) → Keeps Held (checked_slot P c)
  unfolding checked_slot ◌>>=◌
  checked_slot-Held c = record {
    at = λ w h. ground (arith, h, (tenant_slot-Held slot_check_error c.identity.tenant_id).at w h);
  }

  uuid-Held : Keeps Held (fresh_uuid P)
  unfolding fresh_uuid
  uuid-Held = record { at = λ w h. L.after_uuid id w.env h }

  now-Held : Keeps Held (current_time P)
  unfolding current_time
  now-Held = record { at = λ w h. L.after_now id w.env h }

  pair-Held : (a l : String) (n s : ℤ) → Keeps Held (generate P a n l s)
  unfolding generate
  pair-Held a l n s = record { at = λ w h. L.after_generate id a l n s w.env h }

  save_or_roll_back-Held :
      (slot : HsmSlot) (key : CryptographicKey) → Keeps Held (save_or_roll_back P slot key)
  unfolding save_or_roll_back ◌>>=◌ save destroy
  save_or_roll_back-Held slot key = record {
    at = λ w h.
        let n = int_of_uint slot.slot_number in
        let h1 = L.after_save id key w.env h in
        ground (
          arith,
          L.after_hsm_delete id key.key_handle n w.env h,
          h1,
          L.after_hsm_delete id key.key_handle n (P.save_key key w.env).1 h1,
        );
  }

  generate-Held :
      (c : CreationContext) (slot : HsmSlot) → Keeps Held (generate_and_save_key P c slot)
  unfolding generate_and_save_key
  generate-Held c slot = Keeps-bind _ _ (uuid-Held) λ u.
      Keeps-bind {A = Bytes × String} _ _
        (Keeps-rethrow _ _ (pair-Held c.algorithm (key_label c u) c.size _))
        λ r.
          Keeps-bind _ _ uuid-Held λ i. Keeps-bind _ _ now-Held λ t. save_or_roll_back-Held slot _

  track-Held : (op : KeyOperation) (w : World W) → Held w → Held (track P op w)
  unfolding track
  track-Held op w h = ground (arith, L.after_operation id op w.env h)

  track_creation-Held :
      (k : Option CryptographicKey) (e : Option GoError) (c : CreationContext) (w : World W)
      → Held w
      → Held (track_creation P k e c w)
  unfolding track_creation
  track_creation-Held none e c w h = h
  track_creation-Held (some key) e c w h =
      ground (arith, track-Held (creation_operation e key c) w h)

  records-Held :
      (o : Outcome CryptographicKey) (s : Option HsmSlot) (c : CreationContext) (w : World W)
      → Held w
      → Held (audit_and_track_key_creation P o s c w)
  unfolding audit_and_track_key_creation
  records-Held o s c w h =
      track_creation-Held (value_of o) (outcome_error o) c _ (audit-Held _ (some c.identity) w h)

  create_key-Held : (c : CreationContext) → Keeps Held (create_key P c)
  unfolding create_key
  create_key-Held c = record {
    at = λ w h.
        let (s, w1) = checked_slot P c w in
        let r = continue s (generate_and_save_key P c) w1 in
        records-Held r.0 (value_of s) c r.1 (
          continue_keeps {P = Held} s (generate_and_save_key P c) (generate-Held c) w1
            ((checked_slot-Held c).at w h));
  }

  -- The last step of a rotation fails where the old key's id is held.
  retire-IsRefused :
      (existing key : CryptographicKey) (slot : HsmSlot) (w : World W)
      → existing.id ≡ id
      → Held w
      → IsRefused (retire P existing key slot w).0
  unfolding retire ◌>>=◌ save deactivate
  retire-IsRefused existing key slot w e h =
      let (x, r) = L.refuses (deactivate existing) w.env (rw e h) in inl (x, ground (arith, r))

  rotation-IsRefused :
      (existing : CryptographicKey) (identity : IdentityContext) (w : World W)
      → existing.id ≡ id
      → Held w
      → IsRefused
          ((do
            key ← create_key P (rotation existing identity)
            slot ← tenant_slot P slot_error_kept identity.tenant_id
            retire P existing key slot)
            w).0
  unfolding ◌>>=◌
  rotation-IsRefused existing identity w same h =
      let (o, w1) = create_key P (rotation existing identity) w in
      let h1 = (create_key-Held (rotation existing identity)).at w h in
      let (s, w2) = tenant_slot P slot_error_kept identity.tenant_id w1 in
      let h2 = (tenant_slot-Held slot_error_kept identity.tenant_id).at w1 h1 in
      elim (Outcome-cases o) [
        | inr (inl (x, e)) ↦ rw e (inl (x, refl))
        | inr (inr e) ↦ rw e (inr refl)
        | inl (key, e) ↦ elim (Outcome-cases s) [
          | inr (inl (x, k)) ↦ rw (e, k) (inl (x, refl))
          | inr (inr k) ↦ rw (e, k) (inr refl)
          | inl (slot, k) ↦ rw (e, k) (retire-IsRefused existing key slot w2 same h2)
        ]
      ]

module _ {W : Type 0} (P : Ports W) (L : InsertsOnly P) where
  -- Over a repository whose `Save` only inserts, `RotateKey` never returns a key: the old key's
  -- record is there, so that its save as inactive is refused.
  pub rotate_key-IsRefused :
      (key_id : String) (identity : IdentityContext) (w : World W)
      → IsRefused (rotate_key P key_id identity w).0
  unfolding rotate_key rotate_body ◌>>=◌
  rotate_key-IsRefused key_id identity w =
      let (found, e1) = P.find_key key_id identity.tenant_id w.env in
      elim (Reply-cases found) [
        | inr (e, f) ↦ rw f (inl (e, refl))
        | inl (existing, f) ↦ rw f (
            rotation-IsRefused P L existing.id existing identity (record w { env = e1 }) refl
              (L.found_held key_id identity.tenant_id w.env existing f))
      ]
