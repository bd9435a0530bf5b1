-- ===== src/Services/Keys/Create.antt =====
-- key_service.go, `CreateKey`: what it does to the HSM and to the repository.
use hsm_service.Prelude.{
  String, ◌≡◌, refl, ◌⊎◌, inl, inr, Bool, true, false, not, ◌&&◌, ◌||◌, if◌then◌else◌, str_eq,
  Option, none, some, List, ◌∷◌, arith, Option-cases,
}
use hsm_service.Prelude.Int.{ℤ, pos, eqb_ℤ, int_of_uint}
use hsm_service.Domain.Errors.{GoError}
use hsm_service.Domain.Entities.{
  CryptographicKey, HsmSlot, validate, is_valid_key_size, valid_sizes, one_of,
}
use hsm_service.Domain.Values.{algorithm_is_valid, usage_is_valid}
use hsm_service.Exec.{
  ok, err, Event, generated, destroyed, saved, World, Outcome, returned, failed, panicked,
  IsRefused, ◌>>=◌, Outcome-cases, Reply-cases,
}
use hsm_service.Ports.{
  Ports, audit, track, generate, destroy, save, fresh_uuid, current_time, effects,
}
use hsm_service.Services.Helpers.{tenant_slot, slot_check_error}
use hsm_service.Services.Audits.{tenant_slot-On}
use hsm_service.Services.Keys.{
  CreationContext, generation_error, key_label, new_key, create_key, checked_slot,
  save_or_roll_back, generate_and_save_key, audit_and_track_key_creation,
}

-- The keys that may be saved: a name and a tenant are there, the usage is one of three, and the size
-- is one that the algorithm has.
abbrev pub fits : CryptographicKey → Bool
fits k =
    not (str_eq k.name "")
    && (not (str_eq k.tenant_id "")
        && ((str_eq k.purpose "SIGNING"
              || (str_eq k.purpose "ENCRYPTION" || str_eq k.purpose "BOTH"))
            && (if str_eq k.algorithm "RSA"
                then eqb_ℤ k.key_size (pos 2048)
                  || (eqb_ℤ k.key_size (pos 3072) || eqb_ℤ k.key_size (pos 4096))
                else if str_eq k.algorithm "ECDSA"
                then eqb_ℤ k.key_size (pos 256)
                  || (eqb_ℤ k.key_size (pos 384) || eqb_ℤ k.key_size (pos 521))
                else str_eq k.algorithm "Ed25519" && eqb_ℤ k.key_size (pos 256))))

-- The key has what the caller asked for, is the caller's tenant's, and is active.
abbrev pub IsAsked : CreationContext → CryptographicKey → Type 0
IsAsked c key =
    (key.name ≡ c.name)
    × (key.algorithm ≡ c.algorithm)
    × (key.key_size ≡ c.size)
    × (key.purpose ≡ c.usage)
    × (key.tenant_id ≡ c.identity.tenant_id)
    × (key.is_active ≡ true)

validate-fits :
    (k : CryptographicKey)
    → ((validate k ≡ none) × (fits k ≡ true))
      ⊎ ((e : GoError) × (validate k ≡ some e) × (fits k ≡ false))
unfolding validate is_valid_key_size algorithm_is_valid usage_is_valid valid_sizes one_of
validate-fits k = elim (Option-cases (validate k)) [
  | inl v ↦ inl (v, ground (arith, v))
  | inr (e, v) ↦ inr (e, v, ground (arith, v))
]

-- How the effects of a call that makes a key may grow, with the outcome that goes with it.
pub data Creates (c : CreationContext) (o : Outcome CryptographicKey) (before after : List Event)
    : Type 0 where
  untouched : after ≡ before → IsRefused o → Creates c o before after
  not_generated :
      (label : String) (n : ℤ) (e : GoError)
      → after ≡ generated label n (err e) ∷ before
      → IsRefused o
      → Creates c o before after
  invalid :
      (n : ℤ) (key : CryptographicKey) (e : GoError) (r : Option GoError)
      → IsAsked c key
      → fits key ≡ false
      → after
        ≡ destroyed key.key_handle n r
          ∷ generated key.key_label n (ok (key.public_key, key.key_handle))
          ∷ before
      → o ≡ failed e
      → Creates c o before after
  not_saved :
      (n : ℤ) (key : CryptographicKey) (e : GoError) (r : Option GoError)
      → IsAsked c key
      → fits key ≡ true
      → after
        ≡ destroyed key.key_handle n r
          ∷ saved key (some e)
          ∷ generated key.key_label n (ok (key.public_key, key.key_handle))
          ∷ before
      → o ≡ failed e
      → Creates c o before after
  created :
      (n : ℤ) (key : CryptographicKey)
      → IsAsked c key
      → fits key ≡ true
      → after
        ≡ saved key none ∷ generated key.key_label n (ok (key.public_key, key.key_handle)) ∷ before
      → o ≡ returned key
      → Creates c o before after

module _ {W : Type 0} (P : Ports W) where
  pub slot_no_effects :
      (f : GoError → GoError) (tenant_id : String) (w : World W)
      → effects (tenant_slot P f tenant_id w).1.trace ≡ effects w.trace
  unfolding effects
  slot_no_effects f tenant_id w =
      (tenant_slot-On P (λ es. effects es ≡ effects w.trace) (λ e es h. h) (λ e es h. h) f
          tenant_id).at
        w refl

  checked_slot_no_effects :
      (c : CreationContext) (w : World W) → effects (checked_slot P c w).1.trace ≡ effects w.trace
  unfolding checked_slot ◌>>=◌
  checked_slot_no_effects c w =
      ground (arith, slot_no_effects slot_check_error c.identity.tenant_id w)

  records_no_effects :
      (o : Outcome CryptographicKey) (s : Option HsmSlot) (c : CreationContext) (w : World W)
      → effects (audit_and_track_key_creation P o s c w).trace ≡ effects w.trace
  unfolding audit_and_track_key_creation audit track effects
  records_no_effects o s c w = ground arith

  save_Creates :
      (c : CreationContext) (slot : HsmSlot) (key : CryptographicKey) (before : List Event)
      (w : World W)
      → IsAsked c key
      → effects w.trace
        ≡ generated key.key_label
            (int_of_uint slot.slot_number)
            (ok (key.public_key, key.key_handle))
          ∷ before
      → let r = save_or_roll_back P slot key w in Creates c r.0 before (effects r.1.trace)
  unfolding save_or_roll_back ◌>>=◌ destroy save effects
  save_Creates c slot key before w asked hw = elim (validate-fits key) [
    | inr (e, v, f) ↦
        invalid (int_of_uint slot.slot_number) key e
          (P.hsm_delete key.key_handle (int_of_uint slot.slot_number) w.env).0 asked f
          (ground arith) (ground arith)
    | inl (v, f) ↦ elim (Option-cases (P.save_key key w.env).0) [
      | inl s ↦ created (int_of_uint slot.slot_number) key asked f (ground arith) (ground arith)
      | inr (e, s) ↦
          not_saved (int_of_uint slot.slot_number) key e
            (P.hsm_delete key.key_handle (int_of_uint slot.slot_number) (P.save_key key w.env).1).0
            asked f (ground arith) (ground arith)
    ]
  ]

  generate_Creates :
      (c : CreationContext) (slot : HsmSlot) (w : World W)
      → let r = generate_and_save_key P c slot w in
        Creates c r.0 (effects w.trace) (effects r.1.trace)
  unfolding generate_and_save_key ◌>>=◌ generate fresh_uuid current_time new_key effects
  generate_Creates c slot w =
      let (uuid, w1) = P.new_uuid w.env in
      let n = int_of_uint slot.slot_number in
      let (reply, w2) = P.hsm_generate c.algorithm c.size (key_label c uuid) n w1 in
      elim (Reply-cases reply) [
        | inr (e, g) ↦
            not_generated (key_label c uuid) n e (ground arith)
              (inl (generation_error, ground arith))
        | inl ((pk, handle), g) ↦
            let (id, w3) = P.new_uuid w2 in
            let (now, w4) = P.now w3 in
            let key = new_key c slot (key_label c uuid) pk handle id now in
            rw g (
              save_Creates c slot key (effects w.trace)
                (record {
                  env = w4;
                  trace = generated (key_label c uuid) n (ok (pk, handle)) ∷ w.trace;
                })
                (refl, refl, refl, refl, refl, refl) (ground arith))
      ]

  -- `CreateKey` on every branch. Either the HSM and the repository were not written; or the HSM
  -- refused to generate; or it generated a pair that was deleted again from the same slot, because
  -- the entity does not fit (a name, a tenant, a known usage, and a size of its algorithm), or
  -- because it fits and the repository did not save it; and in these cases no key is returned. Or the
  -- returned key, which fits, is active, of the caller's tenant and as it was asked for, was generated
  -- under its own label and then saved, and nothing was deleted.
  pub create_key-Creates :
      (c : CreationContext) (w : World W)
      → let r = create_key P c w in Creates c r.0 (effects w.trace) (effects r.1.trace)
  unfolding create_key
  create_key-Creates c w =
      let (s, w1) = checked_slot P c w in
      let q = checked_slot_no_effects c w in
      elim (Outcome-cases s) [
        | inl (slot, e) ↦ rw (e, records_no_effects _ _ c _, ← q) (generate_Creates c slot w1)
        | inr (inl (x, e)) ↦
            untouched (ground (arith, q, records_no_effects (failed x) none c w1))
              (inl (x, ground arith))
        | inr (inr e) ↦
            untouched (ground (arith, q, records_no_effects panicked none c w1))
              (inr (ground arith))
      ]
