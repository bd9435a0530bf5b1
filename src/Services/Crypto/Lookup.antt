-- ===== src/Services/Crypto/Lookup.antt =====
-- crypto_service.go: the key that an operation finds by its label, and the rule for its use.
use hsm_service.Prelude.{
  String, ◌≡◌, refl, ◌∙◌, ap, ◌⊎◌, inl, inr, none, some, List, [], ◌∷◌, arith, eq_iff,
}
use hsm_service.Prelude.Int.{ℤ, int_of_uint}
use hsm_service.Domain.Errors.{GoError}
use hsm_service.Domain.Entities.{HsmKey, HsmSlot}
use hsm_service.Exec.{
  Reply, ok, Event, World, Outcome, returned, answer, on_error, IsRefused, Exec, ◌>>=◌,
  Outcome-cases, Reply-cases,
}
use hsm_service.Ports.{Ports, audit, hsm_calls}
use hsm_service.Services.Helpers.{tenant_slot, slot_check_error}
use hsm_service.Services.Signing.Uses.{quiet_slot}
use hsm_service.Services.Crypto.{
  find_by_label, get_hsm_key_by_label, usable_key, validate_key_usage_for_operation,
  audited_operation,
}

find_by_label_sound :
    (label tenant_id : String) (keys : List HsmKey) (key : HsmKey)
    → find_by_label label tenant_id keys ≡ some key
    → (key.label ≡ label) × (key.tenant_id ≡ tenant_id)
unfolding find_by_label
find_by_label_sound label tenant_id [] key h = absurd (cc)
find_by_label_sound label tenant_id (k ∷ rest) key h = ground (
  arith,
  eq_iff k.label label,
  eq_iff k.tenant_id tenant_id,
  find_by_label_sound label tenant_id rest key,
)

module _ {W : Type 0} (P : Ports W) where
  -- The key is one that the HSM listed in some slot, the first there with this label and tenant.
  abbrev pub Listed : String → String → HsmKey → Type 0
  Listed label tenant_id key =
      (n : ℤ) × (e : W) × (keys : List HsmKey) × ((P.hsm_list n e).0 ≡ ok keys)
      × (find_by_label label tenant_id keys ≡ some key)

  by_label_quiet :
      (label tenant_id : String) (w : World W)
      → hsm_calls (get_hsm_key_by_label P label tenant_id w).1.trace ≡ hsm_calls w.trace
  unfolding get_hsm_key_by_label ◌>>=◌
  by_label_quiet label tenant_id w = ground (arith, quiet_slot P slot_check_error tenant_id w)

  by_label_Listed :
      (label tenant_id : String) (w : World W) (key : HsmKey)
      → (get_hsm_key_by_label P label tenant_id w).0 ≡ returned key
      → Listed label tenant_id key
  unfolding get_hsm_key_by_label ◌>>=◌
  by_label_Listed label tenant_id w key h =
      let (s, w1) = tenant_slot P slot_check_error tenant_id w in
      elim (Outcome-cases s) [
        | inr (inl (x, e)) ↦ absurd (ground arith)
        | inr (inr e) ↦ absurd (ground arith)
        | inl (slot, e) ↦
            let n = int_of_uint slot.slot_number in
            elim (Reply-cases (P.hsm_list n w1.env).0) [
              | inr (x, l) ↦ absurd (ground arith)
              | inl (keys, l) ↦ (n, w1.env, keys, l, ground arith)
            ]
      ]

  usable_quiet :
      (label tenant_id required : String) (w : World W)
      → hsm_calls (usable_key P label tenant_id required w).1.trace ≡ hsm_calls w.trace
  unfolding usable_key ◌>>=◌
  usable_quiet label tenant_id required w =
      let w1 = (get_hsm_key_by_label P label tenant_id w).1 in
      ground (arith, by_label_quiet label tenant_id w, quiet_slot P slot_check_error tenant_id w1)

  usable_returned :
      (label tenant_id required : String) (w : World W) (key : HsmKey) (slot : HsmSlot)
      → (usable_key P label tenant_id required w).0 ≡ returned (key, slot)
      → ((get_hsm_key_by_label P label tenant_id w).0 ≡ returned key)
        × (validate_key_usage_for_operation key required ≡ none)
  unfolding usable_key ◌>>=◌
  usable_returned label tenant_id required w key slot h = ground arith

  -- The outcome `o` and the HSM calls `calls` at the end of an operation that began in `w`: no key
  -- was used and no value returned; or one key was used, listed by the HSM under this label and
  -- tenant and usable for the operation, by the one call `call key n reply`.
  abbrev pub Uses :
      {A : Type 0}
      → String
      → String
      → String
      → (HsmKey → ℤ → Reply A → Event)
      → GoError
      → World W
      → Outcome A
      → List Event
      → Type 0
  Uses {A} label tenant_id required call failure w o calls =
      ((calls ≡ hsm_calls w.trace) × IsRefused o)
      ⊎ ((key : HsmKey) × (n : ℤ) × (reply : Reply A) × Listed label tenant_id key
          × (key.label ≡ label)
          × (key.tenant_id ≡ tenant_id)
          × ((key.usage ≡ required) ⊎ (key.usage ≡ "BOTH"))
          × (calls ≡ call key n reply ∷ hsm_calls w.trace)
          × (o ≡ on_error (λ _. failure) (answer reply)))

  usage_allows :
      (key : HsmKey) (required : String)
      → validate_key_usage_for_operation key required ≡ none
      → (key.usage ≡ required) ⊎ (key.usage ≡ "BOTH")
  unfolding validate_key_usage_for_operation
  usage_allows key required h = ground (arith, eq_iff key.usage required, eq_iff key.usage "BOTH")

  -- The rule for an operation: after the shared steps it is one call to the HSM.
  pub body_Uses :
      {A : Type 0} (label tenant_id required : String) (call : HsmKey → ℤ → Reply A → Event)
      (failure : GoError) (port : HsmKey → ℤ → W → Reply A × W) (body : Exec W A)
      → ((w : World W)
          → body w
            ≡ (usable_key P label tenant_id required >>= λ p w'.
                  let n = int_of_uint (p.1).slot_number in
                  let (r, e) = port p.0 n w'.env in
                  (
                    on_error (λ _. failure) (answer r),
                    record { env = e; trace = call p.0 n r ∷ w'.trace },
                  ))
                w)
      → ((key : HsmKey) (n : ℤ) (r : Reply A) (es : List Event)
          → hsm_calls (call key n r ∷ es) ≡ call key n r ∷ hsm_calls es)
      → (w : World W)
      → Uses label tenant_id required call failure w (body w).0 (hsm_calls (body w).1.trace)
  unfolding ◌>>=◌
  body_Uses label tenant_id required call failure port body shape seen w =
      let (u, w1) = usable_key P label tenant_id required w in
      let q = usable_quiet label tenant_id required w in
      rw (shape w) (elim (Outcome-cases u) [
        | inr (inl (x, e)) ↦ rw (e, q) (inl (refl, inl (x, refl)))
        | inr (inr e) ↦ rw (e, q) (inl (refl, inr refl))
        | inl ((key, slot), e) ↦
            let n = int_of_uint slot.slot_number in
            let facts = usable_returned label tenant_id required w key slot e in
            let listed = by_label_Listed label tenant_id w key facts.0 in
            let (r, e') = port key n w1.env in
            let named = find_by_label_sound label tenant_id listed.2 key listed.4 in
            inr (
              key,
              n,
              r,
              listed,
              named.0,
              named.1,
              usage_allows key required facts.1,
              rw e (seen key n r w1.trace ∙ ap (λ (es : List Event). call key n r ∷ es) q),
              rw e,
            )
      ])

  pub audited_quiet :
      {A : Type 0} (label operation : String) (body : Exec W A) (w : World W)
      → hsm_calls (audited_operation P label operation body w).1.trace ≡ hsm_calls (body w).1.trace
  unfolding audited_operation ◌>>=◌ audit hsm_calls
  audited_quiet label operation body w = ground arith
