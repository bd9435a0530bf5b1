-- ===== src/Services/Slots/Provision/Writes.antt =====
-- `InitializeSlot`: the writes of its calls to the slot repositories.
use hsm_service.Prelude.{ℕ, String, ◌≡◌, refl, ap, ◌∙◌, inl, inr, ◌⊎◌, List, arith}
use hsm_service.Domain.Errors.{GoError}
use hsm_service.Domain.Entities.{HsmSlot}
use hsm_service.Exec.{
  Reply, ok, err, Outcome, returned, failed, panicked, IsRefused, on_error, answer,
}
use hsm_service.Services.Slots.{Write}
use hsm_service.Services.Slots.Creation.{CreatesSlot}

-- The writes of a call that makes its value of a new slot by `out`.
pub data InitializesSlot {A : Type 0} (out : HsmSlot → A) (label : String) (o : Outcome A)
    (before after : List Write) : Type 0 where
  unwritten : IsRefused o → after ≡ before → InitializesSlot out label o before after
  not_created :
      (number : ℕ) (e : GoError)
      → IsRefused o
      → CreatesSlot number label (err e) before after
      → InitializesSlot out label o before after
  left_behind :
      (number : ℕ) (slot : HsmSlot)
      → IsRefused o
      → CreatesSlot number label (ok slot) before after
      → InitializesSlot out label o before after
  provided :
      (number : ℕ) (slot : HsmSlot)
      → o ≡ returned (out slot)
      → CreatesSlot number label (ok slot) before after
      → InitializesSlot out label o before after

on_error-IsRefused :
    {A : Type 0} (f : GoError → GoError) (o : Outcome A) → IsRefused o → IsRefused (on_error f o)
on_error-IsRefused f (returned a) (inl (e, h)) = absurd (ground (arith, h))
on_error-IsRefused f (returned a) (inr h) = absurd (ground (arith, h))
on_error-IsRefused f (failed e) h = inl (f e, refl)
on_error-IsRefused f panicked h = inr refl

not_refused : {A : Type 0} (a : A) → IsRefused (returned a) → ⊥
not_refused a (inl (e, h)) = ground (arith, h)
not_refused a (inr h) = ground (arith, h)

pub rethrow-Initializes :
    {A : Type 0} {out : HsmSlot → A} {label : String} {before : List Write} (f : GoError → GoError)
    (o : Outcome A) (after : List Write)
    → InitializesSlot out label o before after
    → InitializesSlot out label (on_error f o) before after
rethrow-Initializes f o after (unwritten r h) = unwritten (on_error-IsRefused f o r) h
rethrow-Initializes f o after (not_created number e r h) =
    not_created number e (on_error-IsRefused f o r) h
rethrow-Initializes f o after (left_behind number slot r h) =
    left_behind number slot (on_error-IsRefused f o r) h
rethrow-Initializes f o after (provided number slot e h) =
    provided number slot (ap (on_error f) e) h

-- A call that gave no slot ends the next one in the same way.
pub refused-Initializes :
    {A : Type 0} {out : HsmSlot → A} {label : String} {before after : List Write}
    (o : Outcome HsmSlot) (o' : Outcome A)
    → ((slot : HsmSlot) → o ≡ returned slot → ⊥)
    → IsRefused o'
    → InitializesSlot (λ slot. slot) label o before after
    → InitializesSlot out label o' before after
refused-Initializes o o' never r' (unwritten r h) = unwritten r' h
refused-Initializes o o' never r' (not_created number e r h) = not_created number e r' h
refused-Initializes o o' never r' (left_behind number slot r h) = left_behind number slot r' h
refused-Initializes o o' never r' (provided number slot e h) = absurd (never slot e)

-- What comes after a slot is there: nothing more is written, and its value is the slot's or none.
pub slot-Initializes :
    {A : Type 0} {out : HsmSlot → A} {label : String} {before after : List Write} (slot : HsmSlot)
    (o' : Outcome A)
    → IsRefused o' ⊎ (o' ≡ returned (out slot))
    → InitializesSlot (λ slot. slot) label (returned slot) before after
    → InitializesSlot out label o' before after
slot-Initializes slot o' k (unwritten r h) = absurd (not_refused slot r)
slot-Initializes slot o' k (not_created number e r h) = absurd (not_refused slot r)
slot-Initializes slot o' k (left_behind number s r h) = absurd (not_refused slot r)
slot-Initializes slot o' (inl r) (provided number s e h) = left_behind number s r h
slot-Initializes {out = out} slot o' (inr q) (provided number s e h) =
    let same : slot ≡ s = ground (arith, e) in
    provided number s (q ∙ ap (λ x. returned (out x)) same) h

pub reply-Initializes :
    {before : List Write} (number : ℕ) (label : String) (r : Reply HsmSlot) (after : List Write)
    → CreatesSlot number label r before after
    → InitializesSlot (λ slot. slot) label (answer r) before after
reply-Initializes number label (ok slot) after h = provided number slot refl h
reply-Initializes number label (err e) after h = not_created number e (inl (e, refl)) h
