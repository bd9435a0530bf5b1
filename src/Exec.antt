-- ===== src/Exec.antt =====
-- How the services run: a call returns a value, returns a Go error, or panics, and changes the
-- world. The world is what lies behind the ports, and the trace of the calls that leave the
-- services, newest first. What was done before an error or a panic stays done.
pub mod Keeps
use hsm_service.Prelude.{◌≡◌, refl, ◌⊎◌, inl, inr, ℕ, String, Bool, Option, none, some, List, ◌∷◌}
use hsm_service.Prelude.Int.{ℤ}
use hsm_service.Domain.Errors.{GoError}
use hsm_service.Domain.Values.{IdentityContext}
use hsm_service.Domain.Entities.{Bytes, CryptographicKey, AuditData, KeyOperation}

-- What a port answers: a value, or an error.
pub data Reply {ℓ} (A : Type ℓ) : Type ℓ where
  ok : A → Reply A
  err : GoError → Reply A

-- The calls that leave the services: audit records, tracked operations, calls to the HSM (with the
-- slot) and writes to the key repository. A call is listed with its answer where it has one.
pub data Event : Type 0 where
  audited : AuditData → Option IdentityContext → Event
  tracked : KeyOperation → Event
  generated : String → ℤ → Reply (Bytes × String) → Event
  destroyed : String → ℤ → Option GoError → Event
  signed : String → Bytes → ℤ → Reply Bytes → Event
  verified : String → Bytes → Bytes → ℤ → Reply Bool → Event
  encrypted : String → Bytes → ℤ → Reply Bytes → Event
  decrypted : String → Bytes → ℤ → Reply Bytes → Event
  saved : CryptographicKey → Option GoError → Event
  removed : String → Option GoError → Event

pub record World (W : Type 0) : Type 0 where
  pub env : W
  pub trace : List Event

pub data Outcome {ℓ} (A : Type ℓ) : Type ℓ where
  returned : A → Outcome A
  failed : GoError → Outcome A
  panicked : Outcome A

abbrev pub Exec : Type 0 → Type 0 → Type 0
Exec W A = World W → Outcome A × World W

module _ {A : Type 0} where
  abbrev pub answer : Reply A → Outcome A
  answer (ok a) = returned a
  answer (err e) = failed e

  -- What Go's named result `err` holds when the deferred functions run.
  abbrev pub outcome_error : Outcome A → Option GoError
  outcome_error (returned a) = none
  outcome_error (failed e) = some e
  outcome_error panicked = none

  abbrev pub on_error : (GoError → GoError) → Outcome A → Outcome A
  on_error f (returned a) = returned a
  on_error f (failed e) = failed (f e)
  on_error f panicked = panicked

  -- The call gave no value: an error, or a panic.
  abbrev pub IsRefused : Outcome A → Type 0
  IsRefused o = ((e : GoError) × (o ≡ failed e)) ⊎ (o ≡ panicked)

  pub Outcome-cases :
      (o : Outcome A)
      → ((a : A) × (o ≡ returned a)) ⊎ (((e : GoError) × (o ≡ failed e)) ⊎ (o ≡ panicked))
  Outcome-cases (returned a) = inl (a, refl)
  Outcome-cases (failed e) = inr (inl (e, refl))
  Outcome-cases panicked = inr (inr refl)

  pub Reply-cases : (r : Reply A) → ((a : A) × (r ≡ ok a)) ⊎ ((e : GoError) × (r ≡ err e))
  Reply-cases (ok a) = inl (a, refl)
  Reply-cases (err e) = inr (e, refl)

module _ {W A : Type 0} where
  unfoldable pub pure : A → Exec W A
  pure a w = (returned a, w)

  unfoldable pub fail : GoError → Exec W A
  fail e w = (failed e, w)

  -- `*p`: a nil pointer panics.
  unfoldable pub deref : Option A → Exec W A
  deref none w = (panicked, w)
  deref (some a) w = (returned a, w)

  unfoldable pub lift : Reply A → Exec W A
  lift r w = (answer r, w)

  -- A call to a port that the trace does not show.
  unfoldable pub ask : (W → Reply A × W) → Exec W A
  ask port w = let (r, e) = port w.env in (answer r, record w { env = e })

  -- `if err != nil { return f(err) }` after a call.
  unfoldable pub rethrow : (GoError → GoError) → Exec W A → Exec W A
  rethrow f m w = let (o, w') = m w in (on_error f o, w')

  -- `defer d(&err)`: run when the function returns, and when it panics.
  unfoldable pub deferring : Exec W A → (Outcome A → World W → World W) → Exec W A
  deferring m d w = let (o, w') = m w in (o, d o w')

  abbrev pub handle : Outcome A → (GoError → Exec W A) → Exec W A
  handle (returned a) handler w = (returned a, w)
  handle (failed e) handler w = handler e w
  handle panicked handler w = (panicked, w)

  -- `if err := m(); err != nil { … }` with work to do before the return.
  unfoldable pub rescue : Exec W A → (GoError → Exec W A) → Exec W A
  rescue m handler w = let (o, w') = m w in handle o handler w'

  -- A call whose error is dropped, and the rest goes on.
  unfoldable pub ignoring : Exec W A → Exec W (Unit {0})
  ignoring m w = (returned tt, (m w).1)

module _ {W A B : Type 0} where
  abbrev pub continue : Outcome A → (A → Exec W B) → Exec W B
  continue (returned a) f w = f a w
  continue (failed e) f w = (failed e, w)
  continue panicked f w = (panicked, w)

  infixl 5 ◌>>=◌ ◌>>◌
  -- To open this is to open the other ways to build a call.
  unfoldable pub ◌>>=◌ : Exec W A → (A → Exec W B) → Exec W B
  unfolding pure fail deref lift ask rethrow deferring rescue ignoring
  ◌>>=◌ m f w = let (o, w') = m w in continue o f w'

  abbrev pub ◌>>◌ : Exec W A → Exec W B → Exec W B
  m >> k = m >>= λ _. k
