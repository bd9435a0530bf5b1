-- ===== src/Exec/Keeps.antt =====
-- Invariants of calls, with one rule for each way to build a call.
use hsm_service.Prelude.{Bool, true, false, Option, none, some, if◌then◌else◌}
use hsm_service.Domain.Errors.{GoError}
use hsm_service.Exec.{
  Reply, World, Outcome, returned, failed, panicked, Exec, pure, fail, deref, lift, rethrow,
  deferring, rescue, ignoring, handle, continue, ◌>>=◌,
}

-- `m` keeps `P`, however it ends.
pub record Keeps {W A : Type 0} (P : World W → Type 0) (m : Exec W A) : Type 0 where
  pub at : (w : World W) → P w → P (m w).1

handle_keeps :
    {W A : Type 0} {P : World W → Type 0} (o : Outcome A) (f : GoError → Exec W A)
    → ((e : GoError) → Keeps P (f e))
    → (w : World W) → P w
    → P (handle o f w).1
handle_keeps (returned a) f k w h = h
handle_keeps (failed e) f k w h = (k e).at w h
handle_keeps panicked f k w h = h

module _ {W A : Type 0} {P : World W → Type 0} where
  pub Keeps-pure : (a : A) → Keeps P (pure a)
  unfolding pure
  Keeps-pure a = record { at = λ w h. h }

  pub Keeps-fail : (e : GoError) → Keeps P (fail {A = A} e)
  unfolding fail
  Keeps-fail e = record { at = λ w h. h }

  pub Keeps-deref : (o : Option A) → Keeps P (deref o)
  unfolding deref
  Keeps-deref none = record { at = λ w h. h }
  Keeps-deref (some a) = record { at = λ w h. h }

  pub Keeps-lift : (r : Reply A) → Keeps P (lift r)
  unfolding lift
  Keeps-lift r = record { at = λ w h. h }

  pub Keeps-rethrow : (f : GoError → GoError) (m : Exec W A) → Keeps P m → Keeps P (rethrow f m)
  unfolding rethrow
  Keeps-rethrow f m k = record { at = λ w h. k.at w h }

  pub Keeps-deferring :
      (m : Exec W A) (d : Outcome A → World W → World W)
      → Keeps P m
      → ((o : Outcome A) (w : World W) → P w → P (d o w))
      → Keeps P (deferring m d)
  unfolding deferring
  Keeps-deferring m d k kd = record { at = λ w h. kd (m w).0 (m w).1 (k.at w h) }

  pub Keeps-rescue :
      (m : Exec W A) (f : GoError → Exec W A)
      → Keeps P m
      → ((e : GoError) → Keeps P (f e))
      → Keeps P (rescue m f)
  unfolding rescue
  Keeps-rescue m f k kf = record { at = λ w h. handle_keeps (m w).0 f kf (m w).1 (k.at w h) }

  pub Keeps-ignoring : (m : Exec W A) → Keeps P m → Keeps P (ignoring m)
  unfolding ignoring
  Keeps-ignoring m k = record { at = λ w h. k.at w h }

  pub Keeps-if : (b : Bool) (m n : Exec W A) → Keeps P m → Keeps P n → Keeps P (if b then m else n)
  Keeps-if true m n km kn = km
  Keeps-if false m n km kn = kn

module _ {W A B : Type 0} {P : World W → Type 0} where
  pub continue_keeps :
      (o : Outcome A) (f : A → Exec W B)
      → ((a : A) → Keeps P (f a))
      → (w : World W) → P w
      → P (continue o f w).1
  continue_keeps (returned a) f k w h = (k a).at w h
  continue_keeps (failed e) f k w h = h
  continue_keeps panicked f k w h = h

  pub Keeps-bind :
      (m : Exec W A) (f : A → Exec W B) → Keeps P m → ((a : A) → Keeps P (f a)) → Keeps P (m >>= f)
  unfolding ◌>>=◌
  Keeps-bind m f km kf = record { at = λ w h. continue_keeps (m w).0 f kf (m w).1 (km.at w h) }

pub ruleset keeps_rules = (
  Keeps-pure, Keeps-fail, Keeps-deref, Keeps-lift, Keeps-rethrow, Keeps-deferring, Keeps-rescue,
  Keeps-ignoring, Keeps-if, Keeps-bind,
)
