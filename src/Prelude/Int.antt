-- ===== src/Prelude/Int.antt =====
-- Go's `int` (64 bits) over the native numbers: sizes, levels and slot numbers of the program.
use Prim.Native.Nat.{ℕ, ◌-◌, ◌<◌}
use mathlib.Core.Path.{◌≡◌}
use mathlib.Core.Logic.{◌↔◌}
use mathlib.Core.Bool.{Bool, true, false}
use native.Mathlib.Omega.{arith}
use native.Mathlib.Decide.{ℕ_discrete}
use package.hsm_service.Prelude.Tests.{ltb, leb, ◌==◌, if◌then◌else◌}

-- `negsuc n` is -(n + 1).
pub data ℤ : Type 0 where
  pos : ℕ → ℤ
  negsuc : ℕ → ℤ

pub ℤ-discrete : Discrete ℤ
ℤ-discrete = hlevel ℕ_discrete

abbrev pub eqb_ℤ : ℤ → ℤ → Bool
eqb_ℤ (pos a) (pos b) = a == b
eqb_ℤ (pos a) (negsuc b) = false
eqb_ℤ (negsuc a) (pos b) = false
eqb_ℤ (negsuc a) (negsuc b) = a == b

abbrev pub leb_ℤ : ℤ → ℤ → Bool
leb_ℤ (pos a) (pos b) = leb a b
leb_ℤ (pos a) (negsuc b) = false
leb_ℤ (negsuc a) (pos b) = true
leb_ℤ (negsuc a) (negsuc b) = leb b a

pub eqb_ℤ_iff : (a b : ℤ) → (eqb_ℤ a b ≡ true) ↔ (a ≡ b)
eqb_ℤ_iff a b = ground arith

-- The conversion `int(n)` of a `uint` below 2^64: the same bits, read as a signed number.
pub int_of_uint : ℕ → ℤ
int_of_uint n = if ltb n 9223372036854775808 then pos n else negsuc (18446744073709551615 - n)

pub int_of_uint_inj :
    (a b : ℕ)
    → a < 18446744073709551616
    → b < 18446744073709551616
    → int_of_uint a ≡ int_of_uint b
    → a ≡ b
unfolding int_of_uint
int_of_uint_inj a b ha hb h = ground arith
