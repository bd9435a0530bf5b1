-- ===== src/Prelude/Substrings.antt =====
-- `strings.Contains`.
use Prim.Native.String.{String, find, len}
use mathlib.Core.Bool.{Bool}
use package.hsm_service.Prelude.Tests.{leb}

-- `find` answers one more than the length of `s` when nothing is found.
unfoldable pub contains : String → String → Bool
contains s pattern = leb (find s pattern) (len s)
