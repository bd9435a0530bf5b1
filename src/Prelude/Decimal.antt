-- ===== src/Prelude/Decimal.antt =====
-- Go's `%d` on the numbers that the program prints.
use Prim.Native.Nat.{ℕ, zero, suc, ◌+◌, ◌/◌, ◌%◌}
use Prim.Native.String.{String, ◌++◌}
use package.hsm_service.Prelude.Tests.{ltb, ◌==◌, if◌then◌else◌}
use package.hsm_service.Prelude.Int.{ℤ, pos, negsuc}

digit : ℕ → String
digit d =
    if d == 0
    then "0"
    else if d == 1
    then "1"
    else if d == 2
    then "2"
    else if d == 3
    then "3"
    else if d == 4
    then "4"
    else if d == 5
    then "5"
    else if d == 6
    then "6"
    else if d == 7
    then "7"
    else if d == 8
    then "8"
    else "9"

-- Twenty digits hold every number below 2^64.
digits_of : ℕ → ℕ → String
digits_of zero n = ""
digits_of (suc fuel) n =
    let front = digits_of fuel (n / 10) ++ digit (n % 10) in if ltb n 10 then digit n else front

unfoldable pub decimal : ℕ → String
unfolding digits_of digit
decimal n = digits_of 20 n

unfoldable pub decimal_int : ℤ → String
unfolding decimal
decimal_int (pos n) = decimal n
decimal_int (negsuc n) = "-" ++ decimal (n + 1)
