-- ===== src/Shared/Itoa.antt =====
-- `strconv.Itoa`: the decimal digits of a number.
use Prim.Native.Nat.{ℕ, zero, suc, ◌+◌, ◌/◌, ◌%◌}
use Prim.Native.String.{String, ◌++◌}
use go_bpmn.Shared.Tests.{◌==◌, ltb, if◌then◌else◌}
use go_bpmn.Shared.Int.{ℤ, pos, negsuc}

digit : ℕ → String
digit n =
    if n == 0
    then "0"
    else if n == 1
    then "1"
    else if n == 2
    then "2"
    else if n == 3
    then "3"
    else if n == 4
    then "4"
    else if n == 5
    then "5"
    else if n == 6
    then "6"
    else if n == 7
    then "7"
    else if n == 8
    then "8"
    else "9"

-- A number has at most as many digits as it counts, and one more.
decimal : ℕ → ℕ → String → String
unfolding digit
decimal zero n acc = acc
decimal (suc fuel) n acc =
    let rest = decimal fuel (n / 10) (digit (n % 10) ++ acc) in
    if ltb n 10 then digit n ++ acc else rest

unfoldable pub itoa : ℤ → String
unfolding decimal
itoa (pos n) = decimal (n + 1) n ""
itoa (negsuc n) = "-" ++ decimal (n + 2) (n + 1) ""
