-- ===== src/Prelude/Decimal.antt =====
-- The decimal text of a number, as fmt prints it.
use Prim.Native.Nat.{ℕ, zero, suc, ◌/◌, ◌%◌, ◌+◌}
use mantlekeep.Prelude.Text.{concat}
use mantlekeep.Prelude.Tests.{ltb, nat_eq, if◌then◌else◌}
use Prim.Native.String.{String}

abbrev digit : ℕ → String
digit n =
    if nat_eq n 0
    then "0"
    else if nat_eq n 1
    then "1"
    else if nat_eq n 2
    then "2"
    else if nat_eq n 3
    then "3"
    else if nat_eq n 4
    then "4"
    else if nat_eq n 5
    then "5"
    else if nat_eq n 6
    then "6"
    else if nat_eq n 7
    then "7"
    else if nat_eq n 8
    then "8"
    else "9"

-- The digits before `rest`; a number has at most as many digits as itself and one.
unfoldable pub digits_before : ℕ → ℕ → String → String
digits_before zero n rest = rest
digits_before (suc fuel) n rest =
    let more = digits_before fuel (n / 10) (concat (digit (n % 10)) rest) in
    if ltb n 10 then concat (digit n) rest else more

unfoldable pub show_nat : ℕ → String
unfolding digits_before
show_nat n = digits_before (n + 1) n ""
