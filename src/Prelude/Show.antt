-- ===== src/Prelude/Show.antt =====
-- The verbs %t and %d of fmt.Sprintf.
use Prim.Native.Nat.{ℕ, zero, suc, ◌+◌, ◌/◌, ◌%◌}
use Prim.Native.String.{String, ◌++◌}
use mathlib.Core.Bool.{Bool, true, false}
use go_healthcheck.Prelude.Tests.{ltb, if◌then◌else◌}
use go_healthcheck.Prelude.Int.{ℤ, pos, negsuc}

unfoldable pub show_bool : Bool → String
show_bool true = "true"
show_bool false = "false"

unfoldable pub show_digit : ℕ → String
show_digit zero = "0"
show_digit (suc zero) = "1"
show_digit (suc (suc zero)) = "2"
show_digit (suc (suc (suc zero))) = "3"
show_digit (suc (suc (suc (suc zero)))) = "4"
show_digit (suc (suc (suc (suc (suc zero))))) = "5"
show_digit (suc (suc (suc (suc (suc (suc zero)))))) = "6"
show_digit (suc (suc (suc (suc (suc (suc (suc zero))))))) = "7"
show_digit (suc (suc (suc (suc (suc (suc (suc (suc zero)))))))) = "8"
show_digit _ = "9"

-- The digits of `n` before the text `rest`; the fuel `n` is enough, since n / 10 < n for n > 0.
unfoldable pub show_nat_from : ℕ → ℕ → String → String
unfolding show_digit
show_nat_from zero n rest = show_digit (n % 10) ++ rest
show_nat_from (suc fuel) n rest =
    let here = show_digit (n % 10) ++ rest in
    let more = show_nat_from fuel (n / 10) here in if ltb n 10 then here else more

unfoldable pub show_nat : ℕ → String
unfolding show_nat_from
show_nat n = show_nat_from n n ""

unfoldable pub show_int : ℤ → String
unfolding show_nat
show_int (pos n) = show_nat n
show_int (negsuc n) = "-" ++ show_nat (n + 1)
