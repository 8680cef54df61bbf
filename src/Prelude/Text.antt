-- ===== src/Prelude/Text.antt =====
-- Text that `format!` builds: concatenation and decimal numbers.
use Prim.Native.Nat.{ℕ, zero, suc, ◌/◌, ◌%◌}
use Prim.Native.String.{String, ◌++◌}
use mathlib.Core.List.{List, [], ◌∷◌}
use mathlib.Core.Path.{◌≡◌, refl}
use lakeforge.Prelude.Tests.{if◌then◌else◌, ltb}

unfoldable pub concat : List String → String
concat [] = ""
concat (s ∷ r) = s ++ concat r

digit : ℕ → String
digit zero = "0"
digit (suc zero) = "1"
digit (suc (suc zero)) = "2"
digit (suc (suc (suc zero))) = "3"
digit (suc (suc (suc (suc zero)))) = "4"
digit (suc (suc (suc (suc (suc zero))))) = "5"
digit (suc (suc (suc (suc (suc (suc zero)))))) = "6"
digit (suc (suc (suc (suc (suc (suc (suc zero))))))) = "7"
digit (suc (suc (suc (suc (suc (suc (suc (suc zero)))))))) = "8"
digit _ = "9"

-- One digit for each unit of fuel; a number below 2 ^ 32 has at most ten digits.
decimal_loop : ℕ → ℕ → String → String
decimal_loop zero n acc = acc
decimal_loop (suc fuel) n acc =
    let rest = decimal_loop fuel (n / 10) (digit (n % 10) ++ acc) in
    if ltb n 10 then digit n ++ acc else rest

unfoldable pub decimal : ℕ → String
unfolding decimal_loop digit
decimal n = decimal_loop (suc n) n ""

decimal_407 : decimal 407 ≡ "407"
unfolding decimal
decimal_407 = refl

decimal_zero : decimal 0 ≡ "0"
unfolding decimal
decimal_zero = refl
