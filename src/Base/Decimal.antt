-- ===== src/Base/Decimal.antt =====
-- `str(n)` of a non-negative Python integer.
use Prim.Native.String.{◌++◌}
use policyengine_api.Base.{ℕ, zero, suc, ◌/◌, ◌%◌, String, ltb, if◌then◌else◌}

digit : ℕ → String
digit zero = "0"
digit (suc zero) = "1"
digit (suc (suc zero)) = "2"
digit (suc (suc (suc zero))) = "3"
digit (suc (suc (suc (suc zero)))) = "4"
digit (suc (suc (suc (suc (suc zero))))) = "5"
digit (suc (suc (suc (suc (suc (suc zero)))))) = "6"
digit (suc (suc (suc (suc (suc (suc (suc zero))))))) = "7"
digit (suc (suc (suc (suc (suc (suc (suc (suc zero)))))))) = "8"
digit n = "9"

-- a number has fewer digits than its successor counts
digits : ℕ → ℕ → String
unfolding digit
digits zero n = ""
digits (suc fuel) n =
    let front = digits fuel (n / 10) in if ltb n 10 then digit n else front ++ digit (n % 10)

unfoldable pub decimal : ℕ → String
unfolding digits
decimal n = digits (suc n) n
