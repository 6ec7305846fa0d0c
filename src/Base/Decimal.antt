-- ===== src/Base/Decimal.antt =====
-- std::to_string of an int.
use Prim.Native.String.{◌++◌}
use agamemnon.Base.{ℕ, zero, suc, ◌+◌, ◌/◌, ◌%◌, ◌≡◌, refl, String, ltb, if◌then◌else◌}
use agamemnon.Base.Int.{ℤ, pos, negsuc}

abbrev digit : ℕ → String
digit zero = "0"
digit (suc zero) = "1"
digit (suc (suc zero)) = "2"
digit (suc (suc (suc zero))) = "3"
digit (suc (suc (suc (suc zero)))) = "4"
digit (suc (suc (suc (suc (suc zero))))) = "5"
digit (suc (suc (suc (suc (suc (suc zero)))))) = "6"
digit (suc (suc (suc (suc (suc (suc (suc zero))))))) = "7"
digit (suc (suc (suc (suc (suc (suc (suc (suc zero)))))))) = "8"
digit _ = "9"

-- The fuel is above the number of digits.
decimal : ℕ → ℕ → String
decimal zero n = digit (n % 10)
decimal (suc fuel) n =
    let front = decimal fuel (n / 10) in if ltb n 10 then digit n else front ++ digit (n % 10)

unfoldable pub to_string : ℤ → String
unfolding decimal
to_string (pos n) = decimal n n
to_string (negsuc n) = "-" ++ decimal (n + 1) (n + 1)

to_string_runs : to_string (negsuc 1204) ≡ "-1205"
unfolding to_string
to_string_runs = refl
