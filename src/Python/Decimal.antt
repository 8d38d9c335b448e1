-- ===== src/Python/Decimal.antt =====
-- The decimal print of a number, `str(n)`.
use Prim.Native.Char.{Char}
use Prim.Native.String.{String, [], ◌∷◌}
use aki_rag_middleware.Prelude.{ℕ, zero, suc, ◌/◌, ◌%◌, ◌≡◌, refl, ltb, if◌then◌else◌}

digit : ℕ → Char
digit zero = "0"
digit (suc zero) = "1"
digit (suc (suc zero)) = "2"
digit (suc (suc (suc zero))) = "3"
digit (suc (suc (suc (suc zero)))) = "4"
digit (suc (suc (suc (suc (suc zero))))) = "5"
digit (suc (suc (suc (suc (suc (suc zero)))))) = "6"
digit (suc (suc (suc (suc (suc (suc (suc zero))))))) = "7"
digit (suc (suc (suc (suc (suc (suc (suc (suc zero)))))))) = "8"
digit (suc (suc (suc (suc (suc (suc (suc (suc (suc n))))))))) = "9"

-- The digits of `n` before `rest`. A number has at most as many digits as `n + 1`, the fuel.
print_digits : ℕ → ℕ → String → String
unfolding digit
print_digits zero n rest = rest
print_digits (suc fuel) n rest =
    let more = print_digits fuel (n / 10) (digit (n % 10) ∷ rest) in
    if ltb n 10 then digit n ∷ rest else more

unfoldable pub decimal : ℕ → String
unfolding print_digits
decimal n = print_digits (suc n) n []

decimal_example : decimal 4070 ≡ "4070"
unfolding decimal
decimal_example = refl
