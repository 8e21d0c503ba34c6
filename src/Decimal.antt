-- ===== src/Decimal.antt =====
-- `fmt.Sprint` of an integer: Go's decimal notation.
pub mod Read
use Prim.Native.Char.{Char}
use rivalry.Prelude.{String, ℕ, zero, suc, ◌+◌, ◌/◌, ◌%◌, ℤ, pos, negsuc, leb, if◌then◌else◌}

pub digit : ℕ → Char
digit zero = "0"
digit (suc zero) = "1"
digit (suc (suc zero)) = "2"
digit (suc (suc (suc zero))) = "3"
digit (suc (suc (suc (suc zero)))) = "4"
digit (suc (suc (suc (suc (suc zero))))) = "5"
digit (suc (suc (suc (suc (suc (suc zero)))))) = "6"
digit (suc (suc (suc (suc (suc (suc (suc zero))))))) = "7"
digit (suc (suc (suc (suc (suc (suc (suc (suc zero)))))))) = "8"
digit _ = "9"

-- The digits of a number in front of `out`. There are at most as many as the fuel says, and `n + 1`
-- is enough.
pub digits : ℕ → ℕ → String → String
unfolding digit
digits zero n out = out
digits (suc fuel) n out = elim (n / 10) [
  | zero ↦ String.◌∷◌ (digit (n % 10)) out
  | suc m ↦ digits fuel (suc m) (String.◌∷◌ (digit (n % 10)) out)
]

unfoldable pub sprint : ℤ → String
unfolding digits
sprint (pos n) = digits (suc n) n ""
sprint (negsuc n) = String.◌∷◌ "-" (digits (suc (suc n)) (suc n) "")
