-- ===== src/Base/Decimal.antt =====
-- Python's `str` of a number.
use Prim.Native.Nat.{ℕ, zero, suc, ◌+◌, ◌/◌, ◌%◌}
use mathlib.Core.Bool.{true, false}
use mathlib.Core.List.{[], ◌∷◌, ◌++◌}
use irctest.Base.Tests.{leb}
use irctest.Base.Strings.{Text}

-- `str(n)`, with the fuel to come to the first digit.
unfoldable pub digits : ℕ → ℕ → Text
digits zero n = []
digits (suc fuel) n = elim (leb 10 n) [
  | false ↦ (b'0' + n) ∷ []
  | true ↦ digits fuel (n / 10) ++ ((b'0' + n % 10) ∷ [])
]

unfoldable pub decimal : ℕ → Text
unfolding digits
decimal n = digits (suc n) n
