-- ===== src/Cases/Fuelled.antt =====
-- Runs that do not end for want of fuel, in the loops of sessions (`irctest/cases.py`).
use irctest.Base.{ℕ, zero, suc, ◌≡◌, ◌≢◌, refl, Bool, true, false, List, [], ◌∷◌, Text, arith}
use irctest.Result.{Result, ok, raised, out_of_fuel, assertion_error, ◌>>=◌, require}
use irctest.Message.Parse.{param}

-- A run has fuel if its first part and what follows have.
pub bind-Fuelled :
    {A B : Type 0} (r : Result A) (f : A → Result B)
    → r ≢ raised out_of_fuel
    → ((a : A) → r ≡ ok a → f a ≢ raised out_of_fuel)
    → (r >>= f) ≢ raised out_of_fuel
bind-Fuelled (ok a) f h k = k a refl
bind-Fuelled (raised x) f h k = λ e. h (ground (arith, e))

pub require-Fuelled : (b : Bool) → require b assertion_error ≢ raised out_of_fuel
require-Fuelled true = ground arith
require-Fuelled false = ground arith

pub ok-Fuelled : {A : Type 0} (a : A) → ok a ≢ raised out_of_fuel
ok-Fuelled a = ground arith

pub param-Fuelled : (ps : List Text) (i : ℕ) → param ps i ≢ raised out_of_fuel
unfolding param
param-Fuelled [] i = ground arith
param-Fuelled (p ∷ ps) zero = ground arith
param-Fuelled (p ∷ ps) (suc i) = param-Fuelled ps i

pub branch-Fuelled :
    {A : Type 0} (b : Bool) (r q : Result A)
    → r ≢ raised out_of_fuel
    → q ≢ raised out_of_fuel
    → (elim b [ true ↦ r | false ↦ q ]) ≢ raised out_of_fuel
branch-Fuelled true r q h k = h
branch-Fuelled false r q h k = k
