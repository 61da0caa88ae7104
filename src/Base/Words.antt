-- ===== src/Base/Words.antt =====
-- Native strings, for the parts of the program that only join and compare them.
use Prim.Native.Char.{code}
use Prim.Native.String.{String, ◌++◌}
use mathlib.Core.Path.{◌≡◌, ap, ◌∙◌}
use text.Mathlib.TextLemmas.{nil-append, cons-append}
use mathlib.Core.List
use irctest.Base.Strings.{codes}
use mathlib.Core.Logic.{dite}
use mathlib.Core.Bool.{true, Bool-discrete}
use mathlib.Core.List.{List, [], ◌∷◌}
use text.Mathlib.Text
use text.Mathlib.TextEquality.{eq_iff}
use irctest.Base.Tests.{Eq}

string_discrete : Discrete String
string_discrete a b =
    dite (Bool-discrete (Text.◌==◌ a b) true) (λ h. yes ((eq_iff a b).0 h))
      (λ h. no (λ e. h ((eq_iff a b).1 e)))

instance unfoldable pub string_eq : Eq String
unfolding string_discrete
string_eq = record { dec = string_discrete }

infixr 65 ◌<>◌
abbrev pub ◌<>◌ : String → String → String
a <> b = a ++ b

-- `sep.join(strings)`
unfoldable pub join_strings : String → List String → String
join_strings sep [] = ""
join_strings sep (s ∷ []) = s
join_strings sep (s ∷ t ∷ rest) = s <> (sep <> join_strings sep (t ∷ rest))

pub codes-append : (s t : String) → codes (s <> t) ≡ List.◌++◌ (codes s) (codes t)
codes-append String.[] t = ap codes (nil-append t)
codes-append (String.◌∷◌ c s) t =
    ap codes (cons-append c s t) ∙ ap (λ r. List.◌∷◌ (code c) r) (codes-append s t)
