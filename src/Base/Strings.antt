-- ===== src/Base/Strings.antt =====
-- Python's `str` and `bytes` as lists of code points, with the string methods that the program
-- calls.
use Prim.Native.Char.{code}
use Prim.Native.String.{String}
use Prim.Native.Nat.{ℕ, ◌+◌, ◌-◌}
use mathlib.Core.Bool.{Bool, true, false, ◌&&◌, ◌||◌}
use mathlib.Core.Option
use mathlib.Core.Option.{Option, none, some}
use mathlib.Core.List.{List, [], ◌∷◌, ◌++◌, map}
use irctest.Base.Tests.{◌==◌, leb, nat_eq, if◌then◌else◌}

abbrev pub Text : Type 0
Text = List ℕ

-- The code points of a literal.
abbrev pub codes : String → Text
codes String.[] = []
codes (String.◌∷◌ c s) = code c ∷ codes s

-- What `\s` and `str.split()` take for white space.
unfoldable pub is_space : ℕ → Bool
unfolding nat_eq
is_space c =
    (leb 9 c && leb c 13)
    || ((leb 28 c && leb c 32)
        || (c == 133
            || (c == 160
                || (c == 5760
                    || ((leb 8192 c && leb c 8202)
                        || ((leb 8232 c && leb c 8233)
                            || (c == 8239 || (c == 8287 || c == 12288))))))))

-- `str.lower()` on the ASCII letters.
pub lower_code : ℕ → ℕ
lower_code c = if leb 65 c && leb c 90 then c + 32 else c

unfoldable pub lower : Text → Text
unfolding lower_code
lower = map lower_code

-- `str.upper()` on the ASCII letters.
pub upper_code : ℕ → ℕ
upper_code c = if leb 97 c && leb c 122 then c - 32 else c

unfoldable pub upper : Text → Text
unfolding upper_code
upper = map upper_code

-- What is left of `s` behind the prefix.
unfoldable pub strip_prefix : Text → Text → Option Text
strip_prefix [] s = some s
strip_prefix (p ∷ ps) [] = none
strip_prefix (p ∷ ps) (c ∷ s) = if p == c then strip_prefix ps s else none

unfoldable pub starts_with : Text → Text → Bool
unfolding strip_prefix nat_eq
starts_with s prefix = elim (strip_prefix prefix s) [ none ↦ false | some rest ↦ true ]

abbrev pub prepend : Text → Text × Text → Text × Text
prepend w (a, b) = (w ++ a, b)

-- `s.split(sep, 1)`: the parts before and behind the first `sep`, if `sep in s`.
unfoldable pub cut : Text → Text → Option (Text × Text)
unfolding strip_prefix nat_eq
cut sep [] = none
cut sep (c ∷ s) = elim (strip_prefix sep (c ∷ s)) [
  | some rest ↦ some ([], rest)
  | none ↦ Option.map (prepend (c ∷ [])) (cut sep s)
]

abbrev pub first_word : ℕ → List Text → List Text
first_word c [] = (c ∷ []) ∷ []
first_word c (w ∷ ws) = (c ∷ w) ∷ ws

-- The text in pieces, split at each separator. There is at least one piece.
unfoldable pub split_by : (ℕ → Bool) → Text → List Text
split_by p [] = [] ∷ []
split_by p (c ∷ s) = let rest = split_by p s in if p c then [] ∷ rest else first_word c rest

-- `s.split(sep)` for a separator of one character.
unfoldable pub split : ℕ → Text → List Text
unfolding split_by nat_eq
split sep = split_by (λ c. c == sep)

-- `filter(bool, words)`
unfoldable pub non_empty : List Text → List Text
non_empty [] = []
non_empty ([] ∷ ws) = non_empty ws
non_empty ((c ∷ w) ∷ ws) = (c ∷ w) ∷ non_empty ws

-- `s.split()`
unfoldable pub words : Text → List Text
unfolding split_by non_empty is_space nat_eq
words s = non_empty (split_by is_space s)

-- `sep.join(words)`
unfoldable pub join : Text → List Text → Text
join sep [] = []
join sep (w ∷ []) = w
join sep (w ∷ v ∷ ws) = w ++ (sep ++ join sep (v ∷ ws))
