-- ===== src/Regex.antt =====
-- The regular expressions that the program hands to Python's `re`, as syntax trees, matched by
-- derivatives.
use irctest.Base.{ℕ, Bool, true, false, ◌&&◌, ◌||◌, [], ◌∷◌, Text, ◌==◌, nat_eq, if◌then◌else◌}

pub data Re : Type 0 where
  never empty : Re
  one : (ℕ → Bool) → Re
  seq alt : Re → Re → Re
  star : Re → Re

-- `r?` and `r+`
abbrev pub optional : Re → Re
optional r = alt r empty

abbrev pub plus : Re → Re
plus r = seq r (star r)

unfoldable pub nullable : Re → Bool
nullable never = false
nullable empty = true
nullable (one p) = false
nullable (seq r q) = nullable r && nullable q
nullable (alt r q) = nullable r || nullable q
nullable (star r) = true

-- What is left to match after a first character.
unfoldable pub deriv : ℕ → Re → Re
unfolding nullable
deriv c never = never
deriv c empty = never
deriv c (one p) = if p c then empty else never
deriv c (seq r q) = if nullable r then alt (seq (deriv c r) q) (deriv c q) else seq (deriv c r) q
deriv c (alt r q) = alt (deriv c r) (deriv c q)
deriv c (star r) = seq (deriv c r) (star r)

-- `re.fullmatch`
unfoldable pub matches : Re → Text → Bool
unfolding deriv
matches r [] = nullable r
matches r (c ∷ s) = matches (deriv c r) s

-- `re.match`: some prefix of the text matches.
unfoldable pub matches_prefix : Re → Text → Bool
unfolding deriv
matches_prefix r [] = nullable r
matches_prefix r (c ∷ s) = nullable r || matches_prefix (deriv c r) s

-- `re.match` with `$` behind the expression: it matches up to the end, or up to a newline that
-- ends the text.
unfoldable pub matches_end : Re → Text → Bool
unfolding deriv nat_eq
matches_end r [] = nullable r
matches_end r (c ∷ []) = (c == 10 && nullable r) || nullable (deriv c r)
matches_end r (c ∷ d ∷ s) = matches_end (deriv c r) (d ∷ s)
