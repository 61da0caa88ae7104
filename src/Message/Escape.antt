-- ===== src/Message/Escape.antt =====
-- `MultipleReplacer` and the escaping of tag values (`irctest/irc_utils/message_parser.py`).
pub mod RoundTrip
use irctest.Base.{
  ℕ, zero, suc, ◌-◌, Option, none, some, List, [], ◌∷◌, ◌++◌, map, Text, codes, length,
  strip_prefix,
}

-- `MultipleReplacer._dict`: keys with what replaces them, in the order of the alternatives of the
-- regular expression.
abbrev pub Replacements : Type 0
Replacements = List (Text × Text)

-- The first key that the text begins with: the key's length and what replaces it.
first_match : Replacements → Text → Option (ℕ × Text)
unfolding strip_prefix
first_match [] s = none
first_match ((key, value) ∷ table) s = elim (strip_prefix key s) [
  | none ↦ first_match table s
  | some rest ↦ some (length key, value)
]

-- `re.sub` goes through the text from left to right. The number counts the characters of a match
-- that are still to be passed over.
substitute : Replacements → ℕ → Text → Text
substitute table n [] = []
substitute table (suc n) (c ∷ s) = substitute table n s
substitute table zero (c ∷ s) = elim (first_match table (c ∷ s)) [
  | none ↦ c ∷ substitute table zero s
  | some (n, value) ↦ value ++ substitute table (n - 1) s
]

-- `MultipleReplacer.__call__`
unfoldable pub replace : Replacements → Text → Text
unfolding substitute first_match
replace table s = substitute table zero s

-- `TAG_ESCAPE`: a character and its escaped form.
abbrev pub tag_escape : Replacements
tag_escape =
    (codes "\\", codes "\\\\")
    ∷ (codes " ", codes "\\s")
    ∷ (codes ";", codes "\\:")
    ∷ (13 ∷ [], codes "\\r")
    ∷ (10 ∷ [], codes "\\n")
    ∷ []

abbrev swap : Text × Text → Text × Text
swap (a, b) = (b, a)

unfoldable pub unescape_tag_value : Text → Text
unfolding replace
unescape_tag_value = replace (map swap tag_escape)

-- The inverse that the message-tags specification describes: each character of the table is
-- written by its escaped form, all others stand for themselves.
unfoldable pub escape_tag_value : Text → Text
unfolding replace
escape_tag_value = replace tag_escape
