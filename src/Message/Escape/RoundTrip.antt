-- ===== src/Message/Escape/RoundTrip.antt =====
-- The escaping of tag values: what is escaped is read back, and an unknown escape is left alone.
use irctest.Base.{
  ℕ, ◌≡◌, ◌≢◌, refl, false, List, [], ◌∷◌, Text, arith, nat_eq, list_eq, All, contains,
}
use irctest.Message.Escape.{escape_tag_value, unescape_tag_value}

-- Any tag value is read back from its escaped form.
pub unescape_tag_value-escape_tag_value : (s : Text) → unescape_tag_value (escape_tag_value s) ≡ s
unfolding unescape_tag_value escape_tag_value nat_eq
unescape_tag_value-escape_tag_value [] = refl
unescape_tag_value-escape_tag_value (c ∷ s) = ground (arith, unescape_tag_value-escape_tag_value s)

-- A code point that may stand in the tags part of a line.
abbrev pub IsTagSafe : ℕ → Type 0
IsTagSafe c = (c ≢ 0) × (c ≢ 10) × (c ≢ 13) × (c ≢ 32) × (c ≢ 59)

-- What is escaped has none of the characters that end a tag, the tags part or the line.
pub escape_tag_value-IsTagSafe :
    (s : Text) → All (λ c. c ≢ 0) s → All IsTagSafe (escape_tag_value s)
unfolding escape_tag_value nat_eq
escape_tag_value-IsTagSafe [] h = tt
escape_tag_value-IsTagSafe (c ∷ s) h = ground (arith, escape_tag_value-IsTagSafe s)

-- The letters that may follow a backslash in an escaped value.
abbrev pub escape_letters : List ℕ
escape_letters = 92 ∷ 115 ∷ 58 ∷ 114 ∷ 110 ∷ []

-- A backslash that begins no escape of the table stays in the value, also at its end.
pub unescape_tag_value_unknown :
    (c : ℕ) (s : Text)
    → contains escape_letters c ≡ false
    → (unescape_tag_value (92 ∷ c ∷ s) ≡ 92 ∷ unescape_tag_value (c ∷ s))
      × (unescape_tag_value (92 ∷ []) ≡ 92 ∷ [])
unfolding unescape_tag_value nat_eq
unescape_tag_value_unknown c s h = ground arith
