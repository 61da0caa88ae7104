-- ===== src/Message/Tags.antt =====
-- `tag_key_validator` and `parse_tags` (`irctest/irc_utils/message_parser.py`).
use irctest.Base.{
  ℕ, Bool, not, ◌||◌, ◌&&◌, Option, none, some, List, [], ◌∷◌, Text, codes, leb, ◌==◌, nat_eq,
  list_eq, is_space, cut, split,
}
use irctest.Base.Dict.{Dict, insert}
use irctest.Regex.{Re, one, seq, optional, plus, matches_end}
use irctest.Result.{Result, ok, assertion_error, ◌>>=◌, ◌>>◌, require}
use irctest.Message.Escape.{unescape_tag_value}

-- `Dict[str, Optional[str]]`
abbrev pub Tags : Type 0
Tags = Dict Text (Option Text)

-- `[a-zA-Z0-9-]`
key_char : ℕ → Bool
unfolding nat_eq
key_char c =
    (leb 97 c && leb c 122) || ((leb 65 c && leb c 90) || ((leb 48 c && leb c 57) || c == 45))

-- `^\+?(\S+/)?[a-zA-Z0-9-]+`, the part of `tag_key_validator` before its `$`
tag_key : Re
unfolding key_char is_space nat_eq
tag_key = seq (optional (one (λ c. c == 43))) (
    seq (optional (seq (plus (one (λ c. not (is_space c)))) (one (λ c. c == 47))))
      (plus (one key_char)))

-- `tag_key_validator.match`
unfoldable pub valid_tag_key : Text → Bool
unfolding tag_key matches_end
valid_tag_key = matches_end tag_key

-- The body of the loop of `parse_tags`.
unfoldable pub add_tag : Text → Tags → Result Tags
unfolding valid_tag_key list_eq nat_eq
add_tag tag tags = elim (cut (codes "=") tag) [
  | none ↦ ok (insert tag none tags)
  | some (key, value) ↦ do
    require (valid_tag_key key) assertion_error
    ok (insert key (some (unescape_tag_value value)) tags)
]

unfoldable pub add_tags : List Text → Tags → Result Tags
unfolding add_tag
add_tags [] tags = ok tags
add_tags (tag ∷ rest) tags = add_tag tag tags >>= add_tags rest

unfoldable pub parse_tags : Text → Result Tags
unfolding add_tags nat_eq
parse_tags s = add_tags (split b';' s) []
