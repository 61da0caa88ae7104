-- ===== src/Message/Parse.antt =====
-- `Message`, `to_history_message` and `parse_message` (`irctest/irc_utils/message_parser.py`).
use irctest.Base.{
  ℕ, zero, suc, Bool, true, false, not, ◌||◌, Option, none, some, List, [], ◌∷◌, ◌++◌, Text, codes,
  ◌==◌, nat_eq, list_eq, starts_with, cut, split, non_empty, if◌then◌else◌,
}
use irctest.Base.Dict.{get}
use irctest.Result.{Result, ok, raised, value_error, index_error, ◌>>=◌, ◌>>◌, require}
use irctest.Message.Tags.{Tags, parse_tags}

pub record HistoryMessage : Type 0 where
  pub time : Option Text
  pub msgid : Option Text
  pub target : Text
  pub text : Text

pub record Message : Type 0 where
  pub tags : Tags
  pub prefix : Option Text
  pub command : Text
  pub params : List Text

-- `params[i]`, or an `IndexError`.
unfoldable pub param : List Text → ℕ → Result Text
param [] i = raised index_error
param (p ∷ ps) zero = ok p
param (p ∷ ps) (suc i) = param ps i

-- `tags.get(key)`: a tag that is missing and one with no value are both `None`.
unfoldable pub tag_value : Tags → Text → Option Text
unfolding list_eq nat_eq get
tag_value tags key = elim (get tags key) [ none ↦ none | some value ↦ value ]

-- `_forbidden_codepoints_re.search`
unfoldable pub has_forbidden : Text → Bool
unfolding nat_eq
has_forbidden [] = false
has_forbidden (c ∷ s) = if c == 0 || (c == 13 || c == 10) then true else has_forbidden s

unfoldable pub to_history_message : Message → Result HistoryMessage
unfolding param tag_value
to_history_message m = do
  target ← param m.params 0
  text ← param m.params 1
  ok (record {
    time = tag_value m.tags (codes "time");
    msgid = tag_value m.tags (codes "msgid");
    target = target;
    text = text;
  })

-- `w[1:]`
abbrev pub tail : Text → Text
tail [] = []
tail (c ∷ w) = w

-- The tags at the start of a line, and the rest of it. A line that begins with `@` and has no
-- space fails at the unpacking of the pair.
unfoldable pub read_tags : Text → Result (Tags × Text)
unfolding parse_tags
read_tags s =
    if starts_with s (codes "@")
    then elim (cut (codes " ") s) [
      | none ↦ raised value_error
      | some (tags_str, rest) ↦ parse_tags (tail tags_str) >>= λ tags. ok (tags, rest)
    ]
    else ok ([], s)

-- The words of a line, of which the last may be a trailing parameter with spaces in it.
unfoldable pub tokens : Text → List Text
tokens s = elim (cut (codes " :") s) [
  | none ↦ non_empty (split b' ' s)
  | some (other_tokens, trailing_param) ↦
      non_empty (split b' ' other_tokens) ++ (trailing_param ∷ [])
]

-- `tokens.pop(0)[1:] if tokens[0].startswith(":") else None`
unfoldable pub pop_prefix : List Text → Result (Option Text × List Text)
pop_prefix [] = raised index_error
pop_prefix (token ∷ rest) =
    if starts_with token (codes ":") then ok (some (tail token), rest) else ok (none, token ∷ rest)

-- `tokens.pop(0)`, and the message.
unfoldable pub pop_command : Tags → Option Text → List Text → Result Message
pop_command tags prefix [] = raised index_error
pop_command tags prefix (command ∷ params) =
    ok (record { tags = tags; prefix = prefix; command = command; params = params })

unfoldable pub parse_message : Text → Result Message
unfolding has_forbidden read_tags tokens pop_prefix pop_command
parse_message s = do
  require (not (has_forbidden s)) value_error
  (tags, rest) ← read_tags s
  (prefix, left) ← pop_prefix (tokens rest)
  pop_command tags prefix left
