-- ===== src/Message/Tests.antt =====
-- Runs of the parser, and the theorems at concrete messages.
use irctest.Base.{
  ◌≡◌, refl, true, false, some, none, [], ◌∷◌, Text, codes, arith, list_eq, nat_eq, starts_with,
  cut, split, non_empty,
}
use irctest.Base.Dict.{get, insert}
use irctest.Result.{Result, ok, raised, value_error, index_error, assertion_error}
use irctest.Message.Escape.{unescape_tag_value, escape_tag_value}
use irctest.Message.Escape.RoundTrip.{unescape_tag_value-escape_tag_value}
use irctest.Message.Tags.{valid_tag_key}
use irctest.Message.Parse.{Message, parse_message}
use irctest.Message.Render.{render, IsWritable}
use irctest.Message.Render.RoundTrip.{parse_message-render}

abbrev privmsg : Message
privmsg = record {
  tags = (codes "+draft/a", some (codes "b;c")) ∷ (codes "d", none) ∷ [];
  prefix = some (codes "n!u@h");
  command = codes "PRIVMSG";
  params = codes "#c" ∷ codes "hi :there" ∷ [];
}

abbrev line : Text
line = codes "@+draft/a=b\\:c;d :n!u@h  PRIVMSG #c :hi :there"

run : Text → Result Message
unfolding parse_message starts_with cut split non_empty insert unescape_tag_value
run = parse_message

parse_line : run line ≡ ok privmsg
unfolding run
parse_line = refl

parse_failures :
    (run (codes "@a=b") ≡ raised value_error)
    × (run (codes "@=b PING") ≡ raised assertion_error)
    × (run (codes "@a PING\n") ≡ raised value_error)
    × (run (codes ":prefix ") ≡ raised index_error)
    × (run [] ≡ raised index_error)
unfolding run
parse_failures = (refl, refl, refl, refl, refl)

valid_keys :
    (valid_tag_key (codes "+/a") ≡ true)
    × (valid_tag_key (codes "+a") ≡ true)
    × (valid_tag_key (codes "/a") ≡ false)
    × (valid_tag_key (codes "++a") ≡ false)
    × (valid_tag_key (codes "a.b") ≡ false)
    × (valid_tag_key (codes "a.b/c") ≡ true)
unfolding valid_tag_key
valid_keys = (refl, refl, refl, refl, refl, refl)

privmsg-IsWritable : IsWritable privmsg
unfolding valid_tag_key get list_eq
privmsg-IsWritable = record {
  tags = ground arith;
  distinct = (refl, (refl, tt));
  prefix = ground arith;
  command = ground arith;
  params = ground arith;
}

parse_message-render_example : parse_message (render privmsg) ≡ ok privmsg
parse_message-render_example = parse_message-render privmsg privmsg-IsWritable

unescape_tag_value-escape_tag_value_example :
    unescape_tag_value (escape_tag_value (codes "a b\\;")) ≡ codes "a b\\;"
unescape_tag_value-escape_tag_value_example = unescape_tag_value-escape_tag_value (codes "a b\\;")
