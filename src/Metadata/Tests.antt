-- ===== src/Metadata/Tests.antt =====
-- Tests of the checks of metadata.
use irctest.Base.{
  none, ℕ, suc, ◌≡◌, ◌↔◌, refl, List, [], ◌∷◌, Text, codes, ◌==◌, nat_eq, list_eq, option_eq, false,
  if◌then◌else◌,
}
use irctest.Base.Dict.{Dict, get}
use irctest.Result.{ok, raised, key_error, assertion_error}
use irctest.Message.Parse.{Message}
use irctest.Patma.Match.{match_string, match_list}
use irctest.Metadata.{Chat, client_nick, assert_set_get_value, assert_get_value, list_metadata, sub}
use irctest.Metadata.Listed.{key_value_line, list_lines, list_metadata-lines}
use irctest.Metadata.Kept.{assert_get_value_iff}

abbrev stored : Dict Text Text
stored = (codes "display-name", codes "Foo") ∷ (codes "url", codes "irc.test") ∷ []

-- A server that answers three lines, and counts them.
unfoldable server : ℕ → Text → ℕ × List Message
unfolding list_eq nat_eq
server n line =
    if line == codes "METADATA * LIST"
    then (suc n, list_lines (codes "7") (codes "foo") (codes "*") (codes "*") stored)
    else if line == codes "METADATA * GET url"
    then (
      suc n,
      list_lines (codes "7") (codes "foo") (codes "*") (codes "*")
          ((codes "url", codes "irc.test") ∷ []),
    )
    else if line == codes "METADATA * SET url :irc.test"
    then (
      suc n,
      key_value_line (codes "foo") (codes "foo") (codes "*") (codes "url", codes "irc.test") ∷ [],
    )
    else (suc n, [])

abbrev chat : ℕ → Chat ℕ
chat n = record { state = n; unread = [] }

set_and_get :
    assert_set_get_value server 1 (codes "*") (codes "url") (codes "irc.test") (chat 0)
    ≡ ok (chat 2)
unfolding assert_set_get_value server match_string match_list
set_and_get = refl

other_value :
    assert_get_value server 1 (codes "*") (codes "url") (codes "other") false (chat 0)
    ≡ raised assertion_error
unfolding assert_get_value server match_string match_list
other_value = refl

unknown_client :
    assert_get_value server 3 (codes "*") (codes "url") (codes "other") false (chat 0)
    ≡ raised key_error
unfolding assert_get_value server
unknown_client = refl

abbrev subscribed : List Text → ℕ → Text → ℕ × List Message
subscribed keys n line = (
  suc n,
  record { tags = []; prefix = none; command = codes "770"; params = codes "bar" ∷ keys }
      ∷ record { tags = []; prefix = none; command = codes "774"; params = codes "bar" ∷ [] }
      ∷ [],
)

-- The order of the keys does not matter, their number does.
subscription :
    sub (subscribed (codes "b" ∷ codes "a" ∷ [])) (codes "a" ∷ codes "b" ∷ []) (chat 0)
    ≡ ok (chat 1)
unfolding sub match_string match_list
subscription = refl

subscribed_twice :
    sub (subscribed (codes "a" ∷ codes "a" ∷ [])) (codes "a" ∷ []) (chat 0) ≡ raised assertion_error
unfolding sub match_string match_list
subscribed_twice = refl

list_metadata-lines_example : list_metadata server (codes "*") (chat 4) ≡ ok (stored, chat 5)
unfolding server get list_eq nat_eq
list_metadata-lines_example =
    list_metadata-lines server 4 5 (codes "7") (codes "foo") (codes "*") (codes "*") stored
      (refl, (refl, tt)) refl

assert_get_value_iff_example :
    (assert_get_value server 1 (codes "*") (codes "url") (codes "irc.test") false (chat 0)
      ≡ ok (chat 1))
    ↔ (codes "irc.test" ≡ codes "irc.test")
unfolding server client_nick
assert_get_value_iff_example =
    assert_get_value_iff server 0 1 1 (codes "foo") (codes "7") (codes "*") (codes "*")
      (codes "url") (codes "irc.test") (codes "irc.test") refl refl
