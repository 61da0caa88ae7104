-- ===== src/Cases/Tests.antt =====
-- The comparison of messages, and the clients of a test, at concrete values.
use irctest.Base.{
  ℕ, ◌-◌, ◌≡◌, ◌↔◌, refl, Option, Text, none, some, [], ◌∷◌, codes, ◌++◌, list_eq, nat_eq,
  option_eq, split,
}
use irctest.Base.Dict.{Dict, get}
use irctest.Cases.Clients.{
  Name, number, word, name_eq, add_client, remove_client, remove_all, tear_down,
}
use irctest.Cases.Clients.Fresh.{remove_client-add_client}
use irctest.Result.{ok, raised, value_error}
use irctest.Message.Parse.{Message}
use irctest.Patma.Operators.{str, any_str, item}
use irctest.Patma.Match.{match_string, match_list, any_list}
use irctest.Cases.Differs.{Expectation, in_nick, message_differs}
use irctest.Cases.Differs.Exact.{IsMatch, without_target, message_differs_iff}

abbrev join_message : Message
join_message = record {
  tags = [];
  prefix = some (codes "nick!u@h");
  command = codes "JOIN";
  params = codes "#chan" ∷ [];
}

abbrev expectation : Expectation
expectation = record {
  command = some (str (codes "JOIN"));
  params = some (item (str (codes "#chan")) ∷ any_list);
  target = none;
  tags = none;
  nick = some (codes "other");
  prefix = some any_str;
  others = [];
}

wrong_nick : message_differs join_message expectation ≡ ok (some in_nick)
unfolding message_differs match_string match_list list_eq nat_eq option_eq split
wrong_nick = refl

message_differs_iff_example :
    (message_differs join_message expectation ≡ ok none)
    ↔ IsMatch join_message (without_target expectation)
message_differs_iff_example = message_differs_iff join_message expectation

-- Strings of one digit.
abbrev int_of_digit : Text → Option ℕ
int_of_digit [] = none
int_of_digit (c ∷ []) = some (c - 48)
int_of_digit (c ∷ d ∷ w) = none

abbrev clients : Dict Name Text
clients = (number 2, codes "a") ∷ (word (codes "7"), codes "b") ∷ []

next_client :
    add_client int_of_digit none (codes "c") clients
    ≡ ok (number 8, clients ++ ((number 8, codes "c") ∷ []))
unfolding add_client
next_client = refl

-- Beside a client with a name that is no number, none can be added without a name.
next_to_word :
    add_client int_of_digit none (codes "c") ((word (codes "foo"), codes "b") ∷ [])
    ≡ raised value_error
unfolding add_client
next_to_word = refl

all_removed : tear_down clients ≡ ok []
unfolding remove_all
all_removed = refl

remove_client-add_client_example :
    (get clients (number 8) ≡ none)
    × (get (clients ++ ((number 8, codes "c") ∷ [])) (number 8) ≡ some (codes "c"))
    × (remove_client (number 8) (clients ++ ((number 8, codes "c") ∷ [])) ≡ ok clients)
unfolding add_client
remove_client-add_client_example =
    remove_client-add_client int_of_digit (codes "c") clients
      (clients ++ ((number 8, codes "c") ∷ [])) (number 8) refl
