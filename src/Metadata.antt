-- ===== src/Metadata.antt =====
-- What the tests of metadata check (`irctest/server_tests/metadata_3.py`).
pub mod Listed
pub mod Kept
mod Tests
use irctest.Base.{
  ℕ, Bool, true, false, Option, none, some, List, [], ◌∷◌, ◌++◌, map, Text, codes, ◌==◌, nat_eq,
  list_eq, length, drop, join, sort_by, text_le, if◌then◌else◌,
}
use irctest.Base.Dict.{Dict, insert}
use irctest.Result.{
  Result, ok, raised, key_error, connection_closed, assertion_error, ◌>>=◌, ◌>>◌, require,
}
use irctest.Message.Parse.{Message, param}
use irctest.Patma.Operators.{
  Expected, str, any_str, either, Options, no_options, option, Item, item,
}
use irctest.Patma.Match.{any_list}
use irctest.Cases.Differs.{Expectation, assert_message_match}
use irctest.Cases.Batch.{get_batch_messages}

-- A server, and the messages that a client of a test has not read. A line sent changes the server,
-- which sends messages.
pub record Chat (S : Type 0) : Type 0 where
  pub state : S
  pub unread : List Message

-- `CLIENT_NICKS`
unfoldable pub client_nick : ℕ → Result Text
unfolding nat_eq
client_nick client =
    if client == 1
    then ok (codes "foo")
    else if client == 2
    then ok (codes "bar")
    else raised key_error

abbrev pub expected_message : Text → List Item → Expectation
expected_message command params = record {
  command = some (str command);
  params = some params;
  target = none;
  tags = none;
  nick = none;
  prefix = none;
  others = [];
}

-- `Either("*", nick)`
abbrev pub star_or : Text → Expected
star_or nick = either (option (str (codes "*")) (option (str nick) no_options))

unfoldable pub expected_target : Text → Text → Expected
unfolding list_eq nat_eq
expected_target nick target = if target == codes "*" then star_or nick else str target

-- `RPL_KEYVALUE` and `RPL_KEYNOTSET`
abbrev pub key_value : Expected → Expected → Text → Text → Expectation
key_value nick target key value =
    expected_message (codes "761")
      (item nick ∷ item target ∷ item (str key) ∷ item any_str ∷ item (str value) ∷ [])

abbrev pub key_not_set : Text → Expected → Text → Expectation
key_not_set nick target key =
    expected_message (codes "766")
      (item (str nick) ∷ item target ∷ item (str key) ∷ item any_str ∷ [])

-- `messages[0]` of the one message that must be there.
unfoldable pub only_message : List Message → Result Message
only_message (m ∷ []) = ok m
only_message ms = raised assertion_error

module _ {S : Type 0} (server : S → Text → S × List Message) where
  abbrev pub send_to : Text → Chat S → Chat S
  send_to line c =
      let (s, ms) = server c.state line in record { state = s; unread = c.unread ++ ms }

  -- `getMessage`. With no message it ends as the connection does.
  abbrev pub take_message : List Message → S → Result (Message × Chat S)
  take_message [] s = raised connection_closed
  take_message (m ∷ ms) s = ok (m, record { state = s; unread = ms })

  -- `getMetadataBatchMessages`: the messages, and the client with none to read.
  unfoldable pub get_metadata_batch_messages : Chat S → Result (List Message × Chat S)
  unfolding get_batch_messages
  get_metadata_batch_messages c =
      get_batch_messages (codes "metadata") c.unread >>= λ (batch_id, batch_params, messages).
      ok (messages, record { state = c.state; unread = [] })

  unfoldable pub assert_set_value : ℕ → Text → Text → Text → Bool → Chat S → Result (Chat S)
  unfolding client_nick expected_target assert_message_match
  assert_set_value client target key value before_connect c =
      let sent =
        send_to (codes "METADATA " ++ (target ++ (codes " SET " ++ (key ++ (codes " :" ++ value)))))
          c in
      client_nick client >>= λ nick. take_message sent.unread sent.state >>= λ (m, rest).
      assert_message_match m (
        key_value (if before_connect then star_or nick else str nick) (expected_target nick target)
          key value)
      >> ok rest

  unfoldable pub assert_unset_value : ℕ → Text → Text → Chat S → Result (Chat S)
  unfolding client_nick expected_target assert_message_match
  assert_unset_value client target key c =
      let sent = send_to (codes "METADATA " ++ (target ++ (codes " SET " ++ key))) c in
      client_nick client >>= λ nick. take_message sent.unread sent.state >>= λ (m, rest).
      assert_message_match m (key_not_set nick (expected_target nick target) key) >> ok rest

  unfoldable pub assert_get_value : ℕ → Text → Text → Text → Bool → Chat S → Result (Chat S)
  unfolding client_nick expected_target assert_message_match get_metadata_batch_messages
      only_message
  assert_get_value client target key value before_connect c =
      let sent = send_to (codes "METADATA " ++ (target ++ (codes " GET " ++ key))) c in
      client_nick client >>= λ nick. get_metadata_batch_messages sent >>= λ (messages, rest).
      only_message messages >>= λ m.
      assert_message_match m (
        key_value (if before_connect then star_or nick else str nick) (expected_target nick target)
          key value)
      >> ok rest

  unfoldable pub assert_value_not_set : ℕ → Text → Text → Chat S → Result (Chat S)
  unfolding client_nick expected_target assert_message_match get_metadata_batch_messages
      only_message
  assert_value_not_set client target key c =
      let sent = send_to (codes "METADATA " ++ (target ++ (codes " GET " ++ key))) c in
      client_nick client >>= λ nick. get_metadata_batch_messages sent >>= λ (messages, rest).
      only_message messages >>= λ m.
      assert_message_match m (key_not_set nick (expected_target nick target) key) >> ok rest

  unfoldable pub assert_set_get_value : ℕ → Text → Text → Text → Chat S → Result (Chat S)
  unfolding assert_set_value assert_get_value
  assert_set_get_value client target key value c =
      assert_set_value client target key value false c >>= λ c'.
      assert_get_value client target key value false c'

  unfoldable pub assert_unset_get_value : ℕ → Text → Text → Chat S → Result (Chat S)
  unfolding assert_unset_value assert_value_not_set
  assert_unset_get_value client target key c =
      assert_unset_value client target key c >>= λ c'. assert_value_not_set client target key c'

-- The keys that are acknowledged, and those messages that are passed over.
unfoldable pub acknowledged : List Message → Result (List Text)
unfolding assert_message_match list_eq nat_eq
acknowledged [] = ok []
acknowledged (m ∷ ms) = elim (m.command == codes "774") [
  | true ↦ acknowledged ms
  | false ↦
      assert_message_match m (expected_message (codes "770") (item (str (codes "bar")) ∷ any_list))
      >> (acknowledged ms >>= λ keys. ok (drop 1 m.params ++ keys))
]

module _ {S : Type 0} (server : S → Text → S × List Message) where
  -- `sub`, of the second client.
  unfoldable pub sub : List Text → Chat S → Result (Chat S)
  unfolding acknowledged sort_by text_le join list_eq nat_eq
  sub keys c =
      let sent = send_to server (codes "METADATA * SUB " ++ join (codes " ") keys) c in
      acknowledged sent.unread >>= λ subs.
      require (sort_by text_le subs == sort_by text_le keys) assertion_error
      >> ok (record { state = sent.state; unread = [] })

-- `command="761"`
abbrev pub is_key_value : Expectation
is_key_value = record (expected_message (codes "761") []) { params = none }

-- The loop of `listMetadata`.
unfoldable pub read_list : Dict Text Text → List Message → Result (Dict Text Text)
unfolding assert_message_match param insert list_eq nat_eq
read_list result [] = ok result
read_list result (m ∷ ms) =
    assert_message_match m is_key_value
    >> (param m.params 2 >>= λ key.
        param m.params 4 >>= λ value. read_list (insert key value result) ms)

module _ {S : Type 0} (server : S → Text → S × List Message) where
  unfoldable pub list_metadata : Text → Chat S → Result (Dict Text Text × Chat S)
  unfolding get_metadata_batch_messages read_list
  list_metadata target c =
      get_metadata_batch_messages server
        (send_to server (codes "METADATA " ++ (target ++ codes " LIST")) c)
      >>= λ (messages, rest). read_list [] messages >>= λ result. ok (result, rest)
