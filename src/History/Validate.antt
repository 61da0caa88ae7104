-- ===== src/History/Validate.antt =====
-- `validate_chathistory` and what it calls, of a server and the messages that were echoed.
use irctest.Base.{
  ◌*◌, true, false, Option, List, [], ◌∷◌, Text, codes, ◌==◌, nat_eq, list_eq, contains, length,
  take, drop, if◌then◌else◌,
}
use irctest.Base.Dict.{Dict}
use irctest.Result.{Result, ok, raised, assertion_error, attribute_error, ◌>>=◌, ◌>>◌, require}
use irctest.Message.Parse.{Message, HistoryMessage}
use irctest.History.{
  history_eq, validate_chathistory_batch, supports, Point, Query, latest, latest_since, before,
  after, around, between, query_line, message_at, last_message, last_ones, all_but,
}
use irctest.History as History

abbrev pub msgid_of : HistoryMessage → Point
msgid_of m = History.msgid m.msgid

abbrev pub time_of : HistoryMessage → Point
time_of m = History.timestamp m.time

-- The requests go to the server, which answers a line with the messages that `getMessages` returns.
module _ (server : Text → Message × List Message) (server_support : Dict Text (Option Text))
    (chname : Text) where
  -- A history_of, and its result.
  unfoldable pub history_of : Query → Result (List HistoryMessage)
  unfolding query_line validate_chathistory_batch
  history_of q = validate_chathistory_batch (server (query_line chname q)) chname

  -- A history_of, with an `assertEqual` of the result.
  unfoldable pub expect : Query → List HistoryMessage → Result (Unit {0})
  unfolding history_of history_eq
  expect q expected = history_of q >>= λ result. require (expected == result) assertion_error

  -- A history_of, with an `assertIn`.
  unfoldable pub expect_in : Query → HistoryMessage → Result (Unit {0})
  unfolding history_of history_eq
  expect_in q expected =
      history_of q >>= λ result. require (contains result expected) assertion_error

  -- A part of a test that is for servers that support a kind of reference.
  abbrev pub if_supported : Text → Result (Unit {0}) → Result (Unit {0})
  if_supported word part =
      supports word server_support >>= λ supported. elim supported [ true ↦ part | false ↦ ok tt ]

  unfoldable pub validate_chathistory_latest : List HistoryMessage → Result (Unit {0})
  unfolding supports expect message_at
  validate_chathistory_latest echo_messages =
      expect (latest (length echo_messages * 2)) echo_messages
      >> (expect (latest 5) (last_ones 5 echo_messages)
          >> (expect (latest 1) (last_ones 1 echo_messages)
              >> (if_supported (codes "msgid") (
                    message_at echo_messages 4 >>= λ m.
                    expect (latest_since (msgid_of m) (length echo_messages * 2))
                      (drop 5 echo_messages))
                  >> if_supported (codes "timestamp") (
                      message_at echo_messages 4 >>= λ m.
                      expect (latest_since (time_of m) (length echo_messages * 2))
                        (drop 5 echo_messages)))))

  unfoldable pub validate_chathistory_before : List HistoryMessage → Result (Unit {0})
  unfolding supports expect message_at
  validate_chathistory_before echo_messages =
      if_supported (codes "msgid") (
        message_at echo_messages 6 >>= λ m.
        expect (before (msgid_of m) (length echo_messages * 2)) (take 6 echo_messages))
      >> if_supported (codes "timestamp") (
          message_at echo_messages 6 >>= λ m.
          expect (before (time_of m) (length echo_messages * 2)) (take 6 echo_messages)
          >> expect (before (time_of m) 2) (drop 4 (take 6 echo_messages)))

  unfoldable pub validate_chathistory_after : List HistoryMessage → Result (Unit {0})
  unfolding supports expect message_at
  validate_chathistory_after echo_messages =
      if_supported (codes "msgid") (
        message_at echo_messages 3 >>= λ m.
        expect (after (msgid_of m) (length echo_messages * 2)) (drop 4 echo_messages))
      >> if_supported (codes "timestamp") (
          message_at echo_messages 3 >>= λ m.
          expect (after (time_of m) (length echo_messages * 2)) (drop 4 echo_messages)
          >> expect (after (time_of m) 3) (drop 4 (take 7 echo_messages)))

  -- The four requests between the first and the last message.
  abbrev pub between_ends : (HistoryMessage → Point) → List HistoryMessage → Result (Unit {0})
  between_ends point echo_messages = message_at echo_messages 0 >>= λ first.
      last_message echo_messages >>= λ last.
      expect (between (point first) (point last) (length echo_messages * 2))
        (drop 1 (all_but 1 echo_messages))
      >> (expect (between (point last) (point first) (length echo_messages * 2))
            (drop 1 (all_but 1 echo_messages))
          >> (expect (between (point first) (point last) 3) (drop 1 (take 4 echo_messages))
              >> expect (between (point last) (point first) 3)
                  (last_ones 3 (all_but 1 echo_messages))))

  unfoldable pub validate_chathistory_between : List HistoryMessage → Result (Unit {0})
  unfolding supports expect message_at last_message
  validate_chathistory_between echo_messages =
      if_supported (codes "msgid") (between_ends msgid_of echo_messages)
      >> if_supported (codes "timestamp") (between_ends time_of echo_messages)

  unfoldable pub validate_chathistory_around : List HistoryMessage → Result (Unit {0})
  unfolding supports expect expect_in message_at
  validate_chathistory_around echo_messages =
      if_supported (codes "msgid") (
        message_at echo_messages 7 >>= λ m.
        expect (around (msgid_of m) 1) (m ∷ [])
        >> expect (around (msgid_of m) 3) (drop 6 (take 9 echo_messages)))
      >> if_supported (codes "timestamp")
          (message_at echo_messages 7 >>= λ m. expect_in (around (time_of m) 3) m)

  -- `getattr(self, f"_validate_chathistory_{subcommand}")`, called.
  unfoldable pub validate_chathistory : Text → List HistoryMessage → Result (Unit {0})
  unfolding validate_chathistory_latest validate_chathistory_before validate_chathistory_after
      validate_chathistory_between validate_chathistory_around list_eq nat_eq
  validate_chathistory subcommand echo_messages =
      if subcommand == codes "LATEST"
      then validate_chathistory_latest echo_messages
      else if subcommand == codes "BEFORE"
      then validate_chathistory_before echo_messages
      else if subcommand == codes "AFTER"
      then validate_chathistory_after echo_messages
      else if subcommand == codes "BETWEEN"
      then validate_chathistory_between echo_messages
      else if subcommand == codes "AROUND"
      then validate_chathistory_around echo_messages
      else raised attribute_error

-- `SUBCOMMANDS`
abbrev pub subcommands : List Text
subcommands =
    codes "LATEST" ∷ codes "BEFORE" ∷ codes "AFTER" ∷ codes "BETWEEN" ∷ codes "AROUND" ∷ []
