-- ===== src/History/Tests.antt =====
-- Tests of the checks of histories.
use irctest.Base.{
  ℕ, ◌+◌, ◌≡◌, refl, true, some, List, [], ◌∷◌, ◌++◌, All, Text, codes, ◌==◌, nat_eq, list_eq,
  option_eq, starts_with, if◌then◌else◌,
}
use irctest.Patma.Operators.{re_match}
use irctest.Result.{ok, raised, value_error}
use irctest.Message.Parse.{Message, HistoryMessage}
use irctest.History.{
  Query, between, validate_chathistory_batch, query_line, supports, validate_echo_messages,
}
use irctest.History.Validate.{msgid_of, time_of, validate_chathistory, subcommands}
use irctest.History.Reference.{selected, reply, Answers}
use irctest.History.Wanted.{ten, asked, asked_latest}
use irctest.History.Accepted.{validate_chathistory-selected}

abbrev message : ℕ → HistoryMessage
message i = record {
  time = some ((b'A' + i) ∷ []);
  msgid = some ((b'a' + i) ∷ []);
  target = codes "#c";
  text = codes "hi";
}

abbrev batch_of : List HistoryMessage → Message × List Message
batch_of ms = reply (codes "host") (codes "bar!u@h") (codes "12") (codes "#c") ms

-- A server that knows some queries.
unfoldable server : List Query → Text → Message × List Message
unfolding query_line selected list_eq nat_eq
server [] line = batch_of []
server (q ∷ qs) line =
    let rest = server qs line in
    if query_line (codes "#c") q == line then batch_of (selected q (ten message)) else rest

abbrev known : List Query
known = asked_latest ++ (asked msgid_of message ++ asked time_of message)

line_of_query :
    query_line (codes "#c") (between (msgid_of (message 0)) (time_of (message 9)) 12)
    ≡ codes "CHATHISTORY BETWEEN #c msgid=a timestamp=J 12"
unfolding query_line
line_of_query = refl

no_end : validate_chathistory_batch ((batch_of []).0, []) (codes "#c") ≡ raised value_error
unfolding validate_chathistory_batch
no_end = refl

latest_known :
    All
      (Answers
        (server known)
        (codes "#c")
        (codes "host")
        (codes "bar!u@h")
        (codes "12")
        (ten message))
      asked_latest
unfolding server query_line
latest_known = (refl, (refl, (refl, tt)))

validate_chathistory-selected_example :
    All
      (λ sub. validate_chathistory (server known) [] (codes "#c") sub (ten message) ≡ ok tt)
      subcommands
unfolding server query_line supports validate_echo_messages re_match starts_with
validate_chathistory-selected_example =
    validate_chathistory-selected (server known) [] (codes "#c") (codes "host") (codes "bar!u@h")
      (codes "12") (refl, refl) message refl true true refl refl latest_known
      (λ h.
        (refl, (refl, (refl, (refl, (refl, (refl, (refl, (refl, (refl, (refl, (refl, tt))))))))))))
      (λ h.
        (refl, (refl, (refl, (refl, (refl, (refl, (refl, (refl, (refl, (refl, (refl, tt))))))))))))
