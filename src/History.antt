-- ===== src/History.antt =====
-- The checks of histories in `irctest/server_tests/chathistory.py`: what a test asks a server, and
-- what it wants to get.
pub mod Validate
pub mod Reference
pub mod Batches
pub mod Splits
pub mod Wanted
pub mod Accepted
mod Tests
use irctest.Base.{
  ℕ, zero, suc, ◌-◌, ◌*◌, Bool, true, false, not, ◌&&◌, ◌||◌, Eq, Option, none, some, List, [], ◌∷◌,
  ◌++◌, map, Text, codes, ◌==◌, nat_eq, list_eq, option_eq, contains, starts_with, split, distinct,
  length, take, drop, if◌then◌else◌, ℕ_discrete,
}
use irctest.Base.Decimal.{decimal}
use irctest.Base.Dict.{Dict, get}
use irctest.Regex.{one, seq, star}
use irctest.Result.{
  Result, ok, raised, value_error, attribute_error, assertion_error, index_error, ◌>>=◌, ◌>>◌,
  require,
}
use irctest.Message.Parse.{Message, HistoryMessage, param, tail, tag_value, to_history_message}
use irctest.Patma.Operators.{Item, Regexp, str, str_re, item}
use irctest.Cases.Differs.{Expectation, assert_message_match}
use irctest.Cases.Batch.{is_batch}

history_discrete : Discrete HistoryMessage
history_discrete = hlevel ℕ_discrete

instance unfoldable pub history_eq : Eq HistoryMessage
unfolding history_discrete
history_eq = record { dec = history_discrete }

-- `(start, *inner_msgs, end) = msgs`, of what comes behind the start.
unfoldable pub inner_and_last : List Message → Result (List Message × Message)
inner_and_last [] = raised value_error
inner_and_last (m ∷ []) = ok ([], m)
inner_and_last (m ∷ n ∷ ms) = inner_and_last (n ∷ ms) >>= λ (inner, last). ok (m ∷ inner, last)

-- `\+.*`
abbrev pub start_re : Regexp
start_re = record {
  branches = [];
  last = seq (one (λ c. c == b'+')) (star (one (λ c. not (c == 10))));
}

unfoldable pub is_of_batch : Text → Message → Bool
unfolding tag_value option_eq list_eq nat_eq
is_of_batch batch_tag m =
    (m.command == codes "PRIVMSG" || m.command == codes "TOPIC")
    && tag_value m.tags (codes "batch") == some batch_tag

-- Whether a message counts: one of the batch that does not come from `HistServ`.
unfoldable pub is_wanted : Text → Message → Result Bool
unfolding is_of_batch starts_with
is_wanted batch_tag m = elim (is_of_batch batch_tag m) [
  | false ↦ ok false
  | true ↦ elim m.prefix [
    | none ↦ raised attribute_error
    | some prefix ↦ ok (not (starts_with prefix (codes "HistServ!")))
  ]
]

unfoldable pub history_messages : Text → List Message → Result (List HistoryMessage)
unfolding is_wanted to_history_message
history_messages batch_tag [] = ok []
history_messages batch_tag (m ∷ ms) = is_wanted batch_tag m >>= λ wanted. elim wanted [
  | false ↦ history_messages batch_tag ms
  | true ↦ to_history_message m >>= λ h. history_messages batch_tag ms >>= λ hs. ok (h ∷ hs)
]

-- `validate_chathistory_batch`, of the first messages that `getMessages` returns, which are one at
-- least.
unfoldable pub validate_chathistory_batch :
    Message × List Message → Text → Result (List HistoryMessage)
unfolding inner_and_last param history_messages assert_message_match list_eq nat_eq
validate_chathistory_batch (start, msgs) target = do
  (inner_msgs, last) ← inner_and_last msgs
  begun ← assert_message_match start (
      is_batch
        (some (item (str_re start_re) ∷ item (str (codes "chathistory")) ∷ item (str target) ∷ [])))
  reference ← param start.params 0
  ended ←
      assert_message_match last (is_batch (some (item (str (codes "-" ++ tail reference)) ∷ [])))
  history_messages (tail reference) inner_msgs

-- `_supports_msgid` and `_supports_timestamp`, which are about a word in `MSGREFTYPES`.
unfoldable pub supports : Text → Dict Text (Option Text) → Result Bool
unfolding get split list_eq nat_eq
supports word server_support = elim (get server_support (codes "MSGREFTYPES")) [
  | none ↦ ok (contains (split b',' (codes "msgid,timestamp")) word)
  | some none ↦ raised attribute_error
  | some (some value) ↦ ok (contains (split b',' value) word)
]

-- `%s` of a string or `None`.
abbrev pub shown : Option Text → Text
shown none = codes "None"
shown (some s) = s

-- A point in a history.
pub data Point : Type 0 where
  msgid timestamp : Option Text → Point

abbrev pub point_text : Point → Text
point_text (msgid m) = codes "msgid=" ++ shown m
point_text (timestamp t) = codes "timestamp=" ++ shown t

-- What is asked for, with a limit.
pub data Query : Type 0 where
  latest : ℕ → Query
  latest_since before after around : Point → ℕ → Query
  between : Point → Point → ℕ → Query

abbrev pub query_words : Text → Query → List Text
query_words chname (latest n) = codes "LATEST" ∷ chname ∷ codes "*" ∷ decimal n ∷ []
query_words chname (latest_since p n) = codes "LATEST" ∷ chname ∷ point_text p ∷ decimal n ∷ []
query_words chname (before p n) = codes "BEFORE" ∷ chname ∷ point_text p ∷ decimal n ∷ []
query_words chname (after p n) = codes "AFTER" ∷ chname ∷ point_text p ∷ decimal n ∷ []
query_words chname (around p n) = codes "AROUND" ∷ chname ∷ point_text p ∷ decimal n ∷ []
query_words chname (between p q n) =
    codes "BETWEEN" ∷ chname ∷ point_text p ∷ point_text q ∷ decimal n ∷ []

abbrev pub spaced : List Text → Text
spaced [] = []
spaced (w ∷ ws) = codes " " ++ (w ++ spaced ws)

-- The line of a query.
unfoldable pub query_line : Text → Query → Text
unfolding decimal
query_line chname q = codes "CHATHISTORY" ++ spaced (query_words chname q)

-- `echo_messages[i]`
unfoldable pub message_at : List HistoryMessage → ℕ → Result HistoryMessage
message_at [] i = raised index_error
message_at (m ∷ ms) zero = ok m
message_at (m ∷ ms) (suc i) = message_at ms i

-- `echo_messages[-1]`
unfoldable pub last_message : List HistoryMessage → Result HistoryMessage
last_message [] = raised index_error
last_message (m ∷ []) = ok m
last_message (m ∷ n ∷ ms) = last_message (n ∷ ms)

-- `echo_messages[-n:]` and `echo_messages[:-n]`
abbrev pub last_ones : ℕ → List HistoryMessage → List HistoryMessage
last_ones n ms = drop (length ms - n) ms

abbrev pub all_but : ℕ → List HistoryMessage → List HistoryMessage
all_but n ms = take (length ms - n) ms

-- `validate_echo_messages`
unfoldable pub validate_echo_messages : ℕ → List HistoryMessage → Result (Unit {0})
unfolding distinct option_eq list_eq nat_eq
validate_echo_messages num_messages echo_messages =
    require (length echo_messages == num_messages) assertion_error
    >> (require (length (distinct (map (λ m. m.msgid) echo_messages)) == num_messages)
          assertion_error
        >> require (length (distinct (map (λ m. m.time) echo_messages)) == num_messages)
            assertion_error)
