-- ===== src/History/Reference.antt =====
-- A server that keeps a history, described apart from the tests: what it gives for a query.
use irctest.Base.{
  ℕ, ◌-◌, ◌/◌, ◌≡◌, Bool, true, false, Option, none, some, List, [], ◌∷◌, ◌++◌, map, Text, codes,
  ◌==◌, nat_eq, list_eq, option_eq, take,
}
use irctest.Message.Parse.{Message, HistoryMessage}
use irctest.History.{
  Point, Query, latest, latest_since, before, after, around, between, last_ones, query_line,
}
use irctest.History as History

-- Whether a message is at a point.
unfoldable pub is_at : Point → HistoryMessage → Bool
unfolding option_eq list_eq nat_eq
is_at (History.msgid i) m = m.msgid == i
is_at (History.timestamp t) m = m.time == t

-- The messages before a point, the one at it, and those after it.
unfoldable pub split_at :
    Point
    → List HistoryMessage
    → Option (List HistoryMessage × HistoryMessage × List HistoryMessage)
unfolding is_at
split_at p [] = none
split_at p (m ∷ ms) = elim (is_at p m) [
  | true ↦ some ([], m, ms)
  | false ↦ elim (split_at p ms) [
    | none ↦ none
    | some (front, found, back) ↦ some (m ∷ front, found, back)
  ]
]

-- The first messages between two points, or the last ones if the second point comes first.
unfoldable pub select_between : Point → Point → ℕ → List HistoryMessage → List HistoryMessage
unfolding split_at
select_between p q n ms = elim (split_at p ms) [
  | none ↦ []
  | some (front, found, back) ↦ elim (split_at q back) [
    | some (inner, end, rest) ↦ take n inner
    | none ↦ elim (split_at q front) [ some (rest, end, inner) ↦ last_ones n inner | none ↦ [] ]
  ]
]

unfoldable pub selected : Query → List HistoryMessage → List HistoryMessage
unfolding split_at select_between
selected (latest n) ms = last_ones n ms
selected (latest_since p n) ms = elim (split_at p ms) [
  | none ↦ []
  | some (front, found, back) ↦ last_ones n back
]
selected (before p n) ms = elim (split_at p ms) [
  | none ↦ []
  | some (front, found, back) ↦ last_ones n front
]
selected (after p n) ms = elim (split_at p ms) [
  | none ↦ []
  | some (front, found, back) ↦ take n back
]
selected (between p q n) ms = select_between p q n ms
selected (around p n) ms = elim (split_at p ms) [
  | none ↦ []
  | some (front, found, back) ↦ last_ones (n / 2) front ++ take (n - n / 2) (found ∷ back)
]

-- How a server presents a message of a batch.
abbrev pub in_batch : Text → Text → HistoryMessage → Message
in_batch reference sender m = record {
  tags = (codes "batch", some reference) ∷ (codes "time", m.time) ∷ (codes "msgid", m.msgid) ∷ [];
  prefix = some sender;
  command = codes "PRIVMSG";
  params = m.target ∷ m.text ∷ [];
}

abbrev pub batch_line : Text → List Text → Message
batch_line server params = record {
  tags = [];
  prefix = some server;
  command = codes "BATCH";
  params = params;
}

-- A reply: a batch of messages.
abbrev pub reply : Text → Text → Text → Text → List HistoryMessage → Message × List Message
reply server sender reference chname ms = (
  batch_line server ((b'+' ∷ reference) ∷ codes "chathistory" ∷ chname ∷ []),
  map (in_batch reference sender) ms ++ (batch_line server ((codes "-" ++ reference) ∷ []) ∷ []),
)

-- A server answers a query with the batch of what is selected.
abbrev pub Answers :
    (Text → Message × List Message)
    → Text
    → Text
    → Text
    → Text
    → List HistoryMessage
    → Query
    → Type 0
Answers server chname host sender reference ms q =
    server (query_line chname q) ≡ reply host sender reference chname (selected q ms)
