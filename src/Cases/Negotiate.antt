-- ===== src/Cases/Negotiate.antt =====
-- The capability negotiation that a test of a client holds as its server (`irctest/cases.py`).
pub mod Acked
pub mod Fuel
pub mod Answers
use irctest.Base.{
  ℕ, zero, suc, Bool, true, false, not, ◌||◌, Option, none, some, List, [], ◌∷◌, ◌++◌, Text, codes,
  ◌==◌, ◌!=◌, list_eq, nat_eq, contains, words, join, length, leb, if◌then◌else◌,
}
use irctest.Base.Dict.{Dict, keys}
use irctest.Result.{
  Result, ok, raised, assertion_error, connection_closed, out_of_fuel, ◌>>=◌, ◌>>◌, require,
}
use irctest.Message.Parse.{Message, param}
use irctest.Capabilities.{cap_list_to_dict}

-- What the test knows of the client that it serves, and the lines that it has sent to it. The
-- acknowledged capabilities are a set, here a list with each of them once.
pub record Served : Type 0 where
  pub sent : List Text
  pub nick : Option Text
  pub user : Option (List Text)
  pub protocol_version : Option Text
  pub acked_capabilities : List Text

-- `userNickPredicate`
unfoldable pub user_nick_predicate : Message → Served → Result (Bool × Served)
unfolding list_eq nat_eq param
user_nick_predicate m c = elim (m.command == codes "NICK") [
  | true ↦
      require (length m.params == 1) assertion_error
      >> (param m.params 0 >>= λ nick. ok (false, record c { nick = some nick }))
  | false ↦ elim (m.command == codes "USER") [
    | true ↦
        require (length m.params == 4) assertion_error
        >> ok (false, record c { user = some m.params })
    | false ↦ ok (true, c)
  ]
]

-- `getMessage(filter_pred=self.userNickPredicate)`, of the lines that the client sends before it
-- closes the connection.
unfoldable pub next_message : Served → List Message → Result (Message × Served × List Message)
unfolding user_nick_predicate
next_message c [] = raised connection_closed
next_message c (m ∷ ms) = user_nick_predicate m c >>= λ (accepted, c'). elim accepted [
  | true ↦ ok (m, c', ms)
  | false ↦ next_message c' ms
]

-- `self.nick or "*"`
abbrev pub nick_or_star : Option Text → Text
nick_or_star none = codes "*"
nick_or_star (some []) = codes "*"
nick_or_star (some (x ∷ nick)) = x ∷ nick

-- `s[0:n]`
unfoldable pub take_chars : ℕ → Text → Text
take_chars zero s = []
take_chars (suc n) [] = []
take_chars (suc n) (x ∷ s) = x ∷ take_chars n s

unfoldable pub is_subset_of : List Text → List Text → Bool
unfolding list_eq nat_eq
is_subset_of names [] = true
is_subset_of names (r ∷ requested) =
    if contains names r then is_subset_of names requested else false

-- `acked.update(requested)`
unfoldable pub add_names : List Text → List Text → List Text
unfolding list_eq nat_eq
add_names acked [] = acked
add_names acked (r ∷ requested) =
    add_names (if contains acked r then acked else acked ++ (r ∷ [])) requested

-- The answer to a `CAP REQ`: all of it is acknowledged, or nothing.
unfoldable pub answer : List Text → Text → Served → Served
unfolding is_subset_of add_names take_chars words
answer names requested c =
    if is_subset_of names (words requested)
    then record c {
      sent =
          c.sent ++ ((codes "CAP " ++ (nick_or_star c.nick ++ (codes " ACK :" ++ requested))) ∷ []);
      acked_capabilities = add_names c.acked_capabilities (words requested);
    }
    else record c {
      sent =
          c.sent
          ++ ((codes "CAP "
                ++ (nick_or_star c.nick ++ (codes " NAK :" ++ take_chars 100 requested)))
              ∷ []);
    }

-- The loop of `negotiateCapabilities`. Each round takes a message at least, and the last
-- one may find none, so one more than the number of messages is enough fuel.
unfoldable pub negotiate :
    ℕ → List Text → Served → List Message → Result (Message × Served × List Message)
unfolding next_message answer param list_eq nat_eq
negotiate zero names c ms = raised out_of_fuel
negotiate (suc n) names c ms = next_message c ms >>= λ (m, c', ms').
    elim (m.command == codes "CAP") [
      | false ↦ ok (m, c', ms')
      | true ↦
          require (leb 1 (length m.params)) assertion_error
          >> (param m.params 0 >>= λ subcommand. elim (subcommand == codes "REQ") [
            | true ↦
                require (length m.params == 2) assertion_error
                >> (param m.params 1 >>= λ requested.
                    negotiate n names (answer names requested c') ms')
            | false ↦ ok (m, c', ms')
          ])
    ]

-- `readCapLs`, once the client has connected.
unfoldable pub read_cap_ls : Served → List Message → Result (Served × List Message)
unfolding list_eq nat_eq
read_cap_ls c [] = raised connection_closed
read_cap_ls c (m ∷ ms) =
    require (m.command == codes "CAP") assertion_error
    >> (if m.params == codes "LS" ∷ []
        then ok (record c { protocol_version = some (codes "301") }, ms)
        else if m.params == codes "LS" ∷ codes "302" ∷ []
        then ok (record c { protocol_version = some (codes "302") }, ms)
        else if m.params == codes "END" ∷ []
        then ok (record c { protocol_version = none }, ms)
        else raised assertion_error)

abbrev pub start_negotiation :
    List Text → Served → List Message → Result (Option Message × Served × List Message)
start_negotiation caps c ms =
    negotiate (suc (length ms)) (keys (cap_list_to_dict caps))
      (record c { acked_capabilities = [] }) ms
    >>= λ (m, c', ms'). ok (some m, c', ms')

unfoldable pub negotiate_capabilities :
    List Text → Bool → Served → List Message → Result (Option Message × Served × List Message)
unfolding negotiate read_cap_ls cap_list_to_dict keys join
negotiate_capabilities caps false c ms = start_negotiation caps c ms
negotiate_capabilities caps true c ms = read_cap_ls c ms >>= λ (c', ms'). elim c'.protocol_version [
  | none ↦ ok (none, c', ms')
  | some version ↦
      start_negotiation caps
        (record c' { sent = c'.sent ++ ((codes "CAP * LS :" ++ join (codes " ") caps) ∷ []) }) ms'
]
