-- ===== src/Cases/Connect.antt =====
-- `authenticateClient`, `connectClient`, `joinChannel` and `skipUnlessArbitraryClientTags`
-- (`irctest/cases.py`), and `sasl_plain_blob` (`irctest/irc_utils/sasl.py`).
pub mod Support
use irctest.Base.{
  ℕ, zero, suc, Bool, true, false, not, ◌&&◌, ◌||◌, Option, none, some, List, [], ◌∷◌, ◌++◌, Text,
  codes, ◌==◌, list_eq, nat_eq, contains, cut, split, non_empty, lower, if◌then◌else◌,
}
use irctest.Base.Dict.{Dict, get, insert}
use irctest.Result.{
  Result, ok, raised, assertion_error, connection_closed, value_error, channel_join_exception,
  skip_test, ◌>>=◌, ◌>>◌, require,
}
use irctest.Message.Parse.{Message, param}
use irctest.Patma.Operators.{str, item}
use irctest.Cases.Differs.{Expectation, assert_message_match}
use irctest.Cases.Session.{
  Session, send, get_registration_message, registration_message, get_cap_ls, request_capabilities,
  skip_to_welcome,
}

abbrev pub Support : Type 0
Support = Dict Text (Option Text)

-- One token of a `005`. One with a second `=` fails at the unpacking of the pair.
unfoldable pub add_token : Support → Text → Result Support
unfolding split insert list_eq nat_eq
add_token support token = elim (contains token 61) [
  | false ↦ ok (insert token none support)
  | true ↦ elim (split 61 token) [
    | [] ↦ raised value_error
    | key ∷ [] ↦ raised value_error
    | key ∷ value ∷ [] ↦ ok (insert key (some value) support)
    | key ∷ value ∷ more ∷ parts ↦ raised value_error
  ]
]

unfoldable pub add_tokens : Support → List Text → Result Support
unfolding add_token
add_tokens support [] = ok support
add_tokens support (token ∷ tokens) =
    add_token support token >>= λ support'. add_tokens support' tokens

-- `params[:-1]`
unfoldable pub but_last : List Text → List Text
but_last [] = []
but_last (p ∷ []) = []
but_last (p ∷ q ∷ ps) = p ∷ but_last (q ∷ ps)

-- `params[1:-1]`
abbrev pub middle : List Text → List Text
middle [] = []
middle (p ∷ ps) = but_last ps

-- The loop of `connectClient` up to the `PONG`.
unfoldable pub read_support :
    Support → List Message → List Message → Result (Support × List Message × List Message)
unfolding add_tokens but_last list_eq nat_eq
read_support support welcome [] = raised connection_closed
read_support support welcome (m ∷ ms) = elim (m.command == codes "PONG") [
  | true ↦ ok (support, welcome, ms)
  | false ↦ elim (m.command == codes "005") [
    | true ↦ add_tokens support (middle m.params) >>= λ support'.
        read_support support' (welcome ++ (m ∷ [])) ms
    | false ↦ read_support support (welcome ++ (m ∷ [])) ms
  ]
]

-- The items of `TARGMAX`. An item without `:` makes no pair.
unfoldable pub read_limits : Support → List Text → Result Support
unfolding cut insert list_eq nat_eq
read_limits limits [] = ok limits
read_limits limits (l ∷ ls) = elim (cut (codes ":") l) [
  | none ↦ raised value_error
  | some (command, limit) ↦ read_limits (insert command (some limit) limits) ls
]

-- `server_support.get(key) or ""`
abbrev pub text_of : Option (Option Text) → Text
text_of none = []
text_of (some none) = []
text_of (some (some value)) = value

unfoldable pub targmax : Support → Result Support
unfolding read_limits get split non_empty list_eq nat_eq
targmax support = read_limits [] (non_empty (split 44 (text_of (get support (codes "TARGMAX")))))

-- `skipUnlessArbitraryClientTags`, once a client has connected.
unfoldable pub skip_unless_arbitrary_client_tags : Support → Result (Unit {0})
unfolding get split list_eq nat_eq
skip_unless_arbitrary_client_tags support =
    require (not (contains (split 44 (text_of (get support (codes "CLIENTTAGDENY")))) (codes "*")))
      skip_test

-- The messages of one `getMessages`: whether one of them is the client's `JOIN`.
unfoldable pub find_join : Text → List Message → Result Bool
unfolding list_eq nat_eq lower
find_join channel [] = ok false
find_join channel (m ∷ ms) =
    let joins : Bool =
      m.command == codes "JOIN"
      && (elim m.params [ [] ↦ false | p ∷ ps ↦ lower p == lower channel ]) in
    elim joins [
      | true ↦ ok true
      | false ↦
          elim (contains
            (codes "403"
              ∷ codes "405"
              ∷ codes "475"
              ∷ codes "473"
              ∷ codes "474"
              ∷ codes "477"
              ∷ codes "471"
              ∷ [])
            m.command) [ true ↦ raised channel_join_exception | false ↦ find_join channel ms ]
    ]

-- `joinChannel`, of what the calls of `getMessages` return: those that are left after it.
unfoldable pub join_channel : Text → List (List Message) → Result (List (List Message))
unfolding find_join
join_channel channel [] = raised connection_closed
join_channel channel (messages ∷ calls) = find_join channel messages >>= λ joined. elim joined [
  | true ↦ ok calls
  | false ↦ join_channel channel calls
]

-- The arguments of `connectClient`.
pub record ConnectOptions : Type 0 where
  pub nick : Text
  pub capabilities : List Text
  pub skip_if_cap_nak : Bool
  pub account : Option Text
  pub password : Option Text
  pub ident : Text

-- What `connectClient` leaves: the messages, `server_support` and `targmax`.
pub record Connected : Type 0 where
  pub welcome : List Message
  pub server_support : Support
  pub targmax : Support

-- `account or nick`
abbrev pub account_or : Option Text → Text → Text
account_or none nick = nick
account_or (some []) nick = nick
account_or (some (c ∷ account)) nick = c ∷ account

abbrev pub expects : Text → Option Text → Expectation
expects command params = record {
  command = some (str command);
  params = elim params [ none ↦ none | some p ↦ some (item (str p) ∷ []) ];
  target = none;
  tags = none;
  nick = none;
  prefix = none;
  others = [];
}

module _ (encode : Text → List ℕ) (b64encode : List ℕ → Text) (supports_cap : Text → Bool) where
  unfoldable pub sasl_plain_blob : Text → Text → Text
  sasl_plain_blob username passphrase =
      codes "AUTHENTICATE "
      ++ b64encode (encode username ++ (0 ∷ (encode username ++ (0 ∷ encode passphrase))))

  unfoldable pub authenticate_client : Text → Text → Session → Result Session
  unfolding sasl_plain_blob registration_message assert_message_match list_eq nat_eq
  authenticate_client account password s = do
    (m, s') ← get_registration_message (send (codes "AUTHENTICATE PLAIN") s)
    asked ← assert_message_match m (expects (codes "AUTHENTICATE") (some (codes "+")))
    (n, s'') ← get_registration_message (send (sasl_plain_blob account password) s')
    accepted ← require (contains (codes "900" ∷ codes "903" ∷ []) n.command) assertion_error
    ok s''

  abbrev pub negotiate_first : ConnectOptions → List Text → Session → Result Session
  negotiate_first o [] s = ok s
  negotiate_first o (cap ∷ caps) s = get_cap_ls (send (codes "CAP LS 302") s) >>= λ (offered, s').
      request_capabilities supports_cap (cap ∷ caps) o.skip_if_cap_nak s'

  abbrev pub authenticate_first : ConnectOptions → Option Text → Session → Result Session
  authenticate_first o none s = ok s
  authenticate_first o (some password) s =
      require (contains o.capabilities (codes "sasl")) value_error
      >> authenticate_client (account_or o.account o.nick) password s

  abbrev pub end_negotiation : List Text → Session → Session
  end_negotiation [] s = s
  end_negotiation (cap ∷ caps) s = send (codes "CAP END") s

  -- `connectClient` without `retry`. The client has been added.
  unfoldable pub connect_client : ConnectOptions → Session → Result (Connected × Session)
  unfolding get_cap_ls request_capabilities authenticate_client skip_to_welcome read_support targmax
      list_eq nat_eq
  connect_client o s = do
    s1 ← negotiate_first o o.capabilities s
    s2 ← authenticate_first o o.password s1
    let s3 : Session =
        send (codes "USER " ++ (o.ident ++ codes " * * :Realname"))
          (send (codes "NICK " ++ o.nick) s2)
    (welcome, s4) ← skip_to_welcome (end_negotiation o.capabilities s3)
    (support, greeted, rest) ← read_support [] welcome s4.incoming
    limits ← targmax support
    ok (
      record { welcome = greeted; server_support = support; targmax = limits },
      record { incoming = rest; sent = s4.sent ++ (codes "PING foo" ∷ []) },
    )
