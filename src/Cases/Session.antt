-- ===== src/Cases/Session.antt =====
-- What server test cases read from a client while it registers (`irctest/cases.py`).
pub mod Capabilities
pub mod Fuel
use irctest.Base.{
  ℕ, zero, suc, ◌+◌, Bool, true, false, not, ◌&&◌, ◌||◌, Option, none, some, List, [], ◌∷◌, ◌++◌,
  Text, codes, ◌==◌, list_eq, nat_eq, contains, words, join, length, if◌then◌else◌,
}
use irctest.Base.Dict.{Dict}
use irctest.Result.{
  Result, ok, raised, assertion_error, connection_closed, out_of_fuel, skip_test, ◌>>=◌, ◌>>◌,
  require,
}
use irctest.Message.Parse.{Message, param}
use irctest.Patma.Operators.{str}
use irctest.Cases.Differs.{Expectation, assert_message_match}
use irctest.Capabilities.{cap_list_to_dict}

-- A client of a test: the messages that its server sends before it closes the connection, and the
-- lines that have been sent to it.
pub record Session : Type 0 where
  pub incoming : List Message
  pub sent : List Text

abbrev pub send : Text → Session → Session
send l s = record s { sent = s.sent ++ (l ∷ []) }

-- `getRegistrationMessage`: notices are passed over, and a `PING` is answered.
unfoldable pub registration_message : List Text → List Message → Result (Message × Session)
unfolding list_eq nat_eq param
registration_message sent [] = raised connection_closed
registration_message sent (m ∷ ms) =
    elim (m.command == codes "NOTICE" || m.command == codes "020") [
      | true ↦ registration_message sent ms
      | false ↦ elim (m.command == codes "PING") [
        | true ↦
            param m.params 0 >>= λ p. registration_message (sent ++ ((codes "PONG :" ++ p) ∷ [])) ms
        | false ↦ ok (m, record { incoming = ms; sent = sent })
      ]
    ]

abbrev pub get_registration_message : Session → Result (Message × Session)
get_registration_message s = registration_message s.sent s.incoming

-- `command="CAP"`
abbrev pub is_cap : Expectation
is_cap = record {
  command = some (str (codes "CAP"));
  params = none;
  target = none;
  tags = none;
  nick = none;
  prefix = none;
  others = [];
}

-- The loop of `getCapLs`. Each round takes a message at least, and the last one may find none,
-- so one more than the number of messages is enough fuel.
unfoldable pub read_caps : ℕ → List Text → Session → Result (List Text × Session)
unfolding registration_message assert_message_match param list_eq nat_eq words
read_caps zero caps s = raised out_of_fuel
read_caps (suc n) caps s = get_registration_message s >>= λ (m, s').
    assert_message_match m is_cap
    >> (param m.params 1 >>= λ subcommand.
        require (subcommand == codes "LS") assertion_error
        >> (param m.params 2 >>= λ last. elim (last == codes "*") [
          | true ↦ param m.params 3 >>= λ more. read_caps n (caps ++ words more) s'
          | false ↦ ok (caps ++ words last, s')
        ]))

-- `getCapLs` with `as_list`, and without it.
unfoldable pub get_cap_list : Session → Result (List Text × Session)
unfolding read_caps
get_cap_list s = read_caps (suc (length s.incoming)) [] s

unfoldable pub get_cap_ls : Session → Result (Dict Text (Option Text) × Session)
unfolding get_cap_list cap_list_to_dict
get_cap_ls s = get_cap_list s >>= λ (caps, s'). ok (cap_list_to_dict caps, s')

-- `skipToWelcome`: the messages up to the `001`.
unfoldable pub read_welcome :
    List Message → List Text → List Message → Result (List Message × Session)
unfolding list_eq nat_eq param
read_welcome result sent [] = raised connection_closed
read_welcome result sent (m ∷ ms) = elim (m.command == codes "001") [
  | true ↦ ok (result ++ (m ∷ []), record { incoming = ms; sent = sent })
  | false ↦ elim (m.command == codes "PING") [
    | true ↦ param m.params 0 >>= λ p.
        read_welcome (result ++ (m ∷ [])) (sent ++ ((codes "PONG :" ++ p) ∷ [])) ms
    | false ↦ read_welcome (result ++ (m ∷ [])) sent ms
  ]
]

unfoldable pub skip_to_welcome : Session → Result (List Message × Session)
unfolding read_welcome
skip_to_welcome s = read_welcome [] s.sent s.incoming

-- `except AssertionError`
abbrev pub on_assertion_error : {A : Type 0} → Result A → Result A → Result A
on_assertion_error (ok a) handler = ok a
on_assertion_error (raised assertion_error) handler = handler
on_assertion_error (raised x) handler = raised x

abbrev pub all_supported : (Text → Bool) → List Text → Bool
all_supported supports_cap [] = true
all_supported supports_cap (cap ∷ caps) =
    if supports_cap cap then all_supported supports_cap caps else false

-- `requestCapabilities`. Which capabilities the controller supports is given.
unfoldable pub request_capabilities : (Text → Bool) → List Text → Bool → Session → Result Session
unfolding registration_message assert_message_match param list_eq nat_eq join
request_capabilities supports_cap capabilities skip_if_cap_nak s =
    get_registration_message (send (codes "CAP REQ :" ++ join (codes " ") capabilities) s)
    >>= λ (m, s').
        on_assertion_error
          (assert_message_match m is_cap
            >> (param m.params 1 >>= λ answer.
                require (answer == codes "ACK") assertion_error >> ok s'))
          (if skip_if_cap_nak && not (all_supported supports_cap capabilities)
            then raised skip_test
            else raised assertion_error)
