-- ===== src/Client/Mock.antt =====
-- `getMessages`, `getMessage` and `sendLine` of `ClientMock` (`irctest/client_mock.py`).
use irctest.Base.{
  ℕ, zero, suc, ◌+◌, Bool, true, false, not, ◌&&◌, Option, none, some, List, [], ◌∷◌, ◌++◌, Text,
  codes, ◌==◌, nat_eq, list_eq, contains, first_word, if◌then◌else◌,
}
use irctest.Result.{
  Exception, Result, ok, raised, connection_closed, unicode_decode_error, value_error,
  no_message_exception, ◌>>=◌, or_raise,
}
use irctest.Message.Parse.{Message, param, parse_message}
use irctest.Client.Decode.{decode}

-- What a `recv` gives: bytes, of which none mean that the peer has closed, a timeout, or a reset.
pub data Event : Type 0 where
  bytes : List ℕ → Event
  timeout reset : Event

-- A message, or its line where `raw` is given.
pub data Received : Type 0 where
  message : Message → Received
  line : Text → Received

-- The client, the lines that it has sent, and what its socket will give. `broken` tells that a
-- `sendall` would meet a closed pipe.
pub record Client : Type 0 where
  pub inbuffer : List Received
  pub events : List Event
  pub sent : List Text
  pub broken : Bool

-- How a call ends: by a value, by an exception, or not at all, since the socket gives nothing more.
pub data Outcome {ℓ} (A : Type ℓ) : Type ℓ where
  returns : A → Outcome A
  raises : Exception → Outcome A
  waits : Outcome A

-- `data.endswith(b"\r\n")`
unfoldable pub ends_line : Text → Bool
unfolding nat_eq
ends_line [] = false
ends_line (c ∷ []) = false
ends_line (c ∷ d ∷ []) = c == 13 && d == 10
ends_line (c ∷ d ∷ e ∷ s) = ends_line (d ∷ e ∷ s)

-- `decoded_data.split("\r\n")`
unfoldable pub split_lines : Text → List Text
unfolding nat_eq
split_lines [] = [] ∷ []
split_lines (c ∷ []) = (c ∷ []) ∷ []
split_lines (c ∷ d ∷ s) = elim (c == 13 && d == 10) [
  | true ↦ [] ∷ split_lines s
  | false ↦ first_word c (split_lines (d ∷ s))
]

-- The arguments of `getMessages`, with the token that it makes if it synchronizes.
pub record Options : Type 0 where
  pub synchronize : Bool
  pub assert_get_one : Bool
  pub raw : Bool
  pub token : Text

-- `token in message.params`, where the token is `None` if nothing synchronizes.
unfoldable pub is_pong : Options → Message → Bool
unfolding list_eq nat_eq
is_pong o m = o.synchronize && (m.command == codes "PONG" && contains m.params o.token)

-- Whether the server refuses the `PING`.
unfoldable pub refuses_ping : Options → Message → Result Bool
unfolding list_eq nat_eq param
refuses_ping o m =
    if o.synchronize && m.command == codes "451"
    then (param m.params 1 >>= λ p. ok (p == codes "PING"))
    else ok false

-- One line: the messages and `got_pong` after it.
unfoldable pub take_line : Options → Text → List Received → Bool → Result (List Received × Bool)
unfolding is_pong refuses_ping
take_line o l messages got_pong = parse_message l >>= λ m.
    if is_pong o m
    then ok (messages, true)
    else refuses_ping o m >>= λ refused.
        if refused
        then raised value_error
        else ok (messages ++ ((if o.raw then line l else message m) ∷ []), got_pong)

-- The loop over the lines, which passes over empty ones.
unfoldable pub take_lines :
    Options → List Text → List Received → Bool → Result (List Received × Bool)
unfolding take_line
take_lines o [] messages got_pong = ok (messages, got_pong)
take_lines o ([] ∷ lines) messages got_pong = take_lines o lines messages got_pong
take_lines o ((c ∷ l) ∷ lines) messages got_pong =
    take_line o (c ∷ l) messages got_pong >>= λ (messages', got'). take_lines o lines messages' got'

-- `except ConnectionClosed`
abbrev pub closed : List Received → Outcome (List Received)
closed [] = raises connection_closed
closed (m ∷ ms) = returns (m ∷ ms)

-- What has been received is decoded and read, once it ends a line.
unfoldable pub take_data : Options → List ℕ → List Received → Result (List Received × Bool)
unfolding take_lines split_lines
take_data o received messages = or_raise (decode received) unicode_decode_error >>= λ decoded.
    take_lines o (split_lines decoded) messages (not o.synchronize)

abbrev pub is_nil : List ℕ → Bool
is_nil [] = true
is_nil (c ∷ s) = false

-- The loop of `getMessages`. With no events left it is still in a `recv`.
unfoldable pub receive :
    Options → List ℕ → List Received → List Event → Outcome (List Received) × List Event
unfolding take_data ends_line
receive o received messages [] = (waits, [])
receive o received messages (timeout ∷ events) =
    elim (not o.assert_get_one && (not o.synchronize && is_nil received)) [
      | true ↦ (returns [], events)
      | false ↦ receive o received messages events
    ]
receive o received messages (reset ∷ events) = (closed messages, events)
receive o received messages (bytes [] ∷ events) = (closed messages, events)
receive o received messages (bytes (c ∷ d) ∷ events) = elim (ends_line (c ∷ d)) [
  | false ↦ receive o (received ++ (c ∷ d)) messages events
  | true ↦ elim (take_data o (received ++ (c ∷ d)) messages) [
    | raised x ↦ (raises x, events)
    | ok (messages', true) ↦ (returns messages', events)
    | ok (messages', false) ↦ receive o [] messages' events
  ]
]

-- `sendLine`. What is sent ends with CR LF.
unfoldable pub send_line : Text → Client → Result Client
unfolding ends_line
send_line l c =
    if c.broken
    then raised connection_closed
    else ok (record c { sent = c.sent ++ ((if ends_line l then l else l ++ (13 ∷ 10 ∷ [])) ∷ []) })

abbrev pub ping : Options → Client → Result Client
ping o c = if o.synchronize then send_line (codes "PING " ++ o.token) c else ok c

abbrev pub with_events :
    Client → Outcome (List Received) × List Event → Outcome (List Received) × Client
with_events c (result, events) = (result, record c { inbuffer = []; events = events })

unfoldable pub get_messages : Options → Client → Outcome (List Received) × Client
unfolding send_line receive
get_messages o c = elim (ping o c) [
  | raised x ↦ (raises x, c)
  | ok c' ↦ with_events c' (receive o [] c.inbuffer c'.events)
]

-- The messages up to the first that the predicate accepts are taken off the buffer.
unfoldable pub pop_accepted : (Received → Bool) → List Received → Option Received × List Received
pop_accepted accepts [] = (none, [])
pop_accepted accepts (m ∷ ms) = elim (accepts m) [
  | true ↦ (some m, ms)
  | false ↦ pop_accepted accepts ms
]

-- The loop of `getMessage`. The fuel bounds the calls of `getMessages`; each of them makes a token
-- of its own, so the options go by the number of calls before.
unfoldable pub get_message :
    ℕ → (ℕ → Options) → ℕ → (Received → Bool) → Client → Outcome Received × Client
unfolding get_messages pop_accepted
get_message zero options calls accepts c =
    let (found, rest) = pop_accepted accepts c.inbuffer in
    elim found [
      | some m ↦ (returns m, record c { inbuffer = rest })
      | none ↦ (waits, record c { inbuffer = rest })
    ]
get_message (suc n) options calls accepts c =
    let (found, rest) = pop_accepted accepts c.inbuffer in
    elim found [
      | some m ↦ (returns m, record c { inbuffer = rest })
      | none ↦
          let (result, c') = get_messages (options calls) (record c { inbuffer = rest }) in
          elim result [
            | raises x ↦ (raises x, c')
            | waits ↦ (waits, c')
            | returns [] ↦ (raises no_message_exception, c')
            | returns (m ∷ ms) ↦
                get_message n options (calls + 1) accepts (record c' { inbuffer = m ∷ ms })
          ]
    ]
