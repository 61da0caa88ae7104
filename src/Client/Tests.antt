-- ===== src/Client/Tests.antt =====
-- The client at concrete events.
use irctest.Base.{◌≡◌, refl, true, false, some, [], ◌∷◌, ◌++◌, codes, arith, list_eq, nat_eq, map}
use irctest.Base.Dict.{get}
use irctest.Message.Tags.{valid_tag_key}
use irctest.Message.Parse.{Message}
use irctest.Message.Render.{IsWritable}
use irctest.Client.Mock.{
  bytes, timeout, reset, message, Client, returns, waits, Options, receive, get_messages,
  get_message, ends_line, is_pong, refuses_ping,
}
use irctest.Client.Receive.{receive_fragments, receive_lone_newline}
use irctest.Client.Fuel.{get_message-fuel}
use irctest.Client.Wire.{wire, received, ping_line, IsExchange, get_messages-wire}

abbrev welcome : Message
welcome = record {
  tags = [];
  prefix = some (codes "srv");
  command = codes "001";
  params = codes "nick" ∷ codes "Welcome nick" ∷ [];
}

abbrev pong : Message
pong = record {
  tags = [];
  prefix = some (codes "srv");
  command = codes "PONG";
  params = codes "srv" ∷ codes "synchronize1.5" ∷ [];
}

abbrev synchronized : Options
synchronized = record {
  synchronize = true;
  assert_get_one = false;
  raw = false;
  token = codes "synchronize1.5";
}

abbrev unsynchronized : Options
unsynchronized = record synchronized { synchronize = false }

abbrev client : Client
client = record {
  inbuffer = message pong ∷ [];
  events = bytes (wire (welcome ∷ pong ∷ [])) ∷ reset ∷ [];
  sent = [];
  broken = false;
}

welcome-IsWritable : IsWritable welcome
unfolding valid_tag_key get list_eq
welcome-IsWritable = record {
  tags = ground arith;
  distinct = tt;
  prefix = ground arith;
  command = ground arith;
  params = ground arith;
}

pong-IsWritable : IsWritable pong
unfolding valid_tag_key get list_eq
pong-IsWritable = record {
  tags = ground arith;
  distinct = tt;
  prefix = ground arith;
  command = ground arith;
  params = ground arith;
}

exchange : IsExchange synchronized (welcome ∷ []) pong
unfolding is_pong refuses_ping
exchange = record {
  synchronized = refl;
  writable = (welcome-IsWritable, tt);
  ordinary = ((refl, refl), tt);
  pong_writable = pong-IsWritable;
  pong_answers = refl;
  ascii = ground arith;
}

get_messages-wire_example : get_messages synchronized client ≡ (
  returns ((message pong ∷ []) ++ map (received synchronized) (welcome ∷ [])),
  record client {
    inbuffer = [];
    events = reset ∷ [];
    sent = [] ++ (ping_line synchronized (welcome ∷ []) pong ∷ []);
  },
)
get_messages-wire_example =
    get_messages-wire synchronized (welcome ∷ []) pong exchange client (reset ∷ []) refl refl

receive_fragments_example :
    receive unsynchronized [] [] (bytes (codes "PI") ∷ bytes (codes "NG a\r\n") ∷ [])
    ≡ receive unsynchronized [] [] (bytes (codes "PING a\r\n") ∷ [])
unfolding ends_line
receive_fragments_example =
    receive_fragments unsynchronized [] [] (codes "PI") 78 71 (codes " a\r\n") [] (λ p. cc) refl

receive_lone_newline_example :
    receive unsynchronized [] [] (bytes (codes "PING a\r") ∷ bytes (10 ∷ []) ∷ [])
    ≡ receive unsynchronized (codes "PING a\r\n") [] []
receive_lone_newline_example = receive_lone_newline unsynchronized [] (codes "PING a") []

-- The client waits, though the line has come.
receive_lone_newline_waits :
    receive unsynchronized [] [] (bytes (codes "PING a\r") ∷ bytes (10 ∷ []) ∷ []) ≡ (waits, [])
unfolding receive
receive_lone_newline_waits = refl

-- A call that does not synchronize, and meets a timeout first, drops what was buffered.
buffer_dropped :
    get_messages unsynchronized (record client { events = timeout ∷ reset ∷ [] })
    ≡ (returns [], record client { inbuffer = []; events = reset ∷ [] })
unfolding get_messages
buffer_dropped = refl

get_message-fuel_example :
    get_message 3 (λ calls. synchronized) 0 (λ m. false) client
    ≡ get_message 9 (λ calls. synchronized) 0 (λ m. false) client
unfolding nat_eq
get_message-fuel_example =
    get_message-fuel 3 9 (λ calls. synchronized) 0 (λ m. false) client (omega arith) (omega arith)
