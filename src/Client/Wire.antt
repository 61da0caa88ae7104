-- ===== src/Client/Wire.antt =====
-- From the bytes of a socket to messages: what `getMessages` returns for lines that it is sent.

use mathlib.Core.List.{map-append}
use irctest.Base.{
  ℕ, ◌≡◌, ◌≢◌, refl, ap, sym, ◌∙◌, Bool, true, false, not, some, List, [], ◌∷◌, ◌++◌, append_assoc,
  append-nil, append-ne_left, append-ne_right, map, Text, codes, arith, nat_eq, leb, All,
  All-append, if◌then◌else◌,
}
use irctest.Result.{ok, ◌>>=◌}
use irctest.Message.Parse.{Message}
use irctest.Message.Render.{render, IsWritable, IsAllowed, IsCommand, render_tags, render_prefix}
use irctest.Message.Render.Allowed.{render-IsAllowed}
use irctest.Message.Render.RoundTrip.{parse_message-render}
use irctest.Client.Decode.{decode, decode_ascii}
use irctest.Client.Mock.{
  Event, bytes, Received, message, line, Client, returns, Options, is_pong, refuses_ping, take_line,
  take_lines, split_lines, ends_line, take_data, receive, get_messages, ping, send_line,
  with_events,
}
use irctest.Client.Receive.{ends_line-append}

-- The lines of the messages, each with its CR LF.
abbrev pub wire : List Message → Text
wire [] = []
wire (m ∷ ms) = render m ++ (13 ∷ 10 ∷ wire ms)

abbrev pub IsAscii : Text → Type 0
IsAscii = All (λ c. leb c 0x7f ≡ true)

decode-IsAscii : (s : Text) → IsAscii s → decode s ≡ some s
decode-IsAscii [] h = unfold decode in refl
decode-IsAscii (c ∷ s) h = rw (decode_ascii c s h.0, decode-IsAscii s h.1)

split_lines-append :
    (w s : Text) → All IsAllowed w → split_lines (w ++ (13 ∷ 10 ∷ s)) ≡ w ∷ split_lines s
unfolding split_lines
split_lines-append [] s h = refl
split_lines-append (x ∷ []) s h = ground arith
split_lines-append (x ∷ y ∷ w) s h = ground (arith, split_lines-append (y ∷ w) s h.1)

split_lines-wire :
    (ms : List Message) → All IsWritable ms → split_lines (wire ms) ≡ map render ms ++ ([] ∷ [])
split_lines-wire [] h = unfold split_lines in refl
split_lines-wire (m ∷ ms) h =
    split_lines-append (render m) (wire ms) (render-IsAllowed m h.0)
    ∙ ap (λ r. render m ∷ r) (split_lines-wire ms h.1)

-- What the client keeps of a message.
abbrev pub received : Options → Message → Received
received o m = if o.raw then line (render m) else message m

-- A message that is no answer to the `PING` of the call.
abbrev pub IsOrdinary : Options → Message → Type 0
IsOrdinary o m = (is_pong o m ≡ false) × (refuses_ping o m ≡ ok false)

take_line-render :
    (o : Options) (m : Message) (messages : List Received) (got_pong : Bool)
    → IsWritable m
    → IsOrdinary o m
    → take_line o (render m) messages got_pong ≡ ok (messages ++ (received o m ∷ []), got_pong)
unfolding take_line
take_line-render o m messages got_pong w h = rw (parse_message-render m w, h.0, h.1)

take_line-pong :
    (o : Options) (m : Message) (messages : List Received) (got_pong : Bool)
    → IsWritable m
    → is_pong o m ≡ true
    → take_line o (render m) messages got_pong ≡ ok (messages, true)
unfolding take_line
take_line-pong o m messages got_pong w h = rw (parse_message-render m w, h)

take_lines-cons :
    (o : Options) (l : Text) (ls : List Text) (messages : List Received) (got_pong : Bool)
    → l ≢ []
    → take_lines o (l ∷ ls) messages got_pong
      ≡ (take_line o l messages got_pong >>= λ (ms, got). take_lines o ls ms got)
unfolding take_lines
take_lines-cons o [] ls messages got_pong h = absurd (h refl)
take_lines-cons o (c ∷ l) ls messages got_pong h = refl

IsCommand-ne : (command : Text) → IsCommand command → command ≢ []
IsCommand-ne [] h = absurd h
IsCommand-ne (c ∷ command) h = λ e. cc

render-ne : (m : Message) → IsWritable m → render m ≢ []
render-ne m w = append-ne_right (render_tags m.tags) _ (
    append-ne_right (render_prefix m.prefix) _
      (append-ne_left m.command _ (IsCommand-ne m.command w.command)))

take_lines-render :
    (o : Options) (ms : List Message) (ls : List Text) (messages : List Received) (got_pong : Bool)
    → All IsWritable ms
    → All (IsOrdinary o) ms
    → take_lines o (map render ms ++ ls) messages got_pong
      ≡ take_lines o ls (messages ++ map (received o) ms) got_pong
take_lines-render o [] ls messages got_pong w h = rw append-nil
take_lines-render o (m ∷ ms) ls messages got_pong w h =
    rw
      (
        take_lines-cons o (render m) (map render ms ++ ls) messages got_pong (render-ne m w.0),
        take_line-render o m messages got_pong w.0 h.0,
      )
      (take_lines-render o ms ls (messages ++ (received o m ∷ [])) got_pong w.1 h.1
        ∙ ap (λ r. take_lines o ls r got_pong)
            (append_assoc messages (received o m ∷ []) (map (received o) ms)))

ends_line-wire : (m : Message) (ms : List Message) → ends_line (wire (m ∷ ms)) ≡ true
ends_line-wire m [] = ends_line-append (render m) 13 10 [] ∙ unfold ends_line nat_eq in refl
ends_line-wire m (n ∷ ms) =
    ends_line-append (render m) 13 10 (wire (n ∷ ms))
    ∙ ends_line-append (13 ∷ 10 ∷ render n) 13 10 (wire ms)
    ∙ sym (ends_line-append (render n) 13 10 (wire ms))
    ∙ ends_line-wire n ms

ends_line-snoc : (ms : List Message) (p : Message) → ends_line (wire (ms ++ (p ∷ []))) ≡ true
ends_line-snoc [] p = ends_line-wire p []
ends_line-snoc (m ∷ ms) p = ends_line-wire m (ms ++ (p ∷ []))

wire-ne : (ms : List Message) (p : Message) → wire (ms ++ (p ∷ [])) ≢ []
wire-ne [] p = append-ne_right (render p) _ (λ e. cc)
wire-ne (m ∷ ms) p = append-ne_right (render m) _ (λ e. cc)

receive_complete :
    (o : Options) (messages messages' : List Received) (a : List ℕ) (events : List Event)
    → a ≢ []
    → ends_line a ≡ true
    → take_data o a messages ≡ ok (messages', true)
    → receive o [] messages (bytes a ∷ events) ≡ (returns messages', events)
unfolding receive
receive_complete o messages messages' [] events h e t = absurd (h refl)
receive_complete o messages messages' (x ∷ a) events h e t = ground arith

get_messages-ping :
    (o : Options) (c c' : Client)
    → ping o c ≡ ok c'
    → get_messages o c ≡ with_events c' (receive o [] c.inbuffer c'.events)
unfolding get_messages
get_messages-ping o c c' h = rw (get_messages, h) refl

module _ (o : Options) (ms : List Message) (pong : Message) where
  -- The messages that a server sends, up to its answer to the `PING`.
  pub record IsExchange : Type 0 where
    pub synchronized : o.synchronize ≡ true
    pub writable : All IsWritable ms
    pub ordinary : All (IsOrdinary o) ms
    pub pong_writable : IsWritable pong
    pub pong_answers : is_pong o pong ≡ true
    pub ascii : IsAscii (wire (ms ++ (pong ∷ [])))

  take_data-wire :
      IsExchange
      → (messages : List Received)
      → take_data o (wire (ms ++ (pong ∷ []))) messages ≡ ok (messages ++ map (received o) ms, true)
  unfolding take_data take_lines
  take_data-wire x messages = rw (
    decode-IsAscii (wire (ms ++ (pong ∷ []))) x.ascii,
    split_lines-wire (ms ++ (pong ∷ []))
        (All-append IsWritable ms (pong ∷ []) x.writable (x.pong_writable, tt)),
    map-append render ms (pong ∷ []),
    append_assoc (map render ms) (render pong ∷ []) ([] ∷ []),
    take_lines-render o ms (render pong ∷ [] ∷ []) messages (not o.synchronize) x.writable
        x.ordinary,
    take_lines-cons o (render pong) ([] ∷ []) (messages ++ map (received o) ms) (not o.synchronize)
        (render-ne pong x.pong_writable),
    take_line-pong o pong (messages ++ map (received o) ms) (not o.synchronize) x.pong_writable
        x.pong_answers,
  )

  abbrev pub ping_line : Text
  ping_line =
      if ends_line (codes "PING " ++ o.token)
      then codes "PING " ++ o.token
      else (codes "PING " ++ o.token) ++ (13 ∷ 10 ∷ [])

  ping_sent :
      IsExchange
      → (c : Client) → c.broken ≡ false
      → ping o c ≡ ok (record c { sent = c.sent ++ (ping_line ∷ []) })
  unfolding send_line
  ping_sent x c b = simp (x.synchronized, b)

  -- Where the socket of a call that synchronizes first gives, in one piece and all in ASCII, the
  -- lines of writable messages up to the answer to its `PING`, and sending works: the messages come
  -- back in their order, after those that were buffered and without that answer, the `PING` has been
  -- sent, the buffer is empty, and what follows is left unread.
  pub get_messages-wire :
      IsExchange
      → (c : Client) (events : List Event) → c.broken ≡ false
      → c.events ≡ bytes (wire (ms ++ (pong ∷ []))) ∷ events
      → get_messages o c ≡ (
        returns (c.inbuffer ++ map (received o) ms),
        record c { inbuffer = []; events = events; sent = c.sent ++ (ping_line ∷ []) },
      )
  get_messages-wire x c events b e =
      get_messages-ping o c (record c { sent = c.sent ++ (ping_line ∷ []) }) (ping_sent x c b)
      ∙ ap (with_events (record c { sent = c.sent ++ (ping_line ∷ []) })) (
          ap (receive o [] c.inbuffer) e
          ∙ receive_complete o c.inbuffer (c.inbuffer ++ map (received o) ms)
              (wire (ms ++ (pong ∷ []))) events (wire-ne ms pong) (ends_line-snoc ms pong)
              (take_data-wire x c.inbuffer))
