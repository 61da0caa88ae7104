-- ===== src/Controllers/Services.antt =====
-- `wait_for_services` and `getNickServResponse` of the controllers of services.
pub mod Available
mod Tests
use irctest.Base.{
  ℕ, Bool, true, false, not, ◌&&◌, ◌||◌, Option, none, some, List, [], ◌∷◌, ◌++◌, Text, codes, ◌==◌,
  list_eq, nat_eq, leb, lower, cut, occurs, if◌then◌else◌,
}
use irctest.Result.{Result, ok, raised, failed, assertion_error, ◌>>=◌, ◌>>◌, require}
use irctest.Message.Parse.{Message, param}
use irctest.Controllers.Start.{Waited, ended, waiting}

-- A turn of the loop of `getNickServResponse`: the time since its start, in twentieths of a second,
-- the unit of its sleep, and what `getMessages` returns after it. That `getMessages` or `sendLine`
-- raises, as with a closed connection, is not represented.
pub record Poll : Type 0 where
  pub now : ℕ
  pub messages : List Message

-- `getNickServResponse`, with no timeout if it is zero. With nothing more to come it has not ended.
unfoldable pub get_nick_serv_response : ℕ → List Poll → Option (List Message)
unfolding nat_eq
get_nick_serv_response timeout [] = none
get_nick_serv_response timeout (poll ∷ polls) = elim (not (timeout == 0) && leb timeout poll.now) [
  | true ↦ some []
  | false ↦ elim poll.messages [
    | [] ↦ get_nick_serv_response timeout polls
    | m ∷ ms ↦ some (m ∷ ms)
  ]
]

-- A notice. Those of servers have a prefix with a dot and no `!`.
unfoldable pub read_notice : Option Text → Result Bool
unfolding lower cut list_eq nat_eq
read_notice none = raised assertion_error
read_notice (some prefix) =
    if not (occurs (codes "!") prefix) && occurs (codes ".") prefix
    then ok false
    else (require (occurs (codes "nickserv") (lower prefix)) assertion_error >> ok true)

-- Whether a reply tells that NickServ is there.
unfoldable pub is_available : Message → Result Bool
unfolding read_notice list_eq nat_eq
is_available m =
    if m.command == codes "401"
    then ok false
    else if m.command == codes "MODE" || m.command == codes "221"
    then ok false
    else if m.command == codes "396"
    then ok false
    else if m.command == codes "NOTICE"
    then read_notice m.prefix
    else raised assertion_error

-- The loop over the replies, which the first one that tells so ends.
unfoldable pub read_replies : List Message → Result Bool
unfolding is_available
read_replies [] = ok false
read_replies (m ∷ ms) =
    is_available m >>= λ available. elim available [ true ↦ ok true | false ↦ read_replies ms ]

-- A round of the loop that asks for help: the polls of its replies, and the time at its end since
-- the start of the loop, in twentieths of a second.
pub record Round : Type 0 where
  pub polls : List Poll
  pub elapsed : ℕ

abbrev pub help_line : Text → Text
help_line nickserv = codes "PRIVMSG " ++ (nickserv ++ codes " :help")

-- The loop, with the lines that have been sent.
unfoldable pub wait_for_nick_serv : Text → List Text → List Round → List Text × Waited
unfolding get_nick_serv_response read_replies
wait_for_nick_serv nickserv sent [] = (sent, waiting)
wait_for_nick_serv nickserv sent (round ∷ rounds) =
    let sent' = sent ++ (help_line nickserv ∷ []) in
    elim (get_nick_serv_response 20 round.polls) [
      | none ↦ (sent', waiting)
      | some msgs ↦ elim (read_replies msgs) [
        | raised x ↦ (sent', ended (raised x))
        | ok true ↦ (sent', ended (ok true))
        | ok false ↦ elim (leb round.elapsed 200) [
          | false ↦ (sent', ended (raised failed))
          | true ↦ wait_for_nick_serv nickserv sent' rounds
        ]
      ]
    ]

-- What a client that has just connected gets: a `PING` is answered, and whether the end of the
-- message of the day came. The lines sent in a batch that raises are not kept.
unfoldable pub read_motd : List Text → Bool → List Message → Result (List Text × Bool)
unfolding param list_eq nat_eq
read_motd sent got [] = ok (sent, got)
read_motd sent got (m ∷ ms) = elim (m.command == codes "PING") [
  | true ↦ param m.params 0 >>= λ p. read_motd (sent ++ ((codes "PONG :" ++ p) ∷ [])) got ms
  | false ↦ read_motd sent (got || (m.command == codes "376" || m.command == codes "422")) ms
]

-- The loop up to that end, over what the calls of `getMessages` return.
unfoldable pub wait_for_motd : List Text → List (List Message) → List Text × Waited
unfolding read_motd
wait_for_motd sent [] = (sent, waiting)
wait_for_motd sent (msgs ∷ rest) = elim (read_motd sent false msgs) [
  | raised x ↦ (sent, ended (raised x))
  | ok (sent', true) ↦ (sent', ended (ok true))
  | ok (sent', false) ↦ wait_for_motd sent' rest
]

-- What goes on after a wait that has succeeded.
abbrev pub and_then : List Text × Waited → (List Text → List Text × Waited) → List Text × Waited
and_then (sent, waiting) next = (sent, waiting)
and_then (sent, ended (raised x)) next = (sent, ended (raised x))
and_then (sent, ended (ok up)) next = next sent

-- `wait_for_services`: the lines sent, and `services_up` at the end.
unfoldable pub wait_for_services :
    Text → Bool → Waited → List (List Message) → List Round → List Text × Waited
unfolding wait_for_motd wait_for_nick_serv
wait_for_services nickserv true port motd rounds = ([], ended (ok true))
wait_for_services nickserv false port motd rounds =
    and_then ([], port)
      (λ none_sent.
        and_then (wait_for_motd (codes "NICK chkNS" ∷ codes "USER chk chk chk chk" ∷ []) motd)
          (λ sent.
            and_then (wait_for_nick_serv nickserv sent rounds)
              (λ sent'. (sent' ++ (codes "QUIT" ∷ []), ended (ok true)))))
