-- ===== src/Controllers/Services/Tests.antt =====
-- Services that answer and services that do not.
use irctest.Base.{
  ℕ, zero, suc, ◌≡◌, refl, arith, true, false, some, List, [], ◌∷◌, Text, codes, list_eq, nat_eq,
  length,
}
use irctest.Result.{ok, raised, failed, assertion_error}
use irctest.Message.Parse.{Message}
use irctest.Controllers.Start.{ended}
use irctest.Controllers.Services.{Poll, Round, read_replies, wait_for_nick_serv, wait_for_services}
use irctest.Controllers.Services.Available.{PollsPass, RoundsPass, Ended, wait_for_nick_serv-Ended}

abbrev line : Text → Text → Message
line prefix command = record {
  tags = [];
  prefix = some prefix;
  command = command;
  params = codes "chkNS" ∷ [];
}

abbrev not_there : Message
not_there = line (codes "irc.test") (codes "401")

abbrev greeting : Message
greeting = line (codes "NickServ!s@h") (codes "NOTICE")

abbrev answered : Message → ℕ → Round
answered m elapsed = record {
  polls = record { now = 1; messages = [] } ∷ record { now = 2; messages = m ∷ [] } ∷ [];
  elapsed = elapsed;
}

available_later :
    wait_for_services
      (codes "NickServ")
      false
      (ended (ok true))
      ((line (codes "irc.test") (codes "PING") ∷ [])
        ∷ (line (codes "irc.test") (codes "422") ∷ [])
        ∷ [])
      (answered not_there 3 ∷ answered greeting 6 ∷ [])
    ≡ (
      codes "NICK chkNS"
          ∷ codes "USER chk chk chk chk"
          ∷ codes "PONG :chkNS"
          ∷ codes "PRIVMSG NickServ :help"
          ∷ codes "PRIVMSG NickServ :help"
          ∷ codes "QUIT"
          ∷ [],
      ended (ok true),
    )
unfolding wait_for_services
available_later = refl

too_late :
    (wait_for_nick_serv (codes "NickServ") [] (answered not_there 201 ∷ [])).1
    ≡ ended (raised failed)
unfolding wait_for_nick_serv
too_late = refl

unexpected : read_replies (line (codes "irc.test") (codes "ERROR") ∷ []) ≡ raised assertion_error
unfolding read_replies
unexpected = refl

notice_of_server : read_replies (line (codes "irc.test") (codes "NOTICE") ∷ []) ≡ ok false
unfolding read_replies
notice_of_server = refl

abbrev quiet : ℕ → ℕ → List Poll
quiet zero now = []
quiet (suc n) now = record { now = now; messages = [] } ∷ quiet n (suc now)

quiet-PollsPass : (n now : ℕ) → PollsPass now (quiet n now)
quiet-PollsPass zero now = tt
quiet-PollsPass (suc n) now = (omega arith, quiet-PollsPass n (suc now))

length-quiet : (n now : ℕ) → length (quiet n now) ≡ n
length-quiet zero now = refl
length-quiet (suc n) now = omega (arith, length-quiet n (suc now))

-- Rounds with no replies.
abbrev silent : ℕ → ℕ → List Round
silent zero elapsed = []
silent (suc n) elapsed = record { polls = quiet 21 0; elapsed = elapsed } ∷ silent n (suc elapsed)

silent-RoundsPass : (n elapsed : ℕ) → RoundsPass elapsed (silent n elapsed)
silent-RoundsPass zero elapsed = tt
silent-RoundsPass (suc n) elapsed = (
  (omega arith, omega (arith, length-quiet 21 0), quiet-PollsPass 21 0),
  silent-RoundsPass n (suc elapsed),
)

length-silent : (n elapsed : ℕ) → length (silent n elapsed) ≡ n
length-silent zero elapsed = refl
length-silent (suc n) elapsed = omega (arith, length-silent n (suc elapsed))

wait_for_nick_serv-Ended_example :
    Ended (silent 201 1) (wait_for_nick_serv (codes "NickServ") [] (silent 201 1)).1
wait_for_nick_serv-Ended_example =
    wait_for_nick_serv-Ended (codes "NickServ") [] (silent 201 1) (silent-RoundsPass 201 1)
      (omega (arith, length-silent 201 1))
