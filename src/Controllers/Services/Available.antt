-- ===== src/Controllers/Services/Available.antt =====
-- How the wait for services ends.
use irctest.Base.{
  ℕ, suc, ◌+◌, ◌≤◌, ◌≡◌, ◌⊎◌, inl, inr, refl, sym, ◌∙◌, eq_iff, arith, Bool, true, false, ◌||◌,
  Option, none, some, List, [], ◌∷◌, ◌++◌, IsIn, Text, codes, ◌==◌, list_eq, nat_eq, leb, length,
  lower, occurs, Bool-cases, if◌then◌else◌,
}
use irctest.Result.{Result, Exception, Result-cases, ok, raised, failed, assertion_error}
use irctest.Message.Parse.{Message}
use irctest.Controllers.Start.{Waited, ended}
use irctest.Controllers.Services.{
  Poll, get_nick_serv_response, read_notice, is_available, read_replies, Round, help_line,
  wait_for_nick_serv,
}

-- The poll with the number `n`, counted from there, comes `n` sleeps after the start at the earliest.
abbrev pub PollsPass : ℕ → List Poll → Type 0
PollsPass n [] = Unit
PollsPass n (poll ∷ polls) = (n ≤ poll.now) × PollsPass (suc n) polls

List-cases :
    (ms : List Message) → (ms ≡ []) ⊎ ((m : Message) × (rest : List Message) × (ms ≡ m ∷ rest))
List-cases [] = inl refl
List-cases (m ∷ ms) = inr (m, ms, refl)

response-ends :
    (n : ℕ) (polls : List Poll)
    → 21 ≤ n + length polls
    → n ≤ 20
    → PollsPass n polls
    → (msgs : List Message) × (get_nick_serv_response 20 polls ≡ some msgs)
unfolding get_nick_serv_response nat_eq
response-ends n [] h k p = absurd (omega (arith, h, k))
response-ends n (poll ∷ polls) h k p = elim (Bool-cases (leb 20 poll.now)) [
  | inl late ↦ ([], rw (get_nick_serv_response, late) refl)
  | inr early ↦
      let (msgs, e) =
        response-ends (suc n) polls (omega (arith, h)) (ground (arith, early, p.0)) p.1 in
      elim (List-cases poll.messages) [
        | inl f ↦ (msgs, rw (get_nick_serv_response, early, f) e)
        | inr (m, rest, f) ↦ (m ∷ rest, rw (get_nick_serv_response, early, f) refl)
      ]
]

-- A message is among what the polls gave.
abbrev pub IsGot : Message → List Poll → Type 0
IsGot m polls = (poll : Poll) × IsIn poll polls × IsIn m poll.messages

response-IsGot :
    (polls : List Poll) (msgs : List Message) (m : Message)
    → get_nick_serv_response 20 polls ≡ some msgs
    → IsIn m msgs
    → IsGot m polls
unfolding get_nick_serv_response nat_eq
response-IsGot [] msgs m e h = absurd (ground arith)
response-IsGot (poll ∷ polls) msgs m e h = elim (Bool-cases (leb 20 poll.now)) [
  | inl late ↦
      let same : msgs ≡ [] = ground (arith, e, late) in
      absurd (let r : IsIn m msgs → ⊥ = rw same (λ z. z) in r h)
  | inr early ↦ elim (List-cases poll.messages) [
    | inl f ↦
        let (p, i, j) = response-IsGot polls msgs m (ground (arith, e, early, f)) h in (p, inr i, j)
    | inr (k, rest, f) ↦
        let same : msgs ≡ k ∷ rest = ground (arith, e, early, f) in
        let r : IsIn m msgs → IsIn m poll.messages = rw (same, f) (λ z. z) in (poll, inl refl, r h)
  ]
]

-- A notice of NickServ.
abbrev pub IsNickServ : Message → Type 0
IsNickServ m =
    (m.command ≡ codes "NOTICE")
    × (prefix : Text) × (m.prefix ≡ some prefix)
    × (occurs (codes "nickserv") (lower prefix) ≡ true)

-- A reply tells something by its being a notice.
notice_last :
    (a b c d : Bool) (r q : Result Bool)
    → (if a
        then ok false
        else if b
        then ok false
        else if c
        then ok false
        else if d
        then r
        else raised assertion_error)
      ≡ q
    → (q ≡ ok false) ⊎ (((d ≡ true) × (r ≡ q)) ⊎ (q ≡ raised assertion_error))
notice_last true b c d r q h = inl (sym h)
notice_last false true c d r q h = inl (sym h)
notice_last false false true d r q h = inl (sym h)
notice_last false false false true r q h = inr (inl (refl, h))
notice_last false false false false r q h = inr (inr (sym h))

is_available-cases :
    (m : Message)
    → (is_available m ≡ ok false)
      ⊎ ((((m.command == codes "NOTICE") ≡ true) × (read_notice m.prefix ≡ is_available m))
          ⊎ (is_available m ≡ raised assertion_error))
unfolding is_available
is_available-cases m =
    notice_last (m.command == codes "401") (m.command == codes "MODE" || m.command == codes "221")
      (m.command == codes "396") (m.command == codes "NOTICE") (read_notice m.prefix)
      (is_available m) refl

read_notice-raises :
    (prefix : Option Text) (x : Exception) → read_notice prefix ≡ raised x → x ≡ assertion_error
unfolding read_notice
read_notice-raises none x h = ground (arith, h)
read_notice-raises (some p) x h = ground (arith, h)

read_notice-nickserv :
    (prefix : Option Text)
    → read_notice prefix ≡ ok true
    → (p : Text) × (prefix ≡ some p) × (occurs (codes "nickserv") (lower p) ≡ true)
unfolding read_notice
read_notice-nickserv none h = absurd (ground (arith, h))
read_notice-nickserv (some p) h = (p, refl, ground (arith, h))

is_available-IsNickServ : (m : Message) → is_available m ≡ ok true → IsNickServ m
is_available-IsNickServ m h = elim (is_available-cases m) [
  | inl e ↦ absurd (ground (arith, e, h))
  | inr (inr e) ↦ absurd (ground (arith, e, h))
  | inr (inl (e, f)) ↦
      let (p, g, k) = read_notice-nickserv m.prefix (f ∙ h) in
      ((eq_iff m.command (codes "NOTICE")).0 e, p, g, k)
]

is_available-raises :
    (m : Message) (x : Exception) → is_available m ≡ raised x → x ≡ assertion_error
is_available-raises m x h = elim (is_available-cases m) [
  | inl e ↦ absurd (ground (arith, e, h))
  | inr (inr e) ↦ ground (arith, e, h)
  | inr (inl (e, f)) ↦ read_notice-raises m.prefix x (f ∙ h)
]

read_replies-lem :
    (msgs : List Message) (r : Result Bool)
    → read_replies msgs ≡ r
    → (r ≡ ok false)
      ⊎ (((m : Message) × IsIn m msgs × IsNickServ m × (r ≡ ok true))
          ⊎ (r ≡ raised assertion_error))
unfolding read_replies
read_replies-lem [] r h = inl (sym h)
read_replies-lem (m ∷ ms) r h = elim (Result-cases (is_available m)) [
  | inr (x, e) ↦ inr (inr (ground (arith, h, e, is_available-raises m x e)))
  | inl (true, e) ↦ inr (inl (m, inl refl, is_available-IsNickServ m e, ground (arith, h, e)))
  | inl (false, e) ↦ elim (read_replies-lem ms r (ground (arith, h, e))) [
    | inl f ↦ inl f
    | inr (inr f) ↦ inr (inr f)
    | inr (inl (k, i, n, f)) ↦ inr (inl (k, inr i, n, f))
  ]
]

-- A message is among the replies of some round.
abbrev pub IsReply : Message → List Round → Type 0
IsReply m rounds = (round : Round) × IsIn round rounds × IsGot m round.polls

-- Each round takes a sleep at least, and its polls go on until its timeout.
abbrev pub RoundsPass : ℕ → List Round → Type 0
RoundsPass n [] = Unit
RoundsPass n (round ∷ rounds) =
    ((n ≤ round.elapsed) × (21 ≤ length round.polls) × PollsPass 0 round.polls)
    × RoundsPass (suc n) rounds

-- How the wait ends.
abbrev pub Ended : List Round → Waited → Type 0
Ended rounds w =
    (w ≡ ended (raised failed))
    ⊎ ((w ≡ ended (raised assertion_error))
        ⊎ ((w ≡ ended (ok true)) × (m : Message) × IsReply m rounds × IsNickServ m))

Ended-later :
    (round : Round) (rounds : List Round) (w : Waited) → Ended rounds w → Ended (round ∷ rounds) w
Ended-later round rounds w (inl h) = inl h
Ended-later round rounds w (inr (inl h)) = inr (inl h)
Ended-later round rounds w (inr (inr (e, m, (r, i, g), k))) = inr (inr (e, m, (r, inr i, g), k))

ends-from :
    (n : ℕ) (nickserv : Text) (sent : List Text) (rounds : List Round)
    → n ≤ 201
    → 202 ≤ n + length rounds
    → RoundsPass n rounds
    → Ended rounds (wait_for_nick_serv nickserv sent rounds).1
unfolding wait_for_nick_serv
ends-from n nickserv sent [] h k p = absurd (omega (arith, h, k))
ends-from n nickserv sent (round ∷ rounds) h k ((late, polls, pass), p) =
    let (msgs, e) = response-ends 0 round.polls (omega (arith, polls)) (omega arith) pass in
    elim (read_replies-lem msgs (read_replies msgs) refl) [
      | inr (inr f) ↦ rw (wait_for_nick_serv, e, f) (inr (inl refl))
      | inr (inl (m, i, is, f)) ↦
          rw (wait_for_nick_serv, e, f)
            (inr (inr (refl, m, (round, inl refl, response-IsGot round.polls msgs m e i), is)))
      | inl f ↦ elim (Bool-cases (leb round.elapsed 200)) [
        | inr g ↦ rw (wait_for_nick_serv, e, f, g) (inl refl)
        | inl g ↦
            rw (wait_for_nick_serv, e, f, g)
              (Ended-later round rounds _ (
                ends-from (suc n) nickserv (sent ++ (help_line nickserv ∷ [])) rounds
                  (ground (arith, g, late)) (omega (arith, k)) p))
      ]
    ]

-- If each poll and each round takes a sleep at least, and each round goes on to its timeout, the wait
-- for NickServ ends within 201 rounds: some reply was a notice with `nickserv` in its prefix, or the
-- time is up, or a reply was not expected.
pub wait_for_nick_serv-Ended :
    (nickserv : Text) (sent : List Text) (rounds : List Round)
    → RoundsPass 1 rounds
    → 201 ≤ length rounds
    → Ended rounds (wait_for_nick_serv nickserv sent rounds).1
wait_for_nick_serv-Ended nickserv sent rounds p h =
    ends-from 1 nickserv sent rounds (omega arith) (omega (arith, h)) p
