-- ===== src/Client/Receive.antt =====
-- How `getMessages` deals with chunks that do not end a line.
use irctest.Base.{
  ℕ, ◌≡◌, ◌≢◌, refl, ap, sym, ◌∙◌, false, List, [], ◌∷◌, ◌++◌, append_assoc, append-ne_right, arith,
  nat_eq,
}
use irctest.Client.Mock.{Event, bytes, Received, Options, receive, ends_line}

pub ends_line-append :
    (a : List ℕ) (c d : ℕ) (b : List ℕ) → ends_line (a ++ (c ∷ d ∷ b)) ≡ ends_line (c ∷ d ∷ b)
unfolding ends_line
ends_line-append [] c d b = refl
ends_line-append (x ∷ []) c d b = refl
ends_line-append (x ∷ y ∷ []) c d b = refl
ends_line-append (x ∷ y ∷ z ∷ a) c d b = ends_line-append (y ∷ z ∷ a) c d b

receive_more :
    (o : Options) (received : List ℕ) (messages : List Received) (a : List ℕ) (events : List Event)
    → a ≢ []
    → ends_line a ≡ false
    → receive o received messages (bytes a ∷ events) ≡ receive o (received ++ a) messages events
unfolding receive
receive_more o received messages [] events h e = absurd (h refl)
receive_more o received messages (x ∷ a) events h e = rw (e, receive)

-- Only the bytes so far and the end of the chunk matter.
receive_same :
    (o : Options) (r s : List ℕ) (messages : List Received) (a b : List ℕ) (events : List Event)
    → a ≢ []
    → b ≢ []
    → r ++ a ≡ s ++ b
    → ends_line a ≡ ends_line b
    → receive o r messages (bytes a ∷ events) ≡ receive o s messages (bytes b ∷ events)
unfolding receive
receive_same o r s messages [] b events h k e f = absurd (h refl)
receive_same o r s messages (x ∷ a) [] events h k e f = absurd (k refl)
receive_same o r s messages (x ∷ a) (y ∷ b) events h k e f = ground arith

-- A chunk that does not end a line, and the chunk after it, are received as if they had come in
-- one piece, if the second has two bytes or more.
pub receive_fragments :
    (o : Options) (received : List ℕ) (messages : List Received) (a : List ℕ) (c d : ℕ) (b : List ℕ)
    (events : List Event)
    → a ≢ []
    → ends_line a ≡ false
    → receive o received messages (bytes a ∷ bytes (c ∷ d ∷ b) ∷ events)
      ≡ receive o received messages (bytes (a ++ (c ∷ d ∷ b)) ∷ events)
unfolding receive
receive_fragments o received messages a c d b events h e =
    receive_more o received messages a (bytes (c ∷ d ∷ b) ∷ events) h e
    ∙ receive_same o (received ++ a) received messages (c ∷ d ∷ b) (a ++ (c ∷ d ∷ b)) events
        (λ p. cc) (append-ne_right a (c ∷ d ∷ b) (λ p. cc)) (append_assoc received a (c ∷ d ∷ b))
        (sym (ends_line-append a c d b))

ends_line-cr : (a : List ℕ) → ends_line (a ++ (13 ∷ [])) ≡ false
unfolding ends_line nat_eq
ends_line-cr [] = refl
ends_line-cr (x ∷ []) = ground arith
ends_line-cr (x ∷ y ∷ []) = ground arith
ends_line-cr (x ∷ y ∷ z ∷ a) = ends_line-cr (y ∷ z ∷ a)

-- A line of which the LF comes in a chunk of its own is not noticed, though all of it is there:
-- the loop goes on to its next `recv` with the line unread.
pub receive_lone_newline :
    (o : Options) (messages : List Received) (a : List ℕ) (events : List Event)
    → receive o [] messages (bytes (a ++ (13 ∷ [])) ∷ bytes (10 ∷ []) ∷ events)
      ≡ receive o (a ++ (13 ∷ 10 ∷ [])) messages events
receive_lone_newline o messages a events =
    receive_more o [] messages (a ++ (13 ∷ [])) (bytes (10 ∷ []) ∷ events)
      (append-ne_right a (13 ∷ []) (λ p. cc)) (ends_line-cr a)
    ∙ receive_more o (a ++ (13 ∷ [])) messages (10 ∷ []) events (λ p. cc) (unfold ends_line in refl)
    ∙ ap (λ r. receive o r messages events) (append_assoc a (13 ∷ []) (10 ∷ []))
