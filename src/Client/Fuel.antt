-- ===== src/Client/Fuel.antt =====
-- How much fuel the loop of `getMessage` needs.
use irctest.Base.{
  ℕ, zero, suc, ◌+◌, ◌≡◌, ◌⊎◌, ◌<◌, refl, Bool, true, false, inl, inr, List, [], ◌∷◌, ◌++◌, arith,
  Text, codes, length, Bool-cases, Option-cases,
}
use irctest.Result.{Exception, ok, Result-cases}
use irctest.Client.Mock.{
  Event, bytes, timeout, reset, Received, Client, Outcome, returns, raises, waits, Options,
  ends_line, take_data, receive, ping, send_line, get_messages, pop_accepted, get_message,
}

-- What the loop leaves of the events, if it returns.
receive-shorter :
    (o : Options) (received : List ℕ) (messages result : List Received) (events : List Event)
    → (receive o received messages events).0 ≡ returns result
    → length (receive o received messages events).1 < length events
unfolding receive
receive-shorter o received messages result [] h = absurd (ground arith)
receive-shorter o received messages result (timeout ∷ events) h =
    ground (arith, receive-shorter o received messages result events)
receive-shorter o received messages result (reset ∷ events) h = ground arith
receive-shorter o received messages result (bytes [] ∷ events) h = ground arith
receive-shorter o received messages result (bytes (c ∷ d) ∷ events) h =
    elim (Bool-cases (ends_line (c ∷ d))) [
      | inr e ↦
          rw (length, e, receive)
            (omega (
              arith,
              receive-shorter o (received ++ (c ∷ d)) messages result events (rw (e, receive) at h),
            ))
      | inl e ↦ elim (Result-cases (take_data o (received ++ (c ∷ d)) messages)) [
        | inl ((messages', true), f) ↦ rw (length, e, receive, f) (omega arith)
        | inl ((messages', false), f) ↦
            rw (length, e, f, receive)
              (omega
                (arith, receive-shorter o [] messages' result events (rw (e, f, receive) at h)))
        | inr (x, f) ↦ absurd (ground arith)
      ]
    ]

send_line-events : (l : Text) (c c' : Client) → send_line l c ≡ ok c' → c'.events ≡ c.events
unfolding send_line
send_line-events l c c' h = ground arith

ping-events : (o : Options) (c c' : Client) → ping o c ≡ ok c' → c'.events ≡ c.events
ping-events o c c' h = ground (arith, send_line-events (codes "PING " ++ o.token) c c')

get_messages-shorter :
    (o : Options) (c : Client) (result : List Received)
    → (get_messages o c).0 ≡ returns result
    → length (get_messages o c).1.events < length c.events
unfolding get_messages
get_messages-shorter o c result h = elim (Result-cases (ping o c)) [
  | inr (x, e) ↦ absurd (ground arith)
  | inl (c', e) ↦
      let shorter = receive-shorter o [] c.inbuffer result c'.events (rw (e, get_messages) at h) in
      rw (e, get_messages, ← ping-events o c c' e) shorter
]

Outcome-cases :
    {A : Type 0} (r : Outcome A)
    → (((a : A) × (r ≡ returns a)) ⊎ ((x : Exception) × (r ≡ raises x))) ⊎ (r ≡ waits)
Outcome-cases (returns a) = inl (inl (a, refl))
Outcome-cases (raises x) = inl (inr (x, refl))
Outcome-cases waits = inr refl

-- The answer of `getMessage` does not depend on the fuel, if there is more of it than events.
pub get_message-fuel :
    (n m : ℕ) (options : ℕ → Options) (calls : ℕ) (accepts : Received → Bool) (c : Client)
    → length c.events < n
    → length c.events < m
    → get_message n options calls accepts c ≡ get_message m options calls accepts c
unfolding get_message
get_message-fuel zero m options calls accepts c h k = absurd (omega arith)
get_message-fuel (suc n) zero options calls accepts c h k = absurd (omega arith)
get_message-fuel (suc n) (suc m) options calls accepts c h k =
    let rest : Client = record c { inbuffer = (pop_accepted accepts c.inbuffer).1 } in
    elim (Option-cases (pop_accepted accepts c.inbuffer).0) [
      | inr (found, e) ↦ rw (get_message, e) refl
      | inl e ↦ elim (Outcome-cases (get_messages (options calls) rest).0) [
        | inl (inl ([], f)) ↦ rw (get_message, e, f) refl
        | inl (inl (x ∷ xs, f)) ↦
            let shorter = get_messages-shorter (options calls) rest (x ∷ xs) f in
            rw (get_message, e, f)
              (get_message-fuel n m options (calls + 1) accepts
                (record (get_messages (options calls) rest).1 { inbuffer = x ∷ xs }) (omega arith)
                (omega arith))
        | inl (inr (x, f)) ↦ rw (get_message, e, f) refl
        | inr f ↦ rw (get_message, e, f) refl
      ]
    ]
