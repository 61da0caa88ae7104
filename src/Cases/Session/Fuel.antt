-- ===== src/Cases/Session/Fuel.antt =====
-- How much fuel the loop of `getCapLs` needs.
use irctest.Base.{
  ℕ, zero, suc, ◌≡◌, ◌≢◌, ◌<◌, refl, ◌||◌, true, false, List, [], ◌∷◌, ◌++◌, Text, codes, ◌==◌,
  list_eq, nat_eq, words, length, arith, inl, inr, Bool-cases,
}
use irctest.Result.{ok, raised, out_of_fuel, assertion_error, ◌>>=◌, ◌>>◌, require, Result-cases}
use irctest.Message.Parse.{Message, param}
use irctest.Cases.Differs.{message_differs, assert_message_match}
use irctest.Patma.Match.{match_string}
use irctest.Cases.Fuelled.{bind-Fuelled, require-Fuelled, ok-Fuelled, param-Fuelled, branch-Fuelled}
use irctest.Cases.Session.{Session, registration_message, is_cap, read_caps}

registration_message-shorter :
    (sent : List Text) (ms : List Message) (m : Message) (s : Session)
    → registration_message sent ms ≡ ok (m, s)
    → length s.incoming < length ms
unfolding registration_message
registration_message-shorter sent [] m s h = absurd (ground arith)
registration_message-shorter sent (x ∷ ms) m s h =
    elim (Bool-cases (x.command == codes "NOTICE" || x.command == codes "020")) [
      | inl e ↦
          let shorter =
            registration_message-shorter sent ms m s (rw (registration_message, e) at h) in
          omega (arith, shorter)
      | inr e ↦ elim (Bool-cases (x.command == codes "PING")) [
        | inr f ↦ ground arith
        | inl f ↦ elim (Result-cases (param x.params 0)) [
          | inr (y, g) ↦ absurd (ground arith)
          | inl (p, g) ↦
              let shorter =
                registration_message-shorter (sent ++ ((codes "PONG :" ++ p) ∷ [])) ms m s
                  (ground arith) in
              omega (arith, shorter)
        ]
      ]
    ]

read_caps-same :
    (n m : ℕ) (caps : List Text) (incoming : List Message) (sent : List Text)
    → length incoming < n
    → length incoming < m
    → read_caps n caps (record { incoming = incoming; sent = sent })
      ≡ read_caps m caps (record { incoming = incoming; sent = sent })
unfolding read_caps registration_message
read_caps-same zero m caps incoming sent h k = absurd (omega arith)
read_caps-same (suc n) zero caps incoming sent h k = absurd (omega arith)
read_caps-same (suc n) (suc m) caps incoming sent h k =
    elim (Result-cases (registration_message sent incoming)) [
      | inr (x, e) ↦ rw (read_caps, e) refl
      | inl ((msg, s), e) ↦
          let shorter = registration_message-shorter sent incoming msg s e in
          rw (read_caps, e)
            (λ i.
              assert_message_match msg is_cap
              >> (param msg.params 1 >>= λ subcommand.
                  require (subcommand == codes "LS") assertion_error
                  >> (param msg.params 2 >>= λ last. elim (last == codes "*") [
                    | true ↦ param msg.params 3 >>= λ more.
                        read_caps-same n m (caps ++ words more) s.incoming s.sent (omega arith)
                          (omega arith) i
                    | false ↦ ok (caps ++ words last, s)
                  ])))
    ]

registration_message-Fuelled :
    (sent : List Text) (ms : List Message) → registration_message sent ms ≢ raised out_of_fuel
unfolding registration_message
registration_message-Fuelled sent [] = ground arith
registration_message-Fuelled sent (m ∷ ms) =
    branch-Fuelled (m.command == codes "NOTICE" || m.command == codes "020") _ _
      (registration_message-Fuelled sent ms)
      (branch-Fuelled (m.command == codes "PING") _ _
        (bind-Fuelled (param m.params 0) _ (param-Fuelled m.params 0)
          (λ p e. registration_message-Fuelled (sent ++ ((codes "PONG :" ++ p) ∷ [])) ms))
        (ok-Fuelled _))

is_cap-Fuelled : (m : Message) → assert_message_match m is_cap ≢ raised out_of_fuel
unfolding assert_message_match message_differs match_string
is_cap-Fuelled m = ground arith

read_caps-Fuelled :
    (n : ℕ) (caps : List Text) (s : Session)
    → length s.incoming < n
    → read_caps n caps s ≢ raised out_of_fuel
unfolding read_caps
read_caps-Fuelled zero caps s h = absurd (omega arith)
read_caps-Fuelled (suc n) caps s h =
    bind-Fuelled (registration_message s.sent s.incoming) _
      (registration_message-Fuelled s.sent s.incoming)
      (λ a e.
        let shorter = registration_message-shorter s.sent s.incoming a.0 a.1 e in
        bind-Fuelled (assert_message_match a.0 is_cap) _ (is_cap-Fuelled a.0) (λ u f.
          bind-Fuelled (param a.0.params 1) _ (param-Fuelled a.0.params 1) (λ subcommand g.
            bind-Fuelled (require (subcommand == codes "LS") assertion_error) _
              (require-Fuelled (subcommand == codes "LS"))
              (λ v k. bind-Fuelled (param a.0.params 2) _ (param-Fuelled a.0.params 2) (λ last l.
                branch-Fuelled (last == codes "*") _ _
                  (bind-Fuelled (param a.0.params 3) _ (param-Fuelled a.0.params 3)
                    (λ more r. read_caps-Fuelled n (caps ++ words more) a.1 (omega arith)))
                  (ok-Fuelled _))))))

-- With more fuel than there are messages, the loop of `getCapLs` never runs out of it, and what the
-- loop gives does not depend on it.
pub read_caps-fuel :
    (n m : ℕ) (caps : List Text) (s : Session)
    → length s.incoming < n
    → length s.incoming < m
    → (read_caps n caps s ≡ read_caps m caps s) × (read_caps n caps s ≢ raised out_of_fuel)
read_caps-fuel n m caps s h k =
    (read_caps-same n m caps s.incoming s.sent h k, read_caps-Fuelled n caps s h)
