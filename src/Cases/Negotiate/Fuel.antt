-- ===== src/Cases/Negotiate/Fuel.antt =====
-- How much fuel the loop of `negotiateCapabilities` needs.
use irctest.Base.{
  ℕ, zero, suc, ◌≡◌, ◌≢◌, ◌<◌, refl, true, false, List, [], ◌∷◌, Text, codes, ◌==◌, list_eq, nat_eq,
  length, leb, arith, inl, inr,
}
use irctest.Result.{ok, raised, out_of_fuel, assertion_error, ◌>>=◌, ◌>>◌, require, Result-cases}
use irctest.Message.Parse.{Message, param}
use irctest.Cases.Fuelled.{bind-Fuelled, require-Fuelled, ok-Fuelled, param-Fuelled, branch-Fuelled}
use irctest.Cases.Negotiate.{Served, user_nick_predicate, next_message, answer, negotiate}

next_message-shorter :
    (c d : Served) (ms rest : List Message) (m : Message)
    → next_message c ms ≡ ok (m, d, rest)
    → length rest < length ms
unfolding next_message
next_message-shorter c d [] rest m h = absurd (ground arith)
next_message-shorter c d (x ∷ ms) rest m h = elim (Result-cases (user_nick_predicate x c)) [
  | inr (y, e) ↦ absurd (ground arith)
  | inl ((true, c'), e) ↦ let same : ms ≡ rest = ground arith in rw (← same) (omega arith)
  | inl ((false, c'), e) ↦
      let shorter = next_message-shorter c' d ms rest m (rw (next_message, e) at h) in
      omega (arith, shorter)
]

negotiate-same :
    (n m : ℕ) (names : List Text) (c : Served) (ms : List Message)
    → length ms < n
    → length ms < m
    → negotiate n names c ms ≡ negotiate m names c ms
unfolding negotiate next_message
negotiate-same zero m names c ms h k = absurd (omega arith)
negotiate-same (suc n) zero names c ms h k = absurd (omega arith)
negotiate-same (suc n) (suc m) names c ms h k = elim (Result-cases (next_message c ms)) [
  | inr (x, e) ↦ rw (negotiate, e) refl
  | inl ((x, d, rest), e) ↦
      let shorter = next_message-shorter c d ms rest x e in
      rw (negotiate, e)
        (λ i. elim (x.command == codes "CAP") [
          | false ↦ ok (x, d, rest)
          | true ↦
              require (leb 1 (length x.params)) assertion_error
              >> (param x.params 0 >>= λ subcommand. elim (subcommand == codes "REQ") [
                | true ↦
                    require (length x.params == 2) assertion_error
                    >> (param x.params 1 >>= λ requested.
                        negotiate-same n m names (answer names requested d) rest (omega arith)
                          (omega arith) i)
                | false ↦ ok (x, d, rest)
              ])
        ])
]

user_nick_predicate-Fuelled :
    (m : Message) (c : Served) → user_nick_predicate m c ≢ raised out_of_fuel
unfolding user_nick_predicate
user_nick_predicate-Fuelled m c =
    branch-Fuelled (m.command == codes "NICK") _ _
      (bind-Fuelled (require (length m.params == 1) assertion_error) _
        (require-Fuelled (length m.params == 1))
        (λ u e.
          bind-Fuelled (param m.params 0) _ (param-Fuelled m.params 0) (λ nick f. ok-Fuelled _)))
      (branch-Fuelled (m.command == codes "USER") _ _
        (bind-Fuelled (require (length m.params == 4) assertion_error) _
          (require-Fuelled (length m.params == 4)) (λ u e. ok-Fuelled _))
        (ok-Fuelled _))

next_message-Fuelled : (c : Served) (ms : List Message) → next_message c ms ≢ raised out_of_fuel
unfolding next_message
next_message-Fuelled c [] = ground arith
next_message-Fuelled c (m ∷ ms) =
    bind-Fuelled (user_nick_predicate m c) _ (user_nick_predicate-Fuelled m c)
      (λ a e. branch-Fuelled a.0 _ _ (ok-Fuelled _) (next_message-Fuelled a.1 ms))

negotiate-Fuelled :
    (n : ℕ) (names : List Text) (c : Served) (ms : List Message)
    → length ms < n
    → negotiate n names c ms ≢ raised out_of_fuel
unfolding negotiate
negotiate-Fuelled zero names c ms h = absurd (omega arith)
negotiate-Fuelled (suc n) names c ms h =
    bind-Fuelled (next_message c ms) _ (next_message-Fuelled c ms) (λ a e.
      let shorter = next_message-shorter c a.1 ms a.2 a.0 e in
      branch-Fuelled (a.0.command == codes "CAP") _ _
        (bind-Fuelled (require (leb 1 (length a.0.params)) assertion_error) _
          (require-Fuelled (leb 1 (length a.0.params)))
          (λ u f. bind-Fuelled (param a.0.params 0) _ (param-Fuelled a.0.params 0) (λ subcommand g.
            branch-Fuelled (subcommand == codes "REQ") _ _
              (bind-Fuelled (require (length a.0.params == 2) assertion_error) _
                (require-Fuelled (length a.0.params == 2))
                (λ v k.
                  bind-Fuelled (param a.0.params 1) _ (param-Fuelled a.0.params 1) (λ requested r.
                    negotiate-Fuelled n names (answer names requested a.1) a.2 (omega arith))))
              (ok-Fuelled _))))
        (ok-Fuelled _))

-- With more fuel than there are messages, the loop of `negotiateCapabilities` never runs out of it,
-- and what the loop gives does not depend on it.
pub negotiate-fuel :
    (n m : ℕ) (names : List Text) (c : Served) (ms : List Message)
    → length ms < n
    → length ms < m
    → (negotiate n names c ms ≡ negotiate m names c ms)
      × (negotiate n names c ms ≢ raised out_of_fuel)
negotiate-fuel n m names c ms h k =
    (negotiate-same n m names c ms h k, negotiate-Fuelled n names c ms h)
