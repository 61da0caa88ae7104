-- ===== src/Cases/Negotiate/Answers.antt =====
-- Every request of a client is answered, in order.
use irctest.Base.{
  ℕ, zero, suc, ◌<◌, ◌≡◌, ◌≢◌, refl, sym, ◌∙◌, inl, inr, false, Option, List, [], ◌∷◌, ◌++◌,
  append_assoc, append-nil, map, Text, codes, ◌==◌, list_eq, nat_eq, words, length, arith,
  Bool-cases, if◌then◌else◌,
}
use irctest.Result.{ok, then_run}
use irctest.Message.Tags.{Tags}
use irctest.Message.Parse.{Message}
use irctest.Cases.Negotiate.{
  Served, user_nick_predicate, next_message, nick_or_star, take_chars, is_subset_of, answer,
  negotiate,
}

-- What is sent for a request.
abbrev pub reply : List Text → Option Text → Text → Text
reply names nick requested =
    codes "CAP "
    ++ (nick_or_star nick
        ++ (if is_subset_of names (words requested)
            then codes " ACK :" ++ requested
            else codes " NAK :" ++ take_chars 100 requested))

abbrev pub request : Tags → Option Text → Text → Message
request tags prefix requested = record {
  tags = tags;
  prefix = prefix;
  command = codes "CAP";
  params = codes "REQ" ∷ requested ∷ [];
}

-- A message that ends the negotiation.
pub record IsLast (m : Message) : Type 0 where
  pub no_nick : m.command ≢ codes "NICK"
  pub no_user : m.command ≢ codes "USER"
  pub no_cap : m.command ≢ codes "CAP"

answer-reply :
    (names : List Text) (requested : Text) (c : Served)
    → ((answer names requested c).sent ≡ c.sent ++ (reply names c.nick requested ∷ []))
      × ((answer names requested c).nick ≡ c.nick)
unfolding answer
answer-reply names requested c = elim (Bool-cases (is_subset_of names (words requested))) [
  | inl e ↦ rw (answer, e) (refl, refl)
  | inr e ↦ rw (answer, e) (refl, refl)
]

different : (s t : Text) → s ≢ t → (s == t) ≡ false
different s t h = ground arith

module _ (names : List Text) (tags : Tags) (prefix : Option Text) where
  negotiate-request :
      (n : ℕ) (c : Served) (requested : Text) (ms : List Message)
      → negotiate (suc n) names c (request tags prefix requested ∷ ms)
        ≡ negotiate n names (answer names requested c) ms
  unfolding negotiate
  negotiate-request n c requested ms = refl

  negotiate-last :
      (n : ℕ) (c : Served) (m : Message) (ms : List Message)
      → IsLast m
      → negotiate (suc n) names c (m ∷ ms) ≡ ok (m, c, ms)
  unfolding negotiate
  negotiate-last n c m ms h =
      rw
        (
          negotiate,
          next_message,
          user_nick_predicate,
          different m.command (codes "NICK") h.no_nick,
          different m.command (codes "USER") h.no_user,
          then_run,
          different m.command (codes "CAP") h.no_cap,
        )
        refl

  -- With more fuel than requests, the negotiation ends at the message that follows them, and each
  -- request has got one answer, in order: `ACK` if all of it was offered, and else `NAK`.
  pub negotiate-replies :
      (n : ℕ) (c : Served) (requests : List Text) (m : Message) (ms : List Message)
      → IsLast m
      → length requests < n
      → (d : Served) × (negotiate n names c (map (request tags prefix) requests ++ (m ∷ ms))
          ≡ ok (m, d, ms))
        × (d.sent ≡ c.sent ++ map (reply names c.nick) requests)
  negotiate-replies zero c requests m ms h k = absurd (omega arith)
  negotiate-replies (suc n) c [] m ms h k = (c, negotiate-last n c m ms h, sym (append-nil c.sent))
  negotiate-replies (suc n) c (r ∷ requests) m ms h k =
      let (d, run, sent) = negotiate-replies n (answer names r c) requests m ms h (omega arith) in
      let (line, nick) = answer-reply names r c in
      (
        d,
        negotiate-request n c r (map (request tags prefix) requests ++ (m ∷ ms)) ∙ run,
        sent
            ∙ rw (line, nick)
                (append_assoc c.sent (reply names c.nick r ∷ [])
                  (map (reply names c.nick) requests)),
      )
