-- ===== src/Cases/Negotiate/Acked.antt =====
-- Which capabilities a negotiation acknowledges, and what it answers to each request.
use irctest.Base.{
  ℕ, zero, suc, ◌≡◌, ◌∙◌, inl, inr, Bool, true, false, Option, some, List, [], ◌∷◌, ◌++◌, Text,
  codes, ◌==◌, list_eq, nat_eq, words, contains, length, arith, All, All-append, Bool-cases,
  Option-cases, join,
}
use irctest.Base.Dict.{keys}
use irctest.Result.{ok, then_run, Result-cases}
use irctest.Capabilities.{cap_list_to_dict}
use irctest.Message.Parse.{Message, param}
use irctest.Cases.Negotiate.{
  Served, user_nick_predicate, next_message, is_subset_of, add_names, answer, negotiate,
  read_cap_ls, start_negotiation, negotiate_capabilities,
}

abbrev pub AreOffered : List Text → List Text → Type 0
AreOffered names = All (λ n. contains names n ≡ true)

is_subset_of-AreOffered :
    (names requested : List Text) → is_subset_of names requested ≡ true → AreOffered names requested
unfolding is_subset_of
is_subset_of-AreOffered names [] h = tt
is_subset_of-AreOffered names (r ∷ requested) h =
    (ground arith, is_subset_of-AreOffered names requested (ground arith))

add_names-AreOffered :
    (names acked requested : List Text)
    → AreOffered names acked
    → AreOffered names requested
    → AreOffered names (add_names acked requested)
unfolding add_names
add_names-AreOffered names acked [] h k = h
add_names-AreOffered names acked (r ∷ requested) h k = elim (Bool-cases (contains acked r)) [
  | inl e ↦ rw (add_names, e) (add_names-AreOffered names acked requested h k.1)
  | inr e ↦
      rw (add_names, e)
        (add_names-AreOffered names (acked ++ (r ∷ [])) requested
          (All-append (λ n. contains names n ≡ true) acked (r ∷ []) h (k.0, tt)) k.1)
]

answer-AreOffered :
    (names : List Text) (requested : Text) (c : Served)
    → AreOffered names c.acked_capabilities
    → AreOffered names (answer names requested c).acked_capabilities
unfolding answer
answer-AreOffered names requested c h = elim (Bool-cases (is_subset_of names (words requested))) [
  | inl e ↦
      rw (answer, e)
        (add_names-AreOffered names c.acked_capabilities (words requested) h
          (is_subset_of-AreOffered names (words requested) e))
  | inr e ↦ rw (answer, e) h
]

user_nick_predicate-acked :
    (m : Message) (c c' : Served) (accepted : Bool)
    → user_nick_predicate m c ≡ ok (accepted, c')
    → c'.acked_capabilities ≡ c.acked_capabilities
unfolding user_nick_predicate
user_nick_predicate-acked m c c' accepted h = ground arith

next_message-acked :
    (c c' : Served) (ms ms' : List Message) (m : Message)
    → next_message c ms ≡ ok (m, c', ms')
    → c'.acked_capabilities ≡ c.acked_capabilities
unfolding next_message
next_message-acked c c' [] ms' m h = absurd (ground arith)
next_message-acked c c' (x ∷ ms) ms' m h = elim (Result-cases (user_nick_predicate x c)) [
  | inl ((true, d), e) ↦
      let same : d ≡ c' = ground arith in rw (← same) (user_nick_predicate-acked x c d true e)
  | inl ((false, d), e) ↦
      next_message-acked d c' ms ms' m (rw (next_message, e) at h)
      ∙ user_nick_predicate-acked x c d false e
  | inr (x, e) ↦ absurd (ground arith)
]

negotiate-AreOffered :
    (n : ℕ) (names : List Text) (c c' : Served) (ms ms' : List Message) (m : Message)
    → negotiate n names c ms ≡ ok (m, c', ms')
    → AreOffered names c.acked_capabilities
    → AreOffered names c'.acked_capabilities
unfolding negotiate
negotiate-AreOffered zero names c c' ms ms' m h a = absurd (ground arith)
negotiate-AreOffered (suc n) names c c' ms ms' m h a = elim (Result-cases (next_message c ms)) [
  | inr (x, e) ↦ absurd (ground arith)
  | inl ((x, d, rest), e) ↦
      let offered : AreOffered names d.acked_capabilities =
        rw (next_message-acked c d ms rest x e) a in
      elim (Bool-cases (x.command == codes "CAP")) [
        | inr f ↦ let same : d ≡ c' = ground arith in rw (← same) offered
        | inl f ↦ elim (Result-cases (param x.params 0)) [
          | inr (y, g) ↦ absurd (ground arith)
          | inl (subcommand, g) ↦ elim (Bool-cases (subcommand == codes "REQ")) [
            | inr k ↦ let same : d ≡ c' = ground arith in rw (← same) offered
            | inl k ↦ elim (Result-cases (param x.params 1)) [
              | inr (y, l) ↦ absurd (ground arith)
              | inl (requested, l) ↦
                  negotiate-AreOffered n names (answer names requested d) c' rest ms' m
                    (ground arith) (answer-AreOffered names requested d offered)
            ]
          ]
        ]
      ]
]

start_negotiation-AreOffered :
    (caps : List Text) (c c' : Served) (ms ms' : List Message) (m : Option Message)
    → start_negotiation caps c ms ≡ ok (m, c', ms')
    → AreOffered (keys (cap_list_to_dict caps)) c'.acked_capabilities
start_negotiation-AreOffered caps c c' ms ms' m h =
    elim (Result-cases (
      negotiate (suc (length ms)) (keys (cap_list_to_dict caps))
        (record c { acked_capabilities = [] }) ms)) [
          | inr (x, e) ↦ absurd (ground arith)
          | inl ((x, d, rest), e) ↦
              let same : d ≡ c' = ground arith in
              rw (← same) (
                negotiate-AreOffered (suc (length ms)) (keys (cap_list_to_dict caps))
                  (record c { acked_capabilities = [] }) d ms rest x e tt)
        ]

-- After a negotiation that ends with a message, only capabilities that were offered are acknowledged.
pub negotiate_capabilities-AreOffered :
    (caps : List Text) (cap_ls : Bool) (c c' : Served) (ms ms' : List Message) (m : Message)
    → negotiate_capabilities caps cap_ls c ms ≡ ok (some m, c', ms')
    → AreOffered (keys (cap_list_to_dict caps)) c'.acked_capabilities
unfolding negotiate_capabilities
negotiate_capabilities-AreOffered caps false c c' ms ms' m h =
    start_negotiation-AreOffered caps c c' ms ms' (some m) h
negotiate_capabilities-AreOffered caps true c c' ms ms' m h =
    elim (Result-cases (read_cap_ls c ms)) [
      | inr (x, e) ↦ absurd (ground arith)
      | inl ((d, rest), e) ↦ elim (Option-cases d.protocol_version) [
        | inl f ↦ absurd (ground arith)
        | inr (version, f) ↦
            start_negotiation-AreOffered caps
              (record d { sent = d.sent ++ ((codes "CAP * LS :" ++ join (codes " ") caps) ∷ []) })
              c' rest ms' (some m) (rw (negotiate_capabilities, e, then_run, f) at h)
      ]
    ]
