-- ===== src/SelfTests/Ways.antt =====
-- The three ways to compare a message, which the checks ask for at once.
use irctest.Base.{◌≡◌, Option, ◌↔◌, refl, inl, inr, none, some, Text, arith}
use irctest.Result.{ok, Result-cases}
use irctest.Message.Parse.{Message, parse_message}
use irctest.Cases.Differs.{
  Expectation, Difference, message_differs, message_equal, assert_message_match,
}
use irctest.Cases.Differs.Exact.{IsMatch, without_target, message_differs_iff}
use irctest.SelfTests.{test_message_matching_positive, test_message_matching_negative}

test_message_matching_positive_iff :
    (spec : Expectation) (msg : Text)
    → (test_message_matching_positive spec msg ≡ ok tt)
      ↔ ((m : Message) × (parse_message msg ≡ ok m) × IsMatch m (without_target spec))
unfolding test_message_matching_positive message_equal assert_message_match
test_message_matching_positive_iff spec msg = elim (Result-cases (parse_message msg)) [
  | inr (x, e) ↦ ground arith
  | inl (m, e) ↦ elim (Result-cases (message_differs m spec)) [
    | inr (x, f) ↦ ground arith
    | inl (none, f) ↦ (λ run. (m, e, (message_differs_iff m spec).0 f), λ h. rw (e, f) refl)
    | inl (some d, f) ↦ (
      λ run. absurd (ground arith),
      λ (n, g, matched). absurd (ground (arith, (message_differs_iff n spec).1 matched)),
    )
  ]
]

test_message_matching_negative_iff :
    (spec : Expectation) (msg : Text)
    → (test_message_matching_negative spec msg ≡ ok tt) ↔ (
        (m : Message) × (parse_message msg ≡ ok m)
        × ¬ IsMatch m (without_target spec)
        × ((d : Option Difference) × (message_differs m spec ≡ ok d)))
unfolding test_message_matching_negative message_equal assert_message_match
test_message_matching_negative_iff spec msg = elim (Result-cases (parse_message msg)) [
  | inr (x, e) ↦ ground arith
  | inl (m, e) ↦ elim (Result-cases (message_differs m spec)) [
    | inr (x, f) ↦ ground arith
    | inl (none, f) ↦ (
      λ run. absurd (ground arith),
      λ (n, g, fails, rest).
          let same : m ≡ n = ground (arith, e, g) in
          absurd (fails ((message_differs_iff n spec).0 (rw (← same) f))),
    )
    | inl (some d, f) ↦ (
      λ run. (
        m,
        e,
        λ matched. absurd (ground (arith, (message_differs_iff m spec).1 matched)),
        (some d, f),
      ),
      λ h. rw (e, f) refl,
    )
  ]
]

-- The check that a message is matched passes exactly if the message can be parsed and every
-- comparison that is asked for succeeds, apart from that of `target`. The check that it is not
-- matched passes exactly if the message can be parsed, one of these comparisons fails, and
-- `messageDiffers` raises nothing.
pub test_message_matching_iff :
    (spec : Expectation) (msg : Text)
    → ((test_message_matching_positive spec msg ≡ ok tt)
        ↔ ((m : Message) × (parse_message msg ≡ ok m) × IsMatch m (without_target spec)))
      × ((test_message_matching_negative spec msg ≡ ok tt) ↔ (
          (m : Message) × (parse_message msg ≡ ok m)
          × ¬ IsMatch m (without_target spec)
          × ((d : Option Difference) × (message_differs m spec ≡ ok d))))
test_message_matching_iff spec msg =
    (test_message_matching_positive_iff spec msg, test_message_matching_negative_iff spec msg)
