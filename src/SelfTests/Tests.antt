-- ===== src/SelfTests/Tests.antt =====
-- All the specified messages, and the theorems at one of them.
use irctest.Base.{
  ◌≡◌, ◌↔◌, refl, Option, codes, list_eq, nat_eq, option_eq, string_eq, starts_with, cut, non_empty,
}
use irctest.Base.Dict.{insert}
use irctest.Result.{Result, ok, for_each, ◌>>=◌, ◌>>◌}
use irctest.Message.Escape.{unescape_tag_value}
use irctest.Message.Parse.{Message, parse_message}
use irctest.Patma.Match.{match_string, match_list, match_dict}
use irctest.Patma.Operators.{re_match}
use irctest.Cases.Differs.{Difference, message_differs, assert_message_match}
use irctest.Cases.Differs.Exact.{IsMatch, without_target}
use irctest.SelfTests.{
  test_message_matching_positive, test_message_matching_negative,
  test_message_matching_negative_message,
}
use irctest.SelfTests.Ways.{test_message_matching_iff}
use irctest.SelfTests.Specs.{Spec, literal, anything}
use irctest.SelfTests.Specs.Plain.{plain, params_re, nick_only, tag_literal, tag_any}
use irctest.SelfTests.Specs.Tags.{tag_others, tag_key_re, tag_not_others}
use irctest.SelfTests.Specs.Params.{
  optional_param, either_param, remainder, remainder_least, remainder_re, ping,
}

-- All tests of a specification.
unfoldable run_spec : Spec → Result (Unit {0})
unfolding for_each parse_message starts_with cut non_empty match_string match_list match_dict insert
    unescape_tag_value re_match literal anything assert_message_match test_message_matching_positive
    test_message_matching_negative test_message_matching_negative_message
run_spec s = for_each (test_message_matching_positive s.spec) s.positive_matches >>= λ matched.
    for_each
      (λ (msg, d).
        test_message_matching_negative s.spec msg
        >> test_message_matching_negative_message s.spec msg d)
      s.negative_matches
    >>= λ unmatched. ok tt

plain_passes : run_spec plain ≡ ok tt
unfolding run_spec
plain_passes = refl

params_re_passes : run_spec params_re ≡ ok tt
unfolding run_spec
params_re_passes = refl

nick_only_passes : run_spec nick_only ≡ ok tt
unfolding run_spec
nick_only_passes = refl

tag_literal_passes : run_spec tag_literal ≡ ok tt
unfolding run_spec
tag_literal_passes = refl

tag_any_passes : run_spec tag_any ≡ ok tt
unfolding run_spec
tag_any_passes = refl

tag_others_passes : run_spec tag_others ≡ ok tt
unfolding run_spec
tag_others_passes = refl

tag_key_re_passes : run_spec tag_key_re ≡ ok tt
unfolding run_spec
tag_key_re_passes = refl

tag_not_others_passes : run_spec tag_not_others ≡ ok tt
unfolding run_spec
tag_not_others_passes = refl

optional_param_passes : run_spec optional_param ≡ ok tt
unfolding run_spec
optional_param_passes = refl

either_param_passes : run_spec either_param ≡ ok tt
unfolding run_spec
either_param_passes = refl

remainder_passes : run_spec remainder ≡ ok tt
unfolding run_spec
remainder_passes = refl

remainder_least_passes : run_spec remainder_least ≡ ok tt
unfolding run_spec
remainder_least_passes = refl

remainder_re_passes : run_spec remainder_re ≡ ok tt
unfolding run_spec
remainder_re_passes = refl

ping_passes : run_spec ping ≡ ok tt
unfolding run_spec
ping_passes = refl

test_message_matching_iff_example :
    ((test_message_matching_positive plain.spec (codes "PRIVMSG #chan :hello") ≡ ok tt) ↔ (
      (m : Message) × (parse_message (codes "PRIVMSG #chan :hello") ≡ ok m)
      × IsMatch m (without_target plain.spec)))
    × ((test_message_matching_negative plain.spec (codes "PRIVMSG #chan :hello") ≡ ok tt) ↔ (
        (m : Message) × (parse_message (codes "PRIVMSG #chan :hello") ≡ ok m)
        × ¬ IsMatch m (without_target plain.spec)
        × ((d : Option Difference) × (message_differs m plain.spec ≡ ok d))))
test_message_matching_iff_example =
    test_message_matching_iff plain.spec (codes "PRIVMSG #chan :hello")
