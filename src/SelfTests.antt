-- ===== src/SelfTests.antt =====
-- `IrcTestCaseTestCase` of `irctest/self_tests/cases.py`: the checks of the comparisons.
pub mod Specs
pub mod Ways
mod Tests
use irctest.Base.{Eq, ◌==◌, Bool, true, false, not, Option, none, some, List, [], ◌∷◌, map, Text}
use irctest.Result.{
  Result, ok, raised, assertion_error, type_error, failed, ◌>>=◌, ◌>>◌, require, for_each,
}
use irctest.Message.Parse.{parse_message}
use irctest.Cases.Differs.{
  Expectation, Difference, message_differs, message_equal, assert_message_match,
}

abbrev pub is_none {ℓ} : {A : Type ℓ} → Option A → Bool
is_none none = true
is_none (some a) = false

-- `with pytest.raises(AssertionError)`: what does not raise fails the test, and another exception
-- goes on.
abbrev pub raises_assertion_error : Result (Unit {0}) → Result (Unit {0})
raises_assertion_error (ok done) = raised failed
raises_assertion_error (raised assertion_error) = ok tt
raises_assertion_error (raised x) = raised x

unfoldable pub test_message_matching_positive : Expectation → Text → Result (Unit {0})
unfolding message_equal
test_message_matching_positive spec msg =
    (parse_message msg >>= λ m. message_differs m spec >>= λ d. require (is_none d) assertion_error)
    >> (parse_message msg >>= λ m. message_equal m spec >>= λ equal. require equal assertion_error)
    >> (parse_message msg >>= λ m. assert_message_match m spec)

unfoldable pub test_message_matching_negative : Expectation → Text → Result (Unit {0})
unfolding message_equal
test_message_matching_negative spec msg =
    (parse_message msg >>= λ m.
    message_differs m spec >>= λ d. require (not (is_none d)) assertion_error)
    >> (parse_message msg >>= λ m.
        message_equal m spec >>= λ equal. require (not equal) assertion_error)
    >> raises_assertion_error (parse_message msg >>= λ m. assert_message_match m spec)

difference_discrete : Discrete Difference
difference_discrete = hlevel

instance unfoldable pub difference_eq : Eq Difference
unfolding difference_discrete
difference_eq = record { dec = difference_discrete }

-- The error must be about the comparison that is expected to fail. `assertIn` does not take `None`.
unfoldable pub test_message_matching_negative_message :
    Expectation → Text → Difference → Result (Unit {0})
unfolding difference_eq
test_message_matching_negative_message spec msg error = parse_message msg >>= λ m.
    message_differs m spec >>= λ difference. elim difference [
      | none ↦ raised type_error
      | some d ↦ require (d == error) assertion_error
    ]
