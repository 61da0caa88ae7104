-- ===== src/Collection.antt =====
-- The hooks of `conftest.py`: which tests are run with a controller, and what becomes of the tests
-- that are skipped; with `OptionalBehaviors` of `irctest/specifications.py`.
mod Tests
use irctest.Base.{
  Bool, true, false, Option, none, some, List, [], ◌∷◌, Eq, ◌==◌, contains, select, map,
  if◌then◌else◌,
}
use irctest.Result.{Result, ok, raised, assertion_error, Exception, ◌>>=◌}

pub data OptionalBehaviors : Type 0 where
  ban_exception_mode cap_req_minus invite_exception_mode invite_list : OptionalBehaviors
  invite_overrides_limit metadata_before_connect multi_join multi_kick : OptionalBehaviors
  multi_names_command multi_privmsg no_ctcp non_utf8_message : OptionalBehaviors
  sasl_after_registration sasl_reauthentication elist_m elist_n elist_u elist_c : OptionalBehaviors
  elist_t : OptionalBehaviors

behavior_discrete : Discrete OptionalBehaviors
behavior_discrete = hlevel

instance unfoldable pub behavior_eq : Eq OptionalBehaviors
unfolding behavior_discrete
behavior_eq = record { dec = behavior_discrete }

-- Which base class a controller, or a test case, has.
pub data Side : Type 0 where
  server_side client_side neither_side : Side

-- `pytest_collection_modifyitems`: whether the tests of servers and those of clients are run with the
-- class of controllers, if one is chosen.
abbrev pub chosen : Option Side → Result (Bool × Bool)
chosen none = ok (false, false)
chosen (some server_side) = ok (true, false)
chosen (some client_side) = ok (false, true)
chosen (some neither_side) = raised assertion_error

abbrev pub is_kept : Bool × Bool → Side → Bool
is_kept (server_tests, client_tests) server_side = server_tests
is_kept (server_tests, client_tests) client_side = client_tests
is_kept (server_tests, client_tests) neither_side = true

-- The items, each with the base of its class.
unfoldable pub modify_items :
    {A : Type 0} → Option Side → List (A × Side) → Result (List (A × Side))
unfolding select
modify_items controller items =
    chosen controller >>= λ tests. ok (select (λ item. is_kept tests item.1) items)

-- What a call of a test comes to: a value, a skip for a behaviour or for another reason, or another
-- exception. The last is the exception that `pytest_runtest_call` makes of a skip.
pub data Called : Type 0 where
  returns not_skippable : Called
  skips_behavior : OptionalBehaviors → Called
  skips_otherwise : Called
  raises : Exception → Called

-- `pytest_runtest_call`, with the optional behaviours of the controller, if the test has one.
unfoldable pub runtest_call : Option (List OptionalBehaviors) → Called → Called
unfolding behavior_eq
runtest_call (some behaviors) (skips_behavior b) =
    if contains behaviors b then not_skippable else skips_behavior b
runtest_call controller called = called
