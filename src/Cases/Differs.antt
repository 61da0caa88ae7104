-- ===== src/Cases/Differs.antt =====
-- `messageDiffers`, `messageEqual` and `assertMessageMatch` of `_IrcTestCase`
-- (`irctest/cases.py`).
pub mod Exact
use irctest.Base.{
  ℕ, Bool, true, false, not, Option, none, some, List, [], ◌∷◌, map, Text, ◌!=◌, list_eq, nat_eq,
  option_eq, split, if◌then◌else◌,
}
use irctest.Result.{Result, ok, raised, attribute_error, assertion_error, ◌>>=◌, ◌>>◌}
use irctest.Message.Parse.{Message}
use irctest.Patma.Operators.{Expected, Item}
use irctest.Patma.Match.{ExpectedDict, match_string, match_list, match_dict}

-- The keyword arguments. `others` are the names in `**kwargs`, none of which is an attribute of a
-- message: those that are have a parameter of their own.
pub record Expectation : Type 0 where
  pub command : Option Expected
  pub params : Option (List Item)
  pub target : Option Text
  pub tags : Option ExpectedDict
  pub nick : Option Text
  pub prefix : Option Expected
  pub others : List Text

-- Which comparison the error message is about.
pub data Difference : Type 0 where
  in_command in_prefix in_params in_tags in_nick : Difference

-- One check: it is skipped if nothing is expected, and returns if the match fails.
abbrev pub check {ℓ} :
    {A : Type ℓ}
    → Option A
    → (A → Result Bool)
    → Difference
    → Result (Option Difference)
    → Result (Option Difference)
check none match difference rest = rest
check (some expected) match difference rest =
    match expected >>= λ matched. if matched then rest else ok (some difference)

-- `msg.prefix.split("!")[0] if msg.prefix else None`
unfoldable pub got_nick : Option Text → Option Text
unfolding split
got_nick none = none
got_nick (some []) = none
got_nick (some (c ∷ prefix)) = elim (split b'!' (c ∷ prefix)) [
  | [] ↦ none
  | nick ∷ rest ↦ some nick
]

unfoldable pub nick_differs : Message → Option Text → Result (Option Difference)
unfolding got_nick option_eq list_eq nat_eq
nick_differs m none = ok none
nick_differs m (some expected) =
    ok (if some expected != got_nick m.prefix then some in_nick else none)

-- `getattr(msg, key)` for the names in `**kwargs`.
abbrev pub check_others : List Text → Result (Option Difference) → Result (Option Difference)
check_others [] rest = rest
check_others (name ∷ names) rest = raised attribute_error

unfoldable pub message_differs : Message → Expectation → Result (Option Difference)
unfolding nick_differs
message_differs m e = check_others e.others (
    check e.command (match_string (some m.command)) in_command (
      check e.prefix (match_string m.prefix) in_prefix (
        check e.params (match_list (map some m.params)) in_params
          (check e.tags (match_dict m.tags) in_tags (nick_differs m e.nick)))))

unfoldable pub message_equal : Message → Expectation → Result Bool
unfolding message_differs
message_equal m e =
    message_differs m e >>= λ error. ok (elim error [ none ↦ true | some difference ↦ false ])

abbrev pub raise_difference : Option Difference → Result (Unit {0})
raise_difference none = ok tt
raise_difference (some difference) = raised assertion_error

unfoldable pub assert_message_match : Message → Expectation → Result (Unit {0})
unfolding message_differs
assert_message_match m e = message_differs m e >>= raise_difference
