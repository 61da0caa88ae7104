-- ===== src/Patma/Operators.antt =====
-- The operators of `irctest/patma.py`, and the regular expressions in them.
use irctest.Base.{ℕ, Bool, true, false, ◌||◌, List, [], ◌∷◌, Text}
use irctest.Regex.{Re, matches_prefix, matches_end}

-- A regular expression by its top-level alternatives, `a|b|c`: the last one, and those before it.
pub record Regexp : Type 0 where
  pub branches : List Re
  pub last : Re

any_prefix : List Re → Text → Bool
any_prefix [] s = false
any_prefix (r ∷ rs) s = matches_prefix r s || any_prefix rs s

-- `re.match(regexp + "$", got)`. The `$` is put behind the text of the expression, so it belongs
-- to the last alternative alone.
unfoldable pub re_match : Regexp → Text → Bool
unfolding any_prefix matches_prefix matches_end
re_match r s = any_prefix r.branches s || matches_end r.last s

-- What may stand on the expected side: `None`, a string, or an `Operator`. The last two are a
-- `RemainingKeys` and a bare `Operator`, which no comparison of strings supports.
mutual
  pub data Expected : Type 0 where
    null any_str any_opt_str operator : Expected
    str insensitive_str : Text → Expected
    str_re opt_str_re not_str_re : Regexp → Expected
    either : Options → Expected
    remaining_keys : Expected → Expected

  pub data Options : Type 0 where
    no_options : Options
    option : Expected → Options → Options

-- An item of an expected list. `ListRemainder` is no `Operator`.
pub data Item : Type 0 where
  item : Expected → Item
  list_remainder : Expected → ℕ → Item

-- `isinstance(expected_value, (_AnyOptStr, OptStrRe))`
unfoldable pub is_optional : Item → Bool
is_optional (item any_opt_str) = true
is_optional (item (opt_str_re r)) = true
is_optional _ = false

-- A key of an expected dict.
pub data Key : Type 0 where
  key remaining : Expected → Key
