-- ===== src/SelfTests/Specs.antt =====
pub mod Plain
pub mod Tags
pub mod Params
-- `MESSAGE_SPECS` of `irctest/self_tests/cases.py`. Of the text of each error there is only which
-- comparison it is about.
use irctest.Base.{
  ℕ, Bool, true, false, ◌&&◌, ◌||◌, not, Option, none, some, List, [], ◌∷◌, ◌++◌, Text, codes, ◌==◌,
  nat_eq, leb,
}
use irctest.Regex.{Re, empty, one, seq, star, plus}
use irctest.Patma.Operators.{
  Regexp, any_str, any_opt_str, str, str_re, opt_str_re, not_str_re, either, option, no_options,
  item, list_remainder, key, remaining,
}
use irctest.Patma.Match.{any_list, any_dict}
use irctest.Cases.Differs.{Expectation, Difference, in_command, in_params, in_tags, in_nick}

pub record Spec : Type 0 where
  pub spec : Expectation
  pub positive_matches : List Text
  pub negative_matches : List (Text × Difference)

-- Parts of expressions: a text, `.*`, and ranges of characters.
unfoldable pub literal : Text → Re
unfolding nat_eq
literal [] = empty
literal (c ∷ s) = seq (one (λ d. d == c)) (literal s)

unfoldable pub anything : Re
unfolding nat_eq
anything = star (one (λ c. not (c == 10)))

abbrev pub in_range : ℕ → ℕ → ℕ → Bool
in_range first last c = leb first c && leb c last

abbrev pub regexp : Re → Regexp
regexp r = record { branches = []; last = r }

abbrev pub hello_re : Regexp
hello_re = regexp (seq (literal (codes "hello")) anything)

abbrev pub tag_re : Regexp
tag_re = regexp (seq (literal (codes "tag")) (one (in_range b'1' b'2')))

abbrev pub tag2_re : Regexp
tag2_re = regexp (literal (codes "tag2"))

abbrev pub letters_re : Regexp
letters_re = regexp (plus (one (λ c. in_range b'a' b'z' c || in_range b'A' b'Z' c)))

abbrev pub token_re : Regexp
token_re = regexp (seq (plus (one (in_range b'A' b'Z'))) (seq (literal (codes "=")) anything))
