-- ===== src/Patma/Tests.antt =====
-- Runs of the comparisons, and the theorems at concrete values.
use irctest.Base.{◌≡◌, ◌↔◌, refl, true, some, none, [], ◌∷◌, codes, list_eq, nat_eq, option_eq}
use irctest.Base.Dict.{get}
use irctest.Result.{ok, raised, not_implemented_error}
use irctest.Patma.Operators.{
  Expected, str, any_str, either, option, no_options, item, list_remainder, is_optional, key,
}
use irctest.Patma.Match.{GotDict, match_string, match_list, match_dict, any_list, any_dict}
use irctest.Patma.Strings.{Accepts, Decides, match_string-Decides}
use irctest.Patma.Lists.{MatchesFront, match_list-remainder}
use irctest.Patma.Dicts.{SameMap, literals, match_dict-literals, match_dict_any_str}

abbrev tags : GotDict
tags = (codes "label", some (codes "x")) ∷ (codes "time", none) ∷ []

abbrev a_or_any : Expected
a_or_any = either (option (str (codes "a")) (option any_str no_options))

any_list_matches :
    match_list (some (codes "a") ∷ some (codes "b") ∷ []) (item (str (codes "a")) ∷ any_list)
    ≡ ok true
unfolding match_list match_string list_eq nat_eq option_eq
any_list_matches = refl

match_string-Decides_example :
    Decides (match_string (some (codes "b")) a_or_any) (Accepts (some (codes "b")) a_or_any)
match_string-Decides_example = match_string-Decides (some (codes "b")) a_or_any (tt, (λ e. cc, tt))

match_list-remainder_example :
    (match_list (some (codes "a") ∷ []) (item (str (codes "a")) ∷ list_remainder any_str 1 ∷ [])
      ≡ ok true)
    ↔ MatchesFront (some (codes "a") ∷ []) (item (str (codes "a")) ∷ []) any_str 1
unfolding is_optional
match_list-remainder_example =
    match_list-remainder (some (codes "a") ∷ []) (item (str (codes "a")) ∷ []) any_str 1 (refl, tt)
      refl

match_dict-literals_example : (match_dict tags (literals tags) ≡ ok true) ↔ SameMap tags tags
unfolding get list_eq nat_eq
match_dict-literals_example = match_dict-literals tags tags (refl, (refl, tt)) (refl, (refl, tt))

match_dict_any_str_example :
    match_dict tags ((key (str (codes "time")), any_str) ∷ any_dict) ≡ raised not_implemented_error
unfolding get list_eq nat_eq
match_dict_any_str_example = match_dict_any_str tags (codes "time") any_dict refl
