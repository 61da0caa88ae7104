-- ===== src/Patma/Match.antt =====
-- `match_string`, `match_list` and `match_dict` of `irctest/patma.py`.
use irctest.Base.{
  ℕ, zero, suc, ◌-◌, max, Bool, true, false, not, ◌&&◌, Option, none, some, List, [], ◌∷◌, Text,
  ◌==◌, nat_eq, list_eq, option_eq, leb, lower, length, replicate, if◌then◌else◌,
}
use irctest.Base.Dict.{Dict}
use irctest.Result.{Result, ok, raised, not_implemented_error, ◌>>=◌}
use irctest.Patma.Operators.{
  re_match, Expected, null, any_str, any_opt_str, operator, str, insensitive_str, str_re,
  opt_str_re, not_str_re, either, remaining_keys, Options, no_options, option, Item, item,
  list_remainder, is_optional, Key, key, remaining,
}

-- `got is not None and test(got)`
abbrev pub given : Option Text → (Text → Bool) → Bool
given none test = false
given (some g) test = test g

unfoldable mutual
  -- `_AnyStr` with `None` passes all the tests down to the last but one, which raises.
  pub match_string : Option Text → Expected → Result Bool
  match_string got any_opt_str = ok true
  match_string none any_str = raised not_implemented_error
  match_string (some g) any_str = ok true
  match_string got (str_re r) = ok (given got (re_match r))
  match_string none (opt_str_re r) = ok true
  match_string (some g) (opt_str_re r) = ok (re_match r g)
  match_string got (not_str_re r) = ok (given got (λ g. not (re_match r g)))
  match_string got (either options) = do all_differ ← none_matches got options; ok (not all_differ)
  match_string got (insensitive_str s) = ok (given got (λ g. lower g == lower s))
  match_string got (remaining_keys k) = raised not_implemented_error
  match_string got operator = raised not_implemented_error
  match_string got (str s) = ok (got == some s)
  match_string got null = ok (got == none)

  -- `all(not match_string(got, option) for option in options)`, which stops at the first match.
  pub none_matches : Option Text → Options → Result Bool
  none_matches got no_options = ok true
  none_matches got (option e options) =
      match_string got e >>= λ m. if m then ok false else none_matches got options

-- A `ListRemainder` among the items compares as an object that is no string.
unfoldable pub match_item : Option Text → Item → Result Bool
match_item got (item e) = match_string got e
match_item got (list_remainder e n) = ok false

-- Where the last item is a `ListRemainder`, it stands for `n` items, or for its minimal number.
unfoldable pub expand : ℕ → List Item → List Item
expand n [] = []
expand n (list_remainder e least ∷ []) = replicate (max n least) (item e)
expand n (x ∷ []) = x ∷ []
expand n (x ∷ y ∷ ys) = x ∷ expand n (y ∷ ys)

-- The loop that counts optional values, which must stand last.
unfoldable pub count_optionals : ℕ → List Item → Result ℕ
count_optionals n [] = ok n
count_optionals n (x ∷ xs) = elim (is_optional x) [
  | true ↦ count_optionals (suc n) xs
  | false ↦ elim n [ zero ↦ count_optionals zero xs | suc _ ↦ raised not_implemented_error ]
]

-- `all(match_string(…) for … in itertools.zip_longest(got, expected))`
unfoldable pub match_all : List (Option Text) → List Item → Result Bool
match_all [] [] = ok true
match_all [] (x ∷ xs) = match_item none x >>= λ m. if m then match_all [] xs else ok false
match_all (g ∷ gs) [] = match_string g null >>= λ m. if m then match_all gs [] else ok false
match_all (g ∷ gs) (x ∷ xs) = match_item g x >>= λ m. if m then match_all gs xs else ok false

-- `match_list` once the remainder is expanded.
unfoldable pub match_expanded : List (Option Text) → List Item → Result Bool
unfolding count_optionals match_all match_item is_optional
match_expanded got expected = do
  nb_optionals ← count_optionals 0 expected
  if leb (length expected - nb_optionals) (length got) && leb (length got) (length expected)
      then match_all got expected
      else ok false

unfoldable pub match_list : List (Option Text) → List Item → Result Bool
unfolding match_expanded expand
match_list got expected = match_expanded got (expand (length got - (length expected - 1)) expected)

-- `got` and `expected`, of which the keys and values are compared.
abbrev pub GotDict : Type 0
GotDict = Dict Text (Option Text)

abbrev pub ExpectedDict : Type 0
ExpectedDict = List (Key × Expected)

-- `match_string(key, expected_key) and match_string(value, expected_value)`
unfoldable pub match_entry : Text → Option Text → Expected → Expected → Result Bool
match_entry k v expected_key expected_value = match_string (some k) expected_key >>= λ m.
    if m then match_string v expected_value else ok false

abbrev pub keep : Text × Option Text → Option GotDict → Option GotDict
keep entry none = none
keep entry (some d) = some (entry ∷ d)

-- The loop over `got` that pops the first entry which matches. `none` where there is no such.
unfoldable pub pop_match : GotDict → Expected → Expected → Result (Option GotDict)
unfolding match_entry
pop_match [] expected_key expected_value = ok none
pop_match ((k, v) ∷ got) expected_key expected_value = do
  m ← match_entry k v expected_key expected_value
  if m
      then ok (some got)
      else (do rest ← pop_match got expected_key expected_value; ok (keep (k, v) rest))

-- `got == {}`
abbrev pub is_empty : GotDict → Bool
is_empty [] = true
is_empty (x ∷ d) = false

-- What is left in `got` against the wildcard for the remaining keys.
unfoldable pub match_rest : GotDict → Expected → Expected → Result Bool
match_rest [] expected_key expected_value = ok true
match_rest ((k, v) ∷ got) expected_key expected_value = do
  m ← match_string (some k) expected_key
  n ← (if m then match_string v expected_value else ok false)
  if n then match_rest got expected_key expected_value else ok false

-- The end of `match_dict`.
unfoldable pub finish : GotDict → Option (Expected × Expected) → Result Bool
unfolding match_rest
finish got none = ok (is_empty got)
finish got (some (expected_key, expected_value)) = match_rest got expected_key expected_value

-- The loop over `expected.items()`, with `remaining_keys_wildcard`.
unfoldable pub match_entries : ExpectedDict → GotDict → Option (Expected × Expected) → Result Bool
unfolding pop_match finish
match_entries [] got wildcard = finish got wildcard
match_entries ((remaining k, v) ∷ expected) got wildcard = match_entries expected got (some (k, v))
match_entries ((key k, v) ∷ expected) got wildcard =
    pop_match got k v
    >>= elim [ none ↦ ok false | some rest ↦ match_entries expected rest wildcard ]

unfoldable pub match_dict : GotDict → ExpectedDict → Result Bool
unfolding match_entries
match_dict got expected = match_entries expected got none

-- `ANYLIST` and `ANYDICT`
abbrev pub any_list : List Item
any_list = list_remainder any_str 0 ∷ []

abbrev pub any_dict : ExpectedDict
any_dict = (remaining any_str, any_opt_str) ∷ []
