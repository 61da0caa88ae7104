-- ===== src/Patma/Dicts.antt =====
-- What `match_dict` accepts where the expected dict has plain strings for keys and values.
use irctest.Base.{
  ◌≡◌, ◌↔◌, refl, true, Option, none, some, Text, arith, list_eq, nat_eq, option_eq, [], ◌∷◌, ◌++◌,
  ◌==◌, if◌then◌else◌, inl, inr, Bool-cases,
}
use irctest.Base.Dict.{get, erase, NodupKeys, get-erase, erase-NodupKeys}
use irctest.Result.{ok, raised, not_implemented_error}
use irctest.Patma.Operators.{Expected, null, str, any_str, any_opt_str, key}
use irctest.Patma.Match.{
  GotDict, ExpectedDict, match_string, pop_match, is_empty, match_rest, finish, match_entries,
  match_dict, any_dict,
}

-- The pattern for one value, and for one entry.
abbrev pub value : Option Text → Expected
value none = null
value (some s) = str s

abbrev pub literals : GotDict → ExpectedDict
literals [] = []
literals ((k, v) ∷ d) = (key (str k), value v) ∷ literals d

match_string-value : (got v : Option Text) → match_string got (value v) ≡ ok (got == v)
unfolding match_string
match_string-value got none = refl
match_string-value got (some s) = refl

-- Popping an entry by its key and value.
pop_match-literal :
    (got : GotDict) (k : Text) (v : Option Text)
    → NodupKeys got
    → pop_match got (str k) (value v)
      ≡ ok (if get got k == some v then some (erase k got) else none)
unfolding pop_match match_string get erase
pop_match-literal [] k v u = ground arith
pop_match-literal ((j, w) ∷ got) k v u =
    ground (arith, match_string-value w v, pop_match-literal got k v)

-- Every entry of `d` is an entry of `got`.
abbrev pub Extends : GotDict → GotDict → Type 0
Extends got d = (k : Text) (v : Option Text) → get d k ≡ some v → get got k ≡ some v

-- The two dicts are equal as maps.
abbrev pub SameMap : GotDict → GotDict → Type 0
SameMap got d = (k : Text) → get got k ≡ get d k

-- What the entries after the first see of the dict.
module _ (got : GotDict) (k : Text) (v : Option Text) (d : GotDict) (u : NodupKeys got)
    (w : NodupKeys ((k, v) ∷ d)) where
  Extends-cons : get got k ≡ some v → Extends (erase k got) d → Extends got ((k, v) ∷ d)
  unfolding get
  Extends-cons here ext j x h = ground (arith, ext j x, get-erase k j got u)

  Extends-tail : Extends got ((k, v) ∷ d) → (get got k ≡ some v) × Extends (erase k got) d
  unfolding get
  Extends-tail ext =
      (ext k v (ground arith), λ j x h. ground (arith, ext j x, get-erase k j got u, w.0))

  SameMap-cons : get got k ≡ some v → SameMap (erase k got) d → SameMap got ((k, v) ∷ d)
  unfolding get
  SameMap-cons here same j = ground (arith, same j, get-erase k j got u)

  SameMap-tail : SameMap got ((k, v) ∷ d) → (get got k ≡ some v) × SameMap (erase k got) d
  unfolding get
  SameMap-tail same =
      (ground (arith, same k), λ j. ground (arith, same j, get-erase k j got u, w.0))

-- One literal entry: it is there, and the rest matches without it.
match_entries-literal :
    (k : Text) (v : Option Text) (expected : ExpectedDict) (got : GotDict)
    (rest : Option (Expected × Expected))
    → NodupKeys got
    → (match_entries ((key (str k), value v) ∷ expected) got rest ≡ ok true)
      ↔ ((get got k ≡ some v) × (match_entries expected (erase k got) rest ≡ ok true))
unfolding match_entries
match_entries-literal k v expected got rest u = elim (Bool-cases (get got k == some v)) [
  | inl h ↦ (
    λ m. ground (arith, pop_match-literal got k v u),
    λ m. ground (arith, pop_match-literal got k v u),
  )
  | inr h ↦ (λ m. ground (arith, pop_match-literal got k v u), λ m. ground arith)
]

match_rest-any : (got : GotDict) → match_rest got any_str any_opt_str ≡ ok true
unfolding match_rest match_string
match_rest-any [] = refl
match_rest-any ((k, v) ∷ got) = match_rest-any got

Extends-iff :
    (d got : GotDict) (rest : Option (Expected × Expected))
    → NodupKeys got
    → NodupKeys d
    → (match_entries (literals d ++ any_dict) got rest ≡ ok true) ↔ Extends got d
Extends-iff [] got rest u w =
    (λ m k v h. unfold get in cc, λ ext. unfold match_entries finish in match_rest-any got)
Extends-iff ((k, v) ∷ d) got rest u w =
    let first = match_entries-literal k v (literals d ++ any_dict) got rest u in
    let later = Extends-iff d (erase k got) rest (erase-NodupKeys k got u) w.1 in
    (
      λ m. Extends-cons got k v d u w (first.0 m).0 (later.0 (first.0 m).1),
      λ ext. let (here, tail) = Extends-tail got k v d u w ext in first.1 (here, later.1 tail),
    )

is_empty_iff : (got : GotDict) → (ok (is_empty got) ≡ ok true) ↔ SameMap got []
unfolding get
is_empty_iff [] = (λ m k. refl, λ same. refl)
is_empty_iff ((k, v) ∷ got) = (λ m. cc, λ same. ground (arith, same k))

SameMap-iff :
    (d got : GotDict)
    → NodupKeys got
    → NodupKeys d
    → (match_entries (literals d) got none ≡ ok true) ↔ SameMap got d
SameMap-iff [] got u w = unfold match_entries finish in is_empty_iff got
SameMap-iff ((k, v) ∷ d) got u w =
    let first = match_entries-literal k v (literals d) got none u in
    let later = SameMap-iff d (erase k got) (erase-NodupKeys k got u) w.1 in
    (
      λ m. SameMap-cons got k v d u w (first.0 m).0 (later.0 (first.0 m).1),
      λ same. let (here, tail) = SameMap-tail got k v d u w same in first.1 (here, later.1 tail),
    )

-- With plain strings for keys and values, a dict matches exactly the dict that is equal to it.
pub match_dict-literals :
    (got d : GotDict)
    → NodupKeys got
    → NodupKeys d
    → (match_dict got (literals d) ≡ ok true) ↔ SameMap got d
unfolding match_dict
match_dict-literals got d u w = SameMap-iff d got u w

-- With `**ANYDICT` behind them, a dict matches exactly if it has all the entries.
pub match_dict-any_dict :
    (got d : GotDict)
    → NodupKeys got
    → NodupKeys d
    → (match_dict got (literals d ++ any_dict) ≡ ok true) ↔ Extends got d
unfolding match_dict
match_dict-any_dict got d u w = Extends-iff d got none u w

pop_match_raises :
    (got : GotDict) (k : Text)
    → get got k ≡ some none
    → pop_match got (str k) any_str ≡ raised not_implemented_error
unfolding pop_match match_string get
pop_match_raises [] k h = cc
pop_match_raises ((j, w) ∷ got) k h = ground (arith, pop_match_raises got k)

-- Where the dict has the key with no value, the comparison of the key with `ANYSTR` does not
-- answer that the dicts differ: it raises `NotImplementedError`.
pub match_dict_any_str :
    (got : GotDict) (k : Text) (expected : ExpectedDict)
    → get got k ≡ some none
    → match_dict got ((key (str k), any_str) ∷ expected) ≡ raised not_implemented_error
unfolding match_dict
match_dict_any_str got k expected h = rw (match_entries, pop_match_raises got k h)
