-- ===== src/Patma/Strings.antt =====
-- What `match_string` accepts, against an independent description.
use irctest.Base.{
  ◌≡◌, ◌≢◌, ◌↔◌, ◌⊎◌, refl, Bool, true, false, not, Option, none, some, Text, arith, list_eq,
  nat_eq, option_eq, lower, inl, inr, if◌then◌else◌, ◌==◌,
}
use irctest.Result.{Result, ok, ◌>>=◌}
use irctest.Patma.Operators.{
  re_match, Expected, null, any_str, any_opt_str, operator, str, insensitive_str, str_re,
  opt_str_re, not_str_re, either, remaining_keys, Options, no_options, option,
}
use irctest.Patma.Match.{match_string, none_matches}

-- The values that a pattern stands for.
abbrev mutual
  pub Accepts : Option Text → Expected → Type 0
  Accepts got null = got ≡ none
  Accepts got any_str = got ≢ none
  Accepts got any_opt_str = Unit {0}
  Accepts got operator = ⊥
  Accepts got (str s) = got ≡ some s
  Accepts got (insensitive_str s) = (g : Text) × (got ≡ some g) × (lower g ≡ lower s)
  Accepts got (str_re r) = (g : Text) × (got ≡ some g) × (re_match r g ≡ true)
  Accepts got (opt_str_re r) = (g : Text) → got ≡ some g → re_match r g ≡ true
  Accepts got (not_str_re r) = (g : Text) × (got ≡ some g) × (re_match r g ≡ false)
  Accepts got (either options) = AcceptsAny got options
  Accepts got (remaining_keys e) = ⊥

  pub AcceptsAny : Option Text → Options → Type 0
  AcceptsAny got no_options = ⊥
  AcceptsAny got (option e options) = Accepts got e ⊎ AcceptsAny got options

-- The comparisons that the operators are made for.
abbrev mutual
  pub IsSupported : Option Text → Expected → Type 0
  IsSupported got any_str = got ≢ none
  IsSupported got operator = ⊥
  IsSupported got (remaining_keys e) = ⊥
  IsSupported got (either options) = AreSupported got options
  IsSupported got _ = Unit {0}

  pub AreSupported : Option Text → Options → Type 0
  AreSupported got no_options = Unit {0}
  AreSupported got (option e options) = IsSupported got e × AreSupported got options

-- `r` is a plain answer, and it tells whether `P` holds.
abbrev pub Decides : Result Bool → Type 0 → Type 0
Decides r P = (b : Bool) × (r ≡ ok b) × ((b ≡ true) ↔ P)

-- The same for a test that answers whether `P` fails.
abbrev Refutes : Result Bool → Type 0 → Type 0
Refutes r P = (b : Bool) × (r ≡ ok b) × ((b ≡ false) ↔ P)

Refutes_or :
    (r q : Result Bool) (P Q : Type 0)
    → Decides r P
    → Refutes q Q
    → Refutes (r >>= λ m. if m then ok false else q) (P ⊎ Q)
Refutes_or r q P Q (true, e, h) k = (false, rw e, (λ _. inl (h.0 refl), λ _. refl))
Refutes_or r q P Q (false, e, h) (c, f, k) =
    (c, rw (e, f), (λ z. inr (k.0 z), elim [ inl p ↦ cc (h.1 p) | inr x ↦ k.1 x ]))

Decides_not :
    (r : Result Bool) (P : Type 0)
    → Refutes r P
    → Decides (r >>= λ all_differ. ok (not all_differ)) P
Decides_not r P (true, e, h) = (false, rw e, (λ z. cc, λ p. cc (h.1 p)))
Decides_not r P (false, e, h) = (true, rw e, (λ z. h.0 refl, λ p. refl))

mutual
  unfolding match_string none_matches list_eq nat_eq option_eq

  decides :
      (got : Option Text) (e : Expected)
      → IsSupported got e
      → Decides (match_string got e) (Accepts got e)
  decides none any_str s = absurd (s refl)
  decides (some g) any_str s = (true, refl, (λ _ p. cc, λ _. refl))
  decides got null s = (got == none, refl, ground arith)
  decides got any_opt_str s = (true, refl, (λ _. tt, λ _. refl))
  decides got operator s = absurd s
  decides got (str x) s = (got == some x, refl, ground arith)
  decides none (insensitive_str x) s = (false, refl, ground arith)
  decides (some g) (insensitive_str x) s =
      (lower g == lower x, refl, (λ h. (g, refl, ground arith), λ q. ground arith))
  decides none (str_re r) s = (false, refl, ground arith)
  decides (some g) (str_re r) s = (re_match r g, refl, (λ h. (g, refl, h), λ q. ground arith))
  decides none (opt_str_re r) s = (true, refl, (λ h g p. cc, λ _. refl))
  decides (some g) (opt_str_re r) s = (re_match r g, refl, (λ h x p. ground arith, λ q. q g refl))
  decides none (not_str_re r) s = (false, refl, ground arith)
  decides (some g) (not_str_re r) s =
      (not (re_match r g), refl, (λ h. (g, refl, ground arith), λ q. ground arith))
  decides got (either options) s = Decides_not (none_matches got options) _ (refutes got options s)
  decides got (remaining_keys e) s = absurd s

  refutes :
      (got : Option Text) (options : Options)
      → AreSupported got options
      → Refutes (none_matches got options) (AcceptsAny got options)
  refutes got no_options s = (true, refl, (λ h. cc, λ h. absurd h))
  refutes got (option e options) s =
      Refutes_or (match_string got e) (none_matches got options) _ _ (decides got e s.0)
        (refutes got options s.1)

-- A supported comparison raises nothing, and answers whether the value is one that the pattern
-- stands for.
pub match_string-Decides :
    (got : Option Text) (e : Expected)
    → IsSupported got e
    → Decides (match_string got e) (Accepts got e)
match_string-Decides got e s = decides got e s
