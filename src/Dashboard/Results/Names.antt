-- ===== src/Dashboard/Results/Names.antt =====
-- The characters of the names of output files.
use irctest.Base.{
  ℕ, ◌≡◌, refl, inl, inr, true, false, not, ◌||◌, some, List, [], ◌∷◌, ◌++◌, Text, codes, arith,
  nat_eq, length, leb, any, All, All-append, Bool-cases, Option-cases,
}
use irctest.Result.{ok, Result-cases}
use irctest.Dashboard.Results.{
  CaseResult, Digests, is_blacklisted, md5sum, function_name, split_params, short_name,
  output_filename,
}

-- All characters are allowed in a file's name.
abbrev pub IsAllowed : Text → Type 0
IsAllowed = All (λ c. is_blacklisted c ≡ false)

any-IsAllowed : (s : Text) → any is_blacklisted s ≡ false → IsAllowed s
unfolding any
any-IsAllowed [] h = tt
any-IsAllowed (c ∷ s) h = (ground arith, any-IsAllowed s (ground arith))

IsAllowed-append : (s t : Text) → IsAllowed s → IsAllowed t → IsAllowed (s ++ t)
IsAllowed-append = All-append (λ c. is_blacklisted c ≡ false)

module _ (l : Digests) (words : (c : ℕ) → l.is_word c ≡ true → is_blacklisted c ≡ false)
    (encoded : (bytes : List ℕ) → IsAllowed (l.urlsafe_b64encode bytes)) where
  function_name-IsAllowed : (s f rest : Text) → function_name l s ≡ some (f, rest) → IsAllowed f
  unfolding function_name
  function_name-IsAllowed [] f rest h = absurd (ground arith)
  function_name-IsAllowed (c ∷ s) f rest h = elim (Bool-cases (l.is_word c)) [
    | inr e ↦ let same : [] ≡ f = ground arith in rw (← same) tt
    | inl e ↦ elim (Option-cases (function_name l s)) [
      | inl g ↦ absurd (ground arith)
      | inr ((front, behind), g) ↦
          let same : c ∷ front ≡ f = ground arith in
          rw (← same) (words c e, function_name-IsAllowed s front behind g)
    ]
  ]

  split_params-IsAllowed : (s f params : Text) → split_params l s ≡ some (f, params) → IsAllowed f
  unfolding split_params
  split_params-IsAllowed s f params h = elim (Option-cases (function_name l s)) [
    | inl e ↦ absurd (ground arith)
    | inr (([], rest), e) ↦ absurd (ground arith)
    | inr ((c ∷ front, rest), e) ↦
        let same : c ∷ front ≡ f = ground arith in
        rw (← same) (function_name-IsAllowed s (c ∷ front) rest e)
  ]

  short_name-IsAllowed : (name short : Text) → short_name l name ≡ ok short → IsAllowed short
  unfolding short_name
  short_name-IsAllowed name short h =
      elim (Bool-cases (not (leb (length name) 50) || any is_blacklisted name)) [
        | inl e ↦ elim (Option-cases (split_params l name)) [
          | inl f ↦ absurd (ground arith)
          | inr ((front, params), f) ↦
              let same : front ++ (codes "[" ++ (md5sum l params ++ codes "]")) ≡ short =
                ground arith in
              rw (← same) (
                IsAllowed-append front (codes "[" ++ (md5sum l params ++ codes "]"))
                  (split_params-IsAllowed name front params f)
                  (
                    refl,
                    IsAllowed-append (md5sum l params) (codes "]") (encoded (l.md5 params))
                        (refl, tt),
                  ))
        ]
        | inr e ↦
            let same : name ≡ short = ground arith in
            rw (← same) (any-IsAllowed name (ground arith))
      ]

  -- If no word character and no character of an encoded digest is on the blacklist, and none of the
  -- job, the module and the class has one that is, the name of an output file has none.
  pub output_filename-IsAllowed :
      (r : CaseResult) (file : Text)
      → IsAllowed r.job
      → IsAllowed r.module_name
      → IsAllowed r.class_name
      → output_filename l r ≡ ok file
      → IsAllowed file
  unfolding output_filename
  output_filename-IsAllowed r file a b c h = elim (Result-cases (short_name l r.test_name)) [
    | inr (x, e) ↦ absurd (ground arith)
    | inl (name, e) ↦
        let same : r.job
              ++ (codes "_"
                  ++ (r.module_name
                      ++ (codes "." ++ (r.class_name ++ (codes "." ++ (name ++ codes ".txt"))))))
            ≡ file =
          ground arith in
        rw (← same) (
          IsAllowed-append r.job _ a (
            refl,
            IsAllowed-append r.module_name _ b (
              refl,
              IsAllowed-append r.class_name _ c (
                refl,
                IsAllowed-append name (codes ".txt") (short_name-IsAllowed r.test_name name e)
                    (refl, (refl, (refl, (refl, tt)))),
              ),
            ),
          ))
  ]
