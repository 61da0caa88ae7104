-- ===== src/Dashboard/Pages/Outputs.antt =====
-- The files of the outputs of the tests.
use irctest.Base.{
  ◌≡◌, refl, sym, ap, ◌∙◌, inl, inr, Option, none, some, List, [], ◌∷◌, Text, ◌==◌, list_eq, nat_eq,
  Option-cases, Bool-cases, if◌then◌else◌, arith,
}
use irctest.Base.Dict.{Dict, get, insert, get-insert}
use irctest.Result.{Result, ok, raised, ensures_bind}
use irctest.Dashboard.Results.{CaseResult, Digests, output_filename}
use irctest.Dashboard.Pages.{write_test_outputs}

-- What was written later counts.
abbrev pub or_else : Option Text → Option Text → Option Text
or_else (some out) earlier = some out
or_else none earlier = earlier

abbrev pub output_if_named : Text → Text → Result Text → Option Text
output_if_named name out (ok file) = if file == name then some out else none
output_if_named name out (raised x) = none

-- The output of a test, if it has one and its file has the name.
abbrev pub output_named : Digests → Text → CaseResult → Option Text
output_named l name r = elim r.system_out [
  | none ↦ none
  | some out ↦ output_if_named name out (output_filename l r)
]

-- The output of the last of the tests whose file has the name.
unfoldable pub last_output : Digests → Text → List CaseResult → Option Text
last_output l name [] = none
last_output l name (r ∷ results) =
    let later = last_output l name results in or_else later (output_named l name r)

or_else_assoc : (a b c : Option Text) → or_else a (or_else b c) ≡ or_else (or_else a b) c
or_else_assoc none b c = refl
or_else_assoc (some x) b c = refl

or_else-output_if_named :
    (name out file : Text) (o : Option Text)
    → (if file == name then some out else o) ≡ or_else (output_if_named name out (ok file)) o
or_else-output_if_named name out file o = elim (Bool-cases (file == name)) [
  | inl same ↦ rw same refl
  | inr other ↦ rw other refl
]

or_else-output_named :
    (l : Digests) (r : CaseResult) (name out file : Text) (o : Option Text)
    → r.system_out ≡ some out
    → output_filename l r ≡ ok file
    → (if file == name then some out else o) ≡ or_else (output_named l name r) o
unfolding list_eq output_filename
or_else-output_named l r name out file o has named =
    or_else-output_if_named name out file o ∙ rw (has, named) refl

module _ (l : Digests) where
  -- The step for an output.
  written_first :
      (r : CaseResult) (out : Text) (files : Dict Text Text) (results : List CaseResult)
      → r.system_out ≡ some out
      → (written : Dict Text Text) → write_test_outputs l files (r ∷ results) ≡ ok written
      → (name : Text) × (output_filename l r ≡ ok name)
        × (write_test_outputs l (insert name out files) results ≡ ok written)
  unfolding write_test_outputs
  written_first r out files results has written = rw has (
      ensures_bind (output_filename l r)
        (λ name. write_test_outputs l (insert name out files) results)
        (λ w.
          (name : Text) × (output_filename l r ≡ ok name)
          × (write_test_outputs l (insert name out files) results ≡ ok w))
        (λ name named w run. (name, named, run)) written)

  -- The rest goes on from the files so far, or from these and the one of the output.
  written_rest :
      (r : CaseResult) (files : Dict Text Text) (results : List CaseResult)
      (written : Dict Text Text)
      → write_test_outputs l files (r ∷ results) ≡ ok written
      → (next : Dict Text Text) × (write_test_outputs l next results ≡ ok written)
        × ((name : Text) → get next name ≡ or_else (output_named l name r) (get files name))
  unfolding write_test_outputs
  written_rest r files results written run = elim (Option-cases r.system_out) [
    | inl no_out ↦
        let step : write_test_outputs l files (r ∷ results) ≡ write_test_outputs l files results =
          rw no_out refl in
        (files, sym step ∙ run, λ name. rw no_out refl)
    | inr (out, has) ↦
        let (file, named, rest) = written_first r out files results has written run in
        (
          insert file out files,
          rest,
          λ name.
              get-insert file name out files
              ∙ or_else-output_named l r name out file (get files name) has named,
        )
  ]

  -- In the end each file holds the last output for it, or what was there before.
  pub get-write_test_outputs :
      (files : Dict Text Text) (results : List CaseResult) (written : Dict Text Text)
      → write_test_outputs l files results ≡ ok written
      → (name : Text) → get written name ≡ or_else (last_output l name results) (get files name)
  unfolding write_test_outputs last_output
  get-write_test_outputs files [] written run name =
      let same : files ≡ written = ground arith in rw same refl
  get-write_test_outputs files (r ∷ results) written run name =
      let (next, rest, kept) = written_rest r files results written run in
      get-write_test_outputs next results written rest name
      ∙ (ap (or_else (last_output l name results)) (kept name)
          ∙ or_else_assoc (last_output l name results) (output_named l name r) (get files name))
