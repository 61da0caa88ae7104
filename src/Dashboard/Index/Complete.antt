-- ===== src/Dashboard/Index/Complete.antt =====
-- The files that a run of `main` writes.
use irctest.Base.{◌≡◌, refl, ap, ◌∙◌, Option, none, some, List, [], map, Text, list_eq, nat_eq}
use irctest.Base.Dict.{Dict, get}
use irctest.Result.{Result, ok, raised, for_each, ensures_bind}
use irctest.Dashboard.Xml.{Element}
use irctest.Dashboard.Results.{CaseResult, Digests, iter_job_results}
use irctest.Dashboard.Table.{Docs, flatten}
use irctest.Dashboard.Pages.{write_html_pages, write_test_outputs}
use irctest.Dashboard.Pages.Outputs.{or_else, last_output, get-write_test_outputs}
use irctest.Dashboard.Index.{write_html_index, Output, main}

abbrev outputs_of : Result Output → Dict Text Text
outputs_of (ok o) = o.outputs
outputs_of (raised x) = []

or_else-none : (o : Option Text) → or_else o none ≡ o
or_else-none none = refl
or_else-none (some out) = refl

module _ (l : Digests) (docs : Docs) where
  -- If `main` ends, then all files were read, and the file of each name holds the output of the last
  -- of their results that has an output and a file of the name; if there is none, there is no such
  -- file.
  pub main-outputs :
      (files : List (Text × Element)) (o : Output)
      → main l docs files ≡ ok o
      → (found : List (List CaseResult)) × (for_each (λ f. iter_job_results f.0 f.1) files
          ≡ ok found)
        × ((name : Text) → get o.outputs name ≡ last_output l name (flatten found))
  unfolding main
  main-outputs files o run =
      let P : Output → Type 0 = λ o.
        (found : List (List CaseResult)) × (for_each (λ f. iter_job_results f.0 f.1) files
          ≡ ok found)
        × ((name : Text) → get o.outputs name ≡ last_output l name (flatten found)) in
      ensures_bind (for_each (λ f. iter_job_results f.0 f.1) files) _ P
        (λ found reads. ensures_bind (write_html_pages l docs (flatten found)) _ P (λ pages p.
          ensures_bind (write_html_index docs (map (λ page. page.0) pages)) _ P (λ index i.
            ensures_bind (write_test_outputs l [] (flatten found))
              (λ outputs. ok (record { pages = pages; index = index; outputs = outputs })) P
              (λ outputs w o' eq.
                let same : outputs ≡ o'.outputs = ap outputs_of eq in
                (
                  found,
                  reads,
                  λ name. rw (← same) (
                      get-write_test_outputs l [] (flatten found) outputs w name
                      ∙ or_else-none (last_output l name (flatten found))),
                )))))
        o run
