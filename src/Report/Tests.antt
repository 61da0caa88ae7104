-- ===== src/Report/Tests.antt =====
-- Tests of the report.
use irctest.Base.{
  ℕ, ◌≡◌, refl, inl, inr, Bool, true, false, Option, none, some, [], ◌∷◌, ◌++◌, Text, codes, nat_eq,
  option_eq, list_eq,
}
use irctest.Result.{ok, raised, assertion_error}
use irctest.Dashboard.Xml.{Element, element, Elements, none_left, first}
use irctest.Report.{result, compacted, Tree, leaf, dict, end, branch, compact}
use irctest.Report.Raw.{IsRaw}
use irctest.Report.Others.{NoOthers}
use irctest.Report.Counts.{total, failed_count}
use irctest.Report.Apart.{IsApart}
use irctest.Report.Build.{split_param, read_file, file_report}
use irctest.Report.Build.Kept.{is_failure, is_skipped}
use irctest.Report.Build.Counted.{cases_of, cases_where, read_file-counts}

param_split : split_param (codes "testJoin[key-1]") ≡ some (codes "testJoin", codes "[key-1]")
unfolding split_param
param_split = refl

first_bracket : split_param (codes "t[a][b]") ≡ some (codes "t", codes "[a][b]")
unfolding split_param
first_bracket = refl

no_param : split_param (codes "t[a] b") ≡ none
unfolding split_param
no_param = refl

newline_at_end : split_param (codes "t[a]\n") ≡ some (codes "t", codes "[a]")
unfolding split_param
newline_at_end = refl

abbrev case : Text → Text → Elements → Element
case classname name es =
    element (codes "testcase") none ((codes "classname", classname) ∷ (codes "name", name) ∷ []) es

abbrev outcome_element : Text → Elements
outcome_element tag =
    first (element tag none ((codes "message", codes "why") ∷ []) none_left) none_left

abbrev suite : Elements → Element
suite cases =
    element (codes "testsuites") none []
      (first (element (codes "testsuite") none [] cases) none_left)

-- Two cases pass, one is skipped, one fails, and one has no name.
abbrev job : Element
job = suite (
    first (case (codes "join.Test") (codes "a[1]") none_left) (
      first (case (codes "join.Test") (codes "a[2]") none_left) (
        first (case (codes "join.Test") (codes "b") (outcome_element (codes "skipped"))) (
          first (case (codes "who.Test") (codes "c") (outcome_element (codes "failure")))
            (first (element (codes "properties") none [] none_left) none_left)))))

abbrev leaf_of : Bool → Bool → Option Text → Tree
leaf_of success skipped message =
    leaf (result (record { success = success; skipped = skipped; type = none; message = message }))

abbrev one : Option Text → Tree → Tree
one k t = dict (branch k t end)

abbrev results : Tree
results = dict (
    branch (some (codes "join"))
      (one (some (codes "Test")) (
        dict (
          branch (some (codes "a"))
            (dict (
              branch (some (codes "[1]")) (leaf_of true false none)
                (branch (some (codes "[2]")) (leaf_of true false none) end)))
            (branch (some (codes "b")) (one none (leaf_of true true (some (codes "why")))) end))))
      (branch (some (codes "who"))
        (one (some (codes "Test"))
          (one (some (codes "c")) (one none (leaf_of false false (some (codes "why"))))))
        end))

job_read : read_file job ≡ ok results
unfolding read_file
job_read = refl

results-IsRaw : IsRaw results
unfolding IsRaw
results-IsRaw =
    ((((inl refl, (inl refl, tt)), ((inl refl, tt), tt)), tt), ((((inr refl, tt), tt), tt), tt))

results-NoOthers : NoOthers results
unfolding NoOthers option_eq list_eq nat_eq
results-NoOthers = (
  refl,
  (refl, (refl, (refl, tt, (refl, tt, tt)), (refl, (refl, tt, tt), tt)), tt),
  (refl, (refl, (refl, (refl, tt, tt), tt), tt), tt),
)

results-IsApart : IsApart results
unfolding IsApart list_eq nat_eq
results-IsApart = (
  refl,
  (refl, (refl, (refl, tt, (refl, tt, tt)), (refl, (refl, tt, tt), tt)), tt),
  (refl, (refl, (refl, (refl, tt, tt), tt), tt), tt),
)

read_file-counts_example :
    (u : Tree) × (compact results ≡ ok u)
    × (total (λ c. c.count) u ≡ cases_where (λ es. true) (cases_of job))
    × (total (λ c. c.nb_skipped) u ≡ cases_where is_skipped (cases_of job))
    × (total failed_count u ≡ cases_where is_failure (cases_of job))
read_file-counts_example = read_file-counts job results job_read results-NoOthers results-IsApart

four_cases : cases_where (λ es. true) (cases_of job) ≡ 4
unfolding cases_where
four_cases = refl

abbrev summary : Bool → ℕ → ℕ → Tree
summary success count nb_skipped = leaf (
    compacted (record {
      success = success;
      count = count;
      nb_skipped = nb_skipped;
      messages = codes "why" ∷ [];
    }))

-- Results of one status are merged, from the bottom up.
job_compacted :
    compact results
    ≡ ok (
        dict (
          branch
            (some (codes "join"))
            (summary true 3 1)
            (branch (some (codes "who")) (summary false 1 0) end)))
unfolding compact
job_compacted = refl

abbrev bad_job : Element
bad_job = suite (
    first (case (codes "join.Test") (codes "a[1]") none_left)
      (first (case (codes "join.Test") (codes "a[1]") none_left) none_left))

-- A case comes twice.
twice : file_report (codes "r.xml") bad_job ≡ raised assertion_error
unfolding file_report
twice = refl

-- The report of a file whose results are all of one status is one line.
one_line :
    file_report
      (codes "r.xml")
      (suite (first (case (codes "join.Test") (codes "a[1]") none_left) none_left))
    ≡ ok (codes "<li>r.xml: " ++ (10004 ∷ 65039 ∷ codes " 1 successful</li>"))
unfolding file_report
one_line = refl

-- The keys `None` and "None" collapse into one: of a failure and a success one result is left.
colliding :
    compact (
      one (some (codes "A")) (
        one (some (codes "C")) (
          dict (
            branch none
              (leaf_of false false none)
              (branch (some (codes "None")) (one none (leaf_of true false none)) end)))))
    ≡ ok (leaf (compacted (record { success = true; count = 1; nb_skipped = 0; messages = [] })))
unfolding compact
colliding = refl
