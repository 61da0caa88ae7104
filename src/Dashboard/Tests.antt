-- ===== src/Dashboard/Tests.antt =====
-- The dashboard of two results, and the theorems at concrete values.
use irctest.Base.{
  ℕ, ◌≡◌, ◌%◌, ◌+◌, ◌*◌, ◌/◌, replicate, refl, arith, inl, inr, Bool, true, false, ◌&&◌, ◌||◌, none,
  some, List, [], ◌∷◌, Text, codes, ◌==◌, list_eq, nat_eq, pair_eq, option_eq, length, leb,
  contains, select, if◌then◌else◌, text_le, distinct, sort_by, any, cut, IsIn,
}
use irctest.Base.Dict.{Dict, get}
use irctest.Result.{Result, ok, raised, value_error, for_each}
use irctest.Workflows.Config.{devel_release, flavor_value}
use irctest.Dashboard.Xml.{
  Element, element, none_left, first, Children, child, end, attributes, node, items,
  append_children, set_attributes,
}
use irctest.Dashboard.Xml.Flat.{
  are_mixed, attributes_of, elements_of, add_elements, append_children-nested,
}
use irctest.Dashboard.FileNames.{job_name}
use irctest.Dashboard.FileNames.Artifacts.{job_name-results_artifact}
use irctest.Dashboard.Results.{
  CaseResult, Digests, is_blacklisted, output_filename, iter_job_results,
}
use irctest.Dashboard.Results.Names.{IsAllowed, output_filename-IsAllowed}
use irctest.Dashboard.Table.{Docs, flatten, job_row, test_row}
use irctest.Dashboard.Table.Shape.{width, test_row-job_row}
use irctest.Dashboard.Pages.{
  Category, category_eq, server_with_services, server_without_services, job_categories, all_jobs,
  Written, written, module_page, build_module_html, write_html_pages,
}
use irctest.Dashboard.Pages.Shown.{write_html_pages-result}
use irctest.Dashboard.Pages.Outputs.{last_output}
use irctest.Dashboard.Index.{Output, main}
use irctest.Dashboard.Index.Complete.{main-outputs}

-- A digest of one byte, and an encoding with two letters.
abbrev letter : ℕ → ℕ
letter b = if b % 2 == 0 then b'A' else b'B'

abbrev encode : List ℕ → Text
encode [] = []
encode (b ∷ bytes) = letter b ∷ encode bytes

abbrev is_ascii_word : ℕ → Bool
is_ascii_word c = c == b'_' || leb b'a' c && leb c b'z'

abbrev digests : Digests
digests = record {
  md5 = λ text. length text ∷ [];
  urlsafe_b64encode = encode;
  is_word = is_ascii_word;
}

word-IsAllowed : (c : ℕ) → is_ascii_word c ≡ true → is_blacklisted c ≡ false
unfolding is_blacklisted nat_eq
word-IsAllowed c h = ground arith

letter-IsAllowed : (b : ℕ) → is_blacklisted (letter b) ≡ false
unfolding is_blacklisted nat_eq
letter-IsAllowed b = ground arith

encode-IsAllowed : (bytes : List ℕ) → IsAllowed (encode bytes)
encode-IsAllowed [] = tt
encode-IsAllowed (b ∷ bytes) = (letter-IsAllowed b, encode-IsAllowed bytes)

abbrev docs : Docs
docs = record { module_doc = λ m. ok none; class_doc = λ m c. ok none; test_doc = λ m c t. ok none }

abbrev join_result : CaseResult
join_result = record {
  module_name = codes "irctest.server_tests.join";
  class_name = codes "JoinTestCase";
  test_name = codes "test_join[a b:c]";
  job = codes "bahamut";
  success = false;
  skipped = false;
  system_out = some (codes "log");
  details = some (codes "trace");
  type = none;
  message = some (codes "failed");
}

abbrev part_result : CaseResult
part_result = record join_result {
  test_name = codes "test_part";
  job = codes "bahamut-anope";
  success = true;
  system_out = none;
}

abbrev results : List CaseResult
results = part_result ∷ join_result ∷ []

join_file :
    output_filename digests join_result
    ≡ ok (codes "bahamut_irctest.server_tests.join.JoinTestCase.test_join[B].txt")
unfolding output_filename
join_file = refl

output_filename-IsAllowed_example :
    IsAllowed (codes "bahamut_irctest.server_tests.join.JoinTestCase.test_join[B].txt")
unfolding is_blacklisted nat_eq output_filename
output_filename-IsAllowed_example =
    output_filename-IsAllowed digests word-IsAllowed encode-IsAllowed join_result
      (codes "bahamut_irctest.server_tests.join.JoinTestCase.test_join[B].txt") (ground arith)
      (ground arith) (ground arith) refl

abbrev xhtml : Text
xhtml = codes "ns"

abbrev nested : Children
nested =
    child (items (child (attributes ((codes "id", codes "x") ∷ [])) end))
      (child (node (element (codes "p") none [] none_left)) end)

append_children-nested_example :
    append_children xhtml (element (codes "div") none [] none_left) nested ≡ (
      if are_mixed nested
      then raised value_error
      else ok (
          element
            (codes "div")
            none
            (set_attributes xhtml [] (attributes_of nested))
            (add_elements none_left (elements_of nested))))
append_children-nested_example = append_children-nested xhtml (codes "div") none [] none_left nested

job_name-results_artifact_example :
    job_name (codes ("artifacts/pytest-results_bahamut_devel_release/pytest.xml"))
    ≡ some (codes "bahamut_devel")
unfolding flavor_value
job_name-results_artifact_example =
    job_name-results_artifact "bahamut" devel_release (ground arith) (ground arith)

-- The element that is made, or else an empty one.
abbrev made : Result Element → Element
made (ok e) = e
made (raised x) = element [] none [] none_left

abbrev a_row : Element
a_row = made (
    test_row digests docs (all_jobs results) (codes "m") (codes "c") (codes "m.c")
      (codes "test_part", results))

abbrev a_job_row : Element
a_job_row = made (job_row (all_jobs results))

test_row-job_row_example : (width a_row ≡ width a_job_row) × (width a_row ≡ 3)
unfolding test_row job_row sort_by distinct text_le list_eq nat_eq
test_row-job_row_example =
    test_row-job_row digests docs (all_jobs results) (codes "m") (codes "c") (codes "m.c")
      (codes "test_part") results a_row a_job_row refl refl

-- A digest of 16 zeros, and an encoding of the right length.
abbrev full_digests : Digests
full_digests = record {
  md5 = λ text. replicate 16 0;
  urlsafe_b64encode = λ bytes. replicate (4 * ((length bytes + 2) / 3)) b'A';
  is_word = is_ascii_word;
}

abbrev categories : Dict Text Category
categories =
    (codes "bahamut", server_without_services) ∷ (codes "bahamut-anope", server_with_services) ∷ []

categories_computed : job_categories results ≡ ok categories
unfolding job_categories
categories_computed = refl

-- What a run gives, or else something empty.
abbrev shown : Result (List Written) → List Written
shown (ok pages) = pages
shown (raised x) = []

-- Computed with all that the pages are made by.
unfoldable pages : Result (List Written)
unfolding write_html_pages any cut
pages = write_html_pages digests docs results

write_html_pages-result_example :
    (columns : List Text) × (root : Element) × IsIn
      (written module_page (codes "irctest.server_tests.join") root)
      (shown pages)
    × (build_module_html digests docs columns
          (select (λ s. s.module_name == codes "irctest.server_tests.join") results)
          (codes "irctest.server_tests.join")
        ≡ ok root)
    × (contains columns (codes "bahamut") ≡ true)
unfolding pages
write_html_pages-result_example =
    write_html_pages-result digests docs join_result results (inr (inl refl)) refl (shown pages)
      refl

abbrev report : Element
report = element (codes "testsuites") none [] (
    first
      (element (codes "testsuite") none [] (
        first
          (element (codes "testcase") none
            ((codes "classname", codes "irctest.server_tests.join.JoinTestCase")
              ∷ (codes "name", codes "test_join[a b:c]")
              ∷ [])
            (first
              (element (codes "failure") (some (codes "trace"))
                ((codes "message", codes "failed") ∷ []) none_left)
              (first (element (codes "system-out") (some (codes "log")) [] none_left) none_left)))
          none_left))
      none_left)

abbrev report_file : Text
report_file = codes "artifacts/pytest-results_bahamut_devel/pytest.xml"

report_read : iter_job_results report_file report ≡ ok (join_result ∷ [])
unfolding iter_job_results any
report_read = refl

abbrev output_of : Result Output → Output
output_of (ok o) = o
output_of (raised x) = record { pages = []; index = report; outputs = [] }

unfoldable all_written : Result Output
unfolding main any cut
all_written = main digests docs ((report_file, report) ∷ [])

main-outputs_example :
    (found : List (List CaseResult)) × (for_each
        (λ (f : Text × Element). iter_job_results f.0 f.1)
        ((report_file, report) ∷ [])
      ≡ ok found)
    × ((name : Text)
        → get (output_of all_written).outputs name ≡ last_output digests name (flatten found))
unfolding all_written
main-outputs_example =
    main-outputs digests docs ((report_file, report) ∷ []) (output_of all_written) refl
