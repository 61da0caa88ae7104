-- ===== src/Dashboard/Table.antt =====
-- The rows of `build_test_table` (`irctest/dashboard/format.py`).
pub mod Shape
pub mod Anchors
use irctest.Base.{
  ℕ, zero, suc, ◌+◌, ◌/◌, ◌%◌, Bool, true, false, not, ◌&&◌, Option, none, some, List, [], ◌∷◌,
  ◌++◌, map, Eq, String, Text, codes, ◌==◌, list_eq, nat_eq, pair_eq, option_eq, length, leb, split,
  text_le, sort_by, distinct, if◌then◌else◌,
}
use mathlib.Core.Option.{get_or}
use irctest.Base.Decimal.{decimal}
use irctest.Base.Dict.{Dict, get, insert}
use irctest.Result.{Result, ok, raised, value_error, ◌>>=◌, for_each}
use irctest.Dashboard.Xml.{
  Element, element, Elements, Child, nothing, attributes, node, string, items, Children, end, child,
  add_element, make,
}
use irctest.Dashboard.Results.{CaseResult, Digests, md5sum, output_filename}
use irctest.Dashboard.Cells.{group_by, html, one_child, text_child, nodes, optional_node, job_cell}

-- The documentation of modules, classes and tests, which are imported for it.
pub record Docs : Type 0 where
  pub module_doc : Text → Result (Option Element)
  pub class_doc : Text → Text → Result (Option Element)
  pub test_doc : Text → Text → Text → Result (Option Element)

unfoldable pub add_cells : Element → List Element → Element
unfolding add_element
add_cells e [] = e
add_cells (element tag text attrib es) (c ∷ cells) =
    add_cells (element tag text attrib (add_element es c)) cells

abbrev pub before_bracket : Text → Text
before_bracket s = elim (split b'[' s) [ [] ↦ [] | w ∷ ws ↦ w ]

-- The cell with the name of a test.
unfoldable pub name_cell : Text → Text → Option Element → Result Element
unfolding make
name_cell test_name anchor doc = do
  a ← html "a" (text_child test_name) ((codes "href", codes "#" ++ anchor) ∷ [])
  elim doc [
    | none ↦ html "th" (one_child (node a)) ((codes "class_", codes "test-name") ∷ [])
    | some d ↦ do
      summary ← html "summary" (one_child (node a)) []
      details ← html "details" (child (node summary) (one_child (node d))) []
      html "th" (one_child (node details)) ((codes "class_", codes "test-name") ∷ [])
  ]

-- The row with the names of the jobs.
unfoldable pub job_heading : Text → Result Element
unfolding make
job_heading job = do
  span ← html "span" (text_child job) []
  div ← html "div" (one_child (node span)) []
  html "th" (one_child (node div)) ((codes "class_", codes "job-name") ∷ [])

unfoldable pub job_row : List Text → Result Element
unfolding job_heading for_each make
job_row jobs = do
  corner ← html "th" end []
  headings ← for_each job_heading jobs
  html "tr" (child (node corner) (one_child (items (nodes headings)))) []

-- The row with the name of a class.
unfoldable pub class_row : List Text → Text → Option Element → Result Element
unfolding make
class_row jobs qualified doc = do
  a ←
      html "a" (text_child qualified)
        ((codes "href", codes "#" ++ qualified) ∷ (codes "id", qualified) ∷ [])
  h2 ← html "h2" (one_child (node a)) []
  th ←
      html "th" (child (node h2) (one_child (optional_node doc)))
        ((codes "colspan", decimal (length jobs + 1)) ∷ [])
  html "tr" (one_child (node th)) []

abbrev pub name_le : {A : Type 0} → Text × A → Text × A → Bool
name_le (s, a) (t, b) = text_le s t

abbrev pub class_le : {A : Type 0} → (Text × Text) × A → (Text × Text) × A → Bool
class_le ((m, c), a) ((n, d), b) = if m == n then text_le c d else text_le m n

abbrev pub flatten : {A : Type 0} → List (List A) → List A
flatten [] = []
flatten (xs ∷ xss) = xs ++ flatten xss

module _ (l : Digests) (docs : Docs) where
  -- Long anchors are hashed.
  unfoldable pub row_anchor : Text → Text → Text
  unfolding md5sum
  row_anchor qualified test_name =
      let anchor : Text = qualified ++ (codes "." ++ test_name) in
      if leb 50 (length anchor) then md5sum l anchor else anchor

  unfoldable pub test_row : List Text → Text → Text → Text → Text × List CaseResult → Result Element
  unfolding row_anchor name_cell job_cell group_by add_cells for_each split list_eq nat_eq make
  test_row jobs module_name class_name qualified (test_name, results) = do
    doc ← docs.test_doc module_name class_name (before_bracket test_name)
    name ← name_cell test_name (row_anchor qualified test_name) doc
    row ← html "tr" (one_child (node name)) ((codes "id", row_anchor qualified test_name) ∷ [])
    cells ← for_each (job_cell l (group_by (λ r. r.job) results)) jobs
    ok (add_cells row cells)

  -- The rows of a class.
  unfoldable pub class_rows :
      List Text → Bool → Element → (Text × Text) × List CaseResult → Result (List Element)
  unfolding class_row test_row group_by sort_by text_le list_eq nat_eq for_each
  class_rows jobs multiple_modules jobs_row ((module_name, class_name), results) =
      let qualified : Text =
        if multiple_modules then module_name ++ (codes "." ++ class_name) else class_name in
      docs.class_doc module_name class_name >>= λ doc. class_row jobs qualified doc >>= λ heading.
      for_each (test_row jobs module_name class_name qualified)
        (sort_by name_le (group_by (λ r. r.test_name) results))
      >>= λ rows. ok (heading ∷ jobs_row ∷ rows)

  unfoldable pub build_test_table : List Text → List CaseResult → Text → Result Element
  unfolding class_rows job_row group_by sort_by distinct pair_eq list_eq nat_eq for_each make
  build_test_table jobs results class_name =
      let multiple_modules : Bool = leb 2 (length (distinct (map (λ r. r.module_name) results))) in
      job_row jobs >>= λ jobs_row.
      for_each (class_rows jobs multiple_modules jobs_row)
        (sort_by class_le (group_by (λ r. (r.module_name, r.class_name)) results))
      >>= λ rows. html "table" (nodes (flatten rows)) ((codes "class_", class_name) ∷ [])
