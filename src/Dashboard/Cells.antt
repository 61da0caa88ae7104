-- ===== src/Dashboard/Cells.antt =====
-- `group_by` and the cells of `build_test_table` (`irctest/dashboard/format.py`).
pub mod Groups
use irctest.Base.{
  ℕ, zero, suc, ◌+◌, ◌/◌, ◌%◌, Bool, true, false, not, ◌&&◌, Option, none, some, List, [], ◌∷◌,
  ◌++◌, map, Eq, String, Text, codes, ◌==◌, list_eq, nat_eq, pair_eq, option_eq, length, leb, split,
  text_le, sort_by, distinct, if◌then◌else◌,
}
use mathlib.Core.Option.{get_or}
use irctest.Base.Dict.{Dict, get, insert}
use irctest.Result.{Result, ok, raised, value_error, ◌>>=◌, for_each}
use irctest.Dashboard.Xml.{
  Element, element, Elements, Child, nothing, attributes, node, string, items, Children, end, child,
  add_element, make,
}
use irctest.Dashboard.Results.{CaseResult, Digests, md5sum, output_filename}

-- `setdefault(key(value), []).append(value)`, for each value.
module _ {ℓ κ} {K : Type ℓ} {V : Type κ} ⦃e : Eq K⦄ where
  unfoldable pub add_to_groups : (V → K) → Dict K (List V) → List V → Dict K (List V)
  unfolding get insert
  add_to_groups key groups [] = groups
  add_to_groups key groups (v ∷ vs) =
      add_to_groups key (insert (key v) (get_or (get groups (key v)) [] ++ (v ∷ [])) groups) vs

  unfoldable pub group_by : (V → K) → List V → Dict K (List V)
  unfolding add_to_groups
  group_by key vs = add_to_groups key [] vs

abbrev pub html_uri : Text
html_uri = codes "http://www.w3.org/1999/xhtml"

-- `HTML.tag(*args, **kwargs)`
abbrev pub html : String → Children → Dict Text Text → Result Element
html tag args kwargs = make html_uri (codes tag) args kwargs

abbrev pub one_child : Child → Children
one_child c = child c end

abbrev pub text_child : Text → Children
text_child s = one_child (string s)

abbrev pub nodes : List Element → Children
nodes [] = end
nodes (e ∷ es) = child (node e) (nodes es)

abbrev pub optional_node : Option Element → Child
optional_node none = nothing
optional_node (some e) = node e

-- A text that is `None` or empty is false.
abbrev pub given : Option Text → Option Text
given none = none
given (some []) = none
given (some (c ∷ s)) = some (c ∷ s)

-- The class of a cell, and its text.
unfoldable pub cell_text : CaseResult → Text × Option Text
unfolding list_eq nat_eq option_eq
cell_text r =
    if r.skipped
    then (if r.type == some (codes "pytest.skip")
        then (codes "skipped", some (codes "s"))
        else if r.type == some (codes "pytest.xfail")
        then (codes "expected-failure", some (codes "X"))
        else (codes "skipped", r.type))
    else if r.success
    then (codes "success", some (get_or (given r.type) (codes ".")))
    else (codes "failure", some (get_or (given r.type) (codes "f")))

abbrev pub title_attribute : Option Text → Dict Text Text
title_attribute none = []
title_attribute (some message) = (codes "title", message) ∷ []

module _ (l : Digests) where
  -- What stands in a cell: a link to the output, if there is one.
  unfoldable pub cell_content : CaseResult → Text → Result Child
  unfolding output_filename make
  cell_content r text = elim (given r.system_out) [
    | none ↦ ok (string text)
    | some out ↦ output_filename l r >>= λ file.
        html "a" (text_child text) ((codes "href", codes "./" ++ file) ∷ []) >>= λ a. ok (node a)
  ]

  unfoldable pub cell : CaseResult → Result Element
  unfolding cell_text cell_content make
  cell r =
      let (class_name, text) = cell_text r in
      cell_content r (get_or (given text) (codes "?")) >>= λ content.
      html "td"
        (child content (
          one_child (attributes ((codes "class", class_name) ∷ title_attribute (given r.message)))))
        []

  -- The cell of a job, which must have one result at most.
  unfoldable pub job_cell : Dict Text (List CaseResult) → Text → Result Element
  unfolding cell get list_eq nat_eq
  job_cell by_job job = elim (get by_job job) [
    | none ↦ html "td" (text_child (codes "d")) ((codes "class_", codes "deselected") ∷ [])
    | some [] ↦ raised value_error
    | some (r ∷ []) ↦ cell r
    | some (r ∷ q ∷ rs) ↦ raised value_error
  ]
