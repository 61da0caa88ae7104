-- ===== src/Dashboard/Table/Shape.antt =====
-- The rows of the tables have one cell for each job, behind the cell at their start.
use irctest.Base.{
  ℕ, suc, ◌+◌, ◌≡◌, refl, sym, ap, ◌∙◌, inl, inr, Option, none, List, [], ◌∷◌, Text, codes, arith,
  length, list_eq, nat_eq, String,
}
use irctest.Base.Dict.{Dict}
use irctest.Result.{Result, ok, raised, Result-cases, ensures_bind, for_each}
use irctest.Dashboard.Xml.{
  Element, element, Elements, none_left, first, end, child, node, items, namespacify, add_element,
  append_children, make,
}
use irctest.Dashboard.Xml.Flat.{
  add_elements, elements_of, add_element-add_elements, add_elements_assoc, add_elements-none_left,
}
use irctest.Dashboard.Results.{CaseResult, Digests}
use irctest.Dashboard.Cells.{html_uri, html, one_child, nodes, group_by, job_cell}
use irctest.Dashboard.Table.{
  Docs, before_bracket, name_cell, row_anchor, add_cells, job_heading, job_row, test_row,
}

abbrev size : Elements → ℕ
size none_left = 0
size (first e es) = suc (size es)

-- The number of the cells of a row.
abbrev pub width : Element → ℕ
width (element tag text attrib es) = size es

for_each-length {ℓ κ} :
    {A : Type ℓ} {B : Type κ} (f : A → Result B) (xs : List A) (ys : List B)
    → for_each f xs ≡ ok ys
    → length ys ≡ length xs
unfolding for_each
for_each-length f [] ys h = let same : [] ≡ ys = ground arith in rw (← same) refl
for_each-length f (x ∷ xs) ys h = elim (Result-cases (f x)) [
  | inr (z, e) ↦ absurd (ground arith)
  | inl (y, e) ↦ elim (Result-cases (for_each f xs)) [
    | inr (z, g) ↦ absurd (ground arith)
    | inl (rest, g) ↦
        let same : y ∷ rest ≡ ys = ground arith in
        rw (← same) (ap suc (for_each-length f xs rest g))
  ]
]

size-add_element : (es : Elements) (e : Element) → size (add_element es e) ≡ suc (size es)
unfolding add_element
size-add_element none_left e = refl
size-add_element (first f es) e = ap suc (size-add_element es e)

width-add_cells :
    (row : Element) (cells : List Element) → width (add_cells row cells) ≡ width row + length cells
unfolding add_cells
width-add_cells (element tag text attrib es) [] = omega arith
width-add_cells (element tag text attrib es) (c ∷ cells) = omega (
  arith,
  width-add_cells (element tag text attrib (add_element es c)) cells,
  size-add_element es c,
)

abbrev width_of : Result Element → ℕ
width_of (ok e) = width e
width_of (raised x) = 0

append_children-nodes :
    (tag : Text) (text : Option Text) (attrib : Dict Text Text) (fs : Elements) (es : List Element)
    → append_children html_uri (element tag text attrib fs) (nodes es)
      ≡ ok (element tag text attrib (add_elements fs (elements_of (nodes es))))
unfolding append_children elements_of
append_children-nodes tag text attrib fs [] = rw add_elements-none_left
append_children-nodes tag text attrib fs (e ∷ es) =
    append_children-nodes tag text attrib (add_element fs e) es
    ∙ rw
        (
          add_element-add_elements fs e,
          add_elements_assoc fs (first e none_left) (elements_of (nodes es)),
        )
        refl

width_one :
    (tag : String) (a : Element) (kwargs : Dict Text Text) (e : Element)
    → html tag (one_child (node a)) kwargs ≡ ok e
    → width e ≡ 1
unfolding make
width_one tag a kwargs e h = sym (ap width_of h)

size-elements_of : (es : List Element) → size (elements_of (nodes es)) ≡ length es
unfolding elements_of
size-elements_of [] = refl
size-elements_of (e ∷ es) = ap suc (size-elements_of es)

width-items :
    (tag : String) (corner : Element) (es : List Element) (e : Element)
    → html tag (child (node corner) (one_child (items (nodes es)))) [] ≡ ok e
    → width e ≡ suc (length es)
unfolding make
width-items tag corner es e h =
    sym (ap width_of h)
    ∙ rw
        (append_children-nodes (namespacify html_uri (codes tag)) none [] (first corner none_left)
          es)
        (ap suc (size-elements_of es))

module _ (l : Digests) (docs : Docs) where
  test_row-width :
      (jobs : List Text) (module_name class_name qualified test_name : Text)
      (results : List CaseResult) (row : Element)
      → test_row l docs jobs module_name class_name qualified (test_name, results) ≡ ok row
      → width row ≡ suc (length jobs)
  unfolding test_row
  test_row-width jobs module_name class_name qualified test_name results =
      ensures_bind (docs.test_doc module_name class_name (before_bracket test_name)) _ _
        (λ doc found.
          ensures_bind (name_cell test_name (row_anchor l docs qualified test_name) doc) _ _
            (λ name named.
              ensures_bind
                (html "tr" (one_child (node name))
                  ((codes "id", row_anchor l docs qualified test_name) ∷ []))
                _ _
                (λ tr opened.
                  ensures_bind (for_each (job_cell l (group_by (λ r. r.job) results)) jobs)
                    (λ cells. ok (add_cells tr cells)) _
                    (λ cells made row e.
                      let same : add_cells tr cells ≡ row = ground arith in
                      rw (← same) (
                        omega (
                          arith,
                          width-add_cells tr cells,
                          width_one "tr" name
                              ((codes "id", row_anchor l docs qualified test_name) ∷ []) tr opened,
                          for_each-length _ jobs cells made,
                        ))))))

  job_row-width :
      (jobs : List Text) (row : Element) → job_row jobs ≡ ok row → width row ≡ suc (length jobs)
  unfolding job_row
  job_row-width jobs = ensures_bind (html "th" end []) _ _ (λ corner cornered.
      ensures_bind (for_each job_heading jobs) _ _ (λ headings made row e.
        width-items "tr" corner headings row e
        ∙ ap suc (for_each-length job_heading jobs headings made)))

  -- If a table can be made, the row of each test is as wide as the row with the names of the jobs:
  -- each has a first cell, and one cell for each job.
  pub test_row-job_row :
      (jobs : List Text) (module_name class_name qualified test_name : Text)
      (results : List CaseResult) (row jobs_row : Element)
      → test_row l docs jobs module_name class_name qualified (test_name, results) ≡ ok row
      → job_row jobs ≡ ok jobs_row
      → (width row ≡ width jobs_row) × (width row ≡ suc (length jobs))
  test_row-job_row jobs module_name class_name qualified test_name results row jobs_row h k =
      omega (
        arith,
        test_row-width jobs module_name class_name qualified test_name results row h,
        job_row-width jobs jobs_row k,
      )
