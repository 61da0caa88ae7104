-- ===== src/Dashboard/Index.antt =====
-- `write_html_index` and `main` (`irctest/dashboard/format.py`).
pub mod Complete
use irctest.Base.{
  Bool, List, [], ◌∷◌, ◌++◌, map, Text, codes, ◌==◌, list_eq, nat_eq, select, text_le, sort_by,
  if◌then◌else◌,
}
use irctest.Base.Dict.{Dict}
use irctest.Result.{Result, ok, ◌>>=◌, for_each}
use irctest.Dashboard.Xml.{Element, Child, node, items, Children, end, child, make}
use irctest.Dashboard.Results.{Digests, iter_job_results}
use irctest.Dashboard.Cells.{html, one_child, text_child, nodes, optional_node}
use irctest.Dashboard.Table.{Docs, flatten}
use irctest.Dashboard.Pages.{
  PageKind, module_page, job_page, Page, Written, head_of, write_html_pages, write_test_outputs,
}

-- The order of the tuples: by the word for the kind, the title and the name of the file.
abbrev pub kind_word : PageKind → Text
kind_word module_page = codes "module"
kind_word job_page = codes "job"

unfoldable pub titles_le : Page → Page → Bool
unfolding text_le list_eq nat_eq
titles_le p q =
    if p.title == q.title then text_le p.file_name q.file_name else text_le p.title q.title

unfoldable pub page_le : Page → Page → Bool
unfolding titles_le list_eq nat_eq
page_le p q =
    if kind_word p.kind == kind_word q.kind
    then titles_le p q
    else text_le (kind_word p.kind) (kind_word q.kind)

-- The pages of a kind, sorted twice as the code does.
unfoldable pub pages_of : PageKind → List Page → List Page
unfolding page_le select sort_by list_eq nat_eq
pages_of kind pages =
    sort_by titles_le (select (λ p. kind_word p.kind == kind_word kind) (sort_by page_le pages))

abbrev pub page_link : Page → Result Element
page_link p = html "a" (text_child p.title) ((codes "href", codes "./" ++ p.file_name) ∷ [])

module _ (docs : Docs) where
  -- `HTML.dt(...)` and `HTML.dd(...)`, which stand in a tuple of the list.
  unfoldable pub module_entry : Page → Result Child
  unfolding make
  module_entry p = do
    a ← page_link p
    dt ← html "dt" (one_child (node a)) []
    doc ← docs.module_doc p.title
    dd ← html "dd" (one_child (optional_node doc)) []
    ok (items (nodes (dt ∷ dd ∷ [])))

  unfoldable pub job_entry : Page → Result Child
  unfolding make
  job_entry p = do a ← page_link p; li ← html "li" (one_child (node a)) []; ok (node li)

  abbrev pub all_of : List Child → Children
  all_of [] = end
  all_of (c ∷ cs) = child c (all_of cs)

  unfoldable pub write_html_index : List Page → Result Element
  unfolding pages_of module_entry job_entry for_each make
  write_html_index pages = do
    head ← head_of (codes "irctest dashboard")
    h1 ← html "h1" (text_child (codes "irctest dashboard")) []
    by_module ← html "h2" (text_child (codes "Tests by command/specification")) []
    modules ← for_each module_entry (pages_of module_page pages)
    dl ←
        html "dl" (one_child (items (all_of modules))) ((codes "class_", codes "module-index") ∷ [])
    by_job ← html "h2" (text_child (codes "Tests by implementation")) []
    jobs ← for_each job_entry (pages_of job_page pages)
    ul ← html "ul" (one_child (items (all_of jobs))) ((codes "class_", codes "job-index") ∷ [])
    body ← html "body" (nodes (h1 ∷ by_module ∷ dl ∷ by_job ∷ ul ∷ [])) []
    html "html" (nodes (head ∷ body ∷ [])) []

-- The files that `main` writes, but for the style sheet, which it copies.
pub record Output : Type 0 where
  pub pages : List Written
  pub index : Element
  pub outputs : Dict Text Text

module _ (l : Digests) (docs : Docs) where
  -- `main`, from the parsed files.
  unfoldable pub main : List (Text × Element) → Result Output
  unfolding iter_job_results for_each write_html_pages write_html_index write_test_outputs
  main files = do
    found ← for_each (λ file. iter_job_results file.0 file.1) files
    pages ← write_html_pages l docs (flatten found)
    index ← write_html_index docs (map (λ page. page.0) pages)
    outputs ← write_test_outputs l [] (flatten found)
    ok (record { pages = pages; index = index; outputs = outputs })
