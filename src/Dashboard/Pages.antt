-- ===== src/Dashboard/Pages.antt =====
-- `write_html_pages`, `write_html_index`, `write_test_outputs` and `main`
-- (`irctest/dashboard/format.py`). What is written goes into dicts by the names of the files.
pub mod Columns
pub mod Outputs
pub mod Shown
use irctest.Base.{
  ℕ, Bool, true, false, not, ◌&&◌, ◌||◌, Option, none, some, List, [], ◌∷◌, ◌++◌, map, Eq, Text,
  codes, ◌==◌, list_eq, nat_eq, contains, any, select, occurs, cut, starts_with, text_le, sort_by,
  distinct, if◌then◌else◌,
}
use irctest.Base.Dict.{Dict, get, insert, keys}
use irctest.Result.{
  Result, ok, raised, assertion_error, key_error, ◌>>=◌, ◌>>◌, require, or_raise, for_each,
}
use irctest.Dashboard.Xml.{Element, Child, nothing, node, items, Children, end, child}
use irctest.Dashboard.Results.{CaseResult, Digests, output_filename, iter_job_results}
use irctest.Dashboard.Cells.{group_by, html, one_child, text_child, nodes, optional_node}
use irctest.Dashboard.Table.{Docs, name_le, build_test_table}

pub data Category : Type 0 where
  server_with_services server server_without_services client : Category

category_discrete : Discrete Category
category_discrete = hlevel

instance unfoldable pub category_eq : Eq Category
unfolding category_discrete
category_eq = record { dec = category_discrete }

-- `s.endswith(suffix)`
unfoldable pub ends_with : Text → Text → Bool
unfolding list_eq nat_eq
ends_with suffix [] = suffix == []
ends_with suffix (c ∷ s) = if c ∷ s == suffix then true else ends_with suffix s

-- Whether the job has a result in a module of the kind.
abbrev pub has_tests : Text → List CaseResult → Text → Bool
has_tests kind results job = any (λ r. occurs kind r.module_name && r.job == job) results

unfoldable pub categorize : List CaseResult → Text → Result Category
unfolding any cut ends_with list_eq nat_eq
categorize results job =
    let is_client : Bool = has_tests (codes "client_tests") results job in
    let is_server : Bool = has_tests (codes "server_tests") results job in
    require (if is_client then not is_server else is_server) assertion_error
    >> (if any (λ suffix. ends_with suffix job)
          (codes "-atheme" ∷ codes "-anope" ∷ codes "-dlk" ∷ [])
        then require is_server assertion_error >> ok server_with_services
        else if contains (codes "ergo" ∷ codes "sable" ∷ []) job
        then ok server
        else if is_server
        then ok server_without_services
        else require is_client assertion_error >> ok client)

abbrev pub all_jobs : List CaseResult → List Text
all_jobs results = sort_by text_le (distinct (map (λ r. r.job) results))

unfoldable pub job_categories : List CaseResult → Result (Dict Text Category)
unfolding categorize for_each sort_by distinct text_le list_eq nat_eq
job_categories results =
    for_each (λ job. categorize results job >>= λ c. ok (job, c)) (all_jobs results)

abbrev pub category_of : Dict Text Category → Text → Result Category
category_of categories job = or_raise (get categories job) key_error

-- `[x for x in xs if p(x)]`, where the test may raise.
unfoldable pub select_each : (Text → Result Bool) → List Text → Result (List Text)
select_each p [] = ok []
select_each p (x ∷ xs) =
    p x >>= λ kept. select_each p xs >>= λ rest. ok (if kept then x ∷ rest else rest)

abbrev pub with_server : List Category → List Category
with_server cs =
    if contains cs server_with_services || contains cs server_without_services
    then server ∷ cs
    else cs

-- The jobs that are columns of the page of a module.
unfoldable pub module_jobs :
    Dict Text Category → List CaseResult → List Text → Text → Result (List Text)
unfolding select select_each for_each get category_eq list_eq nat_eq
module_jobs categories results jobs module_name =
    for_each (λ r. category_of categories r.job)
      (select (λ r. r.module_name == module_name && not r.skipped) results)
    >>= λ cs.
        select_each (λ job. category_of categories job >>= λ c. ok (contains (with_server cs) c))
          jobs

-- What `pages` holds of a page: `"module"` or `"job"`, its title and its file.
pub data PageKind : Type 0 where
  module_page job_page : PageKind

pub record Page : Type 0 where
  pub kind : PageKind
  pub title : Text
  pub file_name : Text

-- A page with its file, which is written at once.
abbrev pub Written : Type 0
Written = Page × Element

abbrev pub written : PageKind → Text → Element → Written
written kind title root =
    (record { kind = kind; title = title; file_name = title ++ codes ".xhtml" }, root)

abbrev pub stylesheet : Dict Text Text
stylesheet =
    (codes "rel", codes "stylesheet")
    ∷ (codes "type", codes "text/css")
    ∷ (codes "href", codes "./style.css")
    ∷ []

abbrev pub head_of : Text → Result Element
head_of title = do
  heading ← html "title" (text_child title) []
  link ← html "link" end stylesheet
  html "head" (nodes (heading ∷ link ∷ [])) []

-- The results that a page of a job shows: its own, and those of the job with services.
abbrev pub is_shown : Text → CaseResult → Bool
is_shown job r = r.job == job || starts_with r.job (job ++ codes "-")

-- The jobs of a category, in the order of their names.
unfoldable pub jobs_in : Category → Dict Text Category → List Text
unfolding category_eq
jobs_in c [] = []
jobs_in c ((job, d) ∷ categories) =
    let rest = jobs_in c categories in if d == c then job ∷ rest else rest

module _ (l : Digests) (docs : Docs) where
  unfoldable pub build_job_html : Text → List CaseResult → Result Element
  unfolding build_test_table
  build_job_html job results = do
    table ← build_test_table l docs (all_jobs results) results (codes "job-results test-matrix")
    head ← head_of job
    h1 ← html "h1" (text_child job) []
    body ← html "body" (nodes (h1 ∷ table ∷ [])) []
    html "html" (nodes (head ∷ body ∷ [])) []

  unfoldable pub build_module_html : List Text → List CaseResult → Text → Result Element
  unfolding build_test_table
  build_module_html jobs results module_name = do
    table ← build_test_table l docs jobs results (codes "module-results test-matrix")
    head ← head_of module_name
    h1 ← html "h1" (text_child module_name) []
    doc ← docs.module_doc module_name
    body ← html "body" (child (node h1) (child (optional_node doc) (one_child (node table)))) []
    html "html" (nodes (head ∷ body ∷ [])) []

  unfoldable pub module_written :
      Dict Text Category → List CaseResult → Text × List CaseResult → Result Written
  unfolding module_jobs build_module_html
  module_written categories results (module_name, module_results) = do
    columns ← module_jobs categories results (all_jobs results) module_name
    root ← build_module_html columns module_results module_name
    ok (written module_page module_name root)

  unfoldable pub job_written : List CaseResult → Text → Result Written
  unfolding build_job_html select
  job_written results job =
      build_job_html job (select (is_shown job) results) >>= λ root. ok (written job_page job root)

  unfoldable pub write_html_pages : List CaseResult → Result (List Written)
  unfolding job_categories module_written job_written jobs_in for_each group_by sort_by text_le
      list_eq nat_eq
  write_html_pages results = do
    categories ← job_categories results
    modules ←
        for_each (module_written categories results)
          (sort_by name_le (group_by (λ r. r.module_name) results))
    servers ← for_each (job_written results) (jobs_in server categories)
    clients ← for_each (job_written results) (jobs_in client categories)
    ok (modules ++ (servers ++ clients))

module _ (l : Digests) where
  -- The outputs of the tests, by the names of their files.
  unfoldable pub write_test_outputs : Dict Text Text → List CaseResult → Result (Dict Text Text)
  unfolding output_filename insert list_eq nat_eq
  write_test_outputs files [] = ok files
  write_test_outputs files (r ∷ results) = elim r.system_out [
    | none ↦ write_test_outputs files results
    | some out ↦ output_filename l r >>= λ file. write_test_outputs (insert file out files) results
  ]
