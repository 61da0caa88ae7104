-- ===== src/Dashboard/Pages/Shown.antt =====
-- The pages of the modules, and what they are made of.
use irctest.Base.{
  ◌≡◌, refl, sym, ap, ◌∙◌, arith, inl, inr, Bool, true, false, some, List, [], ◌∷◌, ◌++◌, IsIn,
  IsIn-append_left, Eq, eq_refl, eq_iff, Text, ◌==◌, contains, select, insert_by, sort_by, list_eq,
  nat_eq, Bool-cases,
}
use irctest.Base.Dict.{Dict, get}
use irctest.Result.{Result, ok, for_each, ensures_bind}
use irctest.Dashboard.Xml.{Element}
use irctest.Dashboard.Results.{CaseResult, Digests}
use irctest.Dashboard.Cells.{group_by}
use irctest.Dashboard.Cells.Groups.{grouped, get-group_by}
use irctest.Dashboard.Table.{Docs, name_le}
use irctest.Dashboard.Pages.{
  Category, server, client, job_categories, all_jobs, module_jobs, module_page, Written, written,
  build_module_html, module_written, job_written, jobs_in, write_html_pages,
}
use irctest.Dashboard.Pages.Columns.{IsIn-select, module_jobs-result}

module _ {A : Type 0} where
  IsIn-insert_by_same : (le : A → A → Bool) (x : A) (xs : List A) → IsIn x (insert_by le x xs)
  unfolding insert_by
  IsIn-insert_by_same le x [] = inl refl
  IsIn-insert_by_same le x (y ∷ ys) = elim (Bool-cases (le x y)) [
    | inl e ↦ rw (insert_by, e) (inl refl)
    | inr e ↦ rw (insert_by, e) (inr (IsIn-insert_by_same le x ys))
  ]

  IsIn-insert_by :
      (le : A → A → Bool) (a x : A) (xs : List A) → IsIn a xs → IsIn a (insert_by le x xs)
  unfolding insert_by
  IsIn-insert_by le a x [] h = absurd h
  IsIn-insert_by le a x (y ∷ ys) h = elim (Bool-cases (le x y)) [
    | inl e ↦ rw (insert_by, e) (inr h)
    | inr e ↦
        rw (insert_by, e)
          (elim h [ inl same ↦ inl same | inr later ↦ inr (IsIn-insert_by le a x ys later) ])
  ]

  IsIn-sort_by : (le : A → A → Bool) (a : A) (xs : List A) → IsIn a xs → IsIn a (sort_by le xs)
  unfolding sort_by
  IsIn-sort_by le a [] h = absurd h
  IsIn-sort_by le a (x ∷ xs) (inl same) = rw same (IsIn-insert_by_same le a (sort_by le xs))
  IsIn-sort_by le a (x ∷ xs) (inr h) =
      IsIn-insert_by le a x (sort_by le xs) (IsIn-sort_by le a xs h)

-- What is made of an item is among what is made of all.
pub IsIn-for_each :
    {A B : Type 0} (f : A → Result B) (a : A) (xs : List A)
    → IsIn a xs
    → (ys : List B) → for_each f xs ≡ ok ys
    → (b : B) × (f a ≡ ok b) × IsIn b ys
unfolding for_each
IsIn-for_each f a [] h = absurd h
IsIn-for_each {A} {B} f a (x ∷ xs) h =
    ensures_bind (f x) _ (λ ys. (b : B) × (f a ≡ ok b) × IsIn b ys)
      (λ y first.
        ensures_bind (for_each f xs) (λ ys. ok (y ∷ ys)) (λ ys. (b : B) × (f a ≡ ok b) × IsIn b ys)
          (λ ys rest zs eq.
            let listed : y ∷ ys ≡ zs = ground arith in
            rw (← listed) (elim h [
              | inl same ↦ (y, ap f (sym same) ∙ first, inl refl)
              | inr later ↦
                  let (b, made, among) = IsIn-for_each f a xs later ys rest in (b, made, inr among)
            ])))

module _ {K V : Type 0} ⦃e : Eq K⦄ where
  IsIn-get : (k : K) (v : V) (d : Dict K V) → get d k ≡ some v → IsIn (k, v) d
  unfolding get
  IsIn-get k v [] h = absurd (ground arith)
  IsIn-get k v ((j, w) ∷ d) h = elim (Bool-cases (j == k)) [
    | inl same ↦ inl (
        let equal : j ≡ k = (eq_iff j k).0 same in
        let value : w ≡ v = ground (arith, h, same) in rw (equal, value) refl)
    | inr other ↦ inr (IsIn-get k v d (ground (arith, h, other)))
  ]

grouped-IsIn : {V : Type 0} (v : V) (vs : List V) → IsIn v vs → grouped vs ≡ some vs
grouped-IsIn v [] h = absurd h
grouped-IsIn v (w ∷ vs) h = refl

-- The results of a module stand under its name.
IsIn-module :
    (r : CaseResult) (results : List CaseResult)
    → IsIn r results
    → IsIn
        (r.module_name, select (λ s. s.module_name == r.module_name) results)
        (group_by (λ s. s.module_name) results)
IsIn-module r results h = IsIn-get r.module_name _ _ (
    get-group_by (λ s. s.module_name) r.module_name results
    ∙ grouped-IsIn r (select (λ s. s.module_name == r.module_name) results)
        (IsIn-select (λ s. s.module_name == r.module_name) r results h (eq_refl r.module_name)))

module _ (l : Digests) (docs : Docs) where
  -- The steps to the page of a module.
  module_written_steps :
      (categories : Dict Text Category) (results module_results : List CaseResult) (m : Text)
      (page : Written)
      → module_written l docs categories results (m, module_results) ≡ ok page
      → (columns : List Text) × (root : Element) × (module_jobs categories results
            (all_jobs results)
            m
          ≡ ok columns)
        × (build_module_html l docs columns module_results m ≡ ok root)
        × (written module_page m root ≡ page)
  unfolding module_written
  module_written_steps categories results module_results m =
      let P : Written → Type 0 = λ page.
        (columns : List Text) × (root : Element) × (module_jobs categories results
            (all_jobs results) m
          ≡ ok columns)
        × (build_module_html l docs columns module_results m ≡ ok root)
        × (written module_page m root ≡ page) in
      ensures_bind (module_jobs categories results (all_jobs results) m) _ P (λ columns chosen.
        ensures_bind (build_module_html l docs columns module_results m)
          (λ root. ok (written module_page m root)) P
          (λ root built page eq. (columns, root, chosen, built, ground arith)))

  -- If the pages can be written, the module of each result that was not skipped has a page; it is
  -- made of all results of the module, in their order, and of columns that the job of the result is
  -- one of.
  pub write_html_pages-result :
      (r : CaseResult) (results : List CaseResult)
      → IsIn r results
      → r.skipped ≡ false
      → (pages : List Written) → write_html_pages l docs results ≡ ok pages
      → (columns : List Text) × (root : Element) × IsIn
          (written module_page r.module_name root)
          pages
        × (build_module_html l docs columns
              (select (λ s. s.module_name == r.module_name) results)
              r.module_name
            ≡ ok root)
        × (contains columns r.job ≡ true)
  unfolding write_html_pages module_written
  write_html_pages-result r results h run =
      let P : List Written → Type 0 = λ pages.
        (columns : List Text) × (root : Element) × IsIn (written module_page r.module_name root)
          pages
        × (build_module_html l docs columns (select (λ s. s.module_name == r.module_name) results)
              r.module_name
            ≡ ok root)
        × (contains columns r.job ≡ true) in
      ensures_bind (job_categories results) _ P (λ categories found.
        ensures_bind
          (for_each (module_written l docs categories results)
            (sort_by name_le (group_by (λ s. s.module_name) results)))
          _ P
          (λ modules made.
            ensures_bind (for_each (job_written l docs results) (jobs_in server categories)) _ P
              (λ servers s.
                ensures_bind (for_each (job_written l docs results) (jobs_in client categories))
                  (λ clients. ok (modules ++ (servers ++ clients))) P
                  (λ clients c pages eq.
                    let (page, write, among) =
                      IsIn-for_each (module_written l docs categories results)
                        (r.module_name, select (λ s. s.module_name == r.module_name) results) _
                        (IsIn-sort_by name_le _ _ (IsIn-module r results h)) modules made in
                    let (columns, root, chosen, built, same) =
                      module_written_steps categories results
                        (select (λ s. s.module_name == r.module_name) results) r.module_name page
                        write in
                    let shown : modules ++ (servers ++ clients) ≡ pages = ground arith in
                    (
                      columns,
                      root,
                      rw (same, ← shown) (IsIn-append_left page modules (servers ++ clients) among),
                      built,
                      module_jobs-result categories r results h run columns chosen,
                    )))))
