-- ===== src/Dashboard/Pages/Columns.antt =====
-- The columns of the page of a module.
use irctest.Base.{
  ◌≡◌, refl, sym, ap, ◌∙◌, arith, inl, inr, Bool, true, false, not, ◌&&◌, List, [], ◌∷◌, map, IsIn,
  Eq, eq_refl, eq_iff, Text, ◌==◌, contains, select, distinct, text_le, list_eq, nat_eq,
  contains-sort_by, contains-distinct, if◌then◌else◌, Bool-cases,
}
use irctest.Base.Dict.{Dict}
use irctest.Result.{Result, ok, ◌>>=◌, for_each, ensures_bind}
use irctest.Dashboard.Results.{CaseResult}
use irctest.Dashboard.Pages.{
  Category, category_eq, all_jobs, category_of, with_server, select_each, module_jobs,
}

module _ {B : Type 0} ⦃e : Eq B⦄ {A : Type 0} where
  contains-map : (f : A → B) (a : A) (xs : List A) → IsIn a xs → contains (map f xs) (f a) ≡ true
  contains-map f a [] h = absurd h
  contains-map f a (x ∷ xs) (inl same) = rw (same, eq_refl (f a)) refl
  contains-map f a (x ∷ xs) (inr h) = ground (arith, contains-map f a xs h)

  for_each-IsIn :
      (f : A → Result B) (a : A) (b : B) (xs : List A)
      → IsIn a xs
      → f a ≡ ok b
      → (ys : List B) → for_each f xs ≡ ok ys
      → contains ys b ≡ true
  unfolding for_each
  for_each-IsIn f a b [] h run = absurd h
  for_each-IsIn f a b (x ∷ xs) h run =
      ensures_bind (f x) _ (λ ys. contains ys b ≡ true)
        (λ y first.
          ensures_bind (for_each f xs) (λ ys. ok (y ∷ ys)) _
            (λ ys rest zs eq. elim h [
              | inl same ↦ ground (arith, ap f same, eq_refl b)
              | inr later ↦ ground (arith, for_each-IsIn f a b xs later run ys rest)
            ]))

module _ {A : Type 0} where
  pub IsIn-select :
      (p : A → Bool) (a : A) (xs : List A) → IsIn a xs → p a ≡ true → IsIn a (select p xs)
  unfolding select
  IsIn-select p a [] h e = absurd h
  IsIn-select p a (x ∷ xs) (inl same) e = rw (same, e) (inl refl)
  IsIn-select p a (x ∷ xs) (inr h) e = elim (Bool-cases (p x)) [
    | inl kept ↦ rw kept (inr (IsIn-select p a xs h e))
    | inr left ↦ rw left (IsIn-select p a xs h e)
  ]

all_jobs_lem :
    (r : CaseResult) (results : List CaseResult)
    → IsIn r results
    → contains (all_jobs results) r.job ≡ true
all_jobs_lem r results h =
    contains-sort_by text_le r.job (distinct (map (λ s. s.job) results))
    ∙ contains-distinct r.job (map (λ s. s.job) results)
    ∙ contains-map (λ s. s.job) r results h

select_each-keeps :
    (p : Text → Result Bool) (job : Text) (jobs : List Text)
    → contains jobs job ≡ true
    → ((kept : Bool) → p job ≡ ok kept → kept ≡ true)
    → (columns : List Text) → select_each p jobs ≡ ok columns
    → contains columns job ≡ true
unfolding select_each
select_each-keeps p job [] h k = absurd (ground arith)
select_each-keeps p job (x ∷ xs) h k =
    ensures_bind (p x) _ (λ ys. contains ys job ≡ true)
      (λ kept first.
        ensures_bind (select_each p xs) (λ rest. ok (if kept then x ∷ rest else rest)) _
          (λ rest run columns eq. elim (Bool-cases (x == job)) [
            | inl same ↦
                ground
                  (arith, k kept (ap p (sym ((eq_iff x job).0 same)) ∙ first), eq_refl job, same)
            | inr other ↦
                ground
                  (arith, other, select_each-keeps p job xs (ground (arith, h, other)) k rest run)
          ]))

with_server_lem :
    (cs : List Category) (c : Category) → contains cs c ≡ true → contains (with_server cs) c ≡ true
with_server_lem cs c h = ground (arith, h)

-- No result that was not skipped is missing from the page of its module: its job is a column.
pub module_jobs-result :
    (categories : Dict Text Category) (r : CaseResult) (results : List CaseResult)
    → IsIn r results
    → r.skipped ≡ false
    → (columns : List Text)
    → module_jobs categories results (all_jobs results) r.module_name ≡ ok columns
    → contains columns r.job ≡ true
unfolding module_jobs
module_jobs-result categories r results h run =
    ensures_bind
      (for_each (λ s. category_of categories s.job)
        (select (λ s. s.module_name == r.module_name && not s.skipped) results))
      (λ cs.
        select_each (λ job. category_of categories job >>= λ c. ok (contains (with_server cs) c))
          (all_jobs results))
      (λ ys. contains ys r.job ≡ true)
      (λ cs cats. select_each-keeps _ r.job (all_jobs results) (all_jobs_lem r results h) (
        ensures_bind (category_of categories r.job) (λ c. ok (contains (with_server cs) c)) _
          (λ c cat kept eq. ground (
            arith,
            eq,
            with_server_lem cs c (
                for_each-IsIn (λ s. category_of categories s.job) r c _
                  (IsIn-select (λ s. s.module_name == r.module_name && not s.skipped) r results h
                    (ground (arith, run, eq_refl r.module_name)))
                  cat cs cats),
          ))))
