-- ===== src/Report/Build/Counted.antt =====
-- The numbers in the report of a file.
use irctest.Base.{
  ℕ, ◌+◌, ◌≡◌, refl, ap, ◌∙◌, arith, inl, inr, Bool, true, not, Option, none, some, List, [], ◌∷◌,
  Text, codes, ◌==◌, nat_eq, option_eq, list_eq, Bool-cases, Option-cases, if◌then◌else◌, split,
}
use irctest.Base.Dict.{Dict, get, insert}
use irctest.Result.{Result, ok, ◌>>=◌, or_raise, ensures_bind, key_error}
use irctest.Dashboard.Xml.{Element, element, Elements, none_left, first}
use irctest.Report.{
  CompactedResult, Leaf, Tree, leaf, dict, Branches, end, branch, Items, items, branches,
  compact_result, compact,
}
use irctest.Report.Others.{NoOthers}
use irctest.Report.Apart.{IsApart}
use irctest.Report.Counts.{
  total, total_branches, total_items, total-branches, failed_count, compact-total,
}
use irctest.Report.Build.Kept.{is_failure, is_skipped, case_leaf_lem, read_file-IsRaw}
use irctest.Report.Build.{
  result_of, case_leaf, case_keys, found, with_default, add_new, add_case, at_path, add_cases,
  read_file,
}

-- The cases with a name, of which a test of what stands in them holds.
unfoldable pub cases_where : (Elements → Bool) → Elements → ℕ
unfolding get list_eq nat_eq
cases_where p none_left = 0
cases_where p (first (element tag text attrib es) cases) = elim (get attrib (codes "name")) [
  | none ↦ cases_where p cases
  | some name ↦ (if p es then 1 else 0) + cases_where p cases
]

-- A number of a result that is one if a test holds of its case, else zero.
module _ (w : CompactedResult → ℕ) (p : Elements → Bool)
    (one : (es : Elements) (attrib : Dict Text Text)
      → w (compact_result (result_of (not (is_failure es)) (is_skipped es) attrib))
        ≡ (if p es then 1 else 0)) where
  -- A change adds a number.
  abbrev Adds : ℕ → (Tree → Result Tree) → Type 0
  Adds n change = (t u : Tree) → change t ≡ ok u → total w u ≡ n + total w t

  total-items : (bs : Branches) → total_items w (items bs) ≡ total_branches w bs
  unfolding total
  total-items end = refl
  total-items (branch k t bs) = ap (λ n. total w t + n) (total-items bs)

  total-insert :
      (k : Option Text) (t : Tree) (d : Items)
      → total_items w (insert k t d) + total w (found (get d k)) ≡ total_items w d + total w t
  unfolding get insert total
  total-insert k t [] = omega arith
  total-insert k t ((j, u) ∷ d) = elim (Bool-cases (j == k)) [
    | inl e ↦ rw (get, insert, e) (omega arith)
    | inr e ↦ rw (get, insert, e) (omega (arith, total-insert k t d))
  ]

  total-replaced :
      (k : Option Text) (t : Tree) (bs : Branches)
      → total w (dict (branches (insert k t (items bs)))) + total w (found (get (items bs) k))
        ≡ total w (dict bs) + total w t
  unfolding total
  total-replaced k t bs =
      omega (
        arith,
        total-branches w (insert k t (items bs)),
        total-insert k t (items bs),
        total-items bs,
      )

  with_default-Adds :
      (n : ℕ) (k : Option Text) (change : Tree → Result Tree)
      → Adds n change
      → Adds n (with_default k change)
  unfolding with_default
  with_default-Adds n k change adds (leaf l) u e = absurd (ground arith)
  with_default-Adds n k change adds (dict bs) u e =
      ensures_bind (change (found (get (items bs) k)))
        (λ t. ok (dict (branches (insert k t (items bs))))) (λ v. total w v ≡ n + total w (dict bs))
        (λ t e v g.
          let same : dict (branches (insert k t (items bs))) ≡ v = ground (arith, g) in
          rw (← same) (omega (arith, adds _ t e, total-replaced k t bs)))
        u e

  add_new-Adds : (k : Option Text) (l : Leaf) → Adds (total w (leaf l)) (add_new k l)
  unfolding add_new total
  add_new-Adds k l (leaf r) u e = absurd (ground arith)
  add_new-Adds k l (dict bs) u e = elim (Option-cases (get (items bs) k)) [
    | inr (t, f) ↦ absurd (ground (arith, e, f))
    | inl f ↦
        let same : dict (branches (insert k (leaf l) (items bs))) ≡ u = ground (arith, e, f) in
        let none_before : total w (found (get (items bs) k)) ≡ 0 = ap (λ o. total w (found o)) f in
        rw (← same) (omega (arith, total-replaced k (leaf l) bs, none_before))
  ]

  add_case-Adds : (name : Text) (es : Elements) → Adds (if p es then 1 else 0) (add_case name es)
  unfolding add_case total
  add_case-Adds name es t u =
      ensures_bind (case_leaf es)
        (λ l. with_default (case_keys name).0 (add_new (case_keys name).1 l) t)
        (λ v. total w v ≡ (if p es then 1 else 0) + total w t)
        (λ l e v g.
          let (attrib, same) = case_leaf_lem es l e in
          let number : total w (leaf l) ≡ (if p es then 1 else 0) =
            ap (λ l. total w (leaf l)) same ∙ one es attrib in
          with_default-Adds (total w (leaf l)) (case_keys name).0 (add_new (case_keys name).1 l)
            (add_new-Adds (case_keys name).1 l) t v g
          ∙ ap (λ n. n + total w t) number)
        u

  at_path-Adds :
      (n : ℕ) (path : List Text) (change : Tree → Result Tree)
      → Adds n change
      → Adds n (at_path path change)
  unfolding at_path
  at_path-Adds n [] change adds = adds
  at_path-Adds n (name ∷ path) change adds =
      with_default-Adds n (some name) (at_path path change) (at_path-Adds n path change adds)

  add_cases-Adds : (cases : Elements) → Adds (cases_where p cases) (add_cases cases)
  unfolding add_cases cases_where
  add_cases-Adds none_left t u e = let same : t ≡ u = ground (arith, e) in rw (← same) (omega arith)
  add_cases-Adds (first (element tag text attrib es) cases) t u e =
      elim (Option-cases (get attrib (codes "name"))) [
        | inl f ↦ rw (cases_where, f) (add_cases-Adds cases t u (ground (arith, e, f)))
        | inr (name, f) ↦
            rw (cases_where, f)
              (ensures_bind (or_raise (get attrib (codes "classname")) key_error)
                (λ classname.
                  at_path (split b'.' classname) (add_case name es) t >>= λ v. add_cases cases v)
                (λ u. total w u ≡ ((if p es then 1 else 0) + cases_where p cases) + total w t)
                (λ classname g.
                  ensures_bind (at_path (split b'.' classname) (add_case name es) t)
                    (λ v. add_cases cases v)
                    (λ u. total w u ≡ ((if p es then 1 else 0) + cases_where p cases) + total w t)
                    (λ v k x y. omega (
                      arith,
                      add_cases-Adds cases v x y,
                      at_path-Adds (if p es then 1 else 0) (split b'.' classname) (add_case name es)
                          (add_case-Adds name es) t v k,
                    )))
                u (ground (arith, e, f)))
      ]

-- The cases of the suite.
abbrev pub cases_of : Element → Elements
cases_of (element tag text attrib none_left) = none_left
cases_of (element tag text attrib (first (element t x a cases) rest)) = cases

read_file-total :
    (w : CompactedResult → ℕ) (p : Elements → Bool)
    → ((es : Elements) (attrib : Dict Text Text)
        → w (compact_result (result_of (not (is_failure es)) (is_skipped es) attrib))
          ≡ (if p es then 1 else 0))
    → (job : Element) (results : Tree) → read_file job ≡ ok results
    → total w results ≡ cases_where p (cases_of job)
unfolding read_file total
read_file-total w p one (element tag text attrib none_left) r e = absurd (ground arith)
read_file-total w p one (element tag text attrib (first (element t x a cases) none_left)) r e =
    omega (arith, add_cases-Adds w p one cases (dict end) r e)
read_file-total w p one (element tag text attrib (first e (first f es))) r h = absurd (ground arith)

-- If the results of a file are read with no exception, none of their keys is "(others)", and the keys
-- of each dict differ as they are written in strings, the results are made compact with no
-- exception; then the counts sum up to the number of cases with a name, the numbers of skipped
-- results to the number of such cases in which `skipped` stands, and the counts of what failed to the
-- number of those with a `failure` or an `error`.
pub read_file-counts :
    (job : Element) (results : Tree)
    → read_file job ≡ ok results
    → NoOthers results
    → IsApart results
    → (u : Tree) × (compact results ≡ ok u)
      × (total (λ c. c.count) u ≡ cases_where (λ es. true) (cases_of job))
      × (total (λ c. c.nb_skipped) u ≡ cases_where is_skipped (cases_of job))
      × (total failed_count u ≡ cases_where is_failure (cases_of job))
unfolding result_of
read_file-counts job results e h apart =
    let (u, f, a, b, c) = compact-total results (read_file-IsRaw job results e) h apart in
    (
      u,
      f,
      a ∙ read_file-total (λ c. c.count) (λ es. true) (λ es attrib. refl) job results e,
      b ∙ read_file-total (λ c. c.nb_skipped) is_skipped (λ es attrib. refl) job results e,
      c ∙ read_file-total failed_count is_failure (λ es attrib. ground arith) job results e,
    )
