-- ===== src/Report/Build/Kept.antt =====
-- What the results of a file are made of.
use irctest.Base.{
  ◌≡◌, refl, arith, inl, inr, Bool, true, false, not, ◌&&◌, ◌||◌, Option, some, List, [], ◌∷◌, Text,
  codes, ◌==◌, nat_eq, option_eq, list_eq, Bool-cases, Option-cases, split,
}
use irctest.Base.Dict.{Dict, get, insert, keys}
use irctest.Result.{Result, ok, ◌>>=◌, require, or_raise, ensures_bind, type_error, key_error}
use irctest.Dashboard.Xml.{Element, element, Elements, none_left, first}
use irctest.Report.{Leaf, result, Tree, leaf, dict, Branches, end, branch, Items, items, branches}
use irctest.Report.Raw.{IsRaw, AreRaw}
use irctest.Report.Build.{
  fits_call, result_of, outcome, case_leaf, case_keys, found, with_default, add_new, add_case,
  at_path, add_cases, read_file,
}

abbrev RawItems : Items → Type 0
RawItems [] = Unit
RawItems ((k, t) ∷ d) = IsRaw t × RawItems d

-- A change, and what it keeps.
abbrev Keeps : (Tree → Result Tree) → Type 0
Keeps change = (t u : Tree) → IsRaw t → change t ≡ ok u → IsRaw u

RawItems-items : (bs : Branches) → AreRaw bs → RawItems (items bs)
unfolding IsRaw
RawItems-items end h = tt
RawItems-items (branch k t bs) h = (h.0, RawItems-items bs h.1)

AreRaw-branches : (d : Items) → RawItems d → AreRaw (branches d)
unfolding IsRaw
AreRaw-branches [] h = tt
AreRaw-branches ((k, t) ∷ d) h = (h.0, AreRaw-branches d h.1)

insert-RawItems :
    (k : Option Text) (t : Tree) (d : Items) → IsRaw t → RawItems d → RawItems (insert k t d)
unfolding insert
insert-RawItems k t [] f h = (f, tt)
insert-RawItems k t ((j, u) ∷ d) f h = elim (Bool-cases (j == k)) [
  | inl e ↦ rw (insert, e) (f, h.1)
  | inr e ↦ rw (insert, e) (h.0, insert-RawItems k t d f h.1)
]

found-IsRaw : (d : Items) (k : Option Text) → RawItems d → IsRaw (found (get d k))
unfolding get IsRaw
found-IsRaw [] k h = tt
found-IsRaw ((j, u) ∷ d) k h = elim (Bool-cases (j == k)) [
  | inl e ↦ rw (get, e) (h.0)
  | inr e ↦ rw (get, e) (found-IsRaw d k h.1)
]

with_default-Keeps :
    (k : Option Text) (change : Tree → Result Tree) → Keeps change → Keeps (with_default k change)
unfolding with_default IsRaw
with_default-Keeps k change keeps (leaf l) u h e = absurd (ground arith)
with_default-Keeps k change keeps (dict bs) u h e =
    ensures_bind (change (found (get (items bs) k)))
      (λ t. ok (dict (branches (insert k t (items bs))))) IsRaw
      (λ t e v g.
        let same : dict (branches (insert k t (items bs))) ≡ v = ground (arith, g) in
        rw (← same) (
          AreRaw-branches _ (
            insert-RawItems k t (items bs)
              (keeps _ t (found-IsRaw (items bs) k (RawItems-items bs h)) e)
              (RawItems-items bs h))))
      u e

add_new-Keeps : (k : Option Text) (l : Leaf) → IsRaw (leaf l) → Keeps (add_new k l)
unfolding add_new IsRaw
add_new-Keeps k l raw (leaf r) u h e = absurd (ground arith)
add_new-Keeps k l raw (dict bs) u h e = elim (Option-cases (get (items bs) k)) [
  | inr (t, f) ↦ absurd (ground (arith, e, f))
  | inl f ↦
      let same : dict (branches (insert k (leaf l) (items bs))) ≡ u = ground (arith, e, f) in
      rw (← same)
        (AreRaw-branches _ (insert-RawItems k (leaf l) (items bs) raw (RawItems-items bs h)))
]

outcome_lem :
    (success skipped : Bool) (attrib : Dict Text Text) (l : Leaf)
    → outcome success skipped attrib ≡ ok l
    → l ≡ result (result_of success skipped attrib)
unfolding outcome
outcome_lem success skipped attrib l =
    ensures_bind (require (fits_call (keys attrib)) type_error)
      (λ done. ok (result (result_of success skipped attrib)))
      (λ l. l ≡ result (result_of success skipped attrib)) (λ done e l g. ground (arith, g)) l

-- What stands in a case that failed, and in one that was skipped.
abbrev pub is_failure : Elements → Bool
is_failure none_left = false
is_failure (first (element tag text attrib es) rest) =
    not (tag == codes "skipped") && (tag == codes "failure" || tag == codes "error")

abbrev pub is_skipped : Elements → Bool
is_skipped none_left = false
is_skipped (first (element tag text attrib es) rest) = tag == codes "skipped"

-- The result of a case is what stands in it.
pub case_leaf_lem :
    (es : Elements) (l : Leaf)
    → case_leaf es ≡ ok l
    → (attrib : Dict Text Text) × (l
        ≡ result (result_of (not (is_failure es)) (is_skipped es) attrib))
unfolding case_leaf
case_leaf_lem none_left l e = ([], outcome_lem true false [] l e)
case_leaf_lem (first e (first f es)) l h = absurd (ground arith)
case_leaf_lem (first (element tag text attrib es) none_left) l e =
    elim (Bool-cases (tag == codes "skipped")) [
      | inl s ↦ (attrib, rw s (outcome_lem true true attrib l (ground (arith, e, s))))
      | inr s ↦ elim (Bool-cases (tag == codes "failure" || tag == codes "error")) [
        | inl f ↦ (attrib, rw (s, f) (outcome_lem false false attrib l (ground (arith, e, s, f))))
        | inr f ↦ absurd (ground (arith, e, s, f))
      ]
    ]

failure-not_skipped : (es : Elements) → is_failure es ≡ true → is_skipped es ≡ false
failure-not_skipped none_left h = refl
failure-not_skipped (first (element tag text attrib es) rest) h = ground (arith, h)

case_leaf-IsRaw : (es : Elements) (l : Leaf) → case_leaf es ≡ ok l → IsRaw (leaf l)
unfolding IsRaw result_of
case_leaf-IsRaw es l e =
    let (attrib, same) = case_leaf_lem es l e in
    rw same (elim (Bool-cases (is_failure es)) [
      | inr good ↦ inl (ground (arith, good))
      | inl bad ↦ inr (failure-not_skipped es bad)
    ])

add_case-Keeps : (name : Text) (es : Elements) → Keeps (add_case name es)
unfolding add_case
add_case-Keeps name es t u h =
    ensures_bind (case_leaf es)
      (λ l. with_default (case_keys name).0 (add_new (case_keys name).1 l) t) IsRaw
      (λ l e v.
        with_default-Keeps (case_keys name).0 (add_new (case_keys name).1 l)
          (add_new-Keeps (case_keys name).1 l (case_leaf-IsRaw es l e)) t v h)
      u

at_path-Keeps :
    (path : List Text) (change : Tree → Result Tree) → Keeps change → Keeps (at_path path change)
unfolding at_path
at_path-Keeps [] change keeps = keeps
at_path-Keeps (name ∷ path) change keeps =
    with_default-Keeps (some name) (at_path path change) (at_path-Keeps path change keeps)

add_cases-Keeps : (cases : Elements) → Keeps (add_cases cases)
unfolding add_cases
add_cases-Keeps none_left t u h e = let same : t ≡ u = ground (arith, e) in rw (← same) h
add_cases-Keeps (first (element tag text attrib es) cases) t u h e =
    elim (Option-cases (get attrib (codes "name"))) [
      | inl f ↦ add_cases-Keeps cases t u h (ground (arith, e, f))
      | inr (name, f) ↦
          (ensures_bind (or_raise (get attrib (codes "classname")) key_error)
            (λ classname.
              at_path (split b'.' classname) (add_case name es) t >>= λ v. add_cases cases v)
            IsRaw
            (λ classname g.
              ensures_bind (at_path (split b'.' classname) (add_case name es) t)
                (λ v. add_cases cases v) IsRaw
                (λ v k x. add_cases-Keeps cases v x (
                  at_path-Keeps (split b'.' classname) (add_case name es) (add_case-Keeps name es) t
                    v h k)))
            u (ground (arith, e, f)))
    ]

-- The results of a file are raw.
pub read_file-IsRaw : (job : Element) (results : Tree) → read_file job ≡ ok results → IsRaw results
unfolding read_file IsRaw
read_file-IsRaw (element tag text attrib none_left) r e = absurd (ground arith)
read_file-IsRaw (element tag text attrib (first (element t x a cases) none_left)) r e =
    add_cases-Keeps cases (dict end) r tt e
read_file-IsRaw (element tag text attrib (first e (first f es))) r h = absurd (ground arith)
