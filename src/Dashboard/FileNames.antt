-- ===== src/Dashboard/FileNames.antt =====
pub mod Artifacts
-- The name of the job that a results file is of, by the expression in `iter_job_results`
-- (`irctest/dashboard/format.py`).
use irctest.Base.{
  ℕ, Bool, true, false, not, ◌&&◌, Option, none, some, List, [], ◌∷◌, Text, codes, ◌==◌, nat_eq,
  starts_with, strip_prefix, if◌then◌else◌,
}

-- Behind the first that is there, of some prefixes.
unfoldable pub strip_one : List Text → Text → Option Text
unfolding strip_prefix nat_eq
strip_one [] s = none
strip_one (p ∷ ps) s = elim (strip_prefix p s) [ none ↦ strip_one ps s | some rest ↦ some rest ]

-- `c?`
abbrev pub strip_optional : Text → Text → Text
strip_optional p s = elim (strip_prefix p s) [ none ↦ s | some rest ↦ rest ]

-- `[ _][(]?(stable|release|devel|devel_release)[)]?/pytest.xml(.gz)?`, of which the last part
-- matches always, and the dot any character but a newline.
abbrev pub is_xml_file : Text → Bool
is_xml_file s = elim (strip_prefix (codes "/pytest") (strip_optional (codes ")") s)) [
  | none ↦ false
  | some [] ↦ false
  | some (c ∷ rest) ↦ not (c == 10) && starts_with rest (codes "xml")
]

unfoldable pub any_flavor : List Text → Text → Bool
unfolding strip_prefix starts_with nat_eq
any_flavor [] s = false
any_flavor (flavor ∷ flavors) s = elim (strip_prefix flavor s) [
  | none ↦ any_flavor flavors s
  | some rest ↦ (if is_xml_file rest then true else any_flavor flavors s)
]

unfoldable pub is_flavor_part : Text → Bool
unfolding strip_one any_flavor
is_flavor_part s = elim (strip_one (codes " " ∷ codes "_" ∷ []) s) [
  | none ↦ false
  | some rest ↦
      any_flavor (codes "stable" ∷ codes "release" ∷ codes "devel" ∷ codes "devel_release" ∷ [])
        (strip_optional (codes "(") rest)
]

-- `(?P<name>.*)`, the longest with the flavor behind it.
unfoldable pub longest_name : Text → Option Text
unfolding is_flavor_part nat_eq
longest_name [] = none
longest_name (c ∷ s) = elim (if c == 10 then none else longest_name s) [
  | some name ↦ some (c ∷ name)
  | none ↦ (if is_flavor_part (c ∷ s) then some [] else none)
]

-- The expression from `pytest` on.
unfoldable pub name_here : Text → Option Text
unfolding strip_one longest_name strip_prefix nat_eq
name_here s = elim (strip_prefix (codes "pytest") s) [
  | none ↦ none
  | some t ↦ elim (strip_one (codes " " ∷ codes "-" ∷ []) t) [
    | none ↦ none
    | some u ↦ elim (strip_prefix (codes "results") u) [
      | none ↦ none
      | some v ↦ elim (strip_one (codes " " ∷ codes "_" ∷ []) v) [
        | none ↦ none
        | some w ↦ longest_name w
      ]
    ]
  ]
]

-- `(.*/)?`: the longest directory comes first.
unfoldable pub name_behind : Text → Option Text
unfolding name_here
name_behind [] = none
name_behind (c ∷ s) = elim (if c == 10 then none else name_behind s) [
  | some name ↦ some name
  | none ↦ (if c == b'/' then name_here s else none)
]

-- The job that a results file is of.
unfoldable pub job_name : Text → Option Text
unfolding name_behind name_here
job_name file = elim (name_behind file) [ none ↦ name_here file | some name ↦ some name ]
