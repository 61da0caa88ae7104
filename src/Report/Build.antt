-- ===== src/Report/Build.antt =====
-- `main` of `report.py`: the loop over the cases of a parsed file, and the report of a file.
pub mod Kept
pub mod Counted
use irctest.Base.{
  ℕ, Bool, true, false, not, ◌&&◌, ◌||◌, Option, none, some, List, [], ◌∷◌, ◌++◌, Text, codes, ◌==◌,
  nat_eq, list_eq, option_eq, contains, split, if◌then◌else◌,
}
use irctest.Base.Dict.{Dict, get, insert, keys}
use irctest.Result.{
  Result, ok, raised, value_error, key_error, attribute_error, assertion_error, type_error, ◌>>=◌,
  ◌>>◌, require, or_raise,
}
use irctest.Dashboard.Xml.{Element, element, Elements, none_left, first}
use irctest.Report.{
  CaseResult, Leaf, result, Tree, leaf, dict, Branches, end, Items, items, branches, compact,
}
use irctest.Report.Format.{format_tree, print_file}

-- `**case_result.attrib`: a key that is not a parameter, or one that is given already, is an error.
unfoldable pub fits_call : List Text → Bool
unfolding list_eq nat_eq
fits_call [] = true
fits_call (k ∷ ks) = (k == codes "type" || k == codes "message") && fits_call ks

unfoldable pub result_of : Bool → Bool → Dict Text Text → CaseResult
unfolding get list_eq nat_eq
result_of success skipped attrib = record {
  success = success;
  skipped = skipped;
  type = get attrib (codes "type");
  message = get attrib (codes "message");
}

unfoldable pub outcome : Bool → Bool → Dict Text Text → Result Leaf
unfolding fits_call keys result_of
outcome success skipped attrib =
    require (fits_call (keys attrib)) type_error >> ok (result (result_of success skipped attrib))

-- The `leaf` of a case, of what stands in it.
unfoldable pub case_leaf : Elements → Result Leaf
unfolding outcome list_eq nat_eq
case_leaf none_left = outcome true false []
case_leaf (first (element tag text attrib es) none_left) =
    if tag == codes "skipped"
    then outcome true true attrib
    else if tag == codes "failure" || tag == codes "error"
    then outcome false false attrib
    else raised assertion_error
case_leaf (first e (first f es)) = raised value_error

-- `.*\]$`, with nothing behind but a newline at the end.
unfoldable pub closes : Text → Bool
unfolding nat_eq
closes [] = false
closes (c ∷ []) = c == b']'
closes (c ∷ d ∷ []) = (c == b']' && d == 10) || (not (c == 10) && d == b']')
closes (c ∷ d ∷ e ∷ s) = not (c == 10) && closes (d ∷ e ∷ s)

-- Up to a newline at the end.
unfoldable pub before_end : Text → Text
unfolding nat_eq
before_end [] = []
before_end (c ∷ []) = if c == 10 then [] else c ∷ []
before_end (c ∷ d ∷ s) = c ∷ before_end (d ∷ s)

-- The match of `^(?P<name>.*?)(?P<param>\[.*\])$`, whose name is as short as can be.
unfoldable pub split_param : Text → Option (Text × Text)
unfolding closes before_end nat_eq
split_param [] = none
split_param (c ∷ s) = elim (c == b'[' && closes s) [
  | true ↦ some ([], c ∷ before_end s)
  | false ↦ elim (c == 10) [
    | true ↦ none
    | false ↦ elim (split_param s) [ none ↦ none | some (name, param) ↦ some (c ∷ name, param) ]
  ]
]

-- The two keys of a case.
unfoldable pub case_keys : Text → Option Text × Option Text
unfolding split_param
case_keys name = elim (split_param name) [
  | some (front, param) ↦ (some front, some param)
  | none ↦ (some name, none)
]

abbrev pub found : Option Tree → Tree
found none = dict end
found (some t) = t

-- `setdefault(k, {})` of a dict, and a change of what it gives.
unfoldable pub with_default : Option Text → (Tree → Result Tree) → Tree → Result Tree
unfolding get insert option_eq list_eq nat_eq
with_default k change (leaf l) = raised attribute_error
with_default k change (dict bs) =
    change (found (get (items bs) k)) >>= λ t. ok (dict (branches (insert k t (items bs))))

-- `assert k not in d`, and `d[k] = l`.
unfoldable pub add_new : Option Text → Leaf → Tree → Result Tree
unfolding get insert option_eq list_eq nat_eq
add_new k l (leaf r) = raised type_error
add_new k l (dict bs) = elim (get (items bs) k) [
  | some t ↦ raised assertion_error
  | none ↦ ok (dict (branches (insert k (leaf l) (items bs))))
]

-- What is done with `class_results`: the leaf is made first.
unfoldable pub add_case : Text → Elements → Tree → Result Tree
unfolding case_leaf case_keys with_default add_new
add_case name es class_results = case_leaf es >>= λ l.
    with_default (case_keys name).0 (add_new (case_keys name).1 l) class_results

-- The `reduce` over the path, and a change of what is at its end.
unfoldable pub at_path : List Text → (Tree → Result Tree) → Tree → Result Tree
unfolding with_default
at_path [] change t = change t
at_path (name ∷ path) change t = with_default (some name) (at_path path change) t

unfoldable pub add_cases : Elements → Tree → Result Tree
unfolding at_path add_case get split list_eq nat_eq
add_cases none_left results = ok results
add_cases (first (element tag text attrib es) cases) results = elim (get attrib (codes "name")) [
  | none ↦ add_cases cases results
  | some name ↦ or_raise (get attrib (codes "classname")) key_error >>= λ classname.
      at_path (split b'.' classname) (add_case name es) results >>= λ results'.
      add_cases cases results'
]

-- The results of a file, which is parsed.
unfoldable pub read_file : Element → Result Tree
unfolding add_cases
read_file (element tag text attrib (first (element t x a cases) none_left)) =
    add_cases cases (dict end)
read_file job = raised value_error

unfoldable pub file_report : Text → Element → Result Text
unfolding read_file compact format_tree print_file
file_report filename job = read_file job >>= λ results. compact results >>= λ compacted.
    format_tree compacted >>= λ formatted. ok (print_file filename formatted)

-- What is printed: files that come parsed.
unfoldable pub file_reports : List (Text × Element) → Result (List Text)
unfolding file_report
file_reports [] = ok []
file_reports ((filename, job) ∷ files) =
    file_report filename job >>= λ r. file_reports files >>= λ rs. ok (r ∷ rs)

unfoldable pub print_all : List (Text × Element) → Result (List Text)
unfolding file_reports
print_all files = file_reports files >>= λ rs. ok (codes "<ul>" ∷ (rs ++ (codes "</ul>" ∷ [])))
