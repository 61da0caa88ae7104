-- ===== src/Report/Format.antt =====
-- `format_results` of `report.py`, and the text that `main` prints of a file.
use irctest.Base.{
  ℕ, Bool, true, false, not, ◌&&◌, Option, none, some, List, [], ◌∷◌, ◌++◌, Text, codes, ◌==◌,
  nat_eq, list_eq, contains, cut, is_space, if◌then◌else◌,
}
use irctest.Base.Decimal.{decimal}
use irctest.Result.{Result, ok, raised, assertion_error, ◌>>◌, require}
use irctest.Report.{CompactedResult, Leaf, result, compacted, Tree, visit_bottomup, key_text}

-- Where `str.splitlines` ends a line, a CR before a LF aside.
abbrev pub is_line_end : ℕ → Bool
is_line_end c = contains (10 ∷ 11 ∷ 12 ∷ 13 ∷ 28 ∷ 29 ∷ 30 ∷ 133 ∷ 8232 ∷ 8233 ∷ []) c

abbrev pub starts_newline : Text → Bool
starts_newline [] = false
starts_newline (c ∷ s) = c == 10

abbrev pub extend : ℕ → List Text → List Text
extend c [] = (c ∷ []) ∷ []
extend c (line ∷ lines) = (c ∷ line) ∷ lines

-- `s.splitlines(True)`
unfoldable pub keep_lines : Text → List Text
unfolding nat_eq
keep_lines [] = []
keep_lines (c ∷ s) =
    let rest = keep_lines s in
    if is_line_end c && not (c == 13 && starts_newline s) then (c ∷ []) ∷ rest else extend c rest

unfoldable pub is_blank : Text → Bool
unfolding is_space
is_blank [] = true
is_blank (c ∷ s) = is_space c && is_blank s

-- `textwrap.indent`: a prefix for each line that is not blank.
unfoldable pub indent_lines : Text → List Text → Text
unfolding is_blank
indent_lines prefix [] = []
indent_lines prefix (line ∷ lines) =
    (if is_blank line then line else prefix ++ line) ++ indent_lines prefix lines

abbrev pub indent : Text → Text → Text
indent prefix s = indent_lines prefix (keep_lines s)

abbrev pub item_text : Option Text × Text → Text
item_text (k, v) = codes "<li>" ++ (key_text k ++ (codes ": " ++ (v ++ codes "</li>")))

abbrev pub join_items : List (Option Text × Text) → Text
join_items [] = []
join_items (e ∷ []) = item_text e
join_items (e ∷ f ∷ es) = item_text e ++ (10 ∷ join_items (f ∷ es))

-- `format_results` of a dict, whose values are texts by now, and of the rest.
unfoldable pub format_dict : List (Option Text × Text) → Text
unfolding keep_lines indent_lines
format_dict d = codes "\n<ul>\n" ++ (indent (codes "  ") (join_items d) ++ codes "\n</ul>")

abbrev pub reasons : List Text → Text
reasons [] = []
reasons (msg ∷ msgs) = codes "<li>" ++ (msg ++ (codes "</li>" ++ reasons msgs))

-- The signs before a space.
abbrev pub check_mark : Text
check_mark = 10004 ∷ 65039 ∷ 32 ∷ []

abbrev pub cross_mark : Text
cross_mark = 10060 ∷ 32 ∷ []

unfoldable pub success_text : CompactedResult → Text
unfolding decimal
success_text c = check_mark ++ (decimal c.count ++ codes " successful")

unfoldable pub skipped_text : CompactedResult → Text
unfolding success_text
skipped_text c = success_text c ++ (codes " (" ++ (decimal c.nb_skipped ++ codes " skipped)"))

unfoldable pub failure_text : CompactedResult → Text
unfolding decimal
failure_text c =
    cross_mark
    ++ (decimal c.count ++ (codes " failed:\n<ul>" ++ (reasons c.messages ++ codes "</ul>")))

unfoldable pub format_leaf : Leaf → Result Text
unfolding success_text skipped_text failure_text nat_eq
format_leaf (compacted c) =
    if c.success
    then ok (if c.nb_skipped == 0 then success_text c else skipped_text c)
    else (require (c.nb_skipped == 0) assertion_error >> ok (failure_text c))
format_leaf (result r) = raised assertion_error

-- `visit_bottomup(format_results, results)`
unfoldable pub format_tree : Tree → Result Text
unfolding visit_bottomup format_dict format_leaf
format_tree t = visit_bottomup (λ d. ok (format_dict d)) format_leaf t

-- What is printed of a file.
unfoldable pub print_file : Text → Text → Text
unfolding cut
print_file filename text = elim (cut (codes "\n") text) [
  | none ↦ codes "<li>" ++ (filename ++ (codes ": " ++ (text ++ codes "</li>")))
  | some (summary, details) ↦
      codes "<li>\n  <details>\n    <summary>"
      ++ (filename
          ++ (codes ": "
              ++ (summary
                  ++ (codes "</summary>\n    " ++ (details ++ codes "\n  </details>\n</li>")))))
]
