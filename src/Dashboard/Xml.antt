-- ===== src/Dashboard/Xml.antt =====
-- `shortxml.py`: elements, made by calls of an `ElementFactory`.
pub mod Flat
use irctest.Base.{
  Bool, true, false, Option, none, some, List, [], ◌∷◌, ◌++◌, Text, codes, ◌==◌, list_eq, nat_eq,
  if◌then◌else◌,
}
use irctest.Base.Dict.{Dict, insert}
use irctest.Result.{Result, ok, raised, value_error, ◌>>=◌}

-- An element: its tag, its text, its attributes and its children.
mutual
  pub data Element : Type 0 where
    element : Text → Option Text → Dict Text Text → Elements → Element

  pub data Elements : Type 0 where
    none_left : Elements
    first : Element → Elements → Elements

-- What a call takes: `None`, a dict, an element, a string, or a sequence of such.
mutual
  pub data Child : Type 0 where
    nothing : Child
    attributes : Dict Text Text → Child
    node : Element → Child
    string : Text → Child
    items : Children → Child

  pub data Children : Type 0 where
    end : Children
    child : Child → Children → Children

unfoldable pub add_element : Elements → Element → Elements
add_element none_left e = first e none_left
add_element (first f es) e = first f (add_element es e)

-- `_namespacify`
unfoldable pub namespacify : Text → Text → Text
namespacify ns s = codes "{" ++ (ns ++ (codes "}" ++ s))

unfoldable pub set_attributes : Text → Dict Text Text → Dict Text Text → Dict Text Text
unfolding namespacify insert list_eq nat_eq
set_attributes ns old [] = old
set_attributes ns old ((k, v) ∷ new) = set_attributes ns (insert (namespacify ns k) v old) new

-- `_append_child`, and its loop over a sequence.
unfoldable mutual
  unfolding set_attributes add_element

  pub append_child : Text → Element → Child → Result Element
  append_child ns e nothing = ok e
  append_child ns (element tag text old es) (attributes new) =
      ok (element tag text (set_attributes ns old new) es)
  append_child ns (element tag text old es) (node e) = ok (element tag text old (add_element es e))
  append_child ns e (string s) = raised value_error
  append_child ns e (items cs) = append_children ns e cs

  pub append_children : Text → Element → Children → Result Element
  append_children ns e end = ok e
  append_children ns e (child c cs) = append_child ns e c >>= λ e'. append_children ns e' cs

-- `k.rstrip("_")`
unfoldable pub strip_underscores : Text → Text
unfolding nat_eq
strip_underscores [] = []
strip_underscores (c ∷ s) = elim (strip_underscores s) [
  | [] ↦ (if c == b'_' then [] else c ∷ [])
  | d ∷ t ↦ c ∷ d ∷ t
]

-- `{k.rstrip("_"): v for (k, v) in kwargs.items()}`, added to a dict.
unfoldable pub attribute_names : Dict Text Text → Dict Text Text → Dict Text Text
unfolding strip_underscores insert list_eq nat_eq
attribute_names names [] = names
attribute_names names ((k, v) ∷ kwargs) =
    attribute_names (insert (strip_underscores k) v names) kwargs

-- `__call__`: a first argument that is a string is the text.
unfoldable pub make : Text → Text → Children → Dict Text Text → Result Element
unfolding append_child attribute_names namespacify
make ns tag (child (string s) args) kwargs =
    append_children ns (element (namespacify ns tag) (some s) [] none_left) args >>= λ e.
    append_child ns e (attributes (attribute_names [] kwargs))
make ns tag args kwargs =
    append_children ns (element (namespacify ns tag) none [] none_left) args >>= λ e.
    append_child ns e (attributes (attribute_names [] kwargs))
