-- ===== src/Dashboard/Xml/Flat.antt =====
-- What `_append_child` makes of arguments, however they are nested.
use irctest.Base.{
  ◌≡◌, refl, ap, ◌∙◌, inl, inr, Bool, true, false, ◌||◌, Option, [], ◌∷◌, ◌++◌, Text, Bool-cases,
  list_eq, nat_eq, if◌then◌else◌,
}
use irctest.Base.Dict.{Dict, insert}
use irctest.Result.{Result, ok, raised, value_error}
use irctest.Dashboard.Xml.{
  Element, element, Elements, none_left, first, Child, nothing, attributes, node, string, items,
  Children, end, child, add_element, namespacify, set_attributes, append_child, append_children,
}

abbrev pub add_elements : Elements → Elements → Elements
add_elements none_left fs = fs
add_elements (first e es) fs = first e (add_elements es fs)

-- The attributes, the elements, and whether there is a string, in any depth.
unfoldable mutual
  pub attributes_in : Child → Dict Text Text
  attributes_in nothing = []
  attributes_in (attributes d) = d
  attributes_in (node e) = []
  attributes_in (string s) = []
  attributes_in (items cs) = attributes_of cs

  pub attributes_of : Children → Dict Text Text
  attributes_of end = []
  attributes_of (child c cs) = attributes_in c ++ attributes_of cs

unfoldable mutual
  pub elements_in : Child → Elements
  elements_in nothing = none_left
  elements_in (attributes d) = none_left
  elements_in (node e) = first e none_left
  elements_in (string s) = none_left
  elements_in (items cs) = elements_of cs

  pub elements_of : Children → Elements
  elements_of end = none_left
  elements_of (child c cs) = add_elements (elements_in c) (elements_of cs)

unfoldable mutual
  pub is_mixed : Child → Bool
  is_mixed nothing = false
  is_mixed (attributes d) = false
  is_mixed (node e) = false
  is_mixed (string s) = true
  is_mixed (items cs) = are_mixed cs

  pub are_mixed : Children → Bool
  are_mixed end = false
  are_mixed (child c cs) = is_mixed c || are_mixed cs

pub add_element-add_elements :
    (es : Elements) (e : Element) → add_element es e ≡ add_elements es (first e none_left)
unfolding add_element
add_element-add_elements none_left e = refl
add_element-add_elements (first f es) e = ap (first f) (add_element-add_elements es e)

pub add_elements_assoc :
    (es fs gs : Elements)
    → add_elements (add_elements es fs) gs ≡ add_elements es (add_elements fs gs)
add_elements_assoc none_left fs gs = refl
add_elements_assoc (first e es) fs gs = ap (first e) (add_elements_assoc es fs gs)

pub add_elements-none_left : (es : Elements) → add_elements es none_left ≡ es
add_elements-none_left none_left = refl
add_elements-none_left (first e es) = ap (first e) (add_elements-none_left es)

set_attributes-append :
    (ns : Text) (a b c : Dict Text Text)
    → set_attributes ns a (b ++ c) ≡ set_attributes ns (set_attributes ns a b) c
unfolding set_attributes
set_attributes-append ns a [] c = refl
set_attributes-append ns a ((k, v) ∷ b) c =
    set_attributes-append ns (insert (namespacify ns k) v a) b c

-- What is expected of a call on an element.
abbrev pub appended :
    Text
    → Text
    → Option Text
    → Dict Text Text
    → Elements
    → Bool
    → Dict Text Text
    → Elements
    → Result Element
appended ns tag text old es mixed new fs =
    if mixed
    then raised value_error
    else ok (element tag text (set_attributes ns old new) (add_elements es fs))

module _ (ns : Text) (tag : Text) (text : Option Text) where
  mutual
    unfolding append_child attributes_in elements_in is_mixed set_attributes

    append_child-flat :
        (old : Dict Text Text) (es : Elements) (c : Child)
        → append_child ns (element tag text old es) c
          ≡ appended ns tag text old es (is_mixed c) (attributes_in c) (elements_in c)
    append_child-flat old es nothing = rw add_elements-none_left
    append_child-flat old es (attributes d) = rw add_elements-none_left
    append_child-flat old es (node e) = rw add_element-add_elements
    append_child-flat old es (string s) = refl
    append_child-flat old es (items cs) = append_children-flat old es cs

    append_children-flat :
        (old : Dict Text Text) (es : Elements) (cs : Children)
        → append_children ns (element tag text old es) cs
          ≡ appended ns tag text old es (are_mixed cs) (attributes_of cs) (elements_of cs)
    append_children-flat old es end = rw add_elements-none_left
    append_children-flat old es (child c cs) =
        rw (append_child-flat old es c) (elim (Bool-cases (is_mixed c)) [
          | inl e ↦ rw e
          | inr e ↦ rw e (
              append_children-flat (set_attributes ns old (attributes_in c))
                (add_elements es (elements_in c)) cs
              ∙ rw (
                set_attributes-append ns old (attributes_in c) (attributes_of cs),
                add_elements_assoc es (elements_in c) (elements_of cs),
              ))
        ])

  -- However the arguments are nested in sequences, they are refused if there is a string among them,
  -- and otherwise all attributes are set, in order, and all elements are appended, in order.
  pub append_children-nested :
      (old : Dict Text Text) (es : Elements) (cs : Children)
      → append_children ns (element tag text old es) cs ≡ (
          if are_mixed cs
          then raised value_error
          else ok (
              element tag text
                (set_attributes ns old (attributes_of cs))
                (add_elements es (elements_of cs))))
  append_children-nested old es cs = append_children-flat old es cs
