-- ===== src/Capabilities.antt =====
-- `cap_list_to_dict` (`irctest/irc_utils/capabilities.py`).
use irctest.Base.{Option, none, some, List, [], ◌∷◌, Text, codes, nat_eq, list_eq, cut}
use irctest.Base.Dict.{Dict, insert}

-- One capability: it is cut at its first `=`, if it has one.
unfoldable pub add_cap : Dict Text (Option Text) → Text → Dict Text (Option Text)
unfolding cut insert list_eq nat_eq
add_cap d cap = elim (cut (codes "=") cap) [
  | some (key, value) ↦ insert key (some value) d
  | none ↦ insert cap none d
]

unfoldable pub add_caps : Dict Text (Option Text) → List Text → Dict Text (Option Text)
unfolding add_cap
add_caps d [] = d
add_caps d (cap ∷ caps) = add_caps (add_cap d cap) caps

unfoldable pub cap_list_to_dict : List Text → Dict Text (Option Text)
unfolding add_caps
cap_list_to_dict caps = add_caps [] caps
