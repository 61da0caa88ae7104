-- ===== src/Specifications/Names.antt =====
-- What is found by a name.
use irctest.Base.{
  ◌≡◌, ◌↔◌, refl, sym, ap, ◌∙◌, arith, inl, inr, some, List, [], ◌∷◌, Text, ◌==◌, list_eq, nat_eq,
  lower, upper, contains, eq_iff, Bool-cases, Option-cases, true,
}
use irctest.Result.{ok, value_error, or_raise}
use irctest.Specifications.{
  find, Specifications, specification_value, specifications, specification_from_name, Capabilities,
  capability_value, capabilities, capability_from_name, IsupportTokens, token_value,
  isupport_tokens, token_from_name, capabilities_eq, supports_cap, account_notify, account_tag,
  away_notify, batch, bot, echo_message, elist, ergo, extended_join, extended_monitor, invex,
  ircdocs, ircv3, labeled_response, message_redaction, message_tags, modern, monitor, multi_prefix,
  multiline, prefix, read_marker, rfc1459, rfc2812, sable, server_time, setname, statusmsg, sts,
  targmax, utf8only, whox,
}

-- A member that is found has the value.
find-value :
    {A : Type 0} (value : A → Text) (members : List A) (text : Text) (a : A)
    → find value members text ≡ some a
    → value a ≡ text
unfolding find
find-value value [] text a h = absurd (ground arith)
find-value value (b ∷ members) text a h = elim (Bool-cases (value b == text)) [
  | inl same ↦
      let equal : b ≡ a = ground (arith, h, same) in
      ap value (sym equal) ∙ (eq_iff (value b) text).0 same
  | inr differs ↦ find-value value members text a (ground (arith, h, differs))
]

-- Where every member is found by its value, the lookup of a text finds the member with that value.
lookup_iff :
    {A : Type 0} (value : A → Text) (members : List A)
    → ((a : A) → find value members (value a) ≡ some a)
    → (text : Text) (a : A)
    → (or_raise (find value members text) value_error ≡ ok a) ↔ (value a ≡ text)
lookup_iff value members found text a = (
  (λ h. elim (Option-cases (find value members text)) [
    | inl e ↦ absurd (ground arith)
    | inr (b, e) ↦ find-value value members text a (ground arith)
  ]),
  (λ h.
      ap (λ t. or_raise (find value members t) value_error) (sym h)
      ∙ ap (λ o. or_raise o value_error) (found a)),
)

specification_found :
    (a : Specifications)
    → find (λ t. upper (specification_value t)) specifications (upper (specification_value a))
      ≡ some a
unfolding find specification_value upper
specification_found rfc1459 = refl
specification_found rfc2812 = refl
specification_found ircv3 = refl
specification_found ergo = refl
specification_found sable = refl
specification_found ircdocs = refl
specification_found modern = refl

capability_found :
    (a : Capabilities) → find capability_value capabilities (capability_value a) ≡ some a
unfolding find capability_value
capability_found account_notify = refl
capability_found account_tag = refl
capability_found away_notify = refl
capability_found batch = refl
capability_found echo_message = refl
capability_found extended_join = refl
capability_found extended_monitor = refl
capability_found labeled_response = refl
capability_found message_redaction = refl
capability_found message_tags = refl
capability_found multiline = refl
capability_found read_marker = refl
capability_found multi_prefix = refl
capability_found server_time = refl
capability_found setname = refl
capability_found sts = refl

token_found : (a : IsupportTokens) → find token_value isupport_tokens (token_value a) ≡ some a
unfolding find token_value
token_found bot = refl
token_found elist = refl
token_found invex = refl
token_found prefix = refl
token_found monitor = refl
token_found statusmsg = refl
token_found targmax = refl
token_found utf8only = refl
token_found whox = refl

supports_cap_iff :
    (name : Text) (supported : List Capabilities)
    → (supports_cap supported name ≡ true)
      ↔ ((c : Capabilities) × (capability_value c ≡ name) × (contains supported c ≡ true))
unfolding supports_cap
supports_cap_iff name supported = (
  (λ h. elim (Option-cases (find capability_value capabilities name)) [
    | inl e ↦ absurd (ground arith)
    | inr (c, e) ↦ (c, find-value capability_value capabilities name c e, ground arith)
  ]),
  (λ (c, same, listed).
      let found : find capability_value capabilities name ≡ some c =
        ap (find capability_value capabilities) (sym same) ∙ capability_found c in
      rw (found, supports_cap) listed),
)

-- The lookup of a name finds a specification exactly if it is the value but for case, a capability
-- exactly if the name in lower case is its value, and a token exactly if the name in upper case is
-- its value; a controller supports a capability exactly if it is the value of one that it lists.
pub from_name_iff :
    (name : Text)
    → ((s : Specifications)
        → (specification_from_name name ≡ ok s) ↔ (upper (specification_value s) ≡ upper name))
      × ((c : Capabilities)
          → (capability_from_name name ≡ ok c) ↔ (capability_value c ≡ lower name))
      × ((t : IsupportTokens) → (token_from_name name ≡ ok t) ↔ (token_value t ≡ upper name))
      × ((supported : List Capabilities)
          → (supports_cap supported name ≡ true)
            ↔ ((c : Capabilities) × (capability_value c ≡ name) × (contains supported c ≡ true)))
unfolding specification_from_name capability_from_name token_from_name supports_cap
from_name_iff name = (
  lookup_iff (λ t. upper (specification_value t)) specifications specification_found (upper name),
  lookup_iff capability_value capabilities capability_found (lower name),
  lookup_iff token_value isupport_tokens token_found (upper name),
  supports_cap_iff name,
)
