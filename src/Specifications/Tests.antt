-- ===== src/Specifications/Tests.antt =====
-- Names at concrete values.
use irctest.Base.{◌≡◌, ◌↔◌, refl, true, List, codes, contains, lower, upper, list_eq, nat_eq}
use irctest.Result.{ok, raised, value_error}
use irctest.Specifications.{
  Specifications, specification_value, specification_from_name, ircv3, Capabilities,
  capability_value, capability_from_name, IsupportTokens, token_value, token_from_name, whox,
  capabilities_eq, supports_cap,
}
use irctest.Specifications.Names.{from_name_iff}

any_case : specification_from_name (codes "ircV3") ≡ ok ircv3
unfolding specification_from_name list_eq nat_eq
any_case = refl

token_in_lower_case : token_from_name (codes "whox") ≡ ok whox
unfolding token_from_name list_eq nat_eq
token_in_lower_case = refl

unknown : capability_from_name (codes "ST") ≡ raised value_error
unfolding capability_from_name list_eq nat_eq
unknown = refl

from_name_iff_example :
    ((s : Specifications)
      → (specification_from_name (codes "STS") ≡ ok s)
        ↔ (upper (specification_value s) ≡ upper (codes "STS")))
    × ((c : Capabilities)
        → (capability_from_name (codes "STS") ≡ ok c) ↔ (capability_value c ≡ lower (codes "STS")))
    × ((t : IsupportTokens)
        → (token_from_name (codes "STS") ≡ ok t) ↔ (token_value t ≡ upper (codes "STS")))
    × ((supported : List Capabilities)
        → (supports_cap supported (codes "STS") ≡ true) ↔ (
            (c : Capabilities) × (capability_value c ≡ codes "STS")
            × (contains supported c ≡ true)))
from_name_iff_example = from_name_iff (codes "STS")
