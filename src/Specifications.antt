-- ===== src/Specifications.antt =====
-- `irctest/specifications.py`: the specifications, capabilities and tokens that tests are marked
-- with, and their lookup by name.
pub mod Names
mod Tests
use irctest.Base.{
  Eq, contains, Bool, true, false, Option, none, some, List, [], ◌∷◌, Text, codes, ◌==◌, list_eq,
  nat_eq, lower, upper, if◌then◌else◌,
}
use irctest.Result.{Result, ok, raised, value_error, or_raise}

-- The first member of an enumeration with the value.
unfoldable pub find : {A : Type 0} → (A → Text) → List A → Text → Option A
unfolding list_eq nat_eq
find value [] text = none
find value (a ∷ members) text =
    let later = find value members text in if value a == text then some a else later

pub data Specifications : Type 0 where
  rfc1459 rfc2812 ircv3 ergo sable ircdocs modern : Specifications

unfoldable pub specification_value : Specifications → Text
specification_value rfc1459 = codes "RFC1459"
specification_value rfc2812 = codes "RFC2812"
specification_value ircv3 = codes "IRCv3"
specification_value ergo = codes "Ergo"
specification_value sable = codes "Sable"
specification_value ircdocs = codes "ircdocs"
specification_value modern = codes "modern"

abbrev pub specifications : List Specifications
specifications = rfc1459 ∷ rfc2812 ∷ ircv3 ∷ ergo ∷ sable ∷ ircdocs ∷ modern ∷ []

-- `Specifications.from_name`
unfoldable pub specification_from_name : Text → Result Specifications
unfolding find specification_value upper
specification_from_name name =
    or_raise (find (λ spec. upper (specification_value spec)) specifications (upper name))
      value_error

unfoldable pub is_implementation_specific : Specifications → Bool
is_implementation_specific ergo = true
is_implementation_specific sable = true
is_implementation_specific spec = false

pub data Capabilities : Type 0 where
  account_notify account_tag away_notify batch echo_message extended_join extended_monitor
        labeled_response message_redaction message_tags multiline read_marker multi_prefix
        server_time setname sts :
      Capabilities

unfoldable pub capability_value : Capabilities → Text
capability_value account_notify = codes "account-notify"
capability_value account_tag = codes "account-tag"
capability_value away_notify = codes "away-notify"
capability_value batch = codes "batch"
capability_value echo_message = codes "echo-message"
capability_value extended_join = codes "extended-join"
capability_value extended_monitor = codes "extended-monitor"
capability_value labeled_response = codes "labeled-response"
capability_value message_redaction = codes "draft/message-redaction"
capability_value message_tags = codes "message-tags"
capability_value multiline = codes "draft/multiline"
capability_value read_marker = codes "draft/read-marker"
capability_value multi_prefix = codes "multi-prefix"
capability_value server_time = codes "server-time"
capability_value setname = codes "setname"
capability_value sts = codes "sts"

abbrev pub capabilities : List Capabilities
capabilities =
    account_notify ∷ account_tag ∷ away_notify ∷ batch ∷ echo_message ∷ extended_join
    ∷ extended_monitor ∷ labeled_response ∷ message_redaction ∷ message_tags ∷ multiline
    ∷ read_marker ∷ multi_prefix ∷ server_time ∷ setname ∷ sts ∷ []

-- `Capabilities.from_name`
unfoldable pub capability_from_name : Text → Result Capabilities
unfolding find capability_value lower
capability_from_name name = or_raise (find capability_value capabilities (lower name)) value_error

pub data IsupportTokens : Type 0 where
  bot elist invex prefix monitor statusmsg targmax utf8only whox : IsupportTokens

unfoldable pub token_value : IsupportTokens → Text
token_value bot = codes "BOT"
token_value elist = codes "ELIST"
token_value invex = codes "INVEX"
token_value prefix = codes "PREFIX"
token_value monitor = codes "MONITOR"
token_value statusmsg = codes "STATUSMSG"
token_value targmax = codes "TARGMAX"
token_value utf8only = codes "UTF8ONLY"
token_value whox = codes "WHOX"

abbrev pub isupport_tokens : List IsupportTokens
isupport_tokens =
    bot ∷ elist ∷ invex ∷ prefix ∷ monitor ∷ statusmsg ∷ targmax ∷ utf8only ∷ whox ∷ []

-- `IsupportTokens.from_name`
unfoldable pub token_from_name : Text → Result IsupportTokens
unfolding find token_value upper
token_from_name name = or_raise (find token_value isupport_tokens (upper name)) value_error

capabilities_discrete : Discrete Capabilities
capabilities_discrete = hlevel

instance unfoldable pub capabilities_eq : Eq Capabilities
unfolding capabilities_discrete
capabilities_eq = record { dec = capabilities_discrete }

-- `supports_cap` of `BaseServerController` (`irctest/basecontrollers.py`), with the capabilities of
-- the controller.
unfoldable pub supports_cap : List Capabilities → Text → Bool
unfolding find capability_value capabilities_eq
supports_cap supported capability = elim (find capability_value capabilities capability) [
  | none ↦ false
  | some cap ↦ contains supported cap
]
