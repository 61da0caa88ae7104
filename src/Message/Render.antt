-- ===== src/Message/Render.antt =====
-- An independent description of the syntax that `parse_message` reads: how a message is written as
-- a line, and which messages can be written.
pub mod Tokens
pub mod TagList
pub mod RoundTrip
pub mod Allowed
use irctest.Base.{
  ℕ, ◌≡◌, ◌≢◌, true, Option, none, some, List, [], ◌∷◌, ◌++◌, map, Text, codes, join, All, Lacks,
  is, list_eq, nat_eq,
}
use irctest.Base.Dict.{NodupKeys}
use irctest.Message.Escape.{escape_tag_value}
use irctest.Message.Tags.{Tags, valid_tag_key}
use irctest.Message.Parse.{Message}

abbrev pub render_tag : Text × Option Text → Text
render_tag (key, none) = key
render_tag (key, some value) = key ++ (codes "=" ++ escape_tag_value value)

abbrev pub render_tags : Tags → Text
render_tags [] = []
render_tags (tag ∷ tags) =
    codes "@" ++ (join (codes ";") (map render_tag (tag ∷ tags)) ++ codes " ")

abbrev pub render_prefix : Option Text → Text
render_prefix none = []
render_prefix (some prefix) = codes ":" ++ (prefix ++ codes " ")

-- The last parameter is always written as a trailing one.
abbrev pub render_params : List Text → Text
render_params [] = []
render_params (p ∷ []) = codes " :" ++ p
render_params (p ∷ q ∷ ps) = codes " " ++ (p ++ render_params (q ∷ ps))

abbrev pub render : Message → Text
render m = render_tags m.tags ++ (render_prefix m.prefix ++ (m.command ++ render_params m.params))

-- NUL, CR and LF end a line.
abbrev pub IsAllowed : ℕ → Type 0
IsAllowed c = (c ≢ 0) × (c ≢ 13) × (c ≢ 10)

-- A word that is not taken for a prefix or a trailing parameter.
abbrev pub IsWord : Text → Type 0
IsWord [] = ⊥
IsWord (c ∷ w) = (c ≢ 58) × Lacks (is 32) (c ∷ w) × All IsAllowed (c ∷ w)

-- With neither tags nor a prefix before it, a command that begins with `@` would be taken for tags.
abbrev pub IsCommand : Text → Type 0
IsCommand [] = ⊥
IsCommand (c ∷ w) = (c ≢ 64) × IsWord (c ∷ w)

abbrev pub AreParams : List Text → Type 0
AreParams [] = Unit {0}
AreParams (p ∷ []) = All IsAllowed p
AreParams (p ∷ q ∷ ps) = IsWord p × AreParams (q ∷ ps)

abbrev pub IsPrefix : Option Text → Type 0
IsPrefix none = Unit {0}
IsPrefix (some prefix) = Lacks (is 32) prefix × All IsAllowed prefix

-- A key has no `;`, `=` or space.
abbrev pub IsKey : Text → Type 0
IsKey key = Lacks (is 59) key × Lacks (is 61) key × Lacks (is 32) key × All IsAllowed key

-- The key of a tag with a value passes the validator.
abbrev pub IsTag : Text × Option Text → Type 0
IsTag (key, none) = IsKey key
IsTag (key, some value) = IsKey key × (valid_tag_key key ≡ true) × All (λ c. c ≢ 0) value

pub record IsWritable (m : Message) : Type 0 where
  pub tags : All IsTag m.tags
  pub distinct : NodupKeys m.tags
  pub prefix : IsPrefix m.prefix
  pub command : IsCommand m.command
  pub params : AreParams m.params
