-- ===== src/Message/Render/RoundTrip.antt =====
-- `parse_message` reads back every message that can be written.
use irctest.Base.{
  ◌≡◌, refl, false, Option, none, some, List, [], ◌∷◌, ◌++◌, append_assoc, map, Text, codes, arith,
  nat_eq, list_eq, cut, cut-append, join, starts_with, All,
}
use irctest.Base.Dict.{NodupKeys}
use irctest.Result.{ok}
use irctest.Message.Tags.{Tags}
use irctest.Message.Parse.{Message, parse_message, read_tags, tokens, pop_prefix}
use irctest.Message.Render.{
  IsTag, IsPrefix, IsCommand, AreParams, IsWritable, render_tag, render_tags, render_prefix,
  render_params, render,
}
use irctest.Message.Render.Tokens.{
  tokens-append, tokens-render_params, IsToken-of_IsWord, IsMiddle-of_IsWord,
}
use irctest.Message.Render.TagList.{parse_tags-render_tag}
use irctest.Message.Render.Allowed.{
  has_forbidden_none, render-IsAllowed, tag_list-Lacks, IsCommand-IsWord,
}

-- The line behind its tags.
abbrev body : Message → Text
body m = render_prefix m.prefix ++ (m.command ++ render_params m.params)

body_no_tags :
    (prefix : Option Text) (command rest : Text)
    → IsCommand command
    → starts_with (render_prefix prefix ++ (command ++ rest)) (codes "@") ≡ false
unfolding starts_with
body_no_tags (some prefix) command rest h = refl
body_no_tags none [] rest h = absurd h
body_no_tags none (c ∷ command) rest h = ground arith

-- The tags part ends at its first space.
cut-render_tags :
    (tag : Text × Option Text) (tags : Tags) (rest : Text)
    → All IsTag (tag ∷ tags)
    → cut (codes " ") (render_tags (tag ∷ tags) ++ rest)
      ≡ some (codes "@" ++ join (codes ";") (map render_tag (tag ∷ tags)), rest)
cut-render_tags tag tags rest t =
    rw (append_assoc (join (codes ";") (map render_tag (tag ∷ tags))) (codes " ") rest) (
      cut-append 32 (codes "@" ++ join (codes ";") (map render_tag (tag ∷ tags))) rest
        (ground arith, tag_list-Lacks (tag ∷ tags) t))

read_tags-render_tags :
    (tags : Tags) (rest : Text)
    → All IsTag tags
    → NodupKeys tags
    → starts_with rest (codes "@") ≡ false
    → read_tags (render_tags tags ++ rest) ≡ ok (tags, rest)
unfolding read_tags
read_tags-render_tags [] rest t u h = rw h
read_tags-render_tags (tag ∷ tags) rest t u h =
    unfold starts_with in
    ground (arith, cut-render_tags tag tags rest t, parse_tags-render_tag tag tags t u)

pop_prefix-tokens :
    (prefix : Option Text) (command : Text) (params : List Text)
    → IsPrefix prefix
    → IsCommand command
    → AreParams params
    → pop_prefix (tokens (render_prefix prefix ++ (command ++ render_params params)))
      ≡ ok (prefix, command ∷ params)
unfolding pop_prefix starts_with
pop_prefix-tokens none [] params h k l = absurd k
pop_prefix-tokens none (c ∷ command) params h k l =
    rw (tokens-render_params (c ∷ command) params (IsToken-of_IsWord (c ∷ command) k.1) l)
      (ground arith)
pop_prefix-tokens (some prefix) command params h k l = rw (
  append_assoc prefix (codes " ") (command ++ render_params params),
  tokens-append (58 ∷ prefix) (command ++ render_params params) (λ e. cc, (ground arith, h.0))
      (IsMiddle-of_IsWord command _ (IsCommand-IsWord command k)),
  tokens-render_params command params (IsToken-of_IsWord command (IsCommand-IsWord command k)) l,
)

-- Every writable message is read back from the line that it is written as.
pub parse_message-render : (m : Message) → IsWritable m → parse_message (render m) ≡ ok m
unfolding parse_message
parse_message-render m h = rw (
  has_forbidden_none (render m) (render-IsAllowed m h),
  read_tags-render_tags m.tags (body m) h.tags h.distinct
      (body_no_tags m.prefix m.command (render_params m.params) h.command),
  pop_prefix-tokens m.prefix m.command m.params h.prefix h.command h.params,
)
