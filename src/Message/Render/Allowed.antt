-- ===== src/Message/Render/Allowed.antt =====
-- A rendered line holds nothing that `parse_message` forbids.
use irctest.Base.{
  ℕ, ◌≡◌, refl, false, Option, none, some, List, [], ◌∷◌, map, Text, codes, arith, nat_eq, list_eq,
  join, All, All-append, All-join, Lacks, is,
}
use irctest.Message.Escape.RoundTrip.{escape_tag_value-IsTagSafe, IsTagSafe}
use irctest.Message.Tags.{Tags}
use irctest.Message.Parse.{Message, has_forbidden}
use irctest.Message.Render.{
  IsTag, IsAllowed, IsPrefix, IsCommand, IsWord, AreParams, IsWritable, render_tag, render_tags,
  render_prefix, render_params, render,
}

pub has_forbidden_none : (s : Text) → All IsAllowed s → has_forbidden s ≡ false
unfolding has_forbidden
has_forbidden_none [] h = refl
has_forbidden_none (c ∷ s) h = ground (arith, has_forbidden_none s h.1)

-- What the tags part may hold: no space, and nothing that ends the line.
abbrev IsTagsSafe : ℕ → Type 0
IsTagsSafe c = IsAllowed c × (is 32 c ≡ false)

IsTagsSafe-of_IsTagSafe : (w : Text) → All IsTagSafe w → All IsTagsSafe w
IsTagsSafe-of_IsTagSafe [] h = tt
IsTagsSafe-of_IsTagSafe (c ∷ w) h = (ground arith, IsTagsSafe-of_IsTagSafe w h.1)

IsTagsSafe-of_both : (w : Text) → Lacks (is 32) w → All IsAllowed w → All IsTagsSafe w
IsTagsSafe-of_both [] h k = tt
IsTagsSafe-of_both (c ∷ w) h k = ((k.0, h.0), IsTagsSafe-of_both w h.1 k.1)

render_tag-IsTagsSafe : (tag : Text × Option Text) → IsTag tag → All IsTagsSafe (render_tag tag)
render_tag-IsTagsSafe (key, none) h = IsTagsSafe-of_both key h.2 h.3
render_tag-IsTagsSafe (key, some value) h =
    All-append IsTagsSafe key _ (IsTagsSafe-of_both key h.0.2 h.0.3)
      (ground arith, IsTagsSafe-of_IsTagSafe _ (escape_tag_value-IsTagSafe value h.2))

map-render_tag-IsTagsSafe :
    (tags : Tags) → All IsTag tags → All (All IsTagsSafe) (map render_tag tags)
map-render_tag-IsTagsSafe [] h = tt
map-render_tag-IsTagsSafe (tag ∷ tags) h =
    (render_tag-IsTagsSafe tag h.0, map-render_tag-IsTagsSafe tags h.1)

IsAllowed-of_IsTagsSafe : (w : Text) → All IsTagsSafe w → All IsAllowed w × Lacks (is 32) w
IsAllowed-of_IsTagsSafe [] h = (tt, tt)
IsAllowed-of_IsTagsSafe (c ∷ w) h =
    ((h.0.0, (IsAllowed-of_IsTagsSafe w h.1).0), (h.0.1, (IsAllowed-of_IsTagsSafe w h.1).1))

tag_list-IsTagsSafe :
    (tags : Tags) → All IsTag tags → All IsTagsSafe (join (codes ";") (map render_tag tags))
tag_list-IsTagsSafe tags h =
    All-join IsTagsSafe (codes ";") (map render_tag tags) (ground arith)
      (map-render_tag-IsTagsSafe tags h)

pub tag_list-Lacks :
    (tags : Tags) → All IsTag tags → Lacks (is 32) (join (codes ";") (map render_tag tags))
tag_list-Lacks tags h = (IsAllowed-of_IsTagsSafe _ (tag_list-IsTagsSafe tags h)).1

render_tags-IsAllowed : (tags : Tags) → All IsTag tags → All IsAllowed (render_tags tags)
render_tags-IsAllowed [] h = tt
render_tags-IsAllowed (tag ∷ tags) h = (
  ground arith,
  All-append IsAllowed _ (codes " ")
      (IsAllowed-of_IsTagsSafe _ (tag_list-IsTagsSafe (tag ∷ tags) h)).0 (ground arith),
)

render_prefix-IsAllowed :
    (prefix : Option Text) → IsPrefix prefix → All IsAllowed (render_prefix prefix)
render_prefix-IsAllowed none h = tt
render_prefix-IsAllowed (some prefix) h =
    (ground arith, All-append IsAllowed prefix (codes " ") h.1 (ground arith))

IsWord-IsAllowed : (w : Text) → IsWord w → All IsAllowed w
IsWord-IsAllowed [] h = absurd h
IsWord-IsAllowed (c ∷ w) h = h.2

render_params-IsAllowed : (ps : List Text) → AreParams ps → All IsAllowed (render_params ps)
render_params-IsAllowed [] h = tt
render_params-IsAllowed (p ∷ []) h = (ground arith, (ground arith, h))
render_params-IsAllowed (p ∷ q ∷ ps) h = (
  ground arith,
  All-append IsAllowed p _ (IsWord-IsAllowed p h.0) (render_params-IsAllowed (q ∷ ps) h.1),
)

pub IsCommand-IsWord : (w : Text) → IsCommand w → IsWord w
IsCommand-IsWord [] h = absurd h
IsCommand-IsWord (c ∷ w) h = h.1

pub render-IsAllowed : (m : Message) → IsWritable m → All IsAllowed (render m)
render-IsAllowed m h =
    All-append IsAllowed (render_tags m.tags) _ (render_tags-IsAllowed m.tags h.tags) (
      All-append IsAllowed (render_prefix m.prefix) _ (render_prefix-IsAllowed m.prefix h.prefix) (
        All-append IsAllowed m.command _
          (IsWord-IsAllowed m.command (IsCommand-IsWord m.command h.command))
          (render_params-IsAllowed m.params h.params)))
