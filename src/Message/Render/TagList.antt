-- ===== src/Message/Render/TagList.antt =====
-- `parse_tags` reads rendered tags.
use irctest.Base.{
  ◌≡◌, ◌∙◌, Option, none, some, [], ◌∷◌, ◌++◌, append-nil, append_assoc, map, Text, codes, arith,
  nat_eq, list_eq, split, join, split_by-join, cut-append, cut-none, All, All-append, Lacks, is,
}
use irctest.Base.Dict.{insert, insert_fresh, NodupKeys, get_before}
use irctest.Result.{ok}
use irctest.Message.Escape.{escape_tag_value}
use irctest.Message.Escape.RoundTrip.{
  unescape_tag_value-escape_tag_value, escape_tag_value-IsTagSafe, IsTagSafe,
}
use irctest.Message.Tags.{Tags, add_tag, add_tags, parse_tags}
use irctest.Message.Render.{IsTag, render_tag}

add_tag-render_tag :
    (key : Text) (value : Option Text) (tags : Tags)
    → IsTag (key, value)
    → add_tag (render_tag (key, value)) tags ≡ ok (insert key value tags)
unfolding add_tag
add_tag-render_tag key none tags h = ground (arith, cut-none 61 key h.1)
add_tag-render_tag key (some value) tags h = ground (
  arith,
  cut-append 61 key (escape_tag_value value) h.0.1,
  unescape_tag_value-escape_tag_value value,
)

-- Tags with distinct keys are added in order.
add_tags-render_tag :
    (tags acc : Tags)
    → All IsTag tags
    → NodupKeys (acc ++ tags)
    → add_tags (map render_tag tags) acc ≡ ok (acc ++ tags)
unfolding add_tags
add_tags-render_tag [] acc h u = rw append-nil
add_tags-render_tag ((key, value) ∷ tags) acc h u =
    rw
      (
        add_tag-render_tag key value acc h.0,
        insert_fresh key value acc (get_before acc tags key value u),
      )
      (add_tags-render_tag tags (acc ++ ((key, value) ∷ [])) h.1 (rw append_assoc u)
        ∙ rw append_assoc)

Lacks-of_IsTagSafe : (w : Text) → All IsTagSafe w → Lacks (is 59) w
Lacks-of_IsTagSafe [] h = tt
Lacks-of_IsTagSafe (c ∷ w) h = (ground arith, Lacks-of_IsTagSafe w h.1)

Lacks-render_tag : (tag : Text × Option Text) → IsTag tag → Lacks (is 59) (render_tag tag)
Lacks-render_tag (key, none) h = h.0
Lacks-render_tag (key, some value) h =
    All-append _ key _ h.0.0
      (ground arith, Lacks-of_IsTagSafe _ (escape_tag_value-IsTagSafe value h.2))

Lacks-map-render_tag : (tags : Tags) → All IsTag tags → All (Lacks (is 59)) (map render_tag tags)
Lacks-map-render_tag [] h = tt
Lacks-map-render_tag (tag ∷ tags) h = (Lacks-render_tag tag h.0, Lacks-map-render_tag tags h.1)

pub parse_tags-render_tag :
    (tag : Text × Option Text) (tags : Tags)
    → All IsTag (tag ∷ tags)
    → NodupKeys (tag ∷ tags)
    → parse_tags (join (codes ";") (map render_tag (tag ∷ tags))) ≡ ok (tag ∷ tags)
unfolding parse_tags split
parse_tags-render_tag tag tags h u =
    rw
      (split_by-join (is 59) 59 (render_tag tag) (map render_tag tags) (ground arith)
        (Lacks-map-render_tag (tag ∷ tags) h))
      (add_tags-render_tag (tag ∷ tags) [] h u)
