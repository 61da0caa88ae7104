-- ===== src/Cases/Connect/Support.antt =====
-- What `connectClient` makes of the `005` lines of a server.
use mathlib.Core.Path.{ap₂}
use irctest.Base.{
  ◌≡◌, refl, sym, ap, ◌∙◌, true, false, Option, none, some, List, [], ◌∷◌, ◌++◌, append_assoc,
  append-nil, map, Text, codes, ◌==◌, list_eq, nat_eq, contains, split, split_by-append,
  split_by_none, Lacks, is, All, arith,
}
use irctest.Base.Dict.{get, insert, NodupKeys, insert_fresh, get_before}
use irctest.Result.{ok}
use irctest.Message.Tags.{Tags}
use irctest.Message.Parse.{Message}
use irctest.Cases.Connect.{Support, add_token, add_tokens, but_last, read_support}

-- A token of a `005`.
abbrev pub token : Text × Option Text → Text
token (key, none) = key
token (key, some value) = key ++ (61 ∷ value)

abbrev pub LacksValue : Option Text → Type 0
LacksValue none = Unit {0}
LacksValue (some value) = Lacks (is 61) value

-- There is no `=` in the key and in the value.
abbrev pub IsEntry : Text × Option Text → Type 0
IsEntry (key, value) = Lacks (is 61) key × LacksValue value

contains-Lacks : (w : Text) → Lacks (is 61) w → contains w 61 ≡ false
contains-Lacks [] h = refl
contains-Lacks (c ∷ w) h = ground (arith, contains-Lacks w h.1)

contains-middle : (w v : Text) → contains (w ++ (61 ∷ v)) 61 ≡ true
contains-middle [] v = ground arith
contains-middle (c ∷ w) v = ground (arith, contains-middle w v)

add_token-entry :
    (support : Support) (key : Text) (value : Option Text)
    → IsEntry (key, value)
    → add_token support (token (key, value)) ≡ ok (insert key value support)
unfolding add_token
add_token-entry support key none h = rw (add_token, contains-Lacks key h.0) refl
add_token-entry support key (some value) h =
    rw
      (
        add_token,
        contains-middle key value,
        split,
        split_by-append (is 61) key 61 value h.0 (ground arith),
        split_by_none (is 61) value h.1,
      )
      refl

get-left : (d f : Support) (k : Text) → get (d ++ f) k ≡ none → get d k ≡ none
unfolding get
get-left [] f k h = refl
get-left ((j, w) ∷ d) f k h = ground (arith, get-left d f k)

NodupKeys-left : (d f : Support) → NodupKeys (d ++ f) → NodupKeys d
NodupKeys-left [] f u = tt
NodupKeys-left ((k, v) ∷ d) f u = (get-left d f k u.0, NodupKeys-left d f u.1)

add_tokens-entries :
    (support d : Support)
    → All IsEntry d
    → NodupKeys (support ++ d)
    → add_tokens support (map token d) ≡ ok (support ++ d)
unfolding add_tokens
add_tokens-entries support [] h u = ap ok (sym (append-nil support))
add_tokens-entries support ((key, value) ∷ d) h u =
    rw
      (
        add_token-entry support key value h.0,
        insert_fresh key value support (get_before support d key value u),
      )
      (add_tokens-entries (support ++ ((key, value) ∷ [])) d h.1
          (rw (append_assoc support ((key, value) ∷ []) d) u)
        ∙ ap ok (append_assoc support ((key, value) ∷ []) d))

but_last-append : (ps : List Text) (p : Text) → but_last (ps ++ (p ∷ [])) ≡ ps
unfolding but_last
but_last-append [] p = refl
but_last-append (q ∷ []) p = refl
but_last-append (q ∷ r ∷ ps) p = ap (λ t. q ∷ t) (but_last-append (r ∷ ps) p)

-- All entries of the lines.
abbrev pub entries : List Support → Support
entries [] = []
entries (d ∷ ds) = d ++ entries ds

module _ (tags : Tags) (prefix : Option Text) (nick text : Text) where
  abbrev pub support_line : Support → Message
  support_line d = record {
    tags = tags;
    prefix = prefix;
    command = codes "005";
    params = nick ∷ (map token d ++ (text ∷ []));
  }

  read_support-line :
      (support d : Support) (welcome ms : List Message)
      → All IsEntry d
      → NodupKeys (support ++ d)
      → read_support support welcome (support_line d ∷ ms)
        ≡ read_support (support ++ d) (welcome ++ (support_line d ∷ [])) ms
  unfolding read_support
  read_support-line support d welcome ms h u =
      rw (read_support, but_last-append (map token d) text, add_tokens-entries support d h u) refl

  read_support-from :
      (lines : List Support) (support : Support) (welcome : List Message) (pong : Message)
      (ms : List Message)
      → All (All IsEntry) lines
      → NodupKeys (support ++ entries lines)
      → pong.command ≡ codes "PONG"
      → read_support support welcome (map support_line lines ++ (pong ∷ ms))
        ≡ ok (support ++ entries lines, welcome ++ map support_line lines, ms)
  unfolding read_support
  read_support-from [] support welcome pong ms h u e =
      let here : (pong.command == codes "PONG") ≡ true = ground arith in
      rw (read_support, here, append-nil support, append-nil welcome) refl
  read_support-from (d ∷ lines) support welcome pong ms h u e =
      read_support-line support d welcome (map support_line lines ++ (pong ∷ ms)) h.0 (
        NodupKeys-left (support ++ d) (entries lines)
          (rw (append_assoc support d (entries lines)) u))
      ∙ read_support-from lines (support ++ d) (welcome ++ (support_line d ∷ [])) pong ms h.1
          (rw (append_assoc support d (entries lines)) u) e
      ∙ ap₂ (λ x y. ok (x, y, ms)) (append_assoc support d (entries lines))
          (append_assoc welcome (support_line d ∷ []) (map support_line lines))

  -- A dict that a server spreads over any number of `005` lines is the `server_support` of the
  -- client, if its keys differ, and no key or value has a `=`.
  pub read_support-lines :
      (lines : List Support) (welcome : List Message) (pong : Message) (ms : List Message)
      → All (All IsEntry) lines
      → NodupKeys (entries lines)
      → pong.command ≡ codes "PONG"
      → read_support [] welcome (map support_line lines ++ (pong ∷ ms))
        ≡ ok (entries lines, welcome ++ map support_line lines, ms)
  read_support-lines lines = read_support-from lines []
