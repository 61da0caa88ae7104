-- ===== src/Metadata/Listed.antt =====
-- What `listMetadata` reads of a server's list.
use irctest.Base.{
  ◌≡◌, refl, ap, sym, ◌∙◌, none, List, [], ◌∷◌, ◌++◌, map, Text, codes, nat_eq, list_eq, append-nil,
  append_assoc,
}
use irctest.Base.Dict.{Dict, insert_fresh, get_before, NodupKeys}
use irctest.Result.{ok}
use irctest.Message.Parse.{Message, param}
use irctest.Patma.Match.{match_string}
use irctest.Cases.Differs.{assert_message_match}
use irctest.Cases.Batch.{batch_line, get_batch_messages-lines}
use irctest.Metadata.{is_key_value, read_list, get_metadata_batch_messages, list_metadata}

-- A line of a list: who reads it, whose the metadata is, the key, its visibility, and the value.
abbrev pub key_value_line : Text → Text → Text → Text × Text → Message
key_value_line nick target visibility (key, value) = record {
  tags = [];
  prefix = none;
  command = codes "761";
  params = nick ∷ target ∷ key ∷ visibility ∷ value ∷ [];
}

-- The batch of a list.
abbrev pub list_lines : Text → Text → Text → Text → Dict Text Text → List Message
list_lines reference nick target visibility d =
    batch_line [] none ((b'+' ∷ reference) ∷ codes "metadata" ∷ target ∷ [])
    ∷ (map (key_value_line nick target visibility) d
        ++ (batch_line [] none ((codes "-" ++ reference) ∷ []) ∷ []))

module _ (nick target visibility : Text) where
  is_key_value-line :
      (e : Text × Text)
      → assert_message_match (key_value_line nick target visibility e) is_key_value ≡ ok tt
  unfolding assert_message_match match_string list_eq nat_eq
  is_key_value-line e = refl

  read_list-lines :
      (result d : Dict Text Text)
      → NodupKeys (result ++ d)
      → read_list result (map (key_value_line nick target visibility) d) ≡ ok (result ++ d)
  unfolding read_list param
  read_list-lines result [] h = ap ok (sym (append-nil result))
  read_list-lines result ((key, value) ∷ d) h =
      let fresh = insert_fresh key value result (get_before result d key value h) in
      let same = append_assoc result ((key, value) ∷ []) d in
      rw (read_list, is_key_value-line (key, value), fresh)
        (read_list-lines (result ++ ((key, value) ∷ [])) d (rw same h) ∙ ap ok same)

-- The list of a dict is read back: if a server answers the line with a batch of the dict's entries,
-- the keys of which differ, and the client had nothing to read, `listMetadata` returns the dict.
pub list_metadata-lines :
    {S : Type 0} (server : S → Text → S × List Message) (s s' : S)
    (reference nick target visibility : Text) (d : Dict Text Text)
    → NodupKeys d
    → server s (codes "METADATA " ++ (target ++ codes " LIST"))
      ≡ (s', list_lines reference nick target visibility d)
    → list_metadata server target (record { state = s; unread = [] })
      ≡ ok (d, record { state = s'; unread = [] })
unfolding list_metadata get_metadata_batch_messages
list_metadata-lines server s s' reference nick target visibility d h e =
    rw
      (
        list_metadata,
        get_metadata_batch_messages,
        e,
        get_batch_messages-lines [] none b'+' reference (codes "metadata") (target ∷ [])
            (map (key_value_line nick target visibility) d),
        read_list-lines nick target visibility [] d h,
      )
      refl
