-- ===== src/History/Batches.antt =====
-- What is read of a batch.
use irctest.Base.{
  ◌≡◌, refl, true, false, some, List, [], ◌∷◌, ◌++◌, map, Text, codes, nat_eq, list_eq, option_eq,
  starts_with, eq_refl,
}
use irctest.Base.Dict.{get}
use irctest.Result.{ok}
use irctest.Message.Parse.{Message, HistoryMessage, tag_value}
use irctest.Patma.Operators.{Item, item, str, str_re, re_match}
use irctest.Patma.Match.{match_string, match_list}
use irctest.Cases.Differs.{assert_message_match}
use irctest.Cases.Differs.Exact.{assert_message_match_iff}
use irctest.Cases.Batch.{is_batch, match_string-str, match_list-one}
use irctest.History.{
  start_re, inner_and_last, is_of_batch, is_wanted, history_messages, validate_chathistory_batch,
}
use irctest.History.Reference.{in_batch, batch_line, reply}

inner_and_last-append :
    (ms : List Message) (m : Message) → inner_and_last (ms ++ (m ∷ [])) ≡ ok (ms, m)
unfolding inner_and_last
inner_and_last-append [] m = refl
inner_and_last-append (n ∷ []) m = refl
inner_and_last-append (n ∷ k ∷ ms) m = rw (inner_and_last, inner_and_last-append (k ∷ ms) m) refl

-- A reference and a sender that the tests take.
abbrev pub IsPlain : Text → Text → Type 0
IsPlain reference sender =
    (re_match start_re (b'+' ∷ reference) ≡ true) × (starts_with sender (codes "HistServ!") ≡ false)

module _ (server sender reference chname : Text) (plain : IsPlain reference sender) where
  in_batch-is_of_batch :
      (m : HistoryMessage) → is_of_batch reference (in_batch reference sender m) ≡ true
  unfolding is_of_batch tag_value get list_eq nat_eq
  in_batch-is_of_batch m = eq_refl (some reference)

  in_batch-is_wanted :
      (m : HistoryMessage) → is_wanted reference (in_batch reference sender m) ≡ ok true
  unfolding is_wanted
  in_batch-is_wanted m = rw (is_wanted, in_batch-is_of_batch m, plain.1) refl

  history_messages-in_batch :
      (ms : List HistoryMessage)
      → history_messages reference (map (in_batch reference sender) ms) ≡ ok ms
  unfolding history_messages
  history_messages-in_batch [] = refl
  history_messages-in_batch (m ∷ ms) =
      rw (history_messages, in_batch-is_wanted m, history_messages-in_batch ms) refl

  is_batch-params :
      (params : List Text) (items : List Item)
      → match_list (map some params) items ≡ ok true
      → assert_message_match (batch_line server params) (is_batch (some items)) ≡ ok tt
  is_batch-params params items h =
      (assert_message_match_iff (batch_line server params) (is_batch (some items))).1 (record {
        command = match_string-str (codes "BATCH");
        prefix = tt;
        params = h;
        tags = tt;
        nick = tt;
        target = tt;
        others = refl;
      })

  start-matches :
      match_list
        (map some ((b'+' ∷ reference) ∷ codes "chathistory" ∷ chname ∷ []))
        (item (str_re start_re) ∷ item (str (codes "chathistory")) ∷ item (str chname) ∷ [])
      ≡ ok true
  unfolding match_list match_string
  start-matches =
      rw (match_list, plain.0, eq_refl (some (codes "chathistory")), eq_refl (some chname)) refl

  -- From the reply with a batch the messages in it are read back.
  pub validate_chathistory_batch-reply :
      (ms : List HistoryMessage)
      → validate_chathistory_batch (reply server sender reference chname ms) chname ≡ ok ms
  unfolding validate_chathistory_batch
  validate_chathistory_batch-reply ms =
      rw
        (
          validate_chathistory_batch,
          inner_and_last-append (map (in_batch reference sender) ms)
              (batch_line server ((codes "-" ++ reference) ∷ [])),
          is_batch-params ((b'+' ∷ reference) ∷ codes "chathistory" ∷ chname ∷ []) _ start-matches,
          is_batch-params ((codes "-" ++ reference) ∷ []) _
              (match_list-one (codes "-" ++ reference)),
          history_messages-in_batch ms,
        )
        refl
