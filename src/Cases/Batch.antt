-- ===== src/Cases/Batch.antt =====
-- `getBatchMessages` (`irctest/cases.py`), of the messages that `getMessages` has returned.
use irctest.Base.{
  ℕ, ◌≡◌, refl, ap, Bool, true, false, Option, none, some, List, [], ◌∷◌, ◌++◌, Text, codes, ◌==◌,
  list_eq, nat_eq, option_eq, eq_refl,
}
use irctest.Result.{Result, ok, raised, index_error, assertion_error, ◌>>=◌, require}
use irctest.Message.Tags.{Tags}
use irctest.Message.Parse.{Message, param, tail}
use irctest.Patma.Operators.{Item, str, item}
use irctest.Patma.Match.{match_string, match_list}
use irctest.Cases.Differs.{Expectation, assert_message_match}
use irctest.Cases.Differs.Exact.{assert_message_match_iff}

-- `pop(-1)`
unfoldable pub pop_last : List Message → Result (List Message × Message)
pop_last [] = raised index_error
pop_last (m ∷ []) = ok ([], m)
pop_last (m ∷ n ∷ ms) = pop_last (n ∷ ms) >>= λ (front, last). ok (m ∷ front, last)

-- `params[n:]` after its first items.
abbrev pub has_type : Text → List Text → Bool
has_type batch_type [] = false
has_type batch_type (p ∷ []) = false
has_type batch_type (p ∷ q ∷ ps) = q == batch_type

abbrev pub after_type : List Text → List Text
after_type [] = []
after_type (p ∷ []) = []
after_type (p ∷ q ∷ ps) = ps

abbrev pub is_batch : Option (List Item) → Expectation
is_batch params = record {
  command = some (str (codes "BATCH"));
  params = params;
  target = none;
  tags = none;
  nick = none;
  prefix = none;
  others = [];
}

unfoldable pub get_batch_messages : Text → List Message → Result (Text × List Text × List Message)
unfolding pop_last param assert_message_match list_eq nat_eq
get_batch_messages batch_type [] = raised index_error
get_batch_messages batch_type (first ∷ messages) = do
  (body, last) ← pop_last messages
  matches ← assert_message_match first (is_batch none)
  typed ← require (has_type batch_type first.params) assertion_error
  reference ← param first.params 0
  ended ←
      assert_message_match last (is_batch (some (item (str (codes "-" ++ tail reference)) ∷ [])))
  ok (tail reference, after_type first.params, body)

pop_last-append : (ms : List Message) (m : Message) → pop_last (ms ++ (m ∷ [])) ≡ ok (ms, m)
unfolding pop_last
pop_last-append [] m = refl
pop_last-append (n ∷ []) m = refl
pop_last-append (n ∷ k ∷ ms) m = rw (pop_last, pop_last-append (k ∷ ms) m) refl

pub match_string-str : (t : Text) → match_string (some t) (str t) ≡ ok true
unfolding match_string option_eq
match_string-str t = ap ok (eq_refl (some t))

pub match_list-one : (t : Text) → match_list (some t ∷ []) (item (str t) ∷ []) ≡ ok true
unfolding match_list
match_list-one t = rw (match_list, match_string-str t) refl

module _ (tags : Tags) (prefix : Option Text) where
  abbrev pub batch_line : List Text → Message
  batch_line params = record {
    tags = tags;
    prefix = prefix;
    command = codes "BATCH";
    params = params;
  }

  is_batch-line :
      (params : List Text) → assert_message_match (batch_line params) (is_batch none) ≡ ok tt
  unfolding assert_message_match match_string list_eq nat_eq
  is_batch-line params = refl

  is_batch-end :
      (reference : Text)
      → assert_message_match
          (batch_line (reference ∷ []))
          (is_batch (some (item (str reference) ∷ [])))
        ≡ ok tt
  is_batch-end reference =
      (assert_message_match_iff (batch_line (reference ∷ []))
          (is_batch (some (item (str reference) ∷ [])))).1
        (record {
          command = match_string-str (codes "BATCH");
          prefix = tt;
          params = match_list-one reference;
          tags = tt;
          nick = tt;
          target = tt;
          others = refl;
        })

  -- From a batch `getBatchMessages` takes its reference, its parameters and what is in it.
  pub get_batch_messages-lines :
      (sign : ℕ) (reference batch_type : Text) (params : List Text) (body : List Message)
      → get_batch_messages batch_type (
          batch_line ((sign ∷ reference) ∷ batch_type ∷ params)
          ∷ (body ++ (batch_line ((codes "-" ++ reference) ∷ []) ∷ [])))
        ≡ ok (reference, params, body)
  unfolding get_batch_messages
  get_batch_messages-lines sign reference batch_type params body =
      rw
        (
          get_batch_messages,
          pop_last-append body (batch_line ((codes "-" ++ reference) ∷ [])),
          is_batch-line ((sign ∷ reference) ∷ batch_type ∷ params),
          eq_refl batch_type,
          is_batch-end (codes "-" ++ reference),
        )
        refl
