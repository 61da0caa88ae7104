-- ===== src/History/Accepted.antt =====
-- The tests accept a server that answers as the reference does.
use irctest.Base.{
  ℕ, ◌≡◌, refl, ap, arith, Bool, true, false, Option, List, [], ◌∷◌, map, Text, codes, ◌==◌, nat_eq,
  list_eq, option_eq, All, eq_refl, eq_iff, contains, distinct, length,
}
use irctest.Base.Dict.{Dict}
use irctest.Result.{Result, ok, ◌>>◌, require, assertion_error}
use irctest.Message.Parse.{Message, HistoryMessage}
use irctest.History.{
  history_eq, supports, Point, Query, latest, around, message_at, last_message, last_ones,
  validate_echo_messages,
}
use irctest.History.Validate.{
  if_supported, msgid_of, time_of, history_of, expect, expect_in, validate_chathistory,
  validate_chathistory_latest, validate_chathistory_before, validate_chathistory_after,
  validate_chathistory_between, validate_chathistory_around, subcommands,
}
use irctest.History.Reference.{Answers, is_at, selected}
use irctest.History.Batches.{IsPlain, validate_chathistory_batch-reply}
use irctest.History.Wanted.{ten, wanted, asked, asked_latest, selected-wanted}
use irctest.History.Splits.{Distinct, distinct-Distinct}

contains_middle : (x y z : HistoryMessage) → contains (x ∷ y ∷ z ∷ []) y ≡ true
contains_middle x y z = ground (arith, eq_refl y)

then_ok : (m n : Result (Unit {0})) → m ≡ ok tt → n ≡ ok tt → (m >> n) ≡ ok tt
then_ok m n h k = rw h k

module _ (server : Text → Message × List Message) (server_support : Dict Text (Option Text))
    (chname : Text) (host sender reference : Text) (plain : IsPlain reference sender) where
  history_of-reply :
      (ms : List HistoryMessage) (q : Query)
      → Answers server chname host sender reference ms q
      → history_of server server_support chname q ≡ ok (selected q ms)
  unfolding history_of
  history_of-reply ms q h =
      rw (history_of, h)
        (validate_chathistory_batch-reply host sender reference chname plain (selected q ms))

  expect-met :
      (ms : List HistoryMessage) (ws : List (Query × List HistoryMessage))
      → All (λ w. selected w.0 ms ≡ w.1) ws
      → All (Answers server chname host sender reference ms) (map (λ w. w.0) ws)
      → All (λ w. expect server server_support chname w.0 w.1 ≡ ok tt) ws
  unfolding expect
  expect-met ms [] s h = tt
  expect-met ms ((q, x) ∷ ws) (s, ss) (h, hs) =
      (rw (expect, history_of-reply ms q h, s, eq_refl x) refl, expect-met ms ws ss hs)

  module _ (e : ℕ → HistoryMessage) (ids : Distinct (map (λ m. m.msgid) (ten e)))
      (times : Distinct (map (λ m. m.time) (ten e))) (a b : Bool)
      (sup_msgid : supports (codes "msgid") server_support ≡ ok a)
      (sup_time : supports (codes "timestamp") server_support ≡ ok b)
      (plain_answers : All (Answers server chname host sender reference (ten e)) asked_latest)
      (msgid_answers : a ≡ true
        → All (Answers server chname host sender reference (ten e)) (asked msgid_of e))
      (time_answers : b ≡ true
        → All (Answers server chname host sender reference (ten e)) (asked time_of e)) where
    abbrev Met : (HistoryMessage → Point) → Type 0
    Met point = All (λ w. expect server server_support chname w.0 w.1 ≡ ok tt) (wanted point e)

    msgid-Met : a ≡ true → Met msgid_of
    unfolding is_at
    msgid-Met h =
        expect-met (ten e) (wanted msgid_of e)
          (selected-wanted msgid_of (λ m. m.msgid) (λ m n. refl) e ids) (msgid_answers h)

    time-Met : b ≡ true → Met time_of
    unfolding is_at
    time-Met h =
        expect-met (ten e) (wanted time_of e)
          (selected-wanted time_of (λ m. m.time) (λ m n. refl) e times) (time_answers h)

    -- A part of a test that holds if it is run.
    part_ok :
        (word : Text) (c : Bool) (part : Result (Unit {0}))
        → supports word server_support ≡ ok c
        → (c ≡ true → part ≡ ok tt)
        → if_supported server server_support chname word part ≡ ok tt
    part_ok word true part s h = rw s (h refl)
    part_ok word false part s h = rw s refl

    part_msgid :
        (part : Result (Unit {0}))
        → (Met msgid_of → part ≡ ok tt)
        → if_supported server server_support chname (codes "msgid") part ≡ ok tt
    part_msgid part h = part_ok (codes "msgid") a part sup_msgid (λ c. h (msgid-Met c))

    part_time :
        (part : Result (Unit {0}))
        → (Met time_of → part ≡ ok tt)
        → if_supported server server_support chname (codes "timestamp") part ≡ ok tt
    part_time part h = part_ok (codes "timestamp") b part sup_time (λ c. h (time-Met c))

    before_ok : validate_chathistory_before server server_support chname (ten e) ≡ ok tt
    unfolding validate_chathistory_before message_at
    before_ok =
        then_ok _ _ (part_msgid _ (λ (l, (f, (g, r))). f))
          (part_time _ (λ (l, (f, (g, r))). then_ok _ _ f g))

    latest_met :
        All
          (λ (w : Query × List HistoryMessage). expect server server_support chname w.0 w.1 ≡ ok tt)
          ((latest 20, ten e)
            ∷ (latest 5, last_ones 5 (ten e))
            ∷ (latest 1, last_ones 1 (ten e))
            ∷ [])
    unfolding selected
    latest_met =
        expect-met (ten e)
          ((latest 20, ten e)
            ∷ (latest 5, last_ones 5 (ten e))
            ∷ (latest 1, last_ones 1 (ten e))
            ∷ [])
          (refl, (refl, (refl, tt))) plain_answers

    latest_ok : validate_chathistory_latest server server_support chname (ten e) ≡ ok tt
    unfolding validate_chathistory_latest message_at
    latest_ok =
        let (x, (y, (z, r))) = latest_met in
        then_ok _ _ x (
          then_ok _ _ y
            (then_ok _ _ z (then_ok _ _ (part_msgid _ (λ (l, r). l)) (part_time _ (λ (l, r). l)))))

    after_ok : validate_chathistory_after server server_support chname (ten e) ≡ ok tt
    unfolding validate_chathistory_after message_at
    after_ok =
        then_ok _ _ (part_msgid _ (λ (l, (f, (g, (x, r)))). x))
          (part_time _ (λ (l, (f, (g, (x, (y, r))))). then_ok _ _ x y))

    between_ok : validate_chathistory_between server server_support chname (ten e) ≡ ok tt
    unfolding validate_chathistory_between message_at last_message
    between_ok =
        then_ok _ _
          (part_msgid _ (λ (l, (f, (g, (x, (y, (p, (q, (s, (t, r))))))))).
            then_ok _ _ p (then_ok _ _ q (then_ok _ _ s t))))
          (part_time _ (λ (l, (f, (g, (x, (y, (p, (q, (s, (t, r))))))))).
            then_ok _ _ p (then_ok _ _ q (then_ok _ _ s t))))

    expect_in-met :
        b ≡ true → expect_in server server_support chname (around (time_of (e 7)) 3) (e 7) ≡ ok tt
    unfolding expect_in is_at
    expect_in-met h =
        let (l, (f, (g, (x, (y, (p, (q, (s, (t, (u, (v, r))))))))))) = time_answers h in
        let (l', (f', (g', (x', (y', (p', (q', (s', (t', (u', (v', r'))))))))))) =
          selected-wanted time_of (λ m. m.time) (λ m n. refl) e times in
        rw (expect_in, history_of-reply (ten e) (around (time_of (e 7)) 3) v, v')
          (ap (λ c. require c assertion_error) (contains_middle (e 6) (e 7) (e 8)))

    around_ok : validate_chathistory_around server server_support chname (ten e) ≡ ok tt
    unfolding validate_chathistory_around message_at
    around_ok =
        then_ok _ _
          (part_msgid _
            (λ (l, (f, (g, (x, (y, (p, (q, (s, (t, (u, (v, r))))))))))). then_ok _ _ u v))
          (part_ok (codes "timestamp") b _ sup_time expect_in-met)

    subcommands_ok :
        All
          (λ sub. validate_chathistory server server_support chname sub (ten e) ≡ ok tt)
          subcommands
    unfolding validate_chathistory list_eq nat_eq
    subcommands_ok = (latest_ok, (before_ok, (after_ok, (between_ok, (around_ok, tt)))))

required :
    (t u v : Bool)
    → (require t assertion_error >> (require u assertion_error >> require v assertion_error))
      ≡ ok tt
    → (u ≡ true) × (v ≡ true)
required true true true h = (refl, refl)
required true true false h = absurd (ground arith)
required true false v h = absurd (ground arith)
required false u v h = absurd (ground arith)

-- The messages of which `validate_echo_messages` approves differ by their references.
validate_echo_messages-Distinct :
    (e : ℕ → HistoryMessage)
    → validate_echo_messages 10 (ten e) ≡ ok tt
    → Distinct (map (λ m. m.msgid) (ten e)) × Distinct (map (λ m. m.time) (ten e))
unfolding validate_echo_messages
validate_echo_messages-Distinct e h =
    let (f, g) =
      required (length (ten e) == 10) (length (distinct (map (λ m. m.msgid) (ten e))) == 10)
        (length (distinct (map (λ m. m.time) (ten e))) == 10) h in
    (
      distinct-Distinct (map (λ m. m.msgid) (ten e)) ((eq_iff _ 10).0 f),
      distinct-Distinct (map (λ m. m.time) (ten e)) ((eq_iff _ 10).0 g),
    )

-- A server answers what is asked with no reference, and with each kind of reference that it supports,
-- by the batch of the messages that the reference server selects. Then for ten echoed messages that
-- pass `validate_echo_messages`, `validate_chathistory` passes for every subcommand.
pub validate_chathistory-selected :
    (server : Text → Message × List Message) (server_support : Dict Text (Option Text))
    (chname host sender reference : Text) (plain : IsPlain reference sender)
    (e : ℕ → HistoryMessage)
    → validate_echo_messages 10 (ten e) ≡ ok tt
    → (a b : Bool) → supports (codes "msgid") server_support ≡ ok a
    → supports (codes "timestamp") server_support ≡ ok b
    → All (Answers server chname host sender reference (ten e)) asked_latest
    → (a ≡ true → All (Answers server chname host sender reference (ten e)) (asked msgid_of e))
    → (b ≡ true → All (Answers server chname host sender reference (ten e)) (asked time_of e))
    → All (λ sub. validate_chathistory server server_support chname sub (ten e) ≡ ok tt) subcommands
validate_chathistory-selected server server_support chname host sender reference plain e echoed a
      b =
    let (ids, times) = validate_echo_messages-Distinct e echoed in
    subcommands_ok server server_support chname host sender reference plain e ids times a b
