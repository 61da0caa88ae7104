-- ===== src/History/Wanted.antt =====
-- What the reference gives for the queries of the tests.
use irctest.Base.{
  ℕ, ◌≡◌, refl, Option, List, [], ◌∷◌, map, Text, ◌==◌, nat_eq, list_eq, option_eq, All, eq_refl,
  take, drop,
}
use irctest.Message.Parse.{HistoryMessage}
use irctest.History.{
  history_eq, Point, Query, latest, latest_since, before, after, around, between, message_at,
}
use irctest.History.Reference.{is_at, select_between, selected}
use irctest.History.Splits.{Distinct, split_at-message_at}

-- Ten messages.
abbrev pub ten : (ℕ → HistoryMessage) → List HistoryMessage
ten e = e 0 ∷ e 1 ∷ e 2 ∷ e 3 ∷ e 4 ∷ e 5 ∷ e 6 ∷ e 7 ∷ e 8 ∷ e 9 ∷ []

-- What is asked with one kind of reference, and what the tests want to get.
abbrev pub wanted :
    (HistoryMessage → Point) → (ℕ → HistoryMessage) → List (Query × List HistoryMessage)
wanted point e =
    (latest_since (point (e 4)) 20, drop 5 (ten e))
    ∷ (before (point (e 6)) 20, take 6 (ten e))
    ∷ (before (point (e 6)) 2, drop 4 (take 6 (ten e)))
    ∷ (after (point (e 3)) 20, drop 4 (ten e))
    ∷ (after (point (e 3)) 3, drop 4 (take 7 (ten e)))
    ∷ (between (point (e 0)) (point (e 9)) 20, drop 1 (take 9 (ten e)))
    ∷ (between (point (e 9)) (point (e 0)) 20, drop 1 (take 9 (ten e)))
    ∷ (between (point (e 0)) (point (e 9)) 3, drop 1 (take 4 (ten e)))
    ∷ (between (point (e 9)) (point (e 0)) 3, drop 6 (take 9 (ten e)))
    ∷ (around (point (e 7)) 1, e 7 ∷ [])
    ∷ (around (point (e 7)) 3, drop 6 (take 9 (ten e)))
    ∷ []

abbrev pub asked : (HistoryMessage → Point) → (ℕ → HistoryMessage) → List Query
asked point e = map (λ w. w.0) (wanted point e)

-- What is asked with no reference.
abbrev pub asked_latest : List Query
asked_latest = latest 20 ∷ latest 5 ∷ latest 1 ∷ []

module _ (point : HistoryMessage → Point) (key : HistoryMessage → Option Text)
    (same : (m n : HistoryMessage) → is_at (point m) n ≡ (key n == key m)) (e : ℕ → HistoryMessage)
    (d : Distinct (map key (ten e))) where
  -- The reference gives what is wanted.
  pub selected-wanted : All (λ w. selected w.0 (ten e) ≡ w.1) (wanted point e)
  unfolding selected select_between message_at
  selected-wanted =
      rw
        (
          selected,
          select_between,
          split_at-message_at point key same (ten e) 4 (e 4) d refl,
          split_at-message_at point key same (ten e) 6 (e 6) d refl,
          split_at-message_at point key same (ten e) 3 (e 3) d refl,
          split_at-message_at point key same (ten e) 0 (e 0) d refl,
          split_at-message_at point key same (ten e) 9 (e 9) d refl,
          split_at-message_at point key same (ten e) 7 (e 7) d refl,
          split_at-message_at point key same (drop 1 (ten e)) 8 (e 9) d.1 refl,
          same (e 0) (e 0),
          eq_refl (key (e 0)),
        )
        (refl, (refl, (refl, (refl, (refl, (refl, (refl, (refl, (refl, (refl, (refl, tt)))))))))))
