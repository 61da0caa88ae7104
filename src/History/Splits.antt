-- ===== src/History/Splits.antt =====
-- Where a history is split.
use irctest.Base.{
  ℕ, zero, suc, ◌≤◌, ◌≡◌, inl, inr, refl, ap, sym, ◌∙◌, arith, true, false, Option, some, List, [],
  ◌∷◌, map, Text, ◌==◌, nat_eq, list_eq, option_eq, eq_refl, eq_iff, contains, distinct,
  contains-distinct, length, take, drop, Bool-cases,
}
use irctest.Result.{ok}
use irctest.Message.Parse.{HistoryMessage}
use irctest.History.{history_eq, Point, message_at}
use irctest.History.Reference.{is_at, split_at}

-- No two are the same.
abbrev pub Distinct : List (Option Text) → Type 0
Distinct [] = Unit
Distinct (x ∷ xs) = (contains xs x ≡ false) × Distinct xs

length-distinct : (xs : List (Option Text)) → length (distinct xs) ≤ length xs
unfolding distinct
length-distinct [] = omega arith
length-distinct (x ∷ xs) = elim (Bool-cases (contains (distinct xs) x)) [
  | inl e ↦ rw (distinct, e) (omega (arith, length-distinct xs))
  | inr e ↦ rw (distinct, e) (omega (arith, length-distinct xs))
]

pub distinct-Distinct : (xs : List (Option Text)) → length (distinct xs) ≡ length xs → Distinct xs
unfolding distinct
distinct-Distinct [] h = tt
distinct-Distinct (x ∷ xs) h = elim (Bool-cases (contains (distinct xs) x)) [
  | inl e ↦
      let same : length (distinct xs) ≡ suc (length xs) = ground (arith, h, e) in
      absurd (omega (arith, same, length-distinct xs))
  | inr e ↦
      let same : suc (length (distinct xs)) ≡ suc (length xs) = ground (arith, h, e) in
      (sym (contains-distinct x xs) ∙ e, distinct-Distinct xs (omega (arith, same)))
]

-- A kind of reference to messages.
module _ (point : HistoryMessage → Point) (key : HistoryMessage → Option Text)
    (same : (m n : HistoryMessage) → is_at (point m) n ≡ (key n == key m)) where
  contains-message_at :
      (ms : List HistoryMessage) (i : ℕ) (m : HistoryMessage)
      → message_at ms i ≡ ok m
      → contains (map key ms) (key m) ≡ true
  unfolding message_at
  contains-message_at [] i m h = absurd (ground arith)
  contains-message_at (x ∷ ms) zero m h =
      let is_m : x ≡ m = ground (arith, h) in rw (← is_m, eq_refl (key x)) refl
  contains-message_at (x ∷ ms) (suc i) m h = ground (arith, contains-message_at ms i m h)

  -- A history is split at a message of it.
  pub split_at-message_at :
      (ms : List HistoryMessage) (i : ℕ) (m : HistoryMessage)
      → Distinct (map key ms)
      → message_at ms i ≡ ok m
      → split_at (point m) ms ≡ some (take i ms, m, drop (suc i) ms)
  unfolding split_at message_at
  split_at-message_at [] i m d h = absurd (ground arith)
  split_at-message_at (x ∷ ms) zero m d h =
      let is_m : x ≡ m = ground (arith, h) in rw (← is_m, split_at, same x x, eq_refl (key x)) refl
  split_at-message_at (x ∷ ms) (suc i) m d h =
      let other : (key x == key m) ≡ false = elim (Bool-cases (key x == key m)) [
        | inr e ↦ e
        | inl e ↦
            let key_same : key x ≡ key m = (eq_iff (key x) (key m)).0 e in
            absurd (
              ground
                (arith, d.0, ap (contains (map key ms)) key_same, contains-message_at ms i m h))
      ] in
      rw (split_at, same m x, other, split_at-message_at ms i m d.1 h) refl
