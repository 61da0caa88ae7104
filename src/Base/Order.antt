-- ===== src/Base/Order.antt =====
-- Python's `sorted`, `any`, sets of values and comprehensions with a test.
use mathlib.Core.Path.{◌≡◌, refl}
use mathlib.Core.Logic.{inl, inr}
use mathlib.Core.Bool.{Bool, true, false, ◌||◌}
use mathlib.Core.List.{List, [], ◌∷◌}
use native.Mathlib.Omega.{arith}
use irctest.Base.Tests.{Eq, ◌==◌, contains, leb, nat_eq, Bool-cases, if◌then◌else◌}
use irctest.Base.Lists.{All}
use irctest.Base.Strings.{Text}

-- The order of strings, by code points.
unfoldable pub text_le : Text → Text → Bool
unfolding nat_eq
text_le [] t = true
text_le (c ∷ s) [] = false
text_le (c ∷ s) (d ∷ t) = if c == d then text_le s t else leb c d

module _ {ℓ} {A : Type ℓ} where
  unfoldable pub insert_by : (A → A → Bool) → A → List A → List A
  insert_by le x [] = x ∷ []
  insert_by le x (y ∷ ys) = elim (le x y) [ true ↦ x ∷ y ∷ ys | false ↦ y ∷ insert_by le x ys ]

  -- `sorted(xs)`, which keeps the order of equal items.
  unfoldable pub sort_by : (A → A → Bool) → List A → List A
  unfolding insert_by
  sort_by le [] = []
  sort_by le (x ∷ xs) = insert_by le x (sort_by le xs)

  -- `[x for x in xs if p(x)]`
  unfoldable pub select : (A → Bool) → List A → List A
  select p [] = []
  select p (x ∷ xs) = let rest = select p xs in if p x then x ∷ rest else rest

  -- `any(p(x) for x in xs)`
  unfoldable pub any : (A → Bool) → List A → Bool
  any p [] = false
  any p (x ∷ xs) = if p x then true else any p xs

  -- A choice of items keeps what holds of all.
  pub All-select {κ} :
      (P : A → Type κ) (p : A → Bool) (xs : List A) → All P xs → All P (select p xs)
  unfolding select
  All-select P p [] h = tt
  All-select P p (x ∷ xs) h = elim (Bool-cases (p x)) [
    | inl e ↦ rw e (h.0, All-select P p xs h.1)
    | inr e ↦ rw e (All-select P p xs h.1)
  ]

  All-insert_by {κ} :
      (P : A → Type κ) (le : A → A → Bool) (x : A) (xs : List A)
      → P x
      → All P xs
      → All P (insert_by le x xs)
  unfolding insert_by
  All-insert_by P le x [] p h = (p, tt)
  All-insert_by P le x (y ∷ ys) p h = elim (Bool-cases (le x y)) [
    | inl e ↦ rw (insert_by, e) (p, h)
    | inr e ↦ rw (insert_by, e) (h.0, All-insert_by P le x ys p h.1)
  ]

  pub All-sort_by {κ} :
      (P : A → Type κ) (le : A → A → Bool) (xs : List A) → All P xs → All P (sort_by le xs)
  unfolding sort_by
  All-sort_by P le [] h = tt
  All-sort_by P le (x ∷ xs) h = All-insert_by P le x (sort_by le xs) h.0 (All-sort_by P le xs h.1)

module _ {ℓ} {A : Type ℓ} ⦃e : Eq A⦄ where
  -- The items of a set, each once.
  unfoldable pub distinct : List A → List A
  distinct [] = []
  distinct (x ∷ xs) = let rest = distinct xs in if contains rest x then rest else x ∷ rest

  contains-insert_by :
      (le : A → A → Bool) (a x : A) (xs : List A)
      → contains (insert_by le x xs) a ≡ (x == a || contains xs a)
  unfolding insert_by
  contains-insert_by le a x [] = ground arith
  contains-insert_by le a x (y ∷ ys) = ground (arith, contains-insert_by le a x ys)

  pub contains-sort_by :
      (le : A → A → Bool) (a : A) (xs : List A) → contains (sort_by le xs) a ≡ contains xs a
  unfolding sort_by
  contains-sort_by le a [] = refl
  contains-sort_by le a (x ∷ xs) =
      ground (arith, contains-insert_by le a x (sort_by le xs), contains-sort_by le a xs)

  pub contains-distinct : (a : A) (xs : List A) → contains (distinct xs) a ≡ contains xs a
  unfolding distinct
  contains-distinct a [] = refl
  contains-distinct a (x ∷ xs) = ground (arith, contains-distinct a xs, contains-distinct x xs)
