-- ===== src/Patma/Lists.antt =====
-- What `match_list` accepts, item by item.
use irctest.Base.{
  ℕ, zero, suc, ◌+◌, ◌-◌, ◌≤◌, max, ◌≡◌, ◌↔◌, refl, ap, ◌∙◌, true, false, Option, Text, arith, List,
  [], ◌∷◌, ◌++◌, All, length, length-append, length-replicate, All-append, replicate,
}
use irctest.Result.{ok, and_iff}
use irctest.Patma.Operators.{Expected, Item, item, list_remainder, is_optional}
use irctest.Patma.Match.{
  match_string, match_item, match_all, count_optionals, match_expanded, expand, match_list,
}

-- Two lists of one length, of which each value matches its item.
abbrev pub MatchesEach : List (Option Text) → List Item → Type 0
MatchesEach [] [] = Unit {0}
MatchesEach [] (x ∷ xs) = ⊥
MatchesEach (g ∷ gs) [] = ⊥
MatchesEach (g ∷ gs) (x ∷ xs) = (match_item g x ≡ ok true) × MatchesEach gs xs

-- Items that stand for one value each.
abbrev pub AreRequired : List Item → Type 0
AreRequired = All (λ x. is_optional x ≡ false)

count_optionals_none : (xs : List Item) → AreRequired xs → count_optionals 0 xs ≡ ok 0
unfolding count_optionals
count_optionals_none [] h = refl
count_optionals_none (x ∷ xs) h = ground (arith, count_optionals_none xs h.1)

match_all_iff :
    (got : List (Option Text)) (xs : List Item)
    → length got ≡ length xs
    → (match_all got xs ≡ ok true) ↔ MatchesEach got xs
unfolding match_all
match_all_iff [] [] e = (λ _. tt, λ _. refl)
match_all_iff [] (x ∷ xs) e = absurd (omega arith)
match_all_iff (g ∷ gs) [] e = absurd (omega arith)
match_all_iff (g ∷ gs) (x ∷ xs) e =
    let ih : (match_all gs xs ≡ ok true) ↔ MatchesEach gs xs = match_all_iff gs xs (omega arith) in
    let both = and_iff (match_item g x) (match_all gs xs) in
    (λ h. ((both.0 h).0, ih.0 (both.0 h).1), λ h. both.1 (h.0, ih.1 h.1))

length-MatchesEach :
    (got : List (Option Text)) (xs : List Item) → MatchesEach got xs → length got ≡ length xs
length-MatchesEach [] [] h = refl
length-MatchesEach [] (x ∷ xs) h = absurd h
length-MatchesEach (g ∷ gs) [] h = absurd h
length-MatchesEach (g ∷ gs) (x ∷ xs) h = ap suc (length-MatchesEach gs xs h.1)

match_expanded_iff :
    (got : List (Option Text)) (xs : List Item)
    → AreRequired xs
    → (match_expanded got xs ≡ ok true) ↔ MatchesEach got xs
unfolding match_expanded
match_expanded_iff got xs h = (there, back)
  where
    there : match_expanded got xs ≡ ok true → MatchesEach got xs
    there m =
        (match_all_iff got xs (ground (arith, count_optionals_none xs h))).0
          (ground (arith, count_optionals_none xs h))

    back : MatchesEach got xs → match_expanded got xs ≡ ok true
    back m = ground (
      arith,
      count_optionals_none xs h,
      length-MatchesEach got xs m,
      (match_all_iff got xs (length-MatchesEach got xs m)).1 m,
    )

expand-append :
    (n : ℕ) (front : List Item) (e : Expected) (least : ℕ)
    → expand n (front ++ (list_remainder e least ∷ [])) ≡ front ++ replicate (max n least) (item e)
unfolding expand
expand-append n [] e least = refl
expand-append n (item x ∷ []) e least = refl
expand-append n (list_remainder x m ∷ []) e least = refl
expand-append n (item x ∷ y ∷ ys) e least = ap (λ r. item x ∷ r) (expand-append n (y ∷ ys) e least)
expand-append n (list_remainder x m ∷ y ∷ ys) e least =
    ap (λ r. list_remainder x m ∷ r) (expand-append n (y ∷ ys) e least)

-- What a `ListRemainder` behind `front` stands for.
abbrev pub MatchesFront : List (Option Text) → List Item → Expected → ℕ → Type 0
MatchesFront got front e least =
    (xs : List (Option Text)) × (ys : List (Option Text)) × (got ≡ xs ++ ys)
    × MatchesEach xs front
    × All (λ g. match_string g e ≡ ok true) ys
    × (least ≤ length ys)

MatchesEach-append :
    (xs ys : List (Option Text)) (front rest : List Item)
    → MatchesEach xs front
    → MatchesEach ys rest
    → MatchesEach (xs ++ ys) (front ++ rest)
MatchesEach-append [] ys [] rest h k = k
MatchesEach-append [] ys (x ∷ front) rest h k = absurd h
MatchesEach-append (g ∷ xs) ys [] rest h k = absurd h
MatchesEach-append (g ∷ xs) ys (x ∷ front) rest h k =
    (h.0, MatchesEach-append xs ys front rest h.1 k)

MatchesEach-split :
    (got : List (Option Text)) (front rest : List Item)
    → MatchesEach got (front ++ rest)
    → (xs : List (Option Text)) × (ys : List (Option Text)) × (got ≡ xs ++ ys)
      × MatchesEach xs front
      × MatchesEach ys rest
MatchesEach-split got [] rest h = ([], got, refl, tt, h)
MatchesEach-split [] (x ∷ front) rest h = absurd h
MatchesEach-split (g ∷ got) (x ∷ front) rest h =
    let (xs, ys, e, m, k) = MatchesEach-split got front rest h.1 in
    (g ∷ xs, ys, ap (λ r. g ∷ r) e, (h.0, m), k)

MatchesEach-replicate :
    (ys : List (Option Text)) (e : Expected)
    → All (λ g. match_string g e ≡ ok true) ys
    → MatchesEach ys (replicate (length ys) (item e))
unfolding match_item
MatchesEach-replicate [] e h = tt
MatchesEach-replicate (y ∷ ys) e h = (h.0, MatchesEach-replicate ys e h.1)

All_of_MatchesEach :
    (ys : List (Option Text)) (n : ℕ) (e : Expected)
    → MatchesEach ys (replicate n (item e))
    → All (λ g. match_string g e ≡ ok true) ys
unfolding match_item
All_of_MatchesEach [] n e h = tt
All_of_MatchesEach (y ∷ ys) zero e h = absurd h
All_of_MatchesEach (y ∷ ys) (suc n) e h = (h.0, All_of_MatchesEach ys n e h.1)

AreRequired-replicate : (n : ℕ) (x : Item) → is_optional x ≡ false → AreRequired (replicate n x)
AreRequired-replicate zero x h = tt
AreRequired-replicate (suc n) x h = (h, AreRequired-replicate n x h)

MatchesFront-iff :
    (got : List (Option Text)) (front : List Item) (e : Expected) (least n : ℕ)
    → n ≡ length got - length front
    → MatchesEach got (front ++ replicate (max n least) (item e)) ↔ MatchesFront got front e least
MatchesFront-iff got front e least n count = (there, back)
  where
    there :
        MatchesEach got (front ++ replicate (max n least) (item e)) → MatchesFront got front e least
    there m =
        let (xs, ys, p, h, k) = MatchesEach-split got front (replicate (max n least) (item e)) m in
        let size : length ys ≡ max n least =
          length-MatchesEach ys (replicate (max n least) (item e)) k
          ∙ length-replicate (max n least) (item e) in
        (xs, ys, p, h, All_of_MatchesEach ys (max n least) e k, omega arith)

    back :
        MatchesFront got front e least → MatchesEach got (front ++ replicate (max n least) (item e))
    back (xs, ys, p, h, k, enough) =
        let total : length got ≡ length xs + length ys = ap length p ∙ length-append xs ys in
        let size : max n least ≡ length ys = omega (arith, length-MatchesEach xs front h) in
        rw (p, size) (MatchesEach-append xs ys front _ h (MatchesEach-replicate ys e k))

-- A list matches a front of required items and a remainder exactly if it is a part that matches
-- the front, item by item, and behind it at least `least` values that match the remainder's item.
pub match_list-remainder :
    (got : List (Option Text)) (front : List Item) (e : Expected) (least : ℕ)
    → AreRequired front
    → is_optional (item e) ≡ false
    → (match_list got (front ++ (list_remainder e least ∷ [])) ≡ ok true)
      ↔ MatchesFront got front e least
unfolding match_list
match_list-remainder got front e least required single =
    let n : ℕ = length got - (length (front ++ (list_remainder e least ∷ [])) - 1) in
    let exact =
      match_expanded_iff got (front ++ replicate (max n least) (item e))
        (All-append _ front _ required (AreRequired-replicate (max n least) (item e) single)) in
    let fits =
      MatchesFront-iff got front e least n
        (omega (arith, length-append front (list_remainder e least ∷ []))) in
    rw expand-append (λ m. fits.0 (exact.0 m), λ m. exact.1 (fits.1 m))
