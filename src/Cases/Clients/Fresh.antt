-- ===== src/Cases/Clients/Fresh.antt =====
-- The name that a test gives to a client by itself.
use irctest.Base.{
  ℕ, ◌+◌, ◌≤◌, ◌≡◌, refl, sym, ap, ◌∙◌, true, false, Option, none, some, List, [], ◌∷◌, ◌++◌, Text,
  ◌==◌, contains, arith, inl, inr, Bool-cases, eq_refl, eq_iff,
}
use irctest.Base.Dict.{Dict, get, insert, erase, keys, get-insert, insert_fresh}
use irctest.Result.{Result, ok, value_error, or_raise, ensures_bind, Result-cases}
use irctest.Cases.Clients.{
  Name, number, word, other, name_eq, used_ids, greatest, add_client, remove_client,
}

module _ (int : Text → Option ℕ) where
  listed :
      {n : ℕ} (these ids : List ℕ)
      → ◌≡◌ {A = Result (List ℕ)} (ok these) (ok ids)
      → n ≤ greatest these
      → n ≤ greatest ids
  listed these ids eq h = let same : these ≡ ids = ground arith in rw (← same) h

  -- A number among the names is not greater than the greatest.
  used_ids-bound :
      (n : ℕ) (names : List Name) (ids : List ℕ)
      → used_ids int names ≡ ok ids
      → contains names (number n) ≡ true
      → n ≤ greatest ids
  unfolding used_ids greatest name_eq
  used_ids-bound n [] ids h k = absurd (ground arith)
  used_ids-bound n (number m ∷ names) ids h k =
      ensures_bind (used_ids int names) (λ ids. ok (m ∷ ids)) (λ ids. n ≤ greatest ids)
        (λ rest run ids eq. elim (Bool-cases (number m == number n)) [
          | inl e ↦
              let same : number m ≡ number n = (eq_iff (number m) (number n)).0 e in
              let equal : m ≡ n = ground (arith, same) in
              listed (m ∷ rest) ids eq (omega (arith, equal))
          | inr e ↦
              let smaller = used_ids-bound n names rest run (ground (arith, k, e)) in
              listed (m ∷ rest) ids eq (omega (arith, smaller))
        ])
        ids h
  used_ids-bound n (word w ∷ names) ids h k =
      ensures_bind (or_raise (int w) value_error) _ (λ ids. n ≤ greatest ids)
        (λ m read.
          ensures_bind (used_ids int names) (λ ids. ok (m ∷ ids)) (λ ids. n ≤ greatest ids)
            (λ rest run ids eq.
              let smaller = used_ids-bound n names rest run (ground (arith, k)) in
              listed (m ∷ rest) ids eq (omega (arith, smaller))))
        ids h
  used_ids-bound n (other m ∷ names) ids h k = used_ids-bound n names ids h (ground (arith, k))

  -- No client has the next number.
  fresh-number :
      (names : List Name) (ids : List ℕ)
      → used_ids int names ≡ ok ids
      → contains names (number (greatest ids + 1)) ≡ false
  fresh-number names ids h = elim (Bool-cases (contains names (number (greatest ids + 1)))) [
    | inr e ↦ e
    | inl e ↦ absurd (omega (arith, used_ids-bound (greatest ids + 1) names ids h e))
  ]

get-absent :
    {C : Type 0} (clients : Dict Name C) (k : Name)
    → contains (keys clients) k ≡ false
    → get clients k ≡ none
unfolding keys get
get-absent [] k h = refl
get-absent ((j, v) ∷ clients) k h = ground (arith, get-absent clients k)

erase-last :
    {C : Type 0} (clients : Dict Name C) (k : Name) (v : C)
    → contains (keys clients) k ≡ false
    → erase k (clients ++ ((k, v) ∷ [])) ≡ clients
unfolding keys erase
erase-last [] k v h = ground (arith, eq_refl k)
erase-last ((j, w) ∷ clients) k v h = ground (arith, erase-last clients k v)

contains-last :
    {C : Type 0} (clients : Dict Name C) (k : Name) (v : C)
    → contains (keys (clients ++ ((k, v) ∷ []))) k ≡ true
unfolding keys
contains-last [] k v = ground (arith, eq_refl k)
contains-last ((j, w) ∷ clients) k v = ground (arith, contains-last clients k v)

-- A client that is added with no name gets a name that no client has; it is then the client of that
-- name, and to remove it gives back the clients as they were. What a string stands for as a number
-- is any function.
pub remove_client-add_client :
    (int : Text → Option ℕ) {C : Type 0} (client : C) (clients after : Dict Name C) (name : Name)
    → add_client int none client clients ≡ ok (name, after)
    → (get clients name ≡ none)
      × (get after name ≡ some client)
      × (remove_client name after ≡ ok clients)
unfolding add_client remove_client
remove_client-add_client int {C} client clients after name h =
    elim (Result-cases (used_ids int (keys clients))) [
      | inr (x, e) ↦ absurd (ground arith)
      | inl (ids, e) ↦
          let new : Name = number (greatest ids + 1) in
          let absent : contains (keys clients) new ≡ false =
            fresh-number int (keys clients) ids e in
          let step : ◌≡◌ {A = Result (Name × Dict Name C)} (ok (new, insert new client clients))
              (ok (name, after)) =
            sym (rw e refl) ∙ h in
          let named : new ≡ name = ground arith in
          let added : insert new client clients ≡ after = ground arith in
          rw (← named, ← added)
            (
              get-absent clients new absent,
              get-insert new new client clients ∙ ground (arith, eq_refl new),
              rw
                  (
                    insert_fresh new client clients (get-absent clients new absent),
                    contains-last clients new client,
                  )
                  (ap ok (erase-last clients new client absent)),
            )
    ]
