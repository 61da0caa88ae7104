-- ===== src/Cases/Clients.antt =====
-- The clients of a test by name: `addClient` and `removeClient` of `BaseServerTestCase`; `retry` and
-- `joinClient` (`irctest/cases.py`).
pub mod Fresh
use irctest.Base.{
  ℕ, zero, suc, ◌+◌, max, Bool, true, false, Option, none, some, List, [], ◌∷◌, ◌++◌, map, Eq, Text,
  codes, ◌==◌, list_eq, nat_eq, contains, leb, if◌then◌else◌, ℕ_discrete,
}
use irctest.Base.Dict.{Dict, get, insert, erase, keys}
use irctest.Result.{
  Result, ok, raised, value_error, assertion_error, connection_closed, ◌>>=◌, ◌>>◌, require,
  or_raise, for_each,
}
use irctest.Message.Parse.{Message}

-- A name that a test gives to a client: a number, a string, or another object.
pub data Name : Type 0 where
  number : ℕ → Name
  word : Text → Name
  other : ℕ → Name

name_discrete : Discrete Name
unfolding ℕ_discrete
name_discrete = hlevel ℕ_discrete

instance unfoldable pub name_eq : Eq Name
unfolding name_discrete
name_eq = record { dec = name_discrete }

-- `not name`
abbrev pub is_given : Option Name → Bool
is_given none = false
is_given (some (number n)) = if n == 0 then false else true
is_given (some (word w)) = if w == [] then false else true
is_given (some (other n)) = true

-- `max(ids + [0])`
unfoldable pub greatest : List ℕ → ℕ
greatest [] = 0
greatest (n ∷ ids) = max n (greatest ids)

-- The number of a string, as Python's `int` reads it.
module _ (int : Text → Option ℕ) where
  unfoldable pub used_ids : List Name → Result (List ℕ)
  used_ids [] = ok []
  used_ids (number n ∷ names) = used_ids names >>= λ ids. ok (n ∷ ids)
  used_ids (word w ∷ names) =
      or_raise (int w) value_error >>= λ n. used_ids names >>= λ ids. ok (n ∷ ids)
  used_ids (other n ∷ names) = used_ids names

  -- `addClient`: the name, and the clients with a new one. `C` is what stands for a client.
  module _ {C : Type 0} where
    unfoldable pub add_client : Option Name → C → Dict Name C → Result (Name × Dict Name C)
    unfolding used_ids greatest insert keys name_eq list_eq nat_eq
    add_client name client clients =
        (elim name [
          | none ↦ used_ids (keys clients) >>= λ ids. ok (number (greatest ids + 1))
          | some given ↦
              (if is_given (some given)
                then ok given
                else used_ids (keys clients) >>= λ ids. ok (number (greatest ids + 1)))
        ])
        >>= λ new_name. ok (new_name, insert new_name client clients)

-- `removeClient`
unfoldable pub remove_client : {C : Type 0} → Name → Dict Name C → Result (Dict Name C)
unfolding erase keys name_eq
remove_client name clients =
    require (contains (keys clients) name) assertion_error >> ok (erase name clients)

-- `tearDown`: the clients that were there at its start are removed.
unfoldable pub remove_all : {C : Type 0} → List Name → Dict Name C → Result (Dict Name C)
unfolding remove_client
remove_all [] clients = ok clients
remove_all (name ∷ names) clients = remove_client name clients >>= λ rest. remove_all names rest

abbrev pub tear_down : {C : Type 0} → Dict Name C → Result (Dict Name C)
tear_down clients = remove_all (keys clients) clients

-- `retry`, of a function on a state: after a closed connection it is run once more, in the state
-- that it left.
abbrev pub retry : {S A : Type 0} → (S → Result A × S) → S → Result A × S
retry f s =
    let (result, t) = f s in
    elim result [ raised connection_closed ↦ f t | raised x ↦ (raised x, t) | ok a ↦ (ok a, t) ]

-- `joinClient`: the line that is sent, and whether the reply is among the messages that come back.
abbrev pub join_client : Text → List Message → Text × Result (Unit {0})
join_client channel messages = (
  codes "JOIN " ++ channel,
  require (contains (map (λ m. m.command) messages) (codes "366")) assertion_error,
)
