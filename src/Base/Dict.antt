-- ===== src/Base/Dict.antt =====
-- Python's `dict` in insertion order.
use mathlib.Core.Path.{◌≡◌, refl}
use mathlib.Core.Logic.{◌≢◌}
use mathlib.Core.Bool.{true}
use mathlib.Core.Option.{Option, none, some}
use mathlib.Core.List.{List, [], ◌∷◌, ◌++◌}
use native.Mathlib.Omega.{arith}
use irctest.Base.Tests.{Eq, ◌==◌, contains, if◌then◌else◌}

abbrev pub Dict {ℓ κ} : Type ℓ → Type κ → Type (ℓ ⊔ κ)
Dict K V = List (K × V)

module _ {ℓ κ} {K : Type ℓ} {V : Type κ} where
  unfoldable pub keys : Dict K V → List K
  keys [] = []
  keys ((k, _) ∷ d) = k ∷ keys d

module _ {ℓ κ} {K : Type ℓ} {V : Type κ} ⦃e : Eq K⦄ where
  -- `d.get(k)`
  unfoldable pub get : Dict K V → K → Option V
  get [] k = none
  get ((j, v) ∷ d) k = if j == k then some v else get d k

  -- `d[k] = v`: the entry of an old key keeps its place.
  unfoldable pub insert : K → V → Dict K V → Dict K V
  insert k v [] = (k, v) ∷ []
  insert k v ((j, w) ∷ d) = if j == k then (j, v) ∷ d else (j, w) ∷ insert k v d

  -- `d.pop(k, None)`
  unfoldable pub erase : K → Dict K V → Dict K V
  erase k [] = []
  erase k ((j, w) ∷ d) = if j == k then d else (j, w) ∷ erase k d

  abbrev pub NodupKeys : Dict K V → Type κ
  NodupKeys [] = Unit
  NodupKeys ((k, _) ∷ d) = (get d k ≡ none) × NodupKeys d

  pub get-insert :
      (k j : K) (v : V) (d : Dict K V) → get (insert k v d) j ≡ (if k == j then some v else get d j)
  unfolding get insert
  get-insert k j v [] = refl
  get-insert k j v ((i, w) ∷ d) = ground (arith, get-insert k j v d)

  pub insert_fresh :
      (k : K) (v : V) (d : Dict K V) → get d k ≡ none → insert k v d ≡ d ++ ((k, v) ∷ [])
  unfolding get insert
  insert_fresh k v [] h = refl
  insert_fresh k v ((j, w) ∷ d) h = ground (arith, insert_fresh k v d)

  pub insert-NodupKeys : (k : K) (v : V) (d : Dict K V) → NodupKeys d → NodupKeys (insert k v d)
  unfolding get insert
  insert-NodupKeys k v [] u = (refl, tt)
  insert-NodupKeys k v ((j, w) ∷ d) (fresh, u) =
      ground (arith, insert-NodupKeys k v d u, get-insert k j v d)

  pub get-append : (d f : Dict K V) (k : K) → get d k ≡ none → get (d ++ f) k ≡ get f k
  unfolding get
  get-append [] f k h = refl
  get-append ((j, w) ∷ d) f k h = ground (arith, get-append d f k)

  get-middle : (d f : Dict K V) (k : K) (v : V) → get (d ++ ((k, v) ∷ f)) k ≢ none
  unfolding get
  get-middle [] f k v = ground arith
  get-middle ((j, w) ∷ d) f k v = ground (arith, get-middle d f k v)

  -- A key is not among the entries before it.
  pub get_before : (d f : Dict K V) (k : K) (v : V) → NodupKeys (d ++ ((k, v) ∷ f)) → get d k ≡ none
  unfolding get
  get_before [] f k v u = refl
  get_before ((j, w) ∷ d) f k v u = ground (arith, get_before d f k v u.1, get-middle d f k v)

  pub get-erase :
      (k j : K) (d : Dict K V)
      → NodupKeys d
      → get (erase k d) j ≡ (if k == j then none else get d j)
  unfolding get erase
  get-erase k j [] u = ground arith
  get-erase k j ((i, w) ∷ d) u = ground (arith, get-erase k j d)

  pub erase-NodupKeys : (k : K) (d : Dict K V) → NodupKeys d → NodupKeys (erase k d)
  unfolding get erase
  erase-NodupKeys k [] u = tt
  erase-NodupKeys k ((j, w) ∷ d) u = ground (arith, erase-NodupKeys k d, get-erase k j d)

  pub contains-keys-insert :
      (k : K) (v : V) (d : Dict K V) (j : K)
      → contains (keys d) j ≡ true
      → contains (keys (insert k v d)) j ≡ true
  unfolding insert keys
  contains-keys-insert k v [] j h = absurd (ground arith)
  contains-keys-insert k v ((i, w) ∷ d) j h = ground (arith, contains-keys-insert k v d j)

  pub contains-keys-insert_same :
      (k : K) (v : V) (d : Dict K V) → contains (keys (insert k v d)) k ≡ true
  unfolding insert keys
  contains-keys-insert_same k v [] = ground arith
  contains-keys-insert_same k v ((i, w) ∷ d) = ground (arith, contains-keys-insert_same k v d)
