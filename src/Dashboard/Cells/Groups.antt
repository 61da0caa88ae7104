-- ===== src/Dashboard/Cells/Groups.antt =====
-- What `group_by` puts under a key.
use mathlib.Core.Option.{get_or}
use irctest.Base.{
  ◌≡◌, refl, ap, ◌∙◌, inl, inr, Option, none, some, List, [], ◌∷◌, ◌++◌, append_assoc, Eq, ◌==◌,
  eq_iff, select, Bool-cases,
}
use irctest.Base.Dict.{Dict, get, insert, get-insert}
use irctest.Dashboard.Cells.{add_to_groups, group_by}

-- What is under a key once more values came to it.
abbrev extended {ℓ} : {V : Type ℓ} → Option (List V) → List V → Option (List V)
extended group [] = group
extended group (v ∷ vs) = some (get_or group [] ++ (v ∷ vs))

extended-snoc {ℓ} :
    {V : Type ℓ} (group : Option (List V)) (v : V) (vs : List V)
    → extended (some (get_or group [] ++ (v ∷ []))) vs ≡ extended group (v ∷ vs)
extended-snoc group v [] = refl
extended-snoc group v (w ∷ vs) = ap some (append_assoc (get_or group []) (v ∷ []) (w ∷ vs))

-- A group is there if it has a value.
abbrev pub grouped {ℓ} : {V : Type ℓ} → List V → Option (List V)
grouped [] = none
grouped (v ∷ vs) = some (v ∷ vs)

extended-none {ℓ} : {V : Type ℓ} (vs : List V) → extended none vs ≡ grouped vs
extended-none [] = refl
extended-none (v ∷ vs) = refl

module _ {ℓ κ} {K : Type ℓ} {V : Type κ} ⦃e : Eq K⦄ (key : V → K) (k : K) where
  get-add_to_groups :
      (groups : Dict K (List V)) (vs : List V)
      → get (add_to_groups key groups vs) k ≡ extended (get groups k) (select (λ v. key v == k) vs)
  unfolding add_to_groups select
  get-add_to_groups groups [] = refl
  get-add_to_groups groups (v ∷ vs) = elim (Bool-cases (key v == k)) [
    | inl same ↦
        let equal : key v ≡ k = (eq_iff (key v) k).0 same in
        get-add_to_groups (insert (key v) (get_or (get groups (key v)) [] ++ (v ∷ [])) groups) vs
        ∙ rw (get-insert (key v) k (get_or (get groups (key v)) [] ++ (v ∷ [])) groups, same)
            (rw equal (extended-snoc (get groups k) v (select (λ v. key v == k) vs)))
    | inr other ↦
        get-add_to_groups (insert (key v) (get_or (get groups (key v)) [] ++ (v ∷ [])) groups) vs
        ∙ rw (get-insert (key v) k (get_or (get groups (key v)) [] ++ (v ∷ [])) groups, other) refl
  ]

  -- Under a key stand the values of that key, all of them and in their order, if there are any.
  pub get-group_by : (vs : List V) → get (group_by key vs) k ≡ grouped (select (λ v. key v == k) vs)
  unfolding group_by get
  get-group_by vs = get-add_to_groups [] vs ∙ extended-none (select (λ v. key v == k) vs)
