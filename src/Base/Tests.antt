-- ===== src/Base/Tests.antt =====
-- Python's comparisons. `a == b` asks the decision of an `Eq` instance, so that a case split on a
-- test leaves the equation or its negation among the facts.
use Prim.Native.Nat.{ℕ, compare, Ordering}
use mathlib.Core.Path.{◌≡◌, refl}
use mathlib.Core.Logic.{◌↔◌, ◌⊎◌, inl, inr, ite}
use mathlib.Core.Bool.{Bool, true, false, not}
use mathlib.Core.Option.{Option, none, some}
use mathlib.Core.List.{List, [], ◌∷◌}
use native.Mathlib.Decide.{ℕ_discrete}
use native.Mathlib.Omega.{arith}

abbrev pub leb : ℕ → ℕ → Bool
leb a b = elim (compare a b) [ Ordering.gt ↦ false | _ ↦ true ]

infix 1 if◌then◌else◌
abbrev pub if◌then◌else◌ {ℓ} : {A : Type ℓ} → Bool → A → A → A
if true then x else y = x
if false then x else y = y

pub record Eq {ℓ} (A : Type ℓ) : Type ℓ where
  pub dec : Discrete A

module _ {ℓ} {A : Type ℓ} ⦃e : Eq A⦄ where
  infix 50 ◌==◌ ◌!=◌
  abbrev pub ◌==◌ : A → A → Bool
  a == b = ite (e.dec a b) true false

  abbrev pub ◌!=◌ : A → A → Bool
  a != b = not (a == b)

  -- Python's `a in xs`.
  abbrev pub contains : List A → A → Bool
  contains [] a = false
  contains (x ∷ xs) a = if x == a then true else contains xs a

  pub eq_iff : (a b : A) → ((a == b) ≡ true) ↔ (a ≡ b)
  eq_iff a b = ground arith

  pub eq_refl : (a : A) → (a == a) ≡ true
  eq_refl a = ground arith

list_discrete {ℓ} : {A : Type ℓ} → Discrete A → Discrete (List A)
list_discrete d = hlevel d

option_discrete {ℓ} : {A : Type ℓ} → Discrete A → Discrete (Option A)
option_discrete d = hlevel d

instance unfoldable pub nat_eq : Eq ℕ
unfolding ℕ_discrete
nat_eq = record { dec = ℕ_discrete }

instance unfoldable pub list_eq {ℓ} : {A : Type ℓ} ⦃e : Eq A⦄ → Eq (List A)
unfolding list_discrete
list_eq ⦃e⦄ = record { dec = list_discrete e.dec }

instance unfoldable pub option_eq {ℓ} : {A : Type ℓ} ⦃e : Eq A⦄ → Eq (Option A)
unfolding option_discrete
option_eq ⦃e⦄ = record { dec = option_discrete e.dec }

pub Bool-cases : (b : Bool) → (b ≡ true) ⊎ (b ≡ false)
Bool-cases true = inl refl
Bool-cases false = inr refl

pub Option-cases {ℓ} : {A : Type ℓ} (o : Option A) → (o ≡ none) ⊎ ((a : A) × (o ≡ some a))
Option-cases none = inl refl
Option-cases (some a) = inr (a, refl)

pair_discrete {ℓ κ} : {A : Type ℓ} {B : Type κ} → Discrete A → Discrete B → Discrete (A × B)
pair_discrete d f = hlevel (d, f)

instance unfoldable pub pair_eq {ℓ κ} : {A : Type ℓ} {B : Type κ} ⦃e : Eq A⦄ ⦃f : Eq B⦄ → Eq (A × B)
unfolding pair_discrete
pair_eq ⦃e⦄ ⦃f⦄ = record { dec = pair_discrete e.dec f.dec }
