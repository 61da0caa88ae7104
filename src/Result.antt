-- ===== src/Result.antt =====
-- Python code that may raise: its value, or the exception that ends it.
use irctest.Base.{
  ◌≡◌, ◌↔◌, ◌⊎◌, inl, inr, arith, if◌then◌else◌, refl, Bool, true, false, Option, none, some, List,
  [], ◌∷◌,
}

-- The last is no exception of Python's: it is what a loop gives that has no fuel left.
pub data Exception : Type 0 where
  value_error assertion_error index_error key_error attribute_error type_error : Exception
  not_implemented_error connection_closed no_message_exception process_stopped : Exception
  channel_join_exception skip_test name_error unicode_decode_error failed : Exception
  timeout_expired connection_refused socket_error : Exception
  out_of_fuel : Exception

pub data Result {ℓ} (A : Type ℓ) : Type ℓ where
  ok : A → Result A
  raised : Exception → Result A

-- The continuation comes into play only where nothing was raised.
abbrev pub then_run {ℓ κ} : {A : Type ℓ} {B : Type κ} → (A → Result B) → Result A → Result B
then_run f (raised x) = raised x
then_run f (ok a) = f a

infixl 10 ◌>>=◌
abbrev pub ◌>>=◌ {ℓ κ} : {A : Type ℓ} {B : Type κ} → Result A → (A → Result B) → Result B
m >>= f = then_run f m

infixl 10 ◌>>◌
abbrev pub ◌>>◌ {κ} : {B : Type κ} → Result (Unit {0}) → Result B → Result B
first >> second = first >>= λ done. second

-- `assert test`, and `if not test: raise x`.
abbrev pub require : Bool → Exception → Result (Unit {0})
require true x = ok tt
require false x = raised x

-- A value that Python code takes to be there, and the exception where it is not.
abbrev pub or_raise {ℓ} : {A : Type ℓ} → Option A → Exception → Result A
or_raise none x = raised x
or_raise (some a) x = ok a

-- Python's `a and b` where both may raise: `b` is computed only if `a` holds.
pub and_iff :
    (r q : Result Bool)
    → ((r >>= λ m. if m then q else ok false) ≡ ok true) ↔ ((r ≡ ok true) × (q ≡ ok true))
and_iff (ok true) q = (λ h. (refl, h), λ h. h.1)
and_iff (ok false) q = ground arith
and_iff (raised x) q = ground arith

-- To split on a computed result and keep the equation.
pub Result-cases {ℓ} :
    {A : Type ℓ} (r : Result A) → ((a : A) × (r ≡ ok a)) ⊎ ((x : Exception) × (r ≡ raised x))
Result-cases (ok a) = inl (a, refl)
Result-cases (raised x) = inr (x, refl)

-- `[f(x) for x in xs]`
unfoldable pub for_each {ℓ κ} :
    {A : Type ℓ} {B : Type κ} → (A → Result B) → List A → Result (List B)
for_each f [] = ok []
for_each f (x ∷ xs) = f x >>= λ y. for_each f xs >>= λ ys. ok (y ∷ ys)

-- What holds of the value of a run, if it has one, holds if it holds of the value of what follows.
pub ensures_bind {ℓ κ μ} :
    {A : Type ℓ} {B : Type κ} (m : Result A) (f : A → Result B) (P : B → Type μ)
    → ((a : A) → m ≡ ok a → (b : B) → f a ≡ ok b → P b)
    → (b : B) → (m >>= f) ≡ ok b
    → P b
ensures_bind (ok a) f P h b e = h a refl b e
ensures_bind (raised x) f P h b e = absurd (ground arith)

pub bind_assoc {ℓ κ μ} :
    {A : Type ℓ} {B : Type κ} {C : Type μ} (m : Result A) (f : A → Result B) (g : B → Result C)
    → (m >>= λ a. f a >>= g) ≡ ((m >>= f) >>= g)
bind_assoc (ok a) f g = refl
bind_assoc (raised x) f g = refl
