-- ===== src/Base/Splitting.antt =====
-- Laws of the string methods: cutting and splitting against joining.
use mathlib.Core.Path.{◌≡◌, refl, ap, ◌∙◌}
use mathlib.Core.Logic.{◌≢◌, inl, inr}
use mathlib.Core.Bool.{Bool, true, false}
use mathlib.Core.Option.{none, some}
use mathlib.Core.List.{List, [], ◌∷◌, ◌++◌}
use Prim.Native.Nat.{ℕ}
use native.Mathlib.Omega.{arith}
use irctest.Base.Tests.{◌==◌, nat_eq, eq_refl, Bool-cases, Option-cases}
use irctest.Base.Lists.{All, All-append}
use irctest.Base.Strings.{Text, strip_prefix, cut, split_by, first_word, non_empty, join}

-- No code point of the text passes the test.
abbrev pub Lacks : (ℕ → Bool) → Text → Type 0
Lacks p = All (λ c. p c ≡ false)

abbrev pub is : ℕ → ℕ → Bool
is sep c = c == sep

module _ (p : ℕ → Bool) where
  pub split_by-append :
      (w : Text) (c : ℕ) (s : Text)
      → Lacks p w
      → p c ≡ true
      → split_by p (w ++ (c ∷ s)) ≡ w ∷ split_by p s
  unfolding split_by
  split_by-append [] c s lacks here = rw here
  split_by-append (x ∷ w) c s lacks here = rw (lacks.0, split_by-append w c s lacks.1 here)

  pub split_by_none : (w : Text) → Lacks p w → split_by p w ≡ w ∷ []
  unfolding split_by
  split_by_none [] lacks = refl
  split_by_none (x ∷ w) lacks = rw (lacks.0, split_by_none w lacks.1)

  -- Pieces with no separator in them are found again in what `join` makes of them.
  pub split_by-join :
      (c : ℕ) (w : Text) (ws : List Text)
      → p c ≡ true
      → All (Lacks p) (w ∷ ws)
      → split_by p (join (c ∷ []) (w ∷ ws)) ≡ w ∷ ws
  unfolding join
  split_by-join c w [] here lacks = split_by_none w lacks.0
  split_by-join c w (v ∷ ws) here lacks =
      split_by-append w c (join (c ∷ []) (v ∷ ws)) lacks.0 here
      ∙ ap (λ r. w ∷ r) (split_by-join c v ws here lacks.1)

  first_word-Lacks :
      (x : ℕ) (ws : List Text) → p x ≡ false → All (Lacks p) ws → All (Lacks p) (first_word x ws)
  first_word-Lacks x [] h lacks = ((h, tt), tt)
  first_word-Lacks x (w ∷ ws) h lacks = ((h, lacks.0), lacks.1)

  pub split_by-Lacks : (s : Text) → All (Lacks p) (split_by p s)
  unfolding split_by
  split_by-Lacks [] = (tt, tt)
  split_by-Lacks (x ∷ s) = elim (Bool-cases (p x)) [
    | inl h ↦ rw h (tt, split_by-Lacks s)
    | inr h ↦ rw h (first_word-Lacks x _ h (split_by-Lacks s))
  ]

pub non_empty_id : (ws : List Text) → All (λ w. w ≢ []) ws → non_empty ws ≡ ws
unfolding non_empty
non_empty_id [] h = refl
non_empty_id ([] ∷ ws) h = absurd (h.0 refl)
non_empty_id ((c ∷ w) ∷ ws) h = ap (λ r. (c ∷ w) ∷ r) (non_empty_id ws h.1)

pub non_empty-All {κ} : (P : Text → Type κ) (ws : List Text) → All P ws → All P (non_empty ws)
unfolding non_empty
non_empty-All P [] h = h
non_empty-All P ([] ∷ ws) h = non_empty-All P ws h.1
non_empty-All P ((c ∷ w) ∷ ws) h = (h.0, non_empty-All P ws h.1)

pub non_empty-ne : (ws : List Text) → All (λ w. w ≢ []) (non_empty ws)
unfolding non_empty
non_empty-ne [] = tt
non_empty-ne ([] ∷ ws) = non_empty-ne ws
non_empty-ne ((c ∷ w) ∷ ws) = (λ e. cc, non_empty-ne ws)

pub strip_prefix-append : (p s : Text) → strip_prefix p (p ++ s) ≡ some s
unfolding strip_prefix
strip_prefix-append [] s = refl
strip_prefix-append (c ∷ p) s = rw (eq_refl c) (strip_prefix-append p s)

pub strip_prefix_sound : (p s r : Text) → strip_prefix p s ≡ some r → s ≡ p ++ r
unfolding strip_prefix
strip_prefix_sound [] s r h = ground arith
strip_prefix_sound (c ∷ p) [] r h = cc
strip_prefix_sound (c ∷ p) (x ∷ s) r h = ground (arith, strip_prefix_sound p s r)

-- The first occurrence of a character is where the text before it has none.
pub cut-append :
    (sep : ℕ) (a b : Text) → Lacks (is sep) a → cut (sep ∷ []) (a ++ (sep ∷ b)) ≡ some (a, b)
unfolding cut
cut-append sep [] b lacks = ground arith
cut-append sep (x ∷ a) b lacks = ground (arith, cut-append sep a b lacks.1)

pub cut-none : (sep : ℕ) (a : Text) → Lacks (is sep) a → cut (sep ∷ []) a ≡ none
unfolding cut
cut-none sep [] lacks = refl
cut-none sep (x ∷ a) lacks = ground (arith, cut-none sep a lacks.1)

-- What is cut out is the text again.
pub cut_sound : (sep s a b : Text) → cut sep s ≡ some (a, b) → s ≡ a ++ (sep ++ b)
unfolding cut
cut_sound sep [] a b h = cc
cut_sound sep (c ∷ s) a b h = elim (Option-cases (strip_prefix sep (c ∷ s))) [
  | inl e ↦ elim (Option-cases (cut sep s)) [
    | inl f ↦ ground arith
    | inr (q, f) ↦ ground (arith, cut_sound sep s q.0 q.1 f)
  ]
  | inr (r, e) ↦ ground (arith, strip_prefix_sound sep (c ∷ s) r e)
]

abbrev pub occurs : Text → Text → Bool
occurs sep s = elim (cut sep s) [ none ↦ false | some parts ↦ true ]

module _ {κ} (P : ℕ → Type κ) where
  pub All-join : (sep : Text) (ws : List Text) → All P sep → All (All P) ws → All P (join sep ws)
  unfolding join
  All-join sep [] hs h = tt
  All-join sep (w ∷ []) hs h = h.0
  All-join sep (w ∷ v ∷ ws) hs h =
      All-append P w _ h.0 (All-append P sep _ hs (All-join sep (v ∷ ws) hs h.1))
