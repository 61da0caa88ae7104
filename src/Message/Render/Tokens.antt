-- ===== src/Message/Render/Tokens.antt =====
-- `tokens` reads the words of a rendered line.
use irctest.Base.{
  ◌≡◌, ◌≢◌, refl, ap, ◌∙◌, none, some, inl, inr, List, [], ◌∷◌, ◌++◌, append-nil, Text, codes,
  arith, nat_eq, cut, split, non_empty, split_by-append, split_by_none, Lacks, is, Option-cases,
}
use irctest.Message.Parse.{tokens}
use irctest.Message.Render.{IsWord, AreParams, render_params}

-- A word may stand before the words of a line. It is not empty, and has no space.
abbrev pub IsToken : Text → Type 0
IsToken w = (w ≢ []) × Lacks (is 32) w

-- The text behind a space is no trailing parameter.
abbrev pub IsMiddle : Text → Type 0
IsMiddle [] = Unit {0}
IsMiddle (c ∷ s) = c ≢ 58

cut_space : (s : Text) → IsMiddle s → (cut (codes " :") s ≡ none) → cut (codes " :") (32 ∷ s) ≡ none
unfolding cut
cut_space [] m h = refl
cut_space (c ∷ s) m h = ground arith

cut_space_some :
    (s a b : Text)
    → IsMiddle s
    → cut (codes " :") s ≡ some (a, b)
    → cut (codes " :") (32 ∷ s) ≡ some (32 ∷ a, b)
unfolding cut
cut_space_some [] a b m h = cc
cut_space_some (c ∷ s) a b m h = ground arith

module _ (s : Text) where
  cut_word_none :
      (w : Text) → Lacks (is 32) w → cut (codes " :") s ≡ none → cut (codes " :") (w ++ s) ≡ none
  unfolding cut
  cut_word_none [] lacks h = h
  cut_word_none (c ∷ w) lacks h = ground (arith, cut_word_none w lacks.1 h)

  cut_word_some :
      (w a b : Text)
      → Lacks (is 32) w
      → cut (codes " :") s ≡ some (a, b)
      → cut (codes " :") (w ++ s) ≡ some (w ++ a, b)
  unfolding cut
  cut_word_some [] a b lacks h = h
  cut_word_some (c ∷ w) a b lacks h = ground (arith, cut_word_some w a b lacks.1 h)

non_empty-cons : (w : Text) (ws : List Text) → w ≢ [] → non_empty (w ∷ ws) ≡ w ∷ non_empty ws
unfolding non_empty
non_empty-cons [] ws h = absurd (h refl)
non_empty-cons (c ∷ w) ws h = refl

words_step :
    (w s : Text) → IsToken w → non_empty (split b' ' (w ++ (32 ∷ s))) ≡ w ∷ non_empty (split b' ' s)
unfolding split
words_step w s t =
    ground (
      arith,
      split_by-append (is 32) w 32 s t.1 (ground arith),
      non_empty-cons w (split b' ' s) t.0,
    )

words_last : (w : Text) → IsToken w → non_empty (split b' ' w) ≡ w ∷ []
unfolding split non_empty
words_last w t = ground (arith, split_by_none (is 32) w t.1, non_empty-cons w [] t.0)

-- A word and a space in front of a line are one more token.
pub tokens-append : (w s : Text) → IsToken w → IsMiddle s → tokens (w ++ (32 ∷ s)) ≡ w ∷ tokens s
unfolding tokens
tokens-append w s t m = elim (Option-cases (cut (codes " :") s)) [
  | inl h ↦ ground (arith, cut_word_none (32 ∷ s) w t.1 (cut_space s m h), words_step w s t)
  | inr (q, h) ↦ ground (
    arith,
    cut_word_some (32 ∷ s) w (32 ∷ q.0) q.1 t.1 (cut_space_some s q.0 q.1 m h),
    words_step w q.0 t,
  )
]

cut_word : (w : Text) → Lacks (is 32) w → cut (codes " :") w ≡ none
unfolding cut
cut_word w lacks = rw append-nil at (cut_word_none [] w lacks refl)

pub tokens-last : (w : Text) → IsToken w → tokens w ≡ w ∷ []
unfolding tokens
tokens-last w t = ground (arith, cut_word w t.1, words_last w t)

cut_trailing : (p : Text) → cut (codes " :") (codes " :" ++ p) ≡ some ([], p)
unfolding cut
cut_trailing p = refl

pub tokens-trailing : (w p : Text) → IsToken w → tokens (w ++ (codes " :" ++ p)) ≡ w ∷ p ∷ []
unfolding tokens
tokens-trailing w p t = ground (
  arith,
  cut_word_some (codes " :" ++ p) w [] p t.1 (cut_trailing p),
  append-nil w,
  words_last w t,
)

pub IsToken-of_IsWord : (w : Text) → IsWord w → IsToken w
IsToken-of_IsWord [] h = absurd h
IsToken-of_IsWord (c ∷ w) h = (λ e. cc, h.1)

pub IsMiddle-of_IsWord : (w s : Text) → IsWord w → IsMiddle (w ++ s)
IsMiddle-of_IsWord [] s h = absurd h
IsMiddle-of_IsWord (c ∷ w) s h = h.0

-- A word and the parameters that are written behind it are read back.
pub tokens-render_params :
    (w : Text) (ps : List Text) → IsToken w → AreParams ps → tokens (w ++ render_params ps) ≡ w ∷ ps
tokens-render_params w [] t h = rw append-nil (tokens-last w t)
tokens-render_params w (p ∷ []) t h = tokens-trailing w p t
tokens-render_params w (p ∷ q ∷ ps) t h =
    tokens-append w (p ++ render_params (q ∷ ps)) t (IsMiddle-of_IsWord p _ h.0)
    ∙ ap (λ r. w ∷ r) (tokens-render_params p (q ∷ ps) (IsToken-of_IsWord p h.0) h.1)
