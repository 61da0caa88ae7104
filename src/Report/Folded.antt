-- ===== src/Report/Folded.antt =====
-- Compacted dicts have keys that are written differently, if the dicts that they are made of have.
use irctest.Base.{
  ◌≡◌, refl, ap, ◌∙◌, arith, inl, inr, true, false, Option, none, some, List, [], ◌∷◌, ◌++◌, Text,
  codes, ◌==◌, nat_eq, option_eq, list_eq, Bool-cases, Option-cases, contains, eq_iff, eq_refl,
}
use irctest.Base.Dict.{get, insert_fresh}
use irctest.Report.{
  CompactedResult, result, compacted, Tree, leaf, dict, Branches, end, branch, Items, perfect,
  successes, compacted_d, others, fold_successes, partial_compaction, key_text, collapse_all,
  all_compacted, have_status, compact_items, compact_dict,
}
use irctest.Report.Raw.{compact_of, compact_branches}
use irctest.Report.Others.{NoOthers, AreNotOthers, collapse_all-fresh, compacted_d-fresh}
use irctest.Report.Apart.{
  IsApart, AreApart, Apart, branch_texts, texts, AreApart-branches, collapse_all-Apart,
}

texts-append : (d f : Items) → texts (d ++ f) ≡ texts d ++ texts f
texts-append [] f = refl
texts-append ((k, t) ∷ d) f = ap (λ ts. key_text k ∷ ts) (texts-append d f)

-- An entry that is put behind a dict.
Apart-behind :
    (d : Items) (k : Option Text) (l : CompactedResult)
    → Apart d
    → contains (texts d) (key_text k) ≡ false
    → Apart (d ++ ((k, leaf (compacted l)) ∷ []))
unfolding IsApart
Apart-behind [] k l h new = (refl, tt, tt)
Apart-behind ((j, u) ∷ d) k l h new = (
  ap (λ ts. contains ts (key_text j)) (texts-append d ((k, leaf (compacted l)) ∷ []))
      ∙ not_behind (texts d) (key_text j) (key_text k) h.0 (ground (arith, new)),
  h.1,
  Apart-behind d k l h.2 (ground (arith, new)),
)
  where
    not_behind :
        (ts : List Text) (j k : Text)
        → contains ts j ≡ false
        → (j == k) ≡ false
        → contains (ts ++ (k ∷ [])) j ≡ false
    not_behind [] j k g e = ground (arith, e)
    not_behind (x ∷ ts) j k g e = ground (arith, g, not_behind ts j k (ground (arith, g)) e)

compacted_d-texts :
    (d : Items) (x : Text)
    → contains (texts d) x ≡ false
    → contains (texts (compacted_d d)) x ≡ false
unfolding compacted_d
compacted_d-texts [] x h = h
compacted_d-texts ((k, t) ∷ d) x h =
    let rest = compacted_d-texts d x (ground (arith, h)) in
    elim (Option-cases (perfect t)) [
      | inl e ↦ rw (compacted_d, e) (ground (arith, h, rest))
      | inr (c, e) ↦ rw (compacted_d, e) rest
    ]

compacted_d-Apart : (d : Items) → Apart d → Apart (compacted_d d)
unfolding compacted_d
compacted_d-Apart [] h = tt
compacted_d-Apart ((k, t) ∷ d) h = elim (Option-cases (perfect t)) [
  | inl e ↦ rw (compacted_d, e) (compacted_d-texts d (key_text k) h.0, h.1, compacted_d-Apart d h.2)
  | inr (c, e) ↦ rw (compacted_d, e) (compacted_d-Apart d h.2)
]

-- A success is in the dict, and not in what is left of it.
success-texts :
    (d : Items) (k : Option Text) (c : CompactedResult)
    (rest : List (Option Text × CompactedResult))
    → successes d ≡ (k, c) ∷ rest
    → Apart d
    → (contains (texts d) (key_text k) ≡ true)
      × (contains (texts (compacted_d d)) (key_text k) ≡ false)
unfolding successes compacted_d
success-texts [] k c rest e h = absurd (ground (arith, e))
success-texts ((j, t) ∷ d) k c rest e h = elim (Option-cases (perfect t)) [
  | inr (b, f) ↦
      let same : (j, b) ∷ successes d ≡ (k, c) ∷ rest = ground (arith, e, f) in
      let key : j ≡ k = ground (arith, same) in
      rw (compacted_d, f, ← key)
        (rw (eq_refl (key_text j)) refl, compacted_d-texts d (key_text j) h.0)
  | inl f ↦
      let (there, gone) = success-texts d k c rest (ground (arith, e, f)) h.2 in
      let other : (key_text j == key_text k) ≡ false =
        elim (Bool-cases (key_text j == key_text k)) [
          | inr g ↦ g
          | inl g ↦
              let same : key_text j ≡ key_text k = (eq_iff (key_text j) (key_text k)).0 g in
              absurd (ground (arith, h.0, there, ap (contains (texts d)) same))
        ] in
      rw (compacted_d, f) (rw (other) there, rw other gone)
]

others-text : (k : Option Text) → (k == others) ≡ false → (key_text k == codes "(others)") ≡ false
unfolding option_eq list_eq nat_eq
others-text none h = refl
others-text (some s) h = ground (arith, h)

others-texts : (d : Items) → get d others ≡ none → contains (texts d) (codes "(others)") ≡ false
unfolding get
others-texts [] h = refl
others-texts ((k, t) ∷ d) h = elim (Bool-cases (k == others)) [
  | inl e ↦ absurd (ground (arith, e, h))
  | inr e ↦ rw (others-text k e) (others-texts d (ground (arith, e, h)))
]

fold_successes-Apart :
    (d : Items) (s : List (Option Text × CompactedResult))
    → successes d ≡ s
    → Apart d
    → get d others ≡ none
    → Apart (fold_successes s (compacted_d d))
fold_successes-Apart d [] e h fresh = compacted_d-Apart d h
fold_successes-Apart d ((k, c) ∷ []) e h fresh =
    Apart-behind (compacted_d d) k c (compacted_d-Apart d h) (success-texts d k c [] e h).1
fold_successes-Apart d (s ∷ r ∷ rs) e h fresh =
    rw (insert_fresh others _ (compacted_d d) (compacted_d-fresh d fresh)) (
      Apart-behind (compacted_d d) others _ (compacted_d-Apart d h)
        (others-texts (compacted_d d) (compacted_d-fresh d fresh)))

partial_compaction-IsApart :
    (d : Items) → Apart d → get d others ≡ none → IsApart (partial_compaction d)
unfolding partial_compaction IsApart
partial_compaction-IsApart d h fresh =
    AreApart-branches (fold_successes (successes d) (compacted_d d))
      (fold_successes-Apart d (successes d) refl h fresh)

compact_items-IsApart : (d : Items) → Apart d → get d others ≡ none → IsApart (compact_items d)
unfolding compact_items IsApart
compact_items-IsApart d h fresh = elim (Option-cases (all_compacted d)) [
  | inl e ↦ rw (compact_items, e) (partial_compaction-IsApart d h fresh)
  | inr ([], e) ↦ rw (compact_items, e) (partial_compaction-IsApart d h fresh)
  | inr (c ∷ cs, e) ↦ elim (Bool-cases (have_status c.success cs)) [
    | inr f ↦ rw (compact_items, e, f) (partial_compaction-IsApart d h fresh)
    | inl f ↦ rw (compact_items, e, f) tt
  ]
]

looped-IsApart :
    (d : Items) → Apart d → get d others ≡ none → IsApart (compact_items (collapse_all d))
looped-IsApart d h fresh =
    compact_items-IsApart (collapse_all d) (collapse_all-Apart d h) (collapse_all-fresh d fresh)

compact_dict-IsApart : (d : Items) → Apart d → get d others ≡ none → IsApart (compact_dict d)
unfolding compact_dict
compact_dict-IsApart [] h f = looped-IsApart [] h f
compact_dict-IsApart ((none, t) ∷ []) h f = h.1
compact_dict-IsApart ((some k, t) ∷ []) h f = looped-IsApart ((some k, t) ∷ []) h f
compact_dict-IsApart ((none, t) ∷ e ∷ d) h f = looped-IsApart ((none, t) ∷ e ∷ d) h f
compact_dict-IsApart ((some k, t) ∷ e ∷ d) h f = looped-IsApart ((some k, t) ∷ e ∷ d) h f

texts-compact_branches : (bs : Branches) → texts (compact_branches bs) ≡ branch_texts bs
unfolding compact_of
texts-compact_branches end = refl
texts-compact_branches (branch k t bs) = ap (λ ts. key_text k ∷ ts) (texts-compact_branches bs)

pub compact_branches-fresh :
    (bs : Branches) → AreNotOthers bs → get (compact_branches bs) others ≡ none
unfolding compact_of NoOthers get
compact_branches-fresh end h = refl
compact_branches-fresh (branch k t bs) h = rw (get, h.0) (compact_branches-fresh bs h.2)

mutual
  unfolding compact_of NoOthers IsApart

  compact_of-IsApart : (t : Tree) → NoOthers t → IsApart t → IsApart (compact_of t)
  compact_of-IsApart (leaf (result r)) h a = tt
  compact_of-IsApart (leaf (compacted c)) h a = tt
  compact_of-IsApart (dict bs) h a =
      compact_dict-IsApart (compact_branches bs) (compact_branches-Apart bs h a)
        (compact_branches-fresh bs h)

  pub compact_branches-Apart :
      (bs : Branches) → AreNotOthers bs → AreApart bs → Apart (compact_branches bs)
  compact_branches-Apart end h a = tt
  compact_branches-Apart (branch k t bs) h a = (
    ap (λ ts. contains ts (key_text k)) (texts-compact_branches bs) ∙ a.0,
    compact_of-IsApart t h.1 a.1,
    compact_branches-Apart bs h.2 a.2,
  )
