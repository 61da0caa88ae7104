-- ===== src/Report/Others.antt =====
-- The key "(others)", which only the folded successes get.
use irctest.Base.{
  ℕ, ◌≡◌, refl, ◌∙◌, arith, inl, inr, true, false, Option, none, some, [], ◌∷◌, ◌++◌, Text, codes,
  ◌==◌, nat_eq, option_eq, list_eq, Bool-cases, Option-cases, contains, eq_iff,
}
use irctest.Base.Dict.{get, get-insert, insert}
use irctest.Report.{
  Tree, leaf, dict, Branches, end, branch, Items, perfect, compacted_d, others, prefix_into,
  with_prefix, join_keys, key_text, collapse, collapse_all,
}

-- No key is the one that the folded successes get.
unfoldable mutual
  pub NoOthers : Tree → Type 0
  NoOthers (leaf l) = Unit
  NoOthers (dict bs) = AreNotOthers bs

  pub AreNotOthers : Branches → Type 0
  AreNotOthers end = Unit
  AreNotOthers (branch k t bs) = ((k == others) ≡ false) × NoOthers t × AreNotOthers bs

contains-append : (s t : Text) (c : ℕ) → contains t c ≡ true → contains (s ++ t) c ≡ true
contains-append [] t c h = h
contains-append (a ∷ s) t c h = ground (arith, contains-append s t c h)

joined-not_others : (key : Text) (k : Option Text) → (some (join_keys key k) == others) ≡ false
unfolding nat_eq
joined-not_others key k = elim (Bool-cases (some (join_keys key k) == others)) [
  | inr e ↦ e
  | inl e ↦
      let same : some (join_keys key k) ≡ others = (eq_iff (some (join_keys key k)) others).0 e in
      let colon : contains (join_keys key k) 58 ≡ true =
        contains-append key (codes "::" ++ key_text k) 58 refl in
      absurd (ground (arith, same, colon))
]

prefix_into-fresh :
    (key : Text) (bs : Branches) (d : Items)
    → get d others ≡ none
    → get (prefix_into key bs d) others ≡ none
unfolding prefix_into
prefix_into-fresh key end d h = h
prefix_into-fresh key (branch k t bs) d h =
    prefix_into-fresh key bs (insert (some (join_keys key k)) t d)
      (get-insert (some (join_keys key k)) others t d ∙ rw (joined-not_others key k) h)

with_prefix-fresh : (key : Text) (bs : Branches) → get (with_prefix key bs) others ≡ none
unfolding with_prefix get
with_prefix-fresh key bs = prefix_into-fresh key bs [] refl

collapse-fresh : (key : Text) (bs : Branches) → get (collapse key bs) others ≡ none
unfolding collapse
collapse-fresh key (branch k (dict bs) end) = collapse-fresh (join_keys key k) bs
collapse-fresh key end = with_prefix-fresh key end
collapse-fresh key (branch k (leaf l) bs) = with_prefix-fresh key (branch k (leaf l) bs)
collapse-fresh key (branch k (dict bs) (branch j t cs)) =
    with_prefix-fresh key (branch k (dict bs) (branch j t cs))

pub collapse_all-fresh : (d : Items) → get d others ≡ none → get (collapse_all d) others ≡ none
unfolding collapse_all get
collapse_all-fresh [] h = h
collapse_all-fresh ((k, leaf l) ∷ []) h = h
collapse_all-fresh ((k, dict bs) ∷ []) h = collapse-fresh (key_text k) bs
collapse_all-fresh ((k, leaf l) ∷ f ∷ d) h = h
collapse_all-fresh ((k, dict bs) ∷ f ∷ d) h = h

pub compacted_d-fresh : (d : Items) → get d others ≡ none → get (compacted_d d) others ≡ none
unfolding compacted_d get
compacted_d-fresh [] h = refl
compacted_d-fresh ((k, t) ∷ d) h = elim (Bool-cases (k == others)) [
  | inl same ↦ absurd (ground (arith, same, h))
  | inr other ↦
      let rest : get (compacted_d d) others ≡ none =
        compacted_d-fresh d (ground (arith, other, h)) in
      elim (Option-cases (perfect t)) [
        | inl e ↦ rw (compacted_d, e, get, other) rest
        | inr (c, e) ↦ rw (compacted_d, e) rest
      ]
]
