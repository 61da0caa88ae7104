-- ===== src/Report/Apart.antt =====
-- Trees whose keys differ as they are written in strings, so that no two collapse into one.
use irctest.Base.{
  ◌≡◌, refl, ap, sym, ◌∙◌, arith, inl, inr, false, Option, none, some, List, [], ◌∷◌, ◌++◌,
  append_assoc, append-nil, Text, codes, ◌==◌, nat_eq, option_eq, list_eq, Bool-cases, contains,
  eq_iff,
}
use irctest.Base.Dict.{get, get-append, insert_fresh}
use irctest.Report.{
  Tree, leaf, dict, Branches, end, branch, Items, branches, prefix_into, with_prefix, join_keys,
  key_text, collapse, collapse_all,
}

abbrev pub branch_texts : Branches → List Text
branch_texts end = []
branch_texts (branch k t bs) = key_text k ∷ branch_texts bs

abbrev pub texts : Items → List Text
texts [] = []
texts ((k, t) ∷ d) = key_text k ∷ texts d

-- The keys of each dict are written differently.
unfoldable mutual
  pub IsApart : Tree → Type 0
  IsApart (leaf l) = Unit
  IsApart (dict bs) = AreApart bs

  pub AreApart : Branches → Type 0
  AreApart end = Unit
  AreApart (branch k t bs) =
      (contains (branch_texts bs) (key_text k) ≡ false) × IsApart t × AreApart bs

abbrev pub Apart : Items → Type 0
Apart [] = Unit
Apart ((k, t) ∷ d) = (contains (texts d) (key_text k) ≡ false) × IsApart t × Apart d

branch_texts-branches : (d : Items) → branch_texts (branches d) ≡ texts d
branch_texts-branches [] = refl
branch_texts-branches ((k, t) ∷ d) = ap (λ ts. key_text k ∷ ts) (branch_texts-branches d)

pub AreApart-branches : (d : Items) → Apart d → AreApart (branches d)
unfolding IsApart
AreApart-branches [] h = tt
AreApart-branches ((k, t) ∷ d) h = (
  ap (λ ts. contains ts (key_text k)) (branch_texts-branches d) ∙ h.0,
  h.1,
  AreApart-branches d h.2,
)

-- A dict with new keys behind its own.
abbrev pub joined : Text → Branches → Items
joined key end = []
joined key (branch k t bs) = (some (join_keys key k), t) ∷ joined key bs

cancel : (key s t : Text) → key ++ s ≡ key ++ t → s ≡ t
cancel [] s t h = h
cancel (c ∷ key) s t h = cancel key s t (ground (arith, h))

eq-of_iff : (a b c d : Text) → (a ≡ b → c ≡ d) → (c ≡ d → a ≡ b) → (a == b) ≡ (c == d)
eq-of_iff a b c d f g = elim (Bool-cases (a == b)) [
  | inl e ↦ elim (Bool-cases (c == d)) [
    | inl k ↦ e ∙ sym k
    | inr k ↦ absurd (ground (arith, k, f ((eq_iff a b).0 e)))
  ]
  | inr e ↦ elim (Bool-cases (c == d)) [
    | inl k ↦ absurd (ground (arith, e, g ((eq_iff c d).0 k)))
    | inr k ↦ e ∙ sym k
  ]
]

join_keys-injective :
    (key : Text) (j k : Option Text)
    → (join_keys key j == join_keys key k) ≡ (key_text j == key_text k)
join_keys-injective key j k =
    eq-of_iff (join_keys key j) (join_keys key k) (key_text j) (key_text k)
      (λ e.
        cancel (codes "::") (key_text j) (key_text k)
          (cancel key (codes "::" ++ key_text j) (codes "::" ++ key_text k) e))
      (λ e. ap (λ s. key ++ (codes "::" ++ s)) e)

-- No key of the branches, joined, is a key of the dict.
abbrev Missing : Items → Text → Branches → Type 0
Missing d key end = Unit
Missing d key (branch k t bs) = (get d (some (join_keys key k)) ≡ none) × Missing d key bs

get-other : (j k : Text) (t : Tree) → (j == k) ≡ false → get ((some j, t) ∷ []) (some k) ≡ none
unfolding get
get-other j k t h = ground (arith, h)

Missing-append :
    (d : Items) (key : Text) (k : Option Text) (t : Tree) (bs : Branches)
    → contains (branch_texts bs) (key_text k) ≡ false
    → Missing d key bs
    → Missing (d ++ ((some (join_keys key k), t) ∷ [])) key bs
Missing-append d key k t end h m = tt
Missing-append d key k t (branch j u bs) h m =
    let other : (key_text j == key_text k) ≡ false = ground (arith, h) in
    let turned : (key_text k == key_text j) ≡ false = ground (arith, other) in
    (
      get-append d ((some (join_keys key k), t) ∷ []) (some (join_keys key j)) m.0
          ∙ get-other (join_keys key k) (join_keys key j) t (join_keys-injective key k j ∙ turned),
      Missing-append d key k t bs (ground (arith, h)) m.1,
    )

prefix_into-joined :
    (key : Text) (bs : Branches) (d : Items)
    → AreApart bs
    → Missing d key bs
    → prefix_into key bs d ≡ d ++ joined key bs
unfolding prefix_into IsApart
prefix_into-joined key end d h m = sym (append-nil d)
prefix_into-joined key (branch k t bs) d h m =
    ap (prefix_into key bs) (insert_fresh (some (join_keys key k)) t d m.0)
    ∙ prefix_into-joined key bs (d ++ ((some (join_keys key k), t) ∷ [])) h.2
        (Missing-append d key k t bs h.0 m.1)
    ∙ append_assoc d ((some (join_keys key k), t) ∷ []) (joined key bs)

Missing-nil : (key : Text) (bs : Branches) → Missing [] key bs
unfolding get
Missing-nil key end = tt
Missing-nil key (branch k t bs) = (refl, Missing-nil key bs)

-- With keys that are written differently, the comprehension keeps all entries.
pub with_prefix-joined :
    (key : Text) (bs : Branches) → AreApart bs → with_prefix key bs ≡ joined key bs
unfolding with_prefix
with_prefix-joined key bs h = prefix_into-joined key bs [] h (Missing-nil key bs)

contains-joined :
    (key : Text) (k : Option Text) (bs : Branches)
    → contains (texts (joined key bs)) (join_keys key k) ≡ contains (branch_texts bs) (key_text k)
contains-joined key k end = refl
contains-joined key k (branch j t bs) =
    rw (join_keys-injective key j k, contains-joined key k bs) refl

joined-Apart : (key : Text) (bs : Branches) → AreApart bs → Apart (joined key bs)
unfolding IsApart
joined-Apart key end h = tt
joined-Apart key (branch k t bs) h = (contains-joined key k bs ∙ h.0, h.1, joined-Apart key bs h.2)

with_prefix-Apart : (key : Text) (bs : Branches) → AreApart bs → Apart (with_prefix key bs)
with_prefix-Apart key bs h = rw (with_prefix-joined key bs h) (joined-Apart key bs h)

collapse-Apart : (key : Text) (bs : Branches) → AreApart bs → Apart (collapse key bs)
unfolding collapse IsApart
collapse-Apart key (branch k (dict bs) end) h = collapse-Apart (join_keys key k) bs h.1
collapse-Apart key end h = with_prefix-Apart key end h
collapse-Apart key (branch k (leaf l) bs) h = with_prefix-Apart key (branch k (leaf l) bs) h
collapse-Apart key (branch k (dict bs) (branch j t cs)) h =
    with_prefix-Apart key (branch k (dict bs) (branch j t cs)) h

pub collapse_all-Apart : (d : Items) → Apart d → Apart (collapse_all d)
unfolding collapse_all IsApart
collapse_all-Apart [] h = h
collapse_all-Apart ((k, leaf l) ∷ []) h = h
collapse_all-Apart ((k, dict bs) ∷ []) h = collapse-Apart (key_text k) bs h.1
collapse_all-Apart ((k, leaf l) ∷ f ∷ d) h = h
collapse_all-Apart ((k, dict bs) ∷ f ∷ d) h = h
