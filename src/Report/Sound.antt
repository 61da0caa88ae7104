-- ===== src/Report/Sound.antt =====
-- What is made compact can be formatted.
use irctest.Base.{
  ◌≡◌, ◌⊎◌, refl, ap, ◌∙◌, arith, inl, inr, true, false, ◌&&◌, Option, none, some, List, [], ◌∷◌,
  All, All-append, Text, ◌==◌, nat_eq, option_eq, list_eq, Bool-cases, Option-cases, if◌then◌else◌,
}
use irctest.Base.Dict.{insert}
use irctest.Result.{ok, assertion_error, ◌>>=◌, ◌>>◌, require}
use irctest.Report.{
  CompactedResult, result, compacted, Tree, leaf, dict, Branches, end, branch, Items, branches,
  visit_bottomup, visit_branches, perfect, successes, compacted_d, sum_of, others, fold_successes,
  partial_compaction, prefix_into, with_prefix, join_keys, collapse, collapse_all, all_compacted,
  have_status, compact_items, compact_dict, compact,
}
use irctest.Report.Format.{
  success_text, skipped_text, failure_text, format_leaf, format_dict, format_tree,
}
use irctest.Report.Raw.{IsRaw, AreRaw, compact_of, compact_branches, compact-eq}

-- What there is to format.
abbrev pub IsFit : CompactedResult → Type 0
IsFit c = (c.success ≡ true) ⊎ (c.nb_skipped ≡ 0)

unfoldable mutual
  pub IsCompact : Tree → Type 0
  IsCompact (leaf (result r)) = ⊥
  IsCompact (leaf (compacted c)) = IsFit c
  IsCompact (dict bs) = AreCompact bs

  pub AreCompact : Branches → Type 0
  AreCompact end = Unit
  AreCompact (branch k t bs) = IsCompact t × AreCompact bs

-- All values of a dict are compact.
abbrev pub Compact : Items → Type 0
Compact = All (λ e. IsCompact e.1)

AreCompact-branches : (d : Items) → Compact d → AreCompact (branches d)
unfolding IsCompact
AreCompact-branches [] h = tt
AreCompact-branches ((k, t) ∷ d) (h, hs) = (h, AreCompact-branches d hs)

compacted_d-Compact : (d : Items) → Compact d → Compact (compacted_d d)
unfolding compacted_d
compacted_d-Compact [] h = tt
compacted_d-Compact ((k, t) ∷ d) (h, hs) = elim (Option-cases (perfect t)) [
  | inl e ↦ rw (compacted_d, e) (h, compacted_d-Compact d hs)
  | inr (c, e) ↦ rw (compacted_d, e) (compacted_d-Compact d hs)
]

insert-Compact :
    (k : Option Text) (t : Tree) (d : Items) → IsCompact t → Compact d → Compact (insert k t d)
unfolding insert
insert-Compact k t [] f h = (f, tt)
insert-Compact k t ((j, u) ∷ d) f (h, hs) = elim (Bool-cases (j == k)) [
  | inl e ↦ rw (insert, e) (f, hs)
  | inr e ↦ rw (insert, e) (h, insert-Compact k t d f hs)
]

-- What is folded is a success with nothing skipped.
pub perfect_lem :
    (t : Tree) (c : CompactedResult)
    → perfect t ≡ some c
    → (t ≡ leaf (compacted c)) × (c.success ≡ true) × (c.nb_skipped ≡ 0)
unfolding perfect
perfect_lem (leaf (result r)) c h = absurd (ground arith)
perfect_lem (dict bs) c h = absurd (ground arith)
perfect_lem (leaf (compacted b)) c h = elim (Bool-cases (b.success && b.nb_skipped == 0)) [
  | inl e ↦
      let same : b ≡ c = ground (arith, h, e) in
      rw (← same) (refl, ground (arith, e), ground (arith, e))
  | inr e ↦ absurd (ground (arith, h, e))
]

successes-succeed : (d : Items) → All (λ e. e.1.success ≡ true) (successes d)
unfolding successes perfect
successes-succeed [] = tt
successes-succeed ((k, t) ∷ d) = elim (Option-cases (perfect t)) [
  | inl e ↦ rw (successes, e) (successes-succeed d)
  | inr (c, e) ↦ rw (successes, e) ((perfect_lem t c e).1, successes-succeed d)
]

fold_successes-Compact :
    (s : List (Option Text × CompactedResult)) (d : Items)
    → All (λ e. e.1.success ≡ true) s
    → Compact d
    → Compact (fold_successes s d)
unfolding IsCompact
fold_successes-Compact [] d a h = h
fold_successes-Compact ((k, c) ∷ []) d a h = All-append (λ e. IsCompact e.1) d _ h (inl a.0, tt)
fold_successes-Compact (s ∷ r ∷ rs) d a h = insert-Compact others _ d (inl refl) h

prefix_into-Compact :
    (key : Text) (bs : Branches) (d : Items)
    → AreCompact bs
    → Compact d
    → Compact (prefix_into key bs d)
unfolding IsCompact prefix_into
prefix_into-Compact key end d h c = c
prefix_into-Compact key (branch k t bs) d h c =
    prefix_into-Compact key bs (insert (some (join_keys key k)) t d) h.1
      (insert-Compact (some (join_keys key k)) t d h.0 c)

with_prefix-Compact : (key : Text) (bs : Branches) → AreCompact bs → Compact (with_prefix key bs)
unfolding with_prefix
with_prefix-Compact key bs h = prefix_into-Compact key bs [] h tt

collapse-Compact : (key : Text) (bs : Branches) → AreCompact bs → Compact (collapse key bs)
unfolding collapse IsCompact
collapse-Compact key (branch k (dict bs) end) h = collapse-Compact (join_keys key k) bs h.0
collapse-Compact key end h = with_prefix-Compact key end h
collapse-Compact key (branch k (leaf l) bs) h = with_prefix-Compact key (branch k (leaf l) bs) h
collapse-Compact key (branch k (dict bs) (branch j t cs)) h =
    with_prefix-Compact key (branch k (dict bs) (branch j t cs)) h

collapse_all-Compact : (d : Items) → Compact d → Compact (collapse_all d)
unfolding collapse_all IsCompact
collapse_all-Compact [] h = tt
collapse_all-Compact ((k, leaf l) ∷ []) h = h
collapse_all-Compact ((k, dict bs) ∷ []) h = collapse-Compact _ bs h.0
collapse_all-Compact ((k, leaf l) ∷ f ∷ d) h = h
collapse_all-Compact ((k, dict bs) ∷ f ∷ d) h = h

partial_compaction-IsCompact : (d : Items) → Compact d → IsCompact (partial_compaction d)
unfolding partial_compaction IsCompact
partial_compaction-IsCompact d h =
    AreCompact-branches (fold_successes (successes d) (compacted_d d)) (
      fold_successes-Compact (successes d) (compacted_d d) (successes-succeed d)
        (compacted_d-Compact d h))

all_compacted-IsFit :
    (d : Items) (cs : List CompactedResult) → Compact d → all_compacted d ≡ some cs → All IsFit cs
unfolding all_compacted IsCompact
all_compacted-IsFit [] cs h e = let same : [] ≡ cs = ground arith in rw (← same) tt
all_compacted-IsFit ((k, leaf (result r)) ∷ d) cs h e = absurd h.0
all_compacted-IsFit ((k, dict bs) ∷ d) cs h e = absurd (ground arith)
all_compacted-IsFit ((k, leaf (compacted c)) ∷ d) cs h e = elim (Option-cases (all_compacted d)) [
  | inl f ↦ absurd (ground arith)
  | inr (rest, f) ↦
      let same : c ∷ rest ≡ cs = ground arith in rw (← same) (h.0, all_compacted-IsFit d rest h.1 f)
]

-- What failed as a whole has nothing skipped.
failed-none_skipped :
    (cs : List CompactedResult)
    → All IsFit cs
    → have_status false cs ≡ true
    → sum_of (λ c. c.nb_skipped) cs ≡ 0
failed-none_skipped [] h e = refl
failed-none_skipped (c ∷ cs) (f, h) e = elim f [
  | inl good ↦ absurd (ground (arith, good, e))
  | inr none_here ↦ omega (arith, none_here, failed-none_skipped cs h (ground (arith, e)))
]

compact_items-IsCompact : (d : Items) → Compact d → IsCompact (compact_items d)
unfolding compact_items IsCompact
compact_items-IsCompact d h = elim (Option-cases (all_compacted d)) [
  | inl e ↦ rw (compact_items, e) (partial_compaction-IsCompact d h)
  | inr ([], e) ↦ rw (compact_items, e) (partial_compaction-IsCompact d h)
  | inr (c ∷ cs, e) ↦ elim (Bool-cases (have_status c.success cs)) [
    | inr f ↦ rw (compact_items, e, f) (partial_compaction-IsCompact d h)
    | inl f ↦
        rw (compact_items, e, f)
          (elim (Bool-cases c.success) [
            | inl good ↦ inl good
            | inr bad ↦ inr (
                failed-none_skipped (c ∷ cs) (all_compacted-IsFit d (c ∷ cs) h e)
                  (ground (arith, bad, f)))
          ])
  ]
]

looped-IsCompact : (d : Items) → Compact d → IsCompact (compact_items (collapse_all d))
looped-IsCompact d h = compact_items-IsCompact (collapse_all d) (collapse_all-Compact d h)

compact_dict-IsCompact : (d : Items) → Compact d → IsCompact (compact_dict d)
unfolding compact_dict
compact_dict-IsCompact [] h = looped-IsCompact [] h
compact_dict-IsCompact ((none, t) ∷ []) h = h.0
compact_dict-IsCompact ((some k, t) ∷ []) h = looped-IsCompact ((some k, t) ∷ []) h
compact_dict-IsCompact ((none, t) ∷ e ∷ d) h = looped-IsCompact ((none, t) ∷ e ∷ d) h
compact_dict-IsCompact ((some k, t) ∷ e ∷ d) h = looped-IsCompact ((some k, t) ∷ e ∷ d) h

mutual
  unfolding compact_of IsRaw IsCompact

  compact_of-IsCompact : (t : Tree) → IsRaw t → IsCompact (compact_of t)
  compact_of-IsCompact (leaf (result r)) h = ground arith
  compact_of-IsCompact (leaf (compacted c)) h = absurd h
  compact_of-IsCompact (dict bs) h = compact_dict-IsCompact _ (compact_branches-Compact bs h)

  compact_branches-Compact : (bs : Branches) → AreRaw bs → Compact (compact_branches bs)
  compact_branches-Compact end h = tt
  compact_branches-Compact (branch k t bs) h =
      (compact_of-IsCompact t h.0, compact_branches-Compact bs h.1)

format_leaf-total :
    (c : CompactedResult) → IsFit c → (s : Text) × (format_leaf (compacted c) ≡ ok s)
unfolding format_leaf nat_eq
format_leaf-total c f = elim (Bool-cases c.success) [
  | inl good ↦ (
    if c.nb_skipped == 0 then success_text c else skipped_text c,
    ap
        (λ b.
          if b
          then ok (if c.nb_skipped == 0 then success_text c else skipped_text c)
          else (require (c.nb_skipped == 0) assertion_error >> ok (failure_text c)))
        good,
  )
  | inr bad ↦
      let zero : c.nb_skipped ≡ 0 = elim f [
        | inl good ↦ absurd (ground (arith, good, bad))
        | inr z ↦ z
      ] in
      (
        failure_text c,
        ap
              (λ b.
                if b
                then ok (if c.nb_skipped == 0 then success_text c else skipped_text c)
                else (require (c.nb_skipped == 0) assertion_error >> ok (failure_text c)))
              bad
            ∙ ap (λ n. require (n == 0) assertion_error >> ok (failure_text c)) zero,
      )
]

mutual
  unfolding visit_bottomup IsCompact

  format-total :
      (t : Tree)
      → IsCompact t
      → (s : Text) × (visit_bottomup (λ d. ok (format_dict d)) format_leaf t ≡ ok s)
  format-total (leaf (result r)) h = absurd h
  format-total (leaf (compacted c)) h = format_leaf-total c h
  format-total (dict bs) h = let (es, e) = format_branches-total bs h in (format_dict es, rw e refl)

  format_branches-total :
      (bs : Branches)
      → AreCompact bs
      → (es : List (Option Text × Text)) × (visit_branches (λ d. ok (format_dict d)) format_leaf bs
          ≡ ok es)
  format_branches-total end h = ([], refl)
  format_branches-total (branch k t bs) h =
      let (s, e) = format-total t h.0 in
      let (es, f) = format_branches-total bs h.1 in ((k, s) ∷ es, rw (e, f) refl)

-- A tree of results, of which none is skipped and failed, is made compact and formatted with no
-- exception.
pub compact-format_tree : (t : Tree) → IsRaw t → (s : Text) × ((compact t >>= format_tree) ≡ ok s)
unfolding format_tree
compact-format_tree t h =
    rw (compact-eq t h) (format-total (compact_of t) (compact_of-IsCompact t h))
