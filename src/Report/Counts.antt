-- ===== src/Report/Counts.antt =====
-- What `compact_results` does to the numbers of results.
use irctest.Base.{
  ℕ, ◌+◌, ◌≡◌, refl, ap, sym, ◌∙◌, arith, inl, inr, Bool, true, Option, none, some, List, [], ◌∷◌,
  ◌++◌, All, Text, nat_eq, option_eq, list_eq, Bool-cases, Option-cases, if◌then◌else◌,
}
use irctest.Base.Dict.{get, insert_fresh}
use irctest.Report.{
  CompactedResult, result, compacted, Tree, leaf, dict, Branches, end, branch, Items, branches,
  perfect, successes, compacted_d, sum_of, others, fold_successes, partial_compaction, with_prefix,
  join_keys, key_text, collapse, collapse_all, all_compacted, have_status, compact_items,
  compact_dict, compact_result, compact,
}
use irctest.Result.{ok}
use irctest.Report.Raw.{IsRaw, compact_of, compact_branches, compact-eq}
use irctest.Report.Others.{NoOthers, AreNotOthers, collapse_all-fresh, compacted_d-fresh}
use irctest.Report.Apart.{IsApart, AreApart, Apart, joined, with_prefix-joined}
use irctest.Report.Folded.{compact_branches-fresh, compact_branches-Apart}
use irctest.Report.Sound.{perfect_lem}

-- A number of each result, summed.
unfoldable mutual
  pub total : (CompactedResult → ℕ) → Tree → ℕ
  total w (leaf (result r)) = w (compact_result r)
  total w (leaf (compacted c)) = w c
  total w (dict bs) = total_branches w bs

  pub total_branches : (CompactedResult → ℕ) → Branches → ℕ
  total_branches w end = 0
  total_branches w (branch k t bs) = total w t + total_branches w bs

abbrev pub total_items : (CompactedResult → ℕ) → Items → ℕ
total_items w [] = 0
total_items w ((k, t) ∷ d) = total w t + total_items w d

module _ (w : CompactedResult → ℕ) where
  pub total-branches : (d : Items) → total_branches w (branches d) ≡ total_items w d
  unfolding total
  total-branches [] = refl
  total-branches ((k, t) ∷ d) = ap (λ n. total w t + n) (total-branches d)

  total_items-append : (d f : Items) → total_items w (d ++ f) ≡ total_items w d + total_items w f
  total_items-append [] f = omega arith
  total_items-append ((k, t) ∷ d) f = omega (arith, total_items-append d f)

  total-joined : (key : Text) (bs : Branches) → total_items w (joined key bs) ≡ total_branches w bs
  unfolding total
  total-joined key end = refl
  total-joined key (branch k t bs) = ap (λ n. total w t + n) (total-joined key bs)

  total-with_prefix :
      (key : Text) (bs : Branches)
      → AreApart bs
      → total_items w (with_prefix key bs) ≡ total_branches w bs
  total-with_prefix key bs h =
      ap (total_items w) (with_prefix-joined key bs h) ∙ total-joined key bs

  total-collapse :
      (key : Text) (bs : Branches)
      → AreApart bs
      → total_items w (collapse key bs) ≡ total_branches w bs
  unfolding collapse total IsApart
  total-collapse key (branch k (dict bs) end) h =
      omega (arith, total-collapse (join_keys key k) bs h.1)
  total-collapse key end h = total-with_prefix key end h
  total-collapse key (branch k (leaf l) bs) h = total-with_prefix key (branch k (leaf l) bs) h
  total-collapse key (branch k (dict bs) (branch j t cs)) h =
      total-with_prefix key (branch k (dict bs) (branch j t cs)) h

  total-collapse_all : (d : Items) → Apart d → total_items w (collapse_all d) ≡ total_items w d
  unfolding collapse_all total IsApart
  total-collapse_all [] h = refl
  total-collapse_all ((k, leaf l) ∷ []) h = refl
  total-collapse_all ((k, dict bs) ∷ []) h = omega (arith, total-collapse (key_text k) bs h.1)
  total-collapse_all ((k, leaf l) ∷ f ∷ d) h = refl
  total-collapse_all ((k, dict bs) ∷ f ∷ d) h = refl

  total-successes :
      (d : Items)
      → total_items w (compacted_d d) + sum_of (λ e. w e.1) (successes d) ≡ total_items w d
  unfolding successes compacted_d total
  total-successes [] = refl
  total-successes ((k, t) ∷ d) = elim (Option-cases (perfect t)) [
    | inl e ↦ rw (compacted_d, successes, e) (omega (arith, total-successes d))
    | inr (c, e) ↦
        let known : total w t ≡ w c = ap (total w) (perfect_lem t c e).0 in
        rw (compacted_d, successes, e) (omega (arith, known, total-successes d))
  ]

-- What is folded: successes with nothing skipped.
successes-perfect :
    (d : Items) → All (λ e. (e.1.success ≡ true) × (e.1.nb_skipped ≡ 0)) (successes d)
unfolding successes
successes-perfect [] = tt
successes-perfect ((k, t) ∷ d) = elim (Option-cases (perfect t)) [
  | inl e ↦ rw (successes, e) (successes-perfect d)
  | inr (c, e) ↦
      rw (successes, e) (((perfect_lem t c e).1, (perfect_lem t c e).2), successes-perfect d)
]

-- A number of a result that is the sum of those of the results it is made of.
module _ (v : Bool → ℕ → ℕ → ℕ)
    (add : (s : Bool) (a b m n : ℕ) → v s (a + b) (m + n) ≡ v s a m + v s b n)
    (zero : (s : Bool) → v s 0 0 ≡ 0) where
  abbrev weight : CompactedResult → ℕ
  weight c = v c.success c.count c.nb_skipped

  sum-perfect :
      (s : List (Option Text × CompactedResult))
      → All (λ e. (e.1.success ≡ true) × (e.1.nb_skipped ≡ 0)) s
      → v true (sum_of (λ e. e.1.count) s) 0 ≡ sum_of (λ e. weight e.1) s
  sum-perfect [] h = zero true
  sum-perfect ((k, c) ∷ s) (h, hs) =
      add true c.count (sum_of (λ e. e.1.count) s) 0 0
      ∙ ap (λ n. v true c.count 0 + n) (sum-perfect s hs)
      ∙ rw (h.0, h.1) refl

  total-fold :
      (s : List (Option Text × CompactedResult)) (d : Items)
      → All (λ e. (e.1.success ≡ true) × (e.1.nb_skipped ≡ 0)) s
      → get d others ≡ none
      → total_items weight (fold_successes s d) ≡ total_items weight d + sum_of (λ e. weight e.1) s
  unfolding total
  total-fold [] d h fresh = omega arith
  total-fold ((k, c) ∷ []) d h fresh = total_items-append weight d ((k, leaf (compacted c)) ∷ [])
  total-fold (s ∷ r ∷ rs) d h fresh =
      ap (total_items weight) (insert_fresh others _ d fresh)
      ∙ total_items-append weight d _
      ∙ ap (λ n. total_items weight d + (n + 0)) (sum-perfect (s ∷ r ∷ rs) h)
      ∙ omega arith

  total-partial_compaction :
      (d : Items) → get d others ≡ none → total weight (partial_compaction d) ≡ total_items weight d
  unfolding partial_compaction total
  total-partial_compaction d fresh =
      total-branches weight (fold_successes (successes d) (compacted_d d))
      ∙ total-fold (successes d) (compacted_d d) (successes-perfect d) (compacted_d-fresh d fresh)
      ∙ total-successes weight d

  total-all_compacted :
      (d : Items) (cs : List CompactedResult)
      → all_compacted d ≡ some cs
      → total_items weight d ≡ sum_of weight cs
  unfolding all_compacted total
  total-all_compacted [] cs e = let same : [] ≡ cs = ground arith in rw (← same) refl
  total-all_compacted ((k, leaf (result r)) ∷ d) cs e = absurd (ground arith)
  total-all_compacted ((k, dict bs) ∷ d) cs e = absurd (ground arith)
  total-all_compacted ((k, leaf (compacted c)) ∷ d) cs e = elim (Option-cases (all_compacted d)) [
    | inl f ↦ absurd (ground arith)
    | inr (rest, f) ↦
        let same : c ∷ rest ≡ cs = ground arith in
        rw (← same) (ap (λ n. weight c + n) (total-all_compacted d rest f))
  ]

  weight-merged :
      (status : Bool) (cs : List CompactedResult)
      → have_status status cs ≡ true
      → v status (sum_of (λ c. c.count) cs) (sum_of (λ c. c.nb_skipped) cs) ≡ sum_of weight cs
  weight-merged status [] h = zero status
  weight-merged status (c ∷ cs) h =
      let same : status ≡ c.success = ground (arith, h) in
      add status c.count _ c.nb_skipped _
      ∙ ap (λ n. v status c.count c.nb_skipped + n) (weight-merged status cs (ground (arith, h)))
      ∙ ap (λ b. v b c.count c.nb_skipped + sum_of weight cs) same

  total-compact_items :
      (d : Items) → get d others ≡ none → total weight (compact_items d) ≡ total_items weight d
  unfolding compact_items total
  total-compact_items d fresh = elim (Option-cases (all_compacted d)) [
    | inl e ↦ rw (compact_items, e) (total-partial_compaction d fresh)
    | inr ([], e) ↦ rw (compact_items, e) (total-partial_compaction d fresh)
    | inr (c ∷ cs, e) ↦ elim (Bool-cases (have_status c.success cs)) [
      | inr f ↦ rw (compact_items, e, f) (total-partial_compaction d fresh)
      | inl f ↦
          rw (compact_items, e, f)
            (weight-merged c.success (c ∷ cs) (ground (arith, f))
              ∙ sym (total-all_compacted d (c ∷ cs) e))
    ]
  ]

  total-looped :
      (d : Items)
      → Apart d
      → get d others ≡ none
      → total weight (compact_items (collapse_all d)) ≡ total_items weight d
  total-looped d h fresh =
      total-compact_items (collapse_all d) (collapse_all-fresh d fresh)
      ∙ total-collapse_all weight d h

  total-compact_dict :
      (d : Items)
      → Apart d
      → get d others ≡ none
      → total weight (compact_dict d) ≡ total_items weight d
  unfolding compact_dict
  total-compact_dict [] h f = total-looped [] h f
  total-compact_dict ((none, t) ∷ []) h f = omega arith
  total-compact_dict ((some k, t) ∷ []) h f = total-looped ((some k, t) ∷ []) h f
  total-compact_dict ((none, t) ∷ e ∷ d) h f = total-looped ((none, t) ∷ e ∷ d) h f
  total-compact_dict ((some k, t) ∷ e ∷ d) h f = total-looped ((some k, t) ∷ e ∷ d) h f

  mutual
    unfolding compact_of NoOthers IsApart total

    total-compact :
        (t : Tree) → NoOthers t → IsApart t → total weight (compact_of t) ≡ total weight t
    total-compact (leaf (result r)) h a = refl
    total-compact (leaf (compacted c)) h a = refl
    total-compact (dict bs) h a =
        total-compact_dict (compact_branches bs) (compact_branches-Apart bs h a)
          (compact_branches-fresh bs h)
        ∙ total-compact_branches bs h a

    total-compact_branches :
        (bs : Branches)
        → AreNotOthers bs
        → AreApart bs
        → total_items weight (compact_branches bs) ≡ total_branches weight bs
    total-compact_branches end h a = refl
    total-compact_branches (branch k t bs) h a =
        omega (arith, total-compact t h.1 a.1, total-compact_branches bs h.2 a.2)

abbrev pub failed_count : CompactedResult → ℕ
failed_count c = if c.success then 0 else c.count

-- A tree of results is made compact with no exception, and if no key of it is "(others)" and the
-- keys of each dict are written differently, the counts of the compacted results sum up to the number of results, their numbers of skipped results to the
-- number of skipped ones, and the counts of those that failed to the number of results that failed.
pub compact-total :
    (t : Tree)
    → IsRaw t
    → NoOthers t
    → IsApart t
    → (u : Tree) × (compact t ≡ ok u)
      × (total (λ c. c.count) u ≡ total (λ c. c.count) t)
      × (total (λ c. c.nb_skipped) u ≡ total (λ c. c.nb_skipped) t)
      × (total failed_count u ≡ total failed_count t)
compact-total t raw h apart = (
  compact_of t,
  compact-eq t raw,
  total-compact (λ s a m. a) (λ s a b m n. refl) (λ s. refl) t h apart,
  total-compact (λ s a m. m) (λ s a b m n. refl) (λ s. refl) t h apart,
  total-compact (λ s a m. if s then 0 else a) (λ s a b m n. ground arith) (λ s. ground arith) t h
      apart,
)
