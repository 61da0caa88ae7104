-- ===== src/Report/Raw.antt =====
-- `compact_results` over a tree of results, with no exceptions.
use irctest.Base.{◌≡◌, ◌⊎◌, refl, true, false, [], ◌∷◌, nat_eq, option_eq, list_eq}
use irctest.Result.{ok}
use irctest.Report.{
  result, compacted, Tree, leaf, dict, Branches, end, branch, Items, visit_bottomup, visit_branches,
  compact_dict, compact_result, compact_leaf, compact,
}

-- A tree of results, of which none is skipped and failed.
unfoldable mutual
  pub IsRaw : Tree → Type 0
  IsRaw (leaf (result r)) = (r.success ≡ true) ⊎ (r.skipped ≡ false)
  IsRaw (leaf (compacted c)) = ⊥
  IsRaw (dict bs) = AreRaw bs

  pub AreRaw : Branches → Type 0
  AreRaw end = Unit
  AreRaw (branch k t bs) = IsRaw t × AreRaw bs

-- `compact` with no exceptions.
unfoldable mutual
  pub compact_of : Tree → Tree
  compact_of (leaf (result r)) = leaf (compacted (compact_result r))
  compact_of (leaf (compacted c)) = leaf (compacted c)
  compact_of (dict bs) = compact_dict (compact_branches bs)

  pub compact_branches : Branches → Items
  compact_branches end = []
  compact_branches (branch k t bs) = (k, compact_of t) ∷ compact_branches bs

mutual
  unfolding visit_bottomup compact_of IsRaw

  compact_lem :
      (t : Tree)
      → IsRaw t
      → visit_bottomup (λ d. ok (compact_dict d)) compact_leaf t ≡ ok (compact_of t)
  compact_lem (leaf (result r)) h = refl
  compact_lem (leaf (compacted c)) h = absurd h
  compact_lem (dict bs) h = rw (compact_branches_lem bs h) refl

  compact_branches_lem :
      (bs : Branches)
      → AreRaw bs
      → visit_branches (λ d. ok (compact_dict d)) compact_leaf bs ≡ ok (compact_branches bs)
  compact_branches_lem end h = refl
  compact_branches_lem (branch k t bs) h = rw (compact_lem t h.0, compact_branches_lem bs h.1) refl

pub compact-eq : (t : Tree) → IsRaw t → compact t ≡ ok (compact_of t)
unfolding compact
compact-eq = compact_lem
