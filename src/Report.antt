-- ===== src/Report.antt =====
-- `report.py`: the results of a test run as nested dicts, made compact and formatted.
pub mod Format
pub mod Build
pub mod Raw
pub mod Others
pub mod Apart
pub mod Folded
pub mod Counts
pub mod Sound
mod Tests
use irctest.Base.{
  ℕ, ◌+◌, Bool, true, false, not, ◌&&◌, Option, none, some, List, [], ◌∷◌, ◌++◌, map, Text, codes,
  ◌==◌, list_eq, nat_eq, option_eq, distinct, if◌then◌else◌,
}
use irctest.Base.Dict.{Dict, insert}
use irctest.Result.{Result, ok, raised, assertion_error, ◌>>=◌}

pub record CaseResult : Type 0 where
  pub success : Bool
  pub skipped : Bool
  pub type : Option Text
  pub message : Option Text

-- `messages` is a set: its order means nothing.
pub record CompactedResult : Type 0 where
  pub success : Bool
  pub count : ℕ
  pub nb_skipped : ℕ
  pub messages : List Text

pub data Leaf : Type 0 where
  result : CaseResult → Leaf
  compacted : CompactedResult → Leaf

-- A nested dict, whose keys are strings or `None`.
mutual
  pub data Tree : Type 0 where
    leaf : Leaf → Tree
    dict : Branches → Tree

  pub data Branches : Type 0 where
    end : Branches
    branch : Option Text → Tree → Branches → Branches

abbrev pub Items : Type 0
Items = Dict (Option Text) Tree

abbrev pub items : Branches → Items
items end = []
items (branch k t bs) = (k, t) ∷ items bs

abbrev pub branches : Items → Branches
branches [] = end
branches ((k, t) ∷ d) = branch k t (branches d)

-- `visit_bottomup`, of a function by its case for dicts and its case for the rest.
module _ {B : Type 0} (on_dict : List (Option Text × B) → Result B)
    (on_leaf : Leaf → Result B) where
  unfoldable mutual
    pub visit_bottomup : Tree → Result B
    visit_bottomup (leaf l) = on_leaf l
    visit_bottomup (dict bs) = visit_branches bs >>= on_dict

    pub visit_branches : Branches → Result (List (Option Text × B))
    visit_branches end = ok []
    visit_branches (branch k t bs) =
        visit_bottomup t >>= λ v. visit_branches bs >>= λ vs. ok ((k, v) ∷ vs)

-- A result that is folded: successful, and with nothing skipped.
unfoldable pub perfect : Tree → Option CompactedResult
unfolding nat_eq
perfect (leaf (compacted c)) = if c.success && c.nb_skipped == 0 then some c else none
perfect (leaf (result r)) = none
perfect (dict bs) = none

unfoldable pub successes : Items → List (Option Text × CompactedResult)
unfolding perfect
successes [] = []
successes ((k, t) ∷ d) = elim (perfect t) [ none ↦ successes d | some c ↦ (k, c) ∷ successes d ]

unfoldable pub compacted_d : Items → Items
unfolding perfect
compacted_d [] = []
compacted_d ((k, t) ∷ d) = elim (perfect t) [
  | none ↦ (k, t) ∷ compacted_d d
  | some c ↦ compacted_d d
]

abbrev pub sum_of {ℓ} : {A : Type ℓ} → (A → ℕ) → List A → ℕ
sum_of f [] = 0
sum_of f (x ∷ xs) = f x + sum_of f xs

abbrev pub others : Option Text
others = some (codes "(others)")

-- The keys of a dict differ, so that a single success goes behind the others.
abbrev pub fold_successes : List (Option Text × CompactedResult) → Items → Items
fold_successes [] d = d
fold_successes ((k, c) ∷ []) d = d ++ ((k, leaf (compacted c)) ∷ [])
fold_successes (s ∷ r ∷ rs) d =
    insert others
      (leaf (
        compacted (record {
          success = true;
          count = sum_of (λ e. e.1.count) (s ∷ r ∷ rs);
          nb_skipped = 0;
          messages = [];
        })))
      d

unfoldable pub partial_compaction : Items → Tree
unfolding successes compacted_d insert option_eq list_eq nat_eq
partial_compaction d = dict (branches (fold_successes (successes d) (compacted_d d)))

-- A key as it is written in a string.
abbrev pub key_text : Option Text → Text
key_text none = codes "None"
key_text (some k) = k

abbrev pub join_keys : Text → Option Text → Text
join_keys key k = key ++ (codes "::" ++ key_text k)

-- The dict comprehension. A key that comes again gets the later value, such as `None` behind the string
-- that it is written as.
unfoldable pub prefix_into : Text → Branches → Items → Items
unfolding insert option_eq list_eq nat_eq
prefix_into key end d = d
prefix_into key (branch k t bs) d = prefix_into key bs (insert (some (join_keys key k)) t d)

unfoldable pub with_prefix : Text → Branches → Items
unfolding prefix_into
with_prefix key bs = prefix_into key bs []

-- The loop, from the dict under its only key.
unfoldable pub collapse : Text → Branches → Items
unfolding with_prefix
collapse key (branch k (dict bs) end) = collapse (join_keys key k) bs
collapse key bs = with_prefix key bs

unfoldable pub collapse_all : Items → Items
unfolding collapse
collapse_all ((k, dict bs) ∷ []) = collapse (key_text k) bs
collapse_all d = d

-- The values, if all are compacted.
unfoldable pub all_compacted : Items → Option (List CompactedResult)
all_compacted [] = some []
all_compacted ((k, leaf (compacted c)) ∷ d) = elim (all_compacted d) [
  | none ↦ none
  | some cs ↦ some (c ∷ cs)
]
all_compacted ((k, t) ∷ d) = none

abbrev pub have_status : Bool → List CompactedResult → Bool
have_status status [] = true
have_status status (c ∷ cs) = (if status then c.success else not c.success) && have_status status cs

abbrev pub all_messages : List CompactedResult → List Text
all_messages [] = []
all_messages (c ∷ cs) = c.messages ++ all_messages cs

abbrev pub merged : Bool → List CompactedResult → CompactedResult
merged status cs = record {
  success = status;
  count = sum_of (λ c. c.count) cs;
  nb_skipped = sum_of (λ c. c.nb_skipped) cs;
  messages = distinct (all_messages cs);
}

-- The dict at the end of the loop.
unfoldable pub compact_items : Items → Tree
unfolding all_compacted partial_compaction distinct list_eq nat_eq
compact_items d = elim (all_compacted d) [
  | none ↦ partial_compaction d
  | some [] ↦ partial_compaction d
  | some (c ∷ cs) ↦ elim (have_status c.success cs) [
    | true ↦ leaf (compacted (merged c.success (c ∷ cs)))
    | false ↦ partial_compaction d
  ]
]

-- `compact_results` of a dict, and of the rest.
unfoldable pub compact_dict : Items → Tree
unfolding collapse_all compact_items
compact_dict ((none, t) ∷ []) = t
compact_dict d = compact_items (collapse_all d)

abbrev pub compact_result : CaseResult → CompactedResult
compact_result r = record {
  success = r.success;
  count = 1;
  nb_skipped = if r.skipped then 1 else 0;
  messages = elim r.message [ none ↦ [] | some [] ↦ [] | some (c ∷ m) ↦ (c ∷ m) ∷ [] ];
}

abbrev pub compact_leaf : Leaf → Result Tree
compact_leaf (result r) = ok (leaf (compacted (compact_result r)))
compact_leaf (compacted c) = raised assertion_error

-- `visit_bottomup(compact_results, d)`
unfoldable pub compact : Tree → Result Tree
unfolding visit_bottomup compact_dict
compact t = visit_bottomup (λ d. ok (compact_dict d)) compact_leaf t
