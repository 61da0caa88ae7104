-- ===== src/Collection/Tests.antt =====
-- The hooks at concrete values.
use irctest.Base.{◌≡◌, refl, ℕ, some, [], ◌∷◌}
use irctest.Result.{ok, raised, assertion_error}
use irctest.Collection.{
  multi_join, no_ctcp, behavior_eq, server_side, client_side, neither_side, modify_items,
  not_skippable, skips_behavior, runtest_call,
}

server_only :
    modify_items {A = ℕ}
      (some server_side)
      ((1, client_side) ∷ (2, neither_side) ∷ (3, server_side) ∷ [])
    ≡ ok ((2, neither_side) ∷ (3, server_side) ∷ [])
unfolding modify_items
server_only = refl

no_side : modify_items {A = ℕ} (some neither_side) [] ≡ raised assertion_error
unfolding modify_items
no_side = refl

must_support : runtest_call (some (multi_join ∷ [])) (skips_behavior multi_join) ≡ not_skippable
unfolding runtest_call
must_support = refl

may_skip : runtest_call (some (multi_join ∷ [])) (skips_behavior no_ctcp) ≡ skips_behavior no_ctcp
unfolding runtest_call
may_skip = refl
