-- ===== src/Cases/Differs/Exact.antt =====
-- A message is found equal exactly if each comparison that is asked for succeeds.
use irctest.Base.{
  ◌≡◌, ◌↔◌, refl, Bool, true, false, Option, none, some, List, [], ◌∷◌, map, Text, list_eq, nat_eq,
  option_eq, arith, if◌then◌else◌,
}
use irctest.Result.{Result, ok, raised, ◌>>=◌}
use irctest.Message.Parse.{Message}
use irctest.Patma.Match.{match_string, match_list, match_dict}
use irctest.Cases.Differs.{
  Expectation, Difference, in_command, in_prefix, in_params, in_tags, check, check_others, got_nick,
  nick_differs, message_differs, assert_message_match, raise_difference,
}

-- A condition on an argument, if it is given.
abbrev pub Given {ℓ} : {A : Type ℓ} → Option A → (A → Type 0) → Type 0
Given none P = Unit {0}
Given (some a) P = P a

-- Every comparison that is asked for succeeds. `target` is the first parameter.
pub record IsMatch (m : Message) (e : Expectation) : Type 0 where
  pub command : Given e.command (λ x. match_string (some m.command) x ≡ ok true)
  pub prefix : Given e.prefix (λ x. match_string m.prefix x ≡ ok true)
  pub params : Given e.params (λ x. match_list (map some m.params) x ≡ ok true)
  pub tags : Given e.tags (λ x. match_dict m.tags x ≡ ok true)
  pub nick : Given e.nick (λ x. got_nick m.prefix ≡ some x)
  pub target : Given e.target (λ x. (rest : List Text) × (m.params ≡ x ∷ rest))
  pub others : e.others ≡ []

-- What is asked for, but for `target`.
abbrev pub without_target : Expectation → Expectation
without_target e = record e { target = none }

check_iff {ℓ} :
    {A : Type ℓ} (x : Option A) (match : A → Result Bool) (d : Difference)
    (rest : Result (Option Difference)) (P : Type 0)
    → (rest ≡ ok none) ↔ P
    → (check x match d rest ≡ ok none) ↔ (Given x (λ a. match a ≡ ok true) × P)
check_iff none match d rest P h = (λ e. (tt, h.0 e), λ e. h.1 e.1)
check_iff {A} (some a) match d rest P h = go (match a)
  where
    go :
        (r : Result Bool)
        → ((r >>= λ matched. if matched then rest else ok (some d)) ≡ ok none) ↔ ((r ≡ ok true) × P)
    go (ok true) = (λ e. (refl, h.0 e), λ e. h.1 e.1)
    go (ok false) = (λ e. cc, λ e. cc e.0)
    go (raised x) = (λ e. cc, λ e. cc e.0)

nick_iff :
    (m : Message) (n : Option Text)
    → (nick_differs m n ≡ ok none) ↔ Given n (λ x. got_nick m.prefix ≡ some x)
unfolding nick_differs option_eq
nick_iff m none = (λ e. tt, λ e. refl)
nick_iff m (some n) = ground arith

others_iff :
    (names : List Text) (rest : Result (Option Difference)) (P : Type 0)
    → (rest ≡ ok none) ↔ P
    → (check_others names rest ≡ ok none) ↔ ((names ≡ []) × P)
others_iff [] rest P h = (λ e. (refl, h.0 e), λ e. h.1 e.1)
others_iff (name ∷ names) rest P h = (λ e. cc, λ e. cc e.0)

-- `messageDiffers` returns `None` exactly if every comparison that is asked for succeeds, apart from
-- that of `target`, which has no part in it.
pub message_differs_iff :
    (m : Message) (e : Expectation) → (message_differs m e ≡ ok none) ↔ IsMatch m (without_target e)
unfolding message_differs
message_differs_iff m e =
    let nicks = nick_iff m e.nick in
    let tags = check_iff e.tags (match_dict m.tags) in_tags _ _ nicks in
    let params = check_iff e.params (match_list (map some m.params)) in_params _ _ tags in
    let prefix = check_iff e.prefix (match_string m.prefix) in_prefix _ _ params in
    let command = check_iff e.command (match_string (some m.command)) in_command _ _ prefix in
    let all = others_iff e.others _ _ command in
    (
      λ h.
          let (o, (c, (p, (ps, (t, n))))) = all.0 h in
          record {
            command = c;
            prefix = p;
            params = ps;
            tags = t;
            nick = n;
            target = tt;
            others = o;
          },
      λ h. all.1 (h.others, (h.command, (h.prefix, (h.params, (h.tags, h.nick))))),
    )

-- An `assertMessageMatch` passes exactly if every comparison that is asked for succeeds, apart from
-- that of `target`.
pub assert_message_match_iff :
    (m : Message) (e : Expectation)
    → (assert_message_match m e ≡ ok tt) ↔ IsMatch m (without_target e)
unfolding assert_message_match
assert_message_match_iff m e = go (message_differs m e) (message_differs_iff m e)
  where
    go :
        (r : Result (Option Difference))
        → (r ≡ ok none) ↔ IsMatch m (without_target e)
        → ((r >>= raise_difference) ≡ ok tt) ↔ IsMatch m (without_target e)
    go (ok none) h = (λ p. h.0 refl, λ p. refl)
    go (ok (some d)) h = (λ p. cc, λ p. cc (h.1 p))
    go (raised x) h = (λ p. cc, λ p. cc (h.1 p))

-- Whatever `target` is given, the answer is the same: the argument is not compared.
pub message_differs_target :
    (m : Message) (e : Expectation) (target : Option Text)
    → message_differs m (record e { target = target }) ≡ message_differs m e
unfolding message_differs
message_differs_target m e target = refl
