-- ===== src/Metadata/Kept.antt =====
-- What `assertGetValue` tells of a server.
use irctest.Base.{
  ℕ, ◌≡◌, ◌↔◌, inl, inr, refl, sym, ◌∙◌, arith, true, false, none, some, List, [], ◌∷◌, ◌++◌, Text,
  codes, ◌==◌, nat_eq, list_eq, option_eq, eq_refl, eq_iff, Bool-cases, if◌then◌else◌,
}
use irctest.Result.{Result, ok, raised, ◌>>=◌, ◌>>◌}
use irctest.Message.Parse.{Message}
use irctest.Patma.Operators.{item, str, any_str, Expected}
use irctest.Patma.Match.{match_string, match_list}
use irctest.Cases.Differs.{assert_message_match}
use irctest.Cases.Differs.Exact.{assert_message_match_iff}
use irctest.Cases.Batch.{match_string-str, get_batch_messages-lines}
use irctest.Metadata.{
  client_nick, star_or, expected_target, key_value, only_message, get_metadata_batch_messages,
  assert_get_value,
}
use irctest.Metadata.Listed.{key_value_line, list_lines}

star_target : (nick : Text) → match_string (some (codes "*")) (star_or nick) ≡ ok true
unfolding match_string option_eq list_eq nat_eq
star_target nick = refl

match_string_any : (t : Text) → match_string (some t) any_str ≡ ok true
unfolding match_string
match_string_any t = refl

abbrev Passes : Text → Text → Expected → Text → Text → Text → Text → Type 0
Passes nick target x visibility key value v =
    match_list (some nick ∷ some target ∷ some key ∷ some visibility ∷ some v ∷ [])
      (item (str nick) ∷ item x ∷ item (str key) ∷ item any_str ∷ item (str value) ∷ [])
    ≡ (match_string (some v) (str value) >>= λ m. if m then ok true else ok false)

target_str :
    (nick target visibility key value v : Text)
    → Passes nick target (str target) visibility key value v
unfolding match_list
target_str nick target visibility key value v =
    rw
      (
        match_list,
        match_string-str nick,
        match_string-str target,
        match_string-str key,
        match_string_any visibility,
      )
      refl

star_str :
    (nick visibility key value v : Text)
    → Passes nick (codes "*") (star_or nick) visibility key value v
unfolding match_list
star_str nick visibility key value v =
    rw
      (
        match_list,
        match_string-str nick,
        star_target nick,
        match_string-str key,
        match_string_any visibility,
      )
      refl

expected_target_lem :
    (nick target visibility key value v : Text)
    → Passes nick target (expected_target nick target) visibility key value v
unfolding expected_target
expected_target_lem nick target visibility key value v = elim (Bool-cases (target == codes "*")) [
  | inl e ↦
      let same : target ≡ codes "*" = (eq_iff target (codes "*")).0 e in
      rw (expected_target, e, same) (star_str nick visibility key value v)
  | inr e ↦ rw (expected_target, e) (target_str nick target visibility key value v)
]

value_iff :
    (v value : Text)
    → ((match_string (some v) (str value) >>= λ m. if m then ok true else ok false) ≡ ok true)
      ↔ (v ≡ value)
unfolding match_string
value_iff v value = elim (Bool-cases (some v == some value)) [
  | inl e ↦
      let same : some v ≡ some value = (eq_iff (some v) (some value)).0 e in
      rw e (λ h. ground (arith, same), λ h. refl)
  | inr e ↦
      rw e
        (λ h. absurd (ground (arith, h)), λ h. absurd (ground (arith, e, h, eq_refl (some value))))
]

then_iff : {A : Type 0} (m : Result (Unit {0})) (a : A) → ((m >> ok a) ≡ ok a) ↔ (m ≡ ok tt)
then_iff (ok tt) a = (λ h. refl, λ h. refl)
then_iff (raised x) a = (λ h. absurd (ground (arith, h)), λ h. absurd (ground (arith, h)))

-- The line of a key and its value passes exactly if the value is the one that is expected.
key_value_line_iff :
    (nick target visibility key value v : Text)
    → (assert_message_match
          (key_value_line nick target visibility (key, v))
          (key_value (str nick) (expected_target nick target) key value)
        ≡ ok tt)
      ↔ (v ≡ value)
key_value_line_iff nick target visibility key value v =
    let whole =
      assert_message_match_iff (key_value_line nick target visibility (key, v))
        (key_value (str nick) (expected_target nick target) key value) in
    let params = expected_target_lem nick target visibility key value v in
    (
      λ h. (value_iff v value).0 (sym params ∙ (whole.0 h).params),
      λ h. whole.1 (record {
        command = match_string-str (codes "761");
        prefix = tt;
        params = params ∙ (value_iff v value).1 h;
        tags = tt;
        nick = tt;
        target = tt;
        others = refl;
      }),
    )

-- A server answers a `GET` for a key with a batch of one line that gives a value, and the client had
-- nothing to read. Then `assertGetValue` passes exactly if the value is the expected one.
pub assert_get_value_iff :
    {S : Type 0} (server : S → Text → S × List Message) (s s' : S) (client : ℕ)
    (nick reference target visibility key value v : Text)
    → client_nick client ≡ ok nick
    → server s (codes "METADATA " ++ (target ++ (codes " GET " ++ key)))
      ≡ (s', list_lines reference nick target visibility ((key, v) ∷ []))
    → (assert_get_value server client target key value false (record { state = s; unread = [] })
        ≡ ok (record { state = s'; unread = [] }))
      ↔ (v ≡ value)
unfolding assert_get_value get_metadata_batch_messages only_message
assert_get_value_iff server s s' client nick reference target visibility key value v known e =
    let line = key_value_line_iff nick target visibility key value v in
    let passes =
      then_iff
        (assert_message_match (key_value_line nick target visibility (key, v))
          (key_value (str nick) (expected_target nick target) key value))
        (record { state = s'; unread = [] }) in
    rw
      (
        assert_get_value,
        get_metadata_batch_messages,
        e,
        known,
        get_batch_messages-lines [] none b'+' reference (codes "metadata") (target ∷ [])
            (key_value_line nick target visibility (key, v) ∷ []),
      )
      (λ h. line.0 (passes.0 h), λ h. passes.1 (line.1 h))
