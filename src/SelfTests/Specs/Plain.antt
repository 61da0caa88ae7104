-- ===== src/SelfTests/Specs/Plain.antt =====
-- The first five of `MESSAGE_SPECS` (`irctest/self_tests/cases.py`).
use irctest.Base.{none, some, [], ◌∷◌, codes, nat_eq}
use irctest.Patma.Operators.{any_str, str, str_re, item, key}
use irctest.Cases.Differs.{in_params, in_tags, in_nick}
use irctest.SelfTests.Specs.{Spec, hello_re}

abbrev pub plain : Spec
plain = record {
  spec = record {
    command = some (str (codes "PRIVMSG"));
    params = some (item (str (codes "#chan")) ∷ item (str (codes "hello")) ∷ []);
    target = none;
    tags = none;
    nick = none;
    prefix = none;
    others = [];
  };
  positive_matches =
      codes "PRIVMSG #chan hello"
      ∷ codes "PRIVMSG #chan :hello"
      ∷ codes "@tag1=bar PRIVMSG #chan :hello"
      ∷ codes "@tag1=bar;tag2= PRIVMSG #chan :hello"
      ∷ codes ":foo!baz@qux PRIVMSG #chan hello"
      ∷ codes "@tag1=bar :foo!baz@qux PRIVMSG #chan :hello"
      ∷ [];
  negative_matches =
      (codes "PRIVMSG #chan hello2", in_params) ∷ (codes "PRIVMSG #chan2 hello", in_params) ∷ [];
}

abbrev pub params_re : Spec
params_re = record {
  spec = record {
    command = some (str (codes "PRIVMSG"));
    params = some (item (str (codes "#chan")) ∷ item (str_re hello_re) ∷ []);
    target = none;
    tags = none;
    nick = none;
    prefix = none;
    others = [];
  };
  positive_matches =
      codes "PRIVMSG #chan hello"
      ∷ codes "PRIVMSG #chan :hello"
      ∷ codes "PRIVMSG #chan hello2"
      ∷ codes "@tag1=bar PRIVMSG #chan :hello"
      ∷ codes "@tag1=bar;tag2= PRIVMSG #chan :hello"
      ∷ codes ":foo!baz@qux PRIVMSG #chan hello"
      ∷ codes "@tag1=bar :foo!baz@qux PRIVMSG #chan :hello"
      ∷ [];
  negative_matches =
      (codes "PRIVMSG #chan :hi", in_params) ∷ (codes "PRIVMSG #chan2 hello", in_params) ∷ [];
}

abbrev pub nick_only : Spec
nick_only = record {
  spec = record {
    command = some (str (codes "PRIVMSG"));
    params = none;
    target = none;
    tags = none;
    nick = some (codes "foo");
    prefix = none;
    others = [];
  };
  positive_matches =
      codes ":foo!baz@qux PRIVMSG #chan hello"
      ∷ codes "@tag1=bar :foo!baz@qux PRIVMSG #chan :hello"
      ∷ [];
  negative_matches =
      (codes "PRIVMSG #chan :hi", in_nick)
      ∷ (codes ":foo2!baz@qux PRIVMSG #chan hello", in_nick)
      ∷ (codes "@tag1=bar :foo2!baz@qux PRIVMSG #chan :hello", in_nick)
      ∷ [];
}

abbrev pub tag_literal : Spec
tag_literal = record {
  spec = record {
    command = some (str (codes "PRIVMSG"));
    params = some (item (str (codes "#chan")) ∷ item (str (codes "hello")) ∷ []);
    target = none;
    tags = some ((key (str (codes "tag1")), str (codes "bar")) ∷ []);
    nick = none;
    prefix = none;
    others = [];
  };
  positive_matches =
      codes "@tag1=bar PRIVMSG #chan :hello"
      ∷ codes "@tag1=bar :foo!baz@qux PRIVMSG #chan :hello"
      ∷ [];
  negative_matches =
      (codes "@tag1=bar;tag2= PRIVMSG #chan :hello", in_tags)
      ∷ (codes "@tag1=value1 PRIVMSG #chan :hello", in_tags)
      ∷ (codes "PRIVMSG #chan hello", in_tags)
      ∷ (codes ":foo!baz@qux PRIVMSG #chan hello", in_tags)
      ∷ [];
}

abbrev pub tag_any : Spec
tag_any = record {
  spec = record {
    command = some (str (codes "PRIVMSG"));
    params = some (item (str (codes "#chan")) ∷ item any_str ∷ []);
    target = none;
    tags = some ((key (str (codes "tag1")), any_str) ∷ []);
    nick = none;
    prefix = none;
    others = [];
  };
  positive_matches =
      codes "@tag1=bar PRIVMSG #chan :hello"
      ∷ codes "@tag1=value1 PRIVMSG #chan :hello"
      ∷ codes "@tag1=bar :foo!baz@qux PRIVMSG #chan :hello"
      ∷ [];
  negative_matches =
      (codes "@tag1=bar;tag2= PRIVMSG #chan :hello", in_tags)
      ∷ (codes "PRIVMSG #chan hello", in_tags)
      ∷ (codes ":foo!baz@qux PRIVMSG #chan hello", in_tags)
      ∷ [];
}
