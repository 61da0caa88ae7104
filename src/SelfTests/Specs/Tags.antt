-- ===== src/SelfTests/Specs/Tags.antt =====
-- The specifications with other tags of `MESSAGE_SPECS` (`irctest/self_tests/cases.py`).
use irctest.Base.{none, some, [], ◌∷◌, codes, nat_eq}
use irctest.Patma.Operators.{any_opt_str, str, str_re, not_str_re, item, key, remaining}
use irctest.Patma.Match.{any_dict}
use irctest.Cases.Differs.{in_command, in_params, in_tags}
use irctest.SelfTests.Specs.{Spec, tag_re, tag2_re}

abbrev pub tag_others : Spec
tag_others = record {
  spec = record {
    command = some (str (codes "PRIVMSG"));
    params = some (item (str (codes "#chan")) ∷ item (str (codes "hello")) ∷ []);
    target = none;
    tags = some ((key (str (codes "tag1")), str (codes "bar")) ∷ any_dict);
    nick = none;
    prefix = none;
    others = [];
  };
  positive_matches =
      codes "@tag1=bar PRIVMSG #chan :hello"
      ∷ codes "@tag1=bar;tag2= PRIVMSG #chan :hello"
      ∷ codes "@tag1=bar :foo!baz@qux PRIVMSG #chan :hello"
      ∷ [];
  negative_matches =
      (codes "PRIVMG #chan :hello", in_command)
      ∷ (codes "@tag1=value1 PRIVMSG #chan :hello", in_tags)
      ∷ (codes "PRIVMSG #chan hello2", in_params)
      ∷ (codes "PRIVMSG #chan2 hello", in_params)
      ∷ (codes ":foo!baz@qux PRIVMSG #chan hello", in_tags)
      ∷ [];
}

abbrev pub tag_key_re : Spec
tag_key_re = record {
  spec = record {
    command = some (str (codes "PRIVMSG"));
    params = some (item (str (codes "#chan")) ∷ item (str (codes "hello")) ∷ []);
    target = none;
    tags = some ((key (str_re tag_re), str (codes "bar")) ∷ any_dict);
    nick = none;
    prefix = none;
    others = [];
  };
  positive_matches =
      codes "@tag1=bar PRIVMSG #chan :hello"
      ∷ codes "@tag1=bar;tag2= PRIVMSG #chan :hello"
      ∷ codes "@tag1=bar :foo!baz@qux PRIVMSG #chan :hello"
      ∷ codes "@tag2=bar PRIVMSG #chan :hello"
      ∷ codes "@tag1=bar;tag2= PRIVMSG #chan :hello"
      ∷ codes "@tag1=;tag2=bar PRIVMSG #chan :hello"
      ∷ [];
  negative_matches =
      (codes "PRIVMG #chan :hello", in_command)
      ∷ (codes "@tag1=value1 PRIVMSG #chan :hello", in_tags)
      ∷ (codes "PRIVMSG #chan hello2", in_params)
      ∷ (codes "PRIVMSG #chan2 hello", in_params)
      ∷ (codes ":foo!baz@qux PRIVMSG #chan hello", in_tags)
      ∷ [];
}

abbrev pub tag_not_others : Spec
tag_not_others = record {
  spec = record {
    command = some (str (codes "PRIVMSG"));
    params = some (item (str (codes "#chan")) ∷ item (str (codes "hello")) ∷ []);
    target = none;
    tags = some (
        (key (str (codes "tag1")), str (codes "bar"))
        ∷ (remaining (not_str_re tag2_re), any_opt_str)
        ∷ []);
    nick = none;
    prefix = none;
    others = [];
  };
  positive_matches =
      codes "@tag1=bar PRIVMSG #chan :hello"
      ∷ codes "@tag1=bar :foo!baz@qux PRIVMSG #chan :hello"
      ∷ codes "@tag1=bar;tag3= PRIVMSG #chan :hello"
      ∷ [];
  negative_matches =
      (codes "PRIVMG #chan :hello", in_command)
      ∷ (codes "@tag1=value1 PRIVMSG #chan :hello", in_tags)
      ∷ (codes "@tag1=bar;tag2= PRIVMSG #chan :hello", in_tags)
      ∷ (codes "@tag1=bar;tag2=baz PRIVMSG #chan :hello", in_tags)
      ∷ [];
}
