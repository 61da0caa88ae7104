-- ===== src/SelfTests/Specs/Params.antt =====
-- The specifications of parameters in `MESSAGE_SPECS` (`irctest/self_tests/cases.py`).
use irctest.Base.{none, some, [], ◌∷◌, codes, nat_eq}
use irctest.Patma.Operators.{
  any_str, str, str_re, opt_str_re, either, option, no_options, item, list_remainder,
}
use irctest.Patma.Match.{any_list}
use irctest.Cases.Differs.{in_command, in_params}
use irctest.SelfTests.Specs.{Spec, letters_re, token_re}

abbrev pub optional_param : Spec
optional_param = record {
  spec = record {
    command = some (str (codes "004"));
    params =
        some (
          item (str (codes "nick")) ∷ item (str (codes "...")) ∷ item (opt_str_re letters_re) ∷ []);
    target = none;
    tags = none;
    nick = none;
    prefix = none;
    others = [];
  };
  positive_matches = codes "004 nick ... abc" ∷ codes "004 nick ..." ∷ [];
  negative_matches =
      (codes "004 nick ... 123", in_params) ∷ (codes "004 nick ... :", in_params) ∷ [];
}

abbrev pub either_param : Spec
either_param = record {
  spec = record {
    command = some (str (codes "004"));
    params = some (
        item (
          either (
            option (str (codes "nick"))
              (option (str (codes "*")) (option (str (codes ".")) no_options))))
        ∷ item (str (codes "..."))
        ∷ item (str (codes "trailer"))
        ∷ []);
    target = none;
    tags = none;
    nick = none;
    prefix = none;
    others = [];
  };
  positive_matches =
      codes "004 nick ... trailer" ∷ codes "004 * ... trailer" ∷ codes "004 . ... trailer" ∷ [];
  negative_matches =
      (codes "004 foo ... trailer", in_params) ∷ (codes "004 f ... trailer", in_params) ∷ [];
}

abbrev pub remainder : Spec
remainder = record {
  spec = record {
    command = some (str (codes "005"));
    params = some (item (str (codes "nick")) ∷ item (str (codes "FOO=1")) ∷ any_list);
    target = none;
    tags = none;
    nick = none;
    prefix = none;
    others = [];
  };
  positive_matches = codes "005 nick FOO=1" ∷ codes "005 nick FOO=1 BAR=2" ∷ [];
  negative_matches = (codes "005 nick", in_params) ∷ (codes "005 nick BAR=2", in_params) ∷ [];
}

abbrev pub remainder_least : Spec
remainder_least = record {
  spec = record {
    command = some (str (codes "005"));
    params = some (item (str (codes "nick")) ∷ list_remainder any_str 1 ∷ []);
    target = none;
    tags = none;
    nick = none;
    prefix = none;
    others = [];
  };
  positive_matches =
      codes "005 nick FOO=1" ∷ codes "005 nick FOO=1 BAR=2" ∷ codes "005 nick BAR=2" ∷ [];
  negative_matches = (codes "005 nick", in_params) ∷ [];
}

abbrev pub remainder_re : Spec
remainder_re = record {
  spec = record {
    command = some (str (codes "005"));
    params = some (item (str (codes "nick")) ∷ list_remainder (str_re token_re) 1 ∷ []);
    target = none;
    tags = none;
    nick = none;
    prefix = none;
    others = [];
  };
  positive_matches =
      codes "005 nick FOO=1" ∷ codes "005 nick FOO=1 BAR=2" ∷ codes "005 nick BAR=2" ∷ [];
  negative_matches = (codes "005 nick", in_params) ∷ (codes "005 nick foo=1", in_params) ∷ [];
}

abbrev pub ping : Spec
ping = record {
  spec = record {
    command = some (str (codes "PING"));
    params = some (item (str (codes "abc")) ∷ []);
    target = none;
    tags = none;
    nick = none;
    prefix = none;
    others = [];
  };
  positive_matches = codes "PING abc" ∷ [];
  negative_matches = (codes "PONG def", in_command) ∷ [];
}
