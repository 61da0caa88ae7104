-- ===== src/Cases/Session/Capabilities.antt =====
-- `getCapLs` on the lines of a server that lists its capabilities.
use irctest.Base.{
  ℕ, zero, suc, ◌<◌, ◌≡◌, ◌≢◌, refl, sym, ap, ◌∙◌, Option, List, [], ◌∷◌, ◌++◌, append_assoc, map,
  Text, codes, ◌==◌, list_eq, nat_eq, words, length, arith, inl, inr, Bool-cases,
}
use irctest.Result.{ok, then_run}
use irctest.Capabilities.{cap_list_to_dict}
use irctest.Message.Tags.{Tags}
use irctest.Message.Parse.{Message, param}
use irctest.Patma.Match.{match_string}
use irctest.Cases.Differs.{assert_message_match}
use irctest.Cases.Session.{registration_message, is_cap, read_caps, get_cap_list, get_cap_ls}

-- All words of the texts.
abbrev pub all_words : List Text → List Text
all_words [] = []
all_words (t ∷ ts) = words t ++ all_words ts

-- A line of the list that is not its last, and the last one.
abbrev pub more_line : Tags → Option Text → Text → Text → Message
more_line tags prefix nick text = record {
  tags = tags;
  prefix = prefix;
  command = codes "CAP";
  params = nick ∷ codes "LS" ∷ codes "*" ∷ text ∷ [];
}

abbrev pub last_line : Tags → Option Text → Text → Text → Message
last_line tags prefix nick text = record {
  tags = tags;
  prefix = prefix;
  command = codes "CAP";
  params = nick ∷ codes "LS" ∷ text ∷ [];
}

module _ (tags : Tags) (prefix : Option Text) (nick : Text) where
  is_cap-more_line :
      (text : Text) → assert_message_match (more_line tags prefix nick text) is_cap ≡ ok tt
  unfolding assert_message_match match_string list_eq nat_eq
  is_cap-more_line text = refl

  is_cap-last_line :
      (text : Text) → assert_message_match (last_line tags prefix nick text) is_cap ≡ ok tt
  unfolding assert_message_match match_string list_eq nat_eq
  is_cap-last_line text = refl

  read_caps-more :
      (n : ℕ) (caps : List Text) (text : Text) (ms : List Message) (sent : List Text)
      → read_caps
          (suc n)
          caps
          (record { incoming = more_line tags prefix nick text ∷ ms; sent = sent })
        ≡ read_caps n (caps ++ words text) (record { incoming = ms; sent = sent })
  unfolding read_caps registration_message
  read_caps-more n caps text ms sent = rw (read_caps, is_cap-more_line text) refl

  read_caps-last :
      (n : ℕ) (caps : List Text) (text : Text) (ms : List Message) (sent : List Text)
      → text ≢ codes "*"
      → read_caps
          (suc n)
          caps
          (record { incoming = last_line tags prefix nick text ∷ ms; sent = sent })
        ≡ ok (caps ++ words text, record { incoming = ms; sent = sent })
  unfolding read_caps registration_message
  read_caps-last n caps text ms sent h = elim (Bool-cases (text == codes "*")) [
    | inl e ↦ absurd (ground arith)
    | inr e ↦ rw (read_caps, is_cap-last_line text, then_run, param, list_eq, nat_eq, e) refl
  ]

  read_caps-lines :
      (n : ℕ) (caps : List Text) (texts : List Text) (text : Text) (rest : List Message)
      (sent : List Text)
      → text ≢ codes "*"
      → length texts < n
      → read_caps n caps (record {
        incoming =
            map (more_line tags prefix nick) texts ++ (last_line tags prefix nick text ∷ rest);
        sent = sent;
      })
        ≡ ok (caps ++ (all_words texts ++ words text), record { incoming = rest; sent = sent })
  read_caps-lines zero caps texts text rest sent h k = absurd (omega arith)
  read_caps-lines (suc n) caps [] text rest sent h k = read_caps-last n caps text rest sent h
  read_caps-lines (suc n) caps (t ∷ texts) text rest sent h k =
      read_caps-more n caps t
        (map (more_line tags prefix nick) texts ++ (last_line tags prefix nick text ∷ rest)) sent
      ∙ read_caps-lines n (caps ++ words t) texts text rest sent h (omega arith)
      ∙ ap (λ r. ok (r, record { incoming = rest; sent = sent }))
          (append_assoc caps (words t) (all_words texts ++ words text)
            ∙ ap (λ r. caps ++ r) (sym (append_assoc (words t) (all_words texts) (words text))))

  enough :
      (texts : List Text) (m : Message) (rest : List Message)
      → length texts < length (map (more_line tags prefix nick) texts ++ (m ∷ rest))
  enough [] m rest = omega arith
  enough (t ∷ texts) m rest = omega (arith, enough texts m rest)

  -- From a list of capabilities that comes in several lines, of which the last is not `*` alone,
  -- `getCapLs` makes the dict of the words of all lines, and reads no further.
  pub get_cap_ls-lines :
      (texts : List Text) (text : Text) (rest : List Message) (sent : List Text)
      → text ≢ codes "*"
      → get_cap_ls (record {
        incoming =
            map (more_line tags prefix nick) texts ++ (last_line tags prefix nick text ∷ rest);
        sent = sent;
      })
        ≡ ok (
          cap_list_to_dict (all_words texts ++ words text),
          record { incoming = rest; sent = sent },
        )
  unfolding get_cap_ls get_cap_list
  get_cap_ls-lines texts text rest sent h =
      rw
        (
          get_cap_ls,
          get_cap_list,
          read_caps-lines
              (suc (
                length (
                  map (more_line tags prefix nick) texts
                  ++ (last_line tags prefix nick text ∷ rest))))
              [] texts text rest sent h
              (omega (arith, enough texts (last_line tags prefix nick text) rest)),
        )
        refl
