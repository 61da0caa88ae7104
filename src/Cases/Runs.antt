-- ===== src/Cases/Runs.antt =====
-- Sessions, negotiations and batches at concrete messages.
use irctest.Base.{
  List, All, ◌≡◌, ◌≢◌, refl, false, some, none, [], ◌∷◌, ◌++◌, codes, list_eq, nat_eq, arith, map,
  words,
}
use irctest.Base.Dict.{keys, get, NodupKeys}
use irctest.Result.{ok, raised, out_of_fuel, index_error, value_error, skip_test}
use irctest.Capabilities.{cap_list_to_dict}
use irctest.Message.Parse.{Message}
use irctest.Cases.Session.{Session, read_caps, get_cap_ls, registration_message}
use irctest.Cases.Session.Fuel.{read_caps-fuel}
use irctest.Cases.Negotiate.Fuel.{negotiate-fuel}
use irctest.Cases.Session.Capabilities.{more_line, last_line, all_words, get_cap_ls-lines}
use irctest.Cases.Negotiate.{Served, negotiate, negotiate_capabilities}
use irctest.Cases.Negotiate.Acked.{AreOffered, negotiate_capabilities-AreOffered}
use irctest.Cases.Negotiate.Answers.{request, reply, IsLast, negotiate-replies}
use irctest.Cases.Connect.{
  Support, add_token, read_support, targmax, skip_unless_arbitrary_client_tags, join_channel,
}
use irctest.Cases.Connect.Support.{IsEntry, entries, support_line, read_support-lines}
use irctest.Cases.Batch.{batch_line, get_batch_messages, get_batch_messages-lines}

get_cap_ls-lines_example :
    get_cap_ls (record {
      incoming =
          map (more_line [] none (codes "*")) (codes "sasl=PLAIN a" ∷ [])
          ++ (last_line [] none (codes "*") (codes "b=c=d ") ∷ []);
      sent = [];
    })
    ≡ ok (
      cap_list_to_dict (all_words (codes "sasl=PLAIN a" ∷ []) ++ words (codes "b=c=d ")),
      record { incoming = []; sent = [] },
    )
get_cap_ls-lines_example =
    get_cap_ls-lines [] none (codes "*") (codes "sasl=PLAIN a" ∷ []) (codes "b=c=d ") [] []
      (λ p. cc)

caps_run :
    cap_list_to_dict (all_words (codes "sasl=PLAIN a" ∷ []) ++ words (codes "b=c=d "))
    ≡ (codes "sasl", some (codes "PLAIN"))
      ∷ (codes "a", none)
      ∷ (codes "b", some (codes "c=d"))
      ∷ []
unfolding cap_list_to_dict words
caps_run = refl

abbrev caps_session : Session
caps_session = record {
  incoming =
      map (more_line [] none (codes "*")) (codes "sasl=PLAIN a" ∷ [])
      ++ (last_line [] none (codes "*") (codes "b=c=d ") ∷ []);
  sent = [];
}

read_caps-fuel_example :
    (read_caps 3 [] caps_session ≡ read_caps 7 [] caps_session)
    × (read_caps 3 [] caps_session ≢ raised out_of_fuel)
read_caps-fuel_example = read_caps-fuel 3 7 [] caps_session (omega arith) (omega arith)

-- A `PING` without a parameter ends the reading by an exception.
registration_ping :
    registration_message []
      (record { tags = []; prefix = none; command = codes "PING"; params = [] } ∷ [])
    ≡ raised index_error
unfolding registration_message
registration_ping = refl

abbrev served : Served
served = record {
  sent = [];
  nick = some (codes "n");
  user = none;
  protocol_version = none;
  acked_capabilities = [];
}

abbrev cap_end : Message
cap_end = record { tags = []; prefix = none; command = codes "CAP"; params = codes "END" ∷ [] }

abbrev authenticate : Message
authenticate = record {
  tags = [];
  prefix = none;
  command = codes "AUTHENTICATE";
  params = codes "PLAIN" ∷ [];
}

abbrev cap_req : Message
cap_req = request [] none (codes "sasl")

negotiate_capabilities-AreOffered_example :
    AreOffered (keys (cap_list_to_dict (codes "sasl=PLAIN" ∷ []))) (codes "sasl" ∷ [])
unfolding negotiate_capabilities
negotiate_capabilities-AreOffered_example =
    negotiate_capabilities-AreOffered (codes "sasl=PLAIN" ∷ []) false served
      (record served {
        sent = codes "CAP n ACK :sasl" ∷ [];
        acked_capabilities = codes "sasl" ∷ [];
      })
      (cap_req ∷ cap_end ∷ []) [] cap_end refl

authenticate-IsLast : IsLast authenticate
authenticate-IsLast = record { no_nick = λ p. cc; no_user = λ p. cc; no_cap = λ p. cc }

negotiate-replies_example :
    (d : Served) × (negotiate 3
        (codes "sasl" ∷ [])
        served
        (map (request [] none) (codes "sasl" ∷ codes "sasl x" ∷ []) ++ (authenticate ∷ []))
      ≡ ok (authenticate, d, []))
    × (d.sent
        ≡ []
          ++ map
              (reply (codes "sasl" ∷ []) (some (codes "n")))
              (codes "sasl" ∷ codes "sasl x" ∷ []))
negotiate-replies_example =
    negotiate-replies (codes "sasl" ∷ []) [] none 3 served (codes "sasl" ∷ codes "sasl x" ∷ [])
      authenticate [] authenticate-IsLast (omega arith)

get_batch_messages-lines_example :
    get_batch_messages (codes "metadata") (
      batch_line [] none ((43 ∷ codes "1") ∷ codes "metadata" ∷ codes "#c" ∷ [])
      ∷ ((cap_end ∷ []) ++ (batch_line [] none ((codes "-" ++ codes "1") ∷ []) ∷ [])))
    ≡ ok (codes "1", codes "#c" ∷ [], cap_end ∷ [])
get_batch_messages-lines_example =
    get_batch_messages-lines [] none 43 (codes "1") (codes "metadata") (codes "#c" ∷ [])
      (cap_end ∷ [])

abbrev pong_message : Message
pong_message = record { tags = []; prefix = none; command = codes "PONG"; params = [] }

abbrev support_dicts : List Support
support_dicts =
    ((codes "CLIENTTAGDENY", some (codes "*,-a")) ∷ (codes "SAFELIST", none) ∷ [])
    ∷ ((codes "TARGMAX", some (codes "PRIVMSG:4,JOIN:")) ∷ [])
    ∷ []

support_dicts-IsEntry : All (All IsEntry) support_dicts
support_dicts-IsEntry = ground arith

support_dicts-NodupKeys : NodupKeys (entries support_dicts)
unfolding get list_eq nat_eq
support_dicts-NodupKeys = (refl, (refl, (refl, tt)))

read_support-lines_example :
    read_support [] [] (
      map (support_line [] none (codes "n") (codes "are supported")) support_dicts
      ++ (pong_message ∷ []))
    ≡ ok (
      entries support_dicts,
      [] ++ map (support_line [] none (codes "n") (codes "are supported")) support_dicts,
      [],
    )
read_support-lines_example =
    read_support-lines [] none (codes "n") (codes "are supported") support_dicts [] pong_message []
      support_dicts-IsEntry support_dicts-NodupKeys refl

support_runs :
    (targmax (entries support_dicts)
      ≡ ok ((codes "PRIVMSG", some (codes "4")) ∷ (codes "JOIN", some []) ∷ []))
    × (skip_unless_arbitrary_client_tags (entries support_dicts) ≡ raised skip_test)
    × (add_token [] (codes "a=b=c") ≡ raised value_error)
unfolding targmax skip_unless_arbitrary_client_tags add_token
support_runs = (refl, refl, refl)

join_run :
    join_channel (codes "#C") (
      (cap_end ∷ [])
      ∷ (record cap_end { command = codes "JOIN"; params = codes "#c" ∷ [] } ∷ [])
      ∷ []
      ∷ [])
    ≡ ok ([] ∷ [])
unfolding join_channel
join_run = refl

negotiate-fuel_example :
    (negotiate 3 (codes "sasl" ∷ []) served (cap_req ∷ cap_end ∷ [])
      ≡ negotiate 5 (codes "sasl" ∷ []) served (cap_req ∷ cap_end ∷ []))
    × (negotiate 3 (codes "sasl" ∷ []) served (cap_req ∷ cap_end ∷ []) ≢ raised out_of_fuel)
negotiate-fuel_example =
    negotiate-fuel 3 5 (codes "sasl" ∷ []) served (cap_req ∷ cap_end ∷ []) (omega arith)
      (omega arith)
