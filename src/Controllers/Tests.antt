-- ===== src/Controllers/Tests.antt =====
-- A server that starts and one that is killed, and the theorems at concrete values.
use irctest.Base.{
  ℕ, zero, suc, ◌≡◌, inl, refl, true, false, none, List, [], ◌∷◌, ◌++◌, length, codes, list_eq,
  nat_eq, cut, All, arith,
}
use irctest.Result.{ok, raised, connection_refused}
use irctest.Ports.{Port, pick, World, Step, starts, gets, Reaches, here, after}
use irctest.Ports.Sound.{count, IsSound}
use irctest.Controllers.Start.{refused, accepted, data_sent, Turn, ended, waiting, wait_for_port}
use irctest.Controllers.Start.Ends.{Passes, Ended, Answers, wait_for_port-Ended}
use irctest.Controllers.Stop.{
  sigterm, sigkill, System, Controller, to_group, to_process, removes_directory, kill,
}
use irctest.Controllers.Stop.Gone.{kill-killed}

abbrev not_yet : ℕ → Turn
not_yet elapsed = record { returncode = none; connection = refused; elapsed = elapsed }

abbrev up : Turn
up = record {
  returncode = none;
  connection = accepted (data_sent (codes "ERROR :bye") ∷ []);
  elapsed = 20;
}

opens : wait_for_port false (not_yet 3 ∷ up ∷ []) ≡ ended (ok true)
unfolding wait_for_port list_eq nat_eq cut
opens = refl

gives_up_late :
    wait_for_port false (not_yet 3 ∷ not_yet 600 ∷ up ∷ []) ≡ ended (raised connection_refused)
unfolding wait_for_port
gives_up_late = refl

stays_silent : wait_for_port false (record up { connection = accepted [] } ∷ []) ≡ waiting
unfolding wait_for_port list_eq nat_eq cut
stays_silent = refl

-- A server that never opens its port.
abbrev never_up : ℕ → ℕ → List Turn
never_up zero elapsed = []
never_up (suc n) elapsed = not_yet elapsed ∷ never_up n (suc elapsed)

abbrev os : System
os = record {
  killpg = λ signal. elim signal [ sigterm ↦ true | sigkill ↦ false ];
  wait = λ signal. elim signal [ sigterm ↦ false | sigkill ↦ true ];
}

abbrev port : Port
port = (codes "0.0.0.0", 4000)

abbrev controller : Controller
controller = record { proc = true; directory = true; own_ports = port ∷ []; calls = [] }

abbrev initial : World
initial = record { used = []; owns = [] }

initial-IsSound : IsSound initial
unfolding count
initial-IsSound = λ p. (omega arith, omega arith)

started : Reaches initial (record { used = port ∷ []; owns = [] ++ ((port ∷ []) ∷ []) })
unfolding pick
started =
    after initial (record { used = []; owns = [] ∷ [] }) _
      (after initial initial _ (here initial) (starts [] []))
      (gets [] [] (port ∷ []) [] [] port refl)

kill-killed_example :
    (stopped : Controller) × (rest : List Port) × (kill os controller (port ∷ [])
      ≡ ok (stopped, rest))
    × (stopped.proc ≡ false)
    × (stopped.own_ports ≡ [])
    × Step
        (record { used = port ∷ []; owns = [] ++ ((port ∷ []) ∷ []) })
        (record { used = rest; owns = [] ++ (stopped.own_ports ∷ []) })
kill-killed_example =
    kill-killed os controller refl initial initial-IsSound (port ∷ []) [] [] started

killed_calls :
    kill os controller (port ∷ [])
    ≡ ok (
      record {
        proc = false;
        directory = true;
        own_ports = [];
        calls = to_group sigterm ∷ to_group sigkill ∷ to_process sigkill ∷ removes_directory ∷ [];
      },
      [],
    )
unfolding kill
killed_calls = refl

never_up-Passes : (n elapsed : ℕ) → Passes elapsed (never_up n elapsed)
never_up-Passes zero elapsed = tt
never_up-Passes (suc n) elapsed = (omega arith, never_up-Passes n (suc elapsed))

never_up-Answers : (n elapsed : ℕ) → All Answers (never_up n elapsed)
never_up-Answers zero elapsed = tt
never_up-Answers (suc n) elapsed = (inl refl, never_up-Answers n (suc elapsed))

length-never_up : (n elapsed : ℕ) → length (never_up n elapsed) ≡ n
length-never_up zero elapsed = refl
length-never_up (suc n) elapsed = omega (arith, length-never_up n (suc elapsed))

wait_for_port-Ended_example : Ended (wait_for_port false (never_up 600 1))
wait_for_port-Ended_example =
    wait_for_port-Ended (never_up 600 1) (never_up-Passes 600 1) (never_up-Answers 600 1)
      (omega (arith, length-never_up 600 1))
