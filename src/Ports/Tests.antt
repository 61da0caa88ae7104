-- ===== src/Ports/Tests.antt =====
-- Two controllers that each get a port.
use irctest.Base.{◌≡◌, refl, arith, [], ◌∷◌, ◌++◌, codes, false, contains, nat_eq, list_eq}
use irctest.Result.{raised, key_error}
use irctest.Ports.{Port, port_eq, pick, release, World, starts, gets, Reaches, here, after}
use irctest.Ports.Owners.{Becomes, owner_of, Reaches-Becomes}
use irctest.Ports.Sound.{count, IsSound, all_ports, ports-disjoint}

abbrev first : Port
first = (codes "0.0.0.0", 4000)

abbrev second : Port
second = (codes "0.0.0.0", 4001)

abbrev initial : World
initial = record { used = []; owns = [] }

initial-IsSound : IsSound initial
unfolding count
initial-IsSound = λ p. (omega arith, omega arith)

-- The second controller is offered the port of the first one before another.
final :
    Reaches initial
      (record { used = second ∷ first ∷ []; owns = [] ++ ((second ∷ []) ∷ (first ∷ []) ∷ []) })
unfolding pick
final =
    after initial (record { used = first ∷ []; owns = [] ∷ (first ∷ []) ∷ [] }) _
      (after initial (record { used = first ∷ []; owns = (first ∷ []) ∷ [] }) _
        (after initial (record { used = []; owns = [] ∷ [] }) _
          (after initial initial _ (here initial) (starts [] []))
          (gets [] [] (first ∷ []) [] [] first refl))
        (starts (first ∷ []) ((first ∷ []) ∷ [])))
      (gets (first ∷ []) [] (first ∷ second ∷ []) [] ((first ∷ []) ∷ []) second refl)

ports-disjoint_example : contains (all_ports [] ++ all_ports ((first ∷ []) ∷ [])) second ≡ false
unfolding port_eq
ports-disjoint_example =
    ports-disjoint initial initial-IsSound (second ∷ first ∷ []) (second ∷ []) []
      ((first ∷ []) ∷ []) final second refl

release_foreign : release (second ∷ []) (first ∷ []) ≡ raised key_error
unfolding release
release_foreign = refl

Reaches-Becomes_example : Becomes [] (owner_of (second ∷ []) ∷ owner_of (first ∷ []) ∷ [])
Reaches-Becomes_example =
    Reaches-Becomes initial
      (record { used = second ∷ first ∷ []; owns = (second ∷ []) ∷ (first ∷ []) ∷ [] })
      initial-IsSound final
