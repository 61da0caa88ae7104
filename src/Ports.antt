-- ===== src/Ports.antt =====
-- The ports that controllers hold: `get_hostname_and_port` and `kill` of `_BaseController`
-- (`irctest/basecontrollers.py`).
pub mod Sound
pub mod Owners
mod Tests
use irctest.Base.{
  ℕ, Bool, true, false, Option, none, some, List, [], ◌∷◌, ◌++◌, Text, Eq, ◌==◌, ◌≡◌, contains,
  if◌then◌else◌, ℕ_discrete,
}
use irctest.Result.{Result, ok, raised, key_error, ◌>>=◌}

-- A hostname and a port.
abbrev pub Port : Type 0
Port = Text × ℕ

port_discrete : Discrete Port
unfolding ℕ_discrete
port_discrete = hlevel ℕ_discrete

instance unfoldable pub port_eq : Eq Port
unfolding port_discrete
port_eq = record { dec = port_discrete }

-- The loop over what the system offers, of which the used ones are passed over. `none` tells that
-- nothing more is offered.
unfoldable pub pick : List Port → List Port → Option Port
unfolding port_eq
pick used [] = none
pick used (p ∷ offers) = elim (contains used p) [ true ↦ pick used offers | false ↦ some p ]

-- `ports.remove(p)`
unfoldable pub remove : Port → List Port → Result (List Port)
unfolding port_eq
remove p [] = raised key_error
remove p (q ∷ ports) = elim (q == p) [
  | true ↦ ok ports
  | false ↦ remove p ports >>= λ rest. ok (q ∷ rest)
]

-- The loop of `kill`: each own port is removed from the used ones.
unfoldable pub release : List Port → List Port → Result (List Port)
unfolding remove
release [] used = ok used
release (p ∷ own) used = remove p used >>= λ rest. release own rest

-- The file of used ports, and the ports of each controller. A lock makes each step one of its own.
pub record World : Type 0 where
  pub used : List Port
  pub owns : List (List Port)

-- A controller starts, gets a port, or is killed.
pub data Step : World → World → Type 0 where
  starts :
      (used : List Port) (owns : List (List Port))
      → Step (record { used = used; owns = owns }) (record { used = used; owns = [] ∷ owns })
  gets :
      (used own offers : List Port) (front back : List (List Port)) (p : Port)
      → pick used offers ≡ some p
      → Step
          (record { used = used; owns = front ++ (own ∷ back) })
          (record { used = p ∷ used; owns = front ++ ((p ∷ own) ∷ back) })
  killed :
      (used rest own : List Port) (front back : List (List Port))
      → release own used ≡ ok rest
      → Step
          (record { used = used; owns = front ++ (own ∷ back) })
          (record { used = rest; owns = front ++ ([] ∷ back) })

pub data Reaches : World → World → Type 0 where
  here : (w : World) → Reaches w w
  after : (u v w : World) → Reaches u v → Step v w → Reaches u w
