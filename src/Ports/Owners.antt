-- ===== src/Ports/Owners.antt =====
-- What the file of used ports and the sets of the controllers stand for: who holds which port. The
-- order of the ports is forgotten, and the file.
use irctest.Base.{
  ◌≡◌, refl, ap, Bool, true, false, List, [], ◌∷◌, ◌++◌, map, All, ◌==◌, contains, arith,
  if◌then◌else◌,
}
use irctest.Ports.{Port, port_eq, World, Step, starts, gets, killed, Reaches, here, after}
use irctest.Ports.Sound.{
  count, all_ports, IsSound, Reaches-IsSound, count-append, count-absent, count-contains,
  pick-fresh,
}

-- A controller, by the ports that it holds.
abbrev pub Owner : Type 0
Owner = Port → Bool

abbrev pub nobody : Owner
nobody p = false

abbrev pub with_port : Port → Owner → Owner
with_port p owner q = if p == q then true else owner q

-- A controller comes to exist, takes a port that no controller holds, or gives up all it holds.
pub data Moves : List Owner → List Owner → Type 0 where
  comes : (owners : List Owner) → Moves owners (nobody ∷ owners)
  takes :
      (owner : Owner) (front back : List Owner) (p : Port)
      → All (λ o. o p ≡ false) (front ++ (owner ∷ back))
      → Moves (front ++ (owner ∷ back)) (front ++ (with_port p owner ∷ back))
  gives_up :
      (owner : Owner) (front back : List Owner)
      → Moves (front ++ (owner ∷ back)) (front ++ (nobody ∷ back))

pub data Becomes : List Owner → List Owner → Type 0 where
  same : (owners : List Owner) → Becomes owners owners
  then_moves : (u v w : List Owner) → Becomes u v → Moves v w → Becomes u w

abbrev pub owner_of : List Port → Owner
owner_of own p = contains own p

abbrev pub owners_of : World → List Owner
owners_of w = map owner_of w.owns

map-append {ℓ κ} :
    {A : Type ℓ} {B : Type κ} (f : A → B) (xs ys : List A) → map f (xs ++ ys) ≡ map f xs ++ map f ys
map-append f [] ys = refl
map-append f (x ∷ xs) ys = ap (λ zs. f x ∷ zs) (map-append f xs ys)

-- What no controller holds.
held-nowhere :
    (p : Port) (owns : List (List Port))
    → count p (all_ports owns) ≡ 0
    → All (λ o. o p ≡ false) (map owner_of owns)
held-nowhere p [] h = tt
held-nowhere p (own ∷ owns) h = (
  count-contains p own (omega (arith, h, count-append p own (all_ports owns))),
  held-nowhere p owns (omega (arith, h, count-append p own (all_ports owns))),
)

Step-Moves : (v w : World) → IsSound v → Step v w → Moves (owners_of v) (owners_of w)
Step-Moves v w s (starts used owns) = comes (map owner_of owns)
Step-Moves v w s (gets used own offers front back p h) =
    let free : count p (all_ports (front ++ (own ∷ back))) ≡ 0 =
      omega (arith, (s p).0, count-absent p used (pick-fresh used offers p h)) in
    let fits : All (λ o. o p ≡ false) (map owner_of front ++ (owner_of own ∷ map owner_of back)) =
      rw (← map-append owner_of front (own ∷ back)) (held-nowhere p (front ++ (own ∷ back)) free) in
    rw (map-append owner_of front (own ∷ back), map-append owner_of front ((p ∷ own) ∷ back))
      (takes (owner_of own) (map owner_of front) (map owner_of back) p fits)
Step-Moves v w s (killed used rest own front back h) =
    rw (map-append owner_of front (own ∷ back), map-append owner_of front ([] ∷ back))
      (gives_up (owner_of own) (map owner_of front) (map owner_of back))

-- From a world where each port is used once at most and all that is held is used, whatever the
-- controllers do by the file of used ports, a port is only ever taken if no controller holds it,
-- and a killed controller gives up all that it holds, and no other does.
pub Reaches-Becomes : (v w : World) → IsSound v → Reaches v w → Becomes (owners_of v) (owners_of w)
Reaches-Becomes v w s (here u) = same (owners_of u)
Reaches-Becomes v w s (after a b c r t) =
    then_moves (owners_of a) (owners_of b) (owners_of c) (Reaches-Becomes a b s r)
      (Step-Moves b c (Reaches-IsSound a b r s) t)
