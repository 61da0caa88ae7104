-- ===== src/Ports/Sound.antt =====
-- No two controllers hold the same port, and a kill can give its ports back.
use irctest.Base.{
  ℕ, ◌+◌, ◌≤◌, ◌≡◌, refl, ◌∙◌, inl, inr, true, false, some, List, [], ◌∷◌, ◌++◌, ◌==◌, contains,
  arith, eq_iff, eq_refl, Bool-cases, if◌then◌else◌,
}
use irctest.Result.{ok, Result-cases}
use irctest.Ports.{
  Port, port_eq, pick, remove, release, World, Step, starts, gets, killed, Reaches, here, after,
}

-- How often the port occurs.
unfoldable pub count : Port → List Port → ℕ
unfolding port_eq
count p [] = 0
count p (q ∷ ports) = (if q == p then 1 else 0) + count p ports

abbrev pub all_ports : List (List Port) → List Port
all_ports [] = []
all_ports (own ∷ owns) = own ++ all_ports owns

-- Each port is used once at most, and what the controllers hold is used.
abbrev pub IsSound : World → Type 0
IsSound w = (p : Port) → (count p (all_ports w.owns) ≤ count p w.used) × (count p w.used ≤ 1)

pub count-append : (p : Port) (xs ys : List Port) → count p (xs ++ ys) ≡ count p xs + count p ys
unfolding count
count-append p [] ys = omega arith
count-append p (x ∷ xs) ys = omega (arith, count-append p xs ys)

pub count-all_ports :
    (p : Port) (own : List Port) (front back : List (List Port))
    → count p (all_ports (front ++ (own ∷ back)))
      ≡ count p own + (count p (all_ports front) + count p (all_ports back))
unfolding count
count-all_ports p own [] back = count-append p own (all_ports back) ∙ omega arith
count-all_ports p own (o ∷ front) back = omega (
  arith,
  count-append p o (all_ports (front ++ (own ∷ back))),
  count-append p o (all_ports front),
  count-all_ports p own front back,
)

pub pick-fresh :
    (used offers : List Port) (p : Port) → pick used offers ≡ some p → contains used p ≡ false
unfolding pick
pick-fresh used [] p h = absurd (ground arith)
pick-fresh used (q ∷ offers) p h = ground (arith, pick-fresh used offers p)

pub count-absent : (p : Port) (used : List Port) → contains used p ≡ false → count p used ≡ 0
unfolding count
count-absent p [] h = refl
count-absent p (q ∷ used) h = ground (arith, count-absent p used)

count-remove :
    (q p : Port) (used rest : List Port)
    → remove p used ≡ ok rest
    → count q rest + (if p == q then 1 else 0) ≡ count q used
unfolding count remove
count-remove q p [] rest h = absurd (ground arith)
count-remove q p (x ∷ used) rest h = elim (Bool-cases (x == p)) [
  | inl e ↦
      let same : used ≡ rest = ground arith in
      let equal : x ≡ p = (eq_iff x p).0 e in rw (← same, equal) (omega arith)
  | inr e ↦ elim (Result-cases (remove p used)) [
    | inl (ports, f) ↦
        let shorter = count-remove q p used ports f in
        let same : x ∷ ports ≡ rest = ground arith in rw (← same, count) (omega (arith, shorter))
    | inr (y, f) ↦ absurd (ground arith)
  ]
]

remove-total :
    (p : Port) (used : List Port)
    → 1 ≤ count p used
    → (rest : List Port) × (remove p used ≡ ok rest)
unfolding count remove
remove-total p [] h = absurd (omega arith)
remove-total p (x ∷ used) h = elim (Bool-cases (x == p)) [
  | inl e ↦ (used, rw (remove, e) refl)
  | inr e ↦ let (rest, f) = remove-total p used (ground arith) in (x ∷ rest, rw (remove, e, f) refl)
]

release-count :
    (q : Port) (own used rest : List Port)
    → release own used ≡ ok rest
    → count q rest + count q own ≡ count q used
unfolding count release
release-count q [] used rest h = let same : used ≡ rest = ground arith in rw (← same) (omega arith)
release-count q (p ∷ own) used rest h = elim (Result-cases (remove p used)) [
  | inl (ports, f) ↦
      let removed = count-remove q p used ports f in
      let released = release-count q own ports rest (ground arith) in
      omega (arith, removed, released)
  | inr (y, f) ↦ absurd (ground arith)
]

count-here : (p : Port) (ports : List Port) → 1 ≤ count p (p ∷ ports)
unfolding count
count-here p ports = rw (count, eq_refl p) (omega arith)

release-total :
    (own used : List Port)
    → ((q : Port) → count q own ≤ count q used)
    → (rest : List Port) × (release own used ≡ ok rest)
unfolding count release
release-total [] used h = (used, refl)
release-total (p ∷ own) used h =
    let (ports, f) = remove-total p used (omega (arith, count-here p own, h p)) in
    let (rest, g) =
      release-total own ports (λ q. omega (arith, h q, count-remove q p used ports f)) in
    (rest, rw (release, f) g)

pick-count :
    (q : Port) (used offers : List Port) (p : Port)
    → pick used offers ≡ some p
    → count q used ≤ 1
    → count q (p ∷ used) ≤ 1
unfolding count
pick-count q used offers p h k = elim (Bool-cases (p == q)) [
  | inl e ↦
      let equal : p ≡ q = (eq_iff p q).0 e in
      let absent = count-absent q used (rw (← equal) (pick-fresh used offers p h)) in
      rw (count, e) (omega (arith, absent))
  | inr e ↦ rw (count, e) (omega (arith, k))
]

pub Step-IsSound : (v w : World) → Step v w → IsSound v → IsSound w
unfolding count
Step-IsSound v w (starts used owns) s = s
Step-IsSound v w (gets used own offers front back p h) s = λ q. (
  omega (arith, (s q).0, count-all_ports q own front back, count-all_ports q (p ∷ own) front back),
  pick-count q used offers p h (s q).1,
)
Step-IsSound v w (killed used rest own front back h) s = λ q.
    let counts = release-count q own used rest h in
    (
      omega (
        arith,
        (s q).0,
        count-all_ports q own front back,
        count-all_ports q [] front back,
        counts,
      ),
      omega (arith, (s q).1, counts),
    )

pub Reaches-IsSound : (v w : World) → Reaches v w → IsSound v → IsSound w
Reaches-IsSound v w (here u) s = s
Reaches-IsSound v w (after a b c r t) s = Step-IsSound b c t (Reaches-IsSound a b r s)

contains-count : (p : Port) (ports : List Port) → contains ports p ≡ true → 1 ≤ count p ports
unfolding count
contains-count p [] h = absurd (ground arith)
contains-count p (q ∷ ports) h = ground (arith, contains-count p ports)

pub count-contains : (p : Port) (ports : List Port) → count p ports ≡ 0 → contains ports p ≡ false
unfolding count
count-contains p [] h = refl
count-contains p (q ∷ ports) h = ground (arith, count-contains p ports)

module _ (v : World) (sound : IsSound v) (used own : List Port)
    (front back : List (List Port)) where
  abbrev pub world : World
  world = record { used = used; owns = front ++ (own ∷ back) }

  -- From a world where each port is used once at most and all that is held is used, whatever the
  -- controllers have done since, a kill finds the ports of its controller in the file: it raises no
  -- KeyError.
  pub kill-total : Reaches v world → (rest : List Port) × (release own used ≡ ok rest)
  kill-total r =
      release-total own used (λ q.
        omega (arith, (Reaches-IsSound v world r sound q).0, count-all_ports q own front back))

  -- From a world where each port is used once at most and all that is held is used, whatever the
  -- controllers have done since, a port of one controller is a port of no other.
  pub ports-disjoint :
      Reaches v world
      → (p : Port) → contains own p ≡ true
      → contains (all_ports front ++ all_ports back) p ≡ false
  ports-disjoint r p h =
      let s = Reaches-IsSound v world r sound p in
      count-contains p (all_ports front ++ all_ports back) (
        omega (
          arith,
          s.0,
          s.1,
          count-all_ports p own front back,
          count-append p (all_ports front) (all_ports back),
          contains-count p own h,
        ))
