-- ===== src/Controllers/Start/Ends.antt =====
-- How long a test waits for the port of a server.
use irctest.Base.{
  ℕ, suc, ◌+◌, ◌≤◌, ◌≡◌, ◌⊎◌, inl, inr, refl, true, false, List, [], ◌∷◌, All, arith, length, leb,
  Bool-cases, Option-cases,
}
use irctest.Result.{ok, raised, process_stopped, connection_refused, socket_error}
use irctest.Controllers.Start.{
  Receipt, quits, refused, broken, accepted, Turn, Waited, ended, wait_for_port,
}

-- The turn with the number `n`, counted from there, comes `n` tenths of a second after the start at
-- the earliest, since each turn sleeps for one.
abbrev pub Passes : ℕ → List Turn → Type 0
Passes n [] = Unit
Passes n (turn ∷ turns) = (n ≤ turn.elapsed) × Passes (suc n) turns

-- A connection is refused or fails, or else it gets an answer, or ends.
abbrev pub Answers : Turn → Type 0
Answers turn =
    (turn.connection ≡ refused)
    ⊎ ((turn.connection ≡ broken)
        ⊎ ((receipts : List Receipt) × (turn.connection ≡ accepted receipts)
            × (quits [] receipts ≡ true)))

-- How the wait ends: with the port open, or with one of three exceptions.
abbrev pub Ended : Waited → Type 0
Ended w =
    (w ≡ ended (ok true))
    ⊎ ((w ≡ ended (raised process_stopped))
        ⊎ ((w ≡ ended (raised connection_refused)) ⊎ (w ≡ ended (raised socket_error))))

ends-from :
    (n : ℕ) (turns : List Turn)
    → n ≤ 600
    → 601 ≤ n + length turns
    → Passes n turns
    → All Answers turns
    → Ended (wait_for_port false turns)
unfolding wait_for_port
ends-from n [] h k p a = absurd (omega (arith, h, k))
ends-from n (turn ∷ turns) h k p a = elim (Option-cases turn.returncode) [
  | inr (returncode, e) ↦ rw e (inr (inl refl))
  | inl e ↦ elim a.0 [
    | inr (inl f) ↦ rw (e, f) (inr (inr (inr refl)))
    | inr (inr (receipts, f, quit)) ↦ rw (e, f, quit) (inl refl)
    | inl f ↦ elim (Bool-cases (leb 600 turn.elapsed)) [
      | inl late ↦ rw (e, f, late) (inr (inr (inl refl)))
      | inr early ↦
          rw (e, f, early)
            (ends-from (suc n) turns (ground (arith, early, p.0)) (omega (arith, k)) p.1 a.1)
    ]
  ]
]

-- If time passes by the sleep of each turn, and connections that are accepted are answered or end, a
-- wait for the port ends within 600 turns: the port is open, or the process has stopped, or the
-- last connection was refused, or failed otherwise.
pub wait_for_port-Ended :
    (turns : List Turn)
    → Passes 1 turns
    → All Answers turns
    → 600 ≤ length turns
    → Ended (wait_for_port false turns)
wait_for_port-Ended turns p a h = ends-from 1 turns (omega arith) (omega (arith, h)) p a
