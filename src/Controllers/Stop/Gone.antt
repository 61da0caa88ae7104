-- ===== src/Controllers/Stop/Gone.antt =====
-- What a kill leaves.
use irctest.Base.{
  ◌≡◌, refl, ap, ◌∙◌, inl, inr, true, false, List, [], ◌∷◌, ◌++◌, Bool-cases, if◌then◌else◌,
}
use irctest.Result.{ok}
use irctest.Ports.{Port, release, World, Step, killed, Reaches}
use irctest.Ports.Sound.{IsSound, kill-total}
use irctest.Controllers.Stop.{
  Signal, sigterm, sigkill, removes_directory, System, Controller, send_signal, kill_proc,
  kill_base, kill,
}

module _ (os : System) (c : Controller) (obeys : os.wait sigkill ≡ true) where
  send_signal-own_ports :
      (signal : Signal) (d : Controller) → (send_signal os signal d).own_ports ≡ d.own_ports
  send_signal-own_ports signal d = elim (Bool-cases (os.killpg signal)) [
    | inl sent ↦ rw sent refl
    | inr unsent ↦ rw unsent refl
  ]

  -- A process that the system kills is gone, and the ports are left as they were.
  kill_proc-gone :
      c.proc ≡ true
      → (stopped : Controller) × (kill_proc os c ≡ ok stopped)
        × (stopped.proc ≡ false)
        × (stopped.own_ports ≡ c.own_ports)
  unfolding kill_proc
  kill_proc-gone h =
      let terminated : Controller = send_signal os sigterm c in
      let killed_off : Controller = send_signal os sigkill terminated in
      elim (Bool-cases (os.wait sigterm)) [
        | inl ended ↦ (
          record terminated { proc = false },
          rw (h, ended) refl,
          refl,
          send_signal-own_ports sigterm c,
        )
        | inr lives ↦ (
          record killed_off { proc = false },
          rw (h, lives, obeys) refl,
          refl,
          send_signal-own_ports sigkill terminated ∙ send_signal-own_ports sigterm c,
        )
      ]

  stop-gone :
      (stopped : Controller) × ((if c.proc then kill_proc os c else ok c) ≡ ok stopped)
      × (stopped.proc ≡ false)
      × (stopped.own_ports ≡ c.own_ports)
  stop-gone = elim (Bool-cases c.proc) [
    | inl h ↦
        let (stopped, e, gone, kept) = kill_proc-gone h in
        (stopped, ap (λ b. if b then kill_proc os c else ok c) h ∙ e, gone, kept)
    | inr h ↦ (c, ap (λ b. if b then kill_proc os c else ok c) h, h, refl)
  ]

  -- If the system can kill the process, then from a world where each port is used once at most and
  -- all that is held is used, whatever the controllers have done since, the kill of a controller
  -- returns; no process and no ports are left to it, and what it does to the ports is a step of the
  -- controllers.
  pub kill-killed :
      (v : World)
      → IsSound v
      → (used : List Port) (front back : List (List Port))
      → Reaches v (record { used = used; owns = front ++ (c.own_ports ∷ back) })
      → (stopped : Controller) × (rest : List Port) × (kill os c used ≡ ok (stopped, rest))
        × (stopped.proc ≡ false)
        × (stopped.own_ports ≡ [])
        × Step
            (record { used = used; owns = front ++ (c.own_ports ∷ back) })
            (record { used = rest; owns = front ++ (stopped.own_ports ∷ back) })
  unfolding kill kill_base
  kill-killed v sound used front back r =
      let (rest, freed) = kill-total v sound used c.own_ports front back r in
      let (stopped, ends, gone, kept) = stop-gone in
      let freed' : release stopped.own_ports used ≡ ok rest = rw kept freed in
      elim (Bool-cases stopped.directory) [
        | inl removes ↦ (
          record stopped { own_ports = []; calls = stopped.calls ++ (removes_directory ∷ []) },
          rest,
          rw (ends, freed', removes) refl,
          gone,
          refl,
          killed used rest c.own_ports front back freed,
        )
        | inr keeps ↦ (
          record stopped { own_ports = [] },
          rest,
          rw (ends, freed', keeps) refl,
          gone,
          refl,
          killed used rest c.own_ports front back freed,
        )
      ]
