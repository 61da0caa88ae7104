-- ===== src/Controllers/Stop.antt =====
-- `kill_proc`, `terminate` and `kill` of the controllers.
pub mod Gone
use irctest.Base.{ℕ, Bool, true, false, Option, none, some, List, [], ◌∷◌, ◌++◌, if◌then◌else◌}
use irctest.Result.{Result, ok, raised, assertion_error, timeout_expired, ◌>>=◌, ◌>>◌, require}
use irctest.Ports.{Port, release}

pub data Signal : Type 0 where
  sigterm sigkill : Signal

-- What a controller asks the system for: a signal to the group of a process, or to the process, and
-- the removal of a directory.
pub data Call : Type 0 where
  to_group to_process : Signal → Call
  removes_directory : Call

-- What the system answers: whether a signal can be sent to the group, and whether the process ends
-- in time once it has the signal.
pub record System : Type 0 where
  pub killpg : Signal → Bool
  pub wait : Signal → Bool

-- A controller: whether it has a process and a directory, its ports, and what it asked for so far.
pub record Controller : Type 0 where
  pub proc : Bool
  pub directory : Bool
  pub own_ports : List Port
  pub calls : List Call

module _ (os : System) where
  -- `_terminate_process_group`, or else the signal to the process alone.
  abbrev pub send_signal : Signal → Controller → Controller
  send_signal signal c =
      let c' : Controller = record c { calls = c.calls ++ (to_group signal ∷ []) } in
      if os.killpg signal then c' else record c' { calls = c'.calls ++ (to_process signal ∷ []) }

  unfoldable pub kill_proc : Controller → Result Controller
  kill_proc c =
      let terminated : Controller = send_signal sigterm c in
      let killed : Controller = send_signal sigkill terminated in
      require c.proc assertion_error
      >> (if os.wait sigterm
          then ok (record terminated { proc = false })
          else if os.wait sigkill
          then ok (record killed { proc = false })
          else raised timeout_expired)

  -- `terminate`, which waits without a timeout: `none` if the process does not end.
  unfoldable pub terminate : Controller → Result (Option Controller)
  terminate c =
      let terminated : Controller = send_signal sigterm c in
      require c.proc assertion_error
      >> ok (if os.wait sigterm then some (record terminated { proc = false }) else none)

  -- `kill` of `_BaseController`, with the file of used ports: the process, if there is one, and then
  -- the ports.
  unfoldable pub kill_base : Controller → List Port → Result (Controller × List Port)
  unfolding kill_proc release
  kill_base c used = (if c.proc then kill_proc c else ok c) >>= λ stopped.
      release stopped.own_ports used >>= λ rest. ok (record stopped { own_ports = [] }, rest)

  -- `kill` of `DirectoryBasedController`
  unfoldable pub kill : Controller → List Port → Result (Controller × List Port)
  unfolding kill_base
  kill c used = kill_base c used >>= λ (stopped, rest). ok (
    (if stopped.directory
        then record stopped { calls = stopped.calls ++ (removes_directory ∷ []) }
        else stopped),
    rest,
  )

-- `kill` of `BaseServerController`: the services first, if there are any, each with its own process.
unfoldable pub kill_server :
    System
    → System
    → Option Controller
    → Controller
    → List Port
    → Result (Option Controller × (Controller × List Port))
unfolding kill
kill_server os services_os none c used = kill os c used >>= λ stopped. ok (none, stopped)
kill_server os services_os (some services) c used =
    kill services_os services used >>= λ (gone, rest).
    kill os c rest >>= λ stopped. ok (some gone, stopped)
