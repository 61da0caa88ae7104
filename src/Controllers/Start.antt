-- ===== src/Controllers/Start.antt =====
-- `check_is_alive` and `wait_for_port` of the controllers of servers.
pub mod Ends
use irctest.Base.{
  ℕ, Bool, true, false, not, ◌||◌, Option, none, some, List, [], ◌∷◌, ◌++◌, Text, codes, ◌==◌,
  nat_eq, leb, occurs, if◌then◌else◌,
}
use irctest.Result.{
  Result, ok, raised, process_stopped, connection_refused, socket_error, ◌>>=◌, ◌>>◌,
}

-- `check_is_alive`, from what `poll` sets as the code that the process returned, if it did.
abbrev pub check_is_alive : Option ℕ → Result (Unit {0})
check_is_alive none = ok tt
check_is_alive (some returncode) = raised process_stopped

-- What a `recv` gives, with the `send` behind it: data, or the data and a broken pipe, a reset of
-- the connection, or a timeout.
pub data Receipt : Type 0 where
  data_sent data_broken : Text → Receipt
  reset timed_out : Receipt

-- `b"chkport" in data or b"ERROR" in data`
abbrev pub is_answered : Text → Bool
is_answered seen = occurs (codes "chkport") seen || occurs (codes "ERROR") seen

-- Whether the inner loop ends. With nothing more to come it waits on.
unfoldable pub quits : Text → List Receipt → Bool
quits seen [] = is_answered seen
quits seen (data_sent text ∷ receipts) =
    let later = quits (seen ++ text) receipts in if is_answered seen then true else later
quits seen (data_broken text ∷ receipts) = true
quits seen (reset ∷ receipts) = true
quits seen (timed_out ∷ receipts) = true

-- A connection that is refused, one that fails with another error, which is not caught, or one that
-- is accepted.
pub data Connection : Type 0 where
  refused broken : Connection
  accepted : List Receipt → Connection

-- A turn of the outer loop: what `poll` tells, what becomes of the connection, and the time since
-- the start, in tenths of a second, the unit of `_port_wait_interval`.
pub record Turn : Type 0 where
  pub returncode : Option ℕ
  pub connection : Connection
  pub elapsed : ℕ

-- `port_open` at the end, or an exception; or else the loop goes on.
pub data Waited : Type 0 where
  ended : Result Bool → Waited
  waiting : Waited

unfoldable pub wait_for_port : Bool → List Turn → Waited
unfolding quits
wait_for_port true turns = ended (ok true)
wait_for_port false [] = waiting
wait_for_port false (turn ∷ turns) = elim (check_is_alive turn.returncode) [
  | raised x ↦ ended (raised x)
  | ok alive ↦ elim turn.connection [
    | refused ↦ elim (leb 600 turn.elapsed) [
      | true ↦ ended (raised connection_refused)
      | false ↦ wait_for_port false turns
    ]
    | broken ↦ ended (raised socket_error)
    | accepted receipts ↦ (if quits [] receipts then ended (ok true) else waiting)
  ]
]
