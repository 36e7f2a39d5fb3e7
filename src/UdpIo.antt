-- ===== src/UdpIo.antt =====
-- src/udp_io.rs: the bounded receive loop. The I/O operation is a function that passes its own
-- state on.
pub mod Budget
mod Tests
use renet_cross.Prelude.{ℕ, zero, suc, Result, ok, err}

-- `io::ErrorKind`, the kinds that the program tells apart and the others by number.
pub data IoError : Type 0 where
  would_block interrupted connection_reset : IoError
  addr_not_available network_unreachable host_unreachable : IoError
  connection_aborted connection_refused timed_out not_connected : IoError
  other_error : ℕ → IoError

pub data Verdict : Type 0 where
  go_on stop fail : Verdict

pub verdict : Result IoError (Unit {0}) → Verdict
verdict (ok _) = go_on
verdict (err would_block) = stop
verdict (err interrupted) = go_on
verdict (err connection_reset) = go_on
verdict (err _) = fail

pub receive_with_budget :
    {S : Type 0} → ℕ → (S → S × Result IoError (Unit {0})) → S → S × Result IoError (Unit {0})
unfolding verdict
receive_with_budget zero receive s = (s, ok tt)
receive_with_budget (suc n) receive s =
    let (s', outcome) = receive s in
    let rest = receive_with_budget n receive s' in
    elim (verdict outcome) [ go_on ↦ rest | stop ↦ (s', ok tt) | fail ↦ (s', outcome) ]
