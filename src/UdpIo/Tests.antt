-- ===== src/UdpIo/Tests.antt =====
-- src/udp_io.rs: the theorem at work on a socket that fails.
use renet_cross.Prelude.{ℕ, ◌+◌, ◌≡◌, ◌==◌, if◌then◌else◌, List, [], ◌++◌, ok, err}
use renet_cross.UdpIo.{interrupted, other_error, receive_with_budget}
use renet_cross.UdpIo.Budget.{Outcome, logged, Ended, receive_with_budget-Ended}

-- An interruption, a datagram, and then an error of the socket.
abbrev failing_socket : ℕ → ℕ × Outcome
failing_socket s =
    (s + 1, if s == 0 then err interrupted else if s == 1 then ok tt else err (other_error 7))

receive_with_budget-Ended_example :
    let r = receive_with_budget 5 (logged failing_socket) (0, []) in
    (attempts : List Outcome) × ((r.0).1 ≡ attempts ++ []) × Ended 5 attempts r.1
receive_with_budget-Ended_example = receive_with_budget-Ended failing_socket 5 0 []
