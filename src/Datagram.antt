-- ===== src/Datagram.antt =====
-- What the two UDP transports share: the operating system, which is a parameter, and one datagram
-- through the egress budget to the socket, as `send_datagram` of src/native_client.rs and of
-- src/udp_server.rs begins.
pub mod Accounts
use renet_cross.Prelude.{
  ℕ, Bool, true, false, Option, none, some, List, length, Result, ok, err, ◌==◌,
}
use renet_cross.Net.{SocketAddr, SocketAddr-discrete, ip_overhead}
use renet_cross.UdpIo.{IoError}
use renet_cross.Egress.Peers.{Egress, admit_at, complete}

-- The standard library's clock and a UDP socket. A clock is read in nanoseconds since the component
-- that reads it was made; every call passes on a new state of the world.
pub record Os : Type 1 where
  pub World : Type 0
  pub egress_elapsed : World → World × ℕ
  pub gate_elapsed : World → World × ℕ
  pub recv_from : World → World × Result IoError (List ℕ × SocketAddr)
  pub send_to : List ℕ → SocketAddr → World → World × Result IoError ℕ

-- The egress budget of a transport, and the world that it sends to.
pub record Line (K W : Type 0) : Type 0 where
  pub egress : Egress K
  pub world : W

-- `result.as_ref().is_ok_and(|len| *len == payload.len())`.
abbrev pub sent_whole : ℕ → Result IoError ℕ → Bool
sent_whole size (ok n) = n == size
sent_whole size (err e) = false

module _ (os : Os) where
  open os use {World, egress_elapsed, send_to}

  -- The datagram that `admit` lets through: the send, and its outcome in the statistics.
  unfoldable pub send_admitted :
      List ℕ
      → SocketAddr
      → Line SocketAddr World
      → Line SocketAddr World × Option (Result IoError ℕ)
  send_admitted payload addr line =
      let (sent, result) = send_to payload addr line.world in
      let (timed, now) = egress_elapsed sent in
      let overhead = ip_overhead addr in
      let whole = sent_whole (length payload) result in
      (
        record {
          egress = complete SocketAddr-discrete addr payload overhead whole now line.egress;
          world = timed;
        },
        some result,
      )

  -- One datagram, and what the socket said if it was asked.
  unfoldable pub transmit :
      List ℕ
      → SocketAddr
      → Line SocketAddr World
      → Line SocketAddr World × Option (Result IoError ℕ)
  unfolding send_admitted
  transmit payload addr line =
      let (timed, now) = egress_elapsed line.world in
      let (charged, admitted) =
        admit_at SocketAddr-discrete addr payload (ip_overhead addr) now line.egress in
      let line' : Line SocketAddr World = record { egress = charged; world = timed } in
      elim admitted [ true ↦ send_admitted payload addr line' | false ↦ (line', none) ]
