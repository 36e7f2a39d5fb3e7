-- ===== src/WebRtc.antt =====
-- src/server.rs: `WebRtcNetcodeServerTransport`, the state and the addresses. str0m's `Rtc`, renetcode's
-- server, renet's server, the socket and the clocks are parameters. The state holds renet's server too,
-- which the source borrows for each call. The hash maps and sets are lists of their entries; where the
-- source iterates over one, it takes the order of the list. What the source only logs is left out.
pub mod Addresses
pub mod Peers
pub mod Driving
pub mod Sending
pub mod Results
pub mod Pump
pub mod Frames
pub mod Keeps
pub mod Ledger
pub mod Rounds
pub mod Toy
mod Tests
use Prim.Native.String.{String}
use native.Mathlib.Decide.{ℕ_discrete}
use renet_cross.Prelude.{
  ℕ, ◌+◌, ◌*◌, ◌/◌, ◌%◌, ◌^◌, Bool, true, false, Option, none, some, List, [], ◌∷◌, Result, ok, err,
  ◌==◌,
}
use renet_cross.Float.{F64}
use renet_cross.Net.{SocketAddr, v6}
use renet_cross.UdpIo.{IoError}
use renet_cross.Egress.{encrypted_logical}
use renet_cross.Egress.Peers.{Egress, new as new_egress}
use renet_cross.ServerConditioner
use renet_cross.ServerGate.{ServerGate, bypass, attach}
use renet_cross.Datagram.{Os, Line}
use renet_cross.NetcodeResult.{OwnedServerResult, NetcodeServer, RenetServer}

abbrev pub max_datagrams_per_update : ℕ
max_datagrams_per_update = 256

abbrev pub max_datagrams_per_peer_per_update : ℕ
max_datagrams_per_peer_per_update = 24

abbrev pub max_drain_steps_per_peer : ℕ
max_drain_steps_per_peer = 256

-- `str0m::Event`, with the constructors that the program matches on.
pub data Event : Type 0 where
  channel_open : ℕ → Event
  -- the channel, whether the data are binary, and the data
  channel_data : ℕ → Bool → List ℕ → Event
  -- whether the new state is `Disconnected`
  ice_connection_state_change : Bool → Event
  channel_close : ℕ → Event
  other_event : Event

-- `str0m::Output`.
pub data Output : Type 0 where
  timeout : ℕ → Output
  transmit : List ℕ → SocketAddr → Output
  event : Event → Output

-- `str0m::Rtc`.
pub record RtcLibrary : Type 1 where
  pub Rtc : Type 0
  pub RtcError : Type 0
  pub Receive : Type 0
  -- `Receive::new`, from the source, the destination and the bytes
  pub parse_receive : SocketAddr → SocketAddr → List ℕ → Option Receive
  pub is_alive : Rtc → Bool
  pub disconnect : Rtc → Rtc
  pub accepts : ℕ → Receive → Rtc → Bool
  pub poll_output : Rtc → Rtc × Result RtcError Output
  pub handle_timeout : ℕ → Rtc → Rtc × Result RtcError (Unit {0})
  pub handle_receive : ℕ → Receive → Rtc → Rtc × Result RtcError (Unit {0})
  -- `rtc.channel(id)`, and `write(true, payload)` on the channel
  pub write : ℕ → List ℕ → Rtc → Option (Rtc × Result RtcError Bool)
  -- whether the text of an error contains a phrase, in lower case
  pub mentions : String → RtcError → Bool

pub record ServerPeer (X : Type 0) : Type 0 where
  pub client_id : ℕ
  pub virtual_addr : SocketAddr
  pub rtc : X
  pub data_channel : Option ℕ
  pub remote_addr : Option SocketAddr
  pub next_timeout : Option ℕ

-- `TransportError`, without the errors that only renetcode and renet have.
pub data TransportError (E : Type 0) : Type 0 where
  io : IoError → TransportError E
  rtc_error : E → TransportError E
  data_channel_not_open : ℕ → TransportError E
  data_channel_backpressure : ℕ → TransportError E
  missing_peer : ℕ → TransportError E

pub record Transport (W N R X : Type 0) : Type 0 where
  pub line : Line ℕ W
  pub netcode : N
  pub receive_destination : SocketAddr
  pub peers : List (ℕ × ServerPeer X)
  pub connected_client_ids : List ℕ
  pub pending_renet_removals : List ℕ
  pub addr_to_client_id : List (SocketAddr × ℕ)
  pub pending_server_results : List OwnedServerResult
  pub packet_gate : ServerGate
  pub server : R

-- `Ipv6Addr::new`: eight segments of 16 bits, the most significant first.
unfoldable pub of_segments : ℕ → List ℕ → ℕ
of_segments high [] = high
of_segments high (s ∷ segments) = of_segments (high * 2 ^ 16 + s) segments

-- The private address that stands for a client in renetcode; `as u16` keeps the low bits.
unfoldable pub virtual_addr_for_client : ℕ → SocketAddr
unfolding of_segments
virtual_addr_for_client client =
    let hi = client / 2 ^ 48 % 2 ^ 16 in
    let mid_hi = client / 2 ^ 32 % 2 ^ 16 in
    let mid_lo = client / 2 ^ 16 % 2 ^ 16 in
    let lo = client % 2 ^ 16 in
    v6 (of_segments 0 (0xfd00 ∷ 0 ∷ 0 ∷ 0 ∷ hi ∷ mid_hi ∷ mid_lo ∷ lo ∷ [])) 1 0 0

-- `ServerPeer::new`.
unfoldable pub new_peer : {X : Type 0} → ℕ → X → ServerPeer X
unfolding virtual_addr_for_client
new_peer client rtc = record {
  client_id = client;
  virtual_addr = virtual_addr_for_client client;
  rtc = rtc;
  data_channel = none;
  remote_addr = none;
  next_timeout = none;
}

-- What the transport stands on.
pub record Platform : Type 1 where
  pub fl : F64
  pub os : Os
  pub ns : NetcodeServer
  pub rs : RenetServer
  pub xs : RtcLibrary

module _ (p : Platform) where
  open p use {os, ns, rs, xs}

  abbrev pub State : Type 0
  State = Transport os.World ns.Netcode rs.Renet xs.Rtc

  abbrev pub Peer : Type 0
  Peer = ServerPeer xs.Rtc

  -- `new_with_config`, with the socket, renetcode's server and the first public address, or the
  -- socket's own, that it is given.
  unfoldable pub new_transport :
      Option ServerConditioner.State → SocketAddr → os.World → ns.Netcode → rs.Renet → State
  new_transport conditioner destination world netcode server = record {
    line = record { egress = new_egress encrypted_logical; world = world };
    netcode = netcode;
    receive_destination = destination;
    peers = [];
    connected_client_ids = [];
    pending_renet_removals = [];
    addr_to_client_id = [];
    pending_server_results = [];
    packet_gate = elim conditioner [ none ↦ bypass | some c ↦ (attach c bypass).0 ];
    server = server;
  }
