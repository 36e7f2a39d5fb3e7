-- ===== src/MixedServer.antt =====
-- src/mixed_server.rs: `MixedServerTransport`, a UDP and a WebRTC backend for one server of renet. The
-- source lends renet's server to each call; here it stands beside the backends, and a backend has it
-- while it runs. Each backend has its own socket, clocks and server of renetcode.
pub mod Calls
pub mod Connections
mod Tests
use renet_cross.Prelude.{ℕ, Option, none, some, List, Result, ok, err, ◌==◌, if◌then◌else◌}
use mathlib.Core.Option
use renet_cross.Prelude.Steps.{each, and_then}
use renet_cross.Float.{F64}
use renet_cross.Net.{SocketAddr}
use renet_cross.UdpIo.{IoError}
use renet_cross.ServerConditioner.{ServerConfig}
use renet_cross.ServerConditioner
use renet_cross.ServerConditioner.Traffic.{outage_at}
use renet_cross.ServerGate.{Attachment, ServerGate, bypass, detach}
use renet_cross.Datagram.{Os}
use renet_cross.NetcodeResult.{NetcodeServer, RenetServer}
use renet_cross.UdpServer
use renet_cross.UdpServer.Pump
use renet_cross.UdpServer.Keeps.{
  Call as UdpCall, step as udp_step, conditions as udp_conditions, bypasses as udp_bypasses,
}
use renet_cross.WebRtc
use renet_cross.WebRtc.{RtcLibrary}
use renet_cross.WebRtc.Frames
use renet_cross.WebRtc.Keeps.Calls.{
  Call as WebCall, step as web_step, conditions as web_conditions, bypasses as web_bypasses,
}

-- What the two backends stand on.
pub record Platform : Type 1 where
  pub fl : F64
  pub udp_os : Os
  pub web_os : Os
  pub udp_ns : NetcodeServer
  pub web_ns : NetcodeServer
  pub rs : RenetServer
  pub xs : RtcLibrary

abbrev pub udp_platform : Platform → UdpServer.Platform
udp_platform p = record { fl = p.fl; os = p.udp_os; ns = p.udp_ns; rs = p.rs }

abbrev pub web_platform : Platform → WebRtc.Platform
web_platform p = record { fl = p.fl; os = p.web_os; ns = p.web_ns; rs = p.rs; xs = p.xs }

-- The backends, renet's server, and the conditioner handles of the program: a handle is a number, its
-- clones are the same number, and the state that its mutex guards is found under it. A backend's
-- attachment to a handle is the number here and the owner in its gate; the state in the gate counts only
-- while the backend runs. With no number, a gate has a handle that nobody else has, or none.
pub record Mixed (p : Platform) : Type 0 where
  pub udp : UdpServer.State (udp_platform p)
  pub webrtc : WebRtc.State (web_platform p)
  pub server : p.rs.Renet
  pub handles : ℕ → ServerConditioner.State
  pub udp_handle : Option ℕ
  pub webrtc_handle : Option ℕ

-- `MixedServerTransport::new`, with backends whose handles, if any, nobody else has.
unfoldable pub new :
    {p : Platform}
    → UdpServer.State (udp_platform p)
    → WebRtc.State (web_platform p)
    → p.rs.Renet
    → (ℕ → ServerConditioner.State)
    → Mixed p
new udp webrtc server handles = record {
  udp = udp;
  webrtc = webrtc;
  server = server;
  handles = handles;
  udp_handle = none;
  webrtc_handle = none;
}

-- The state under a handle is replaced.
unfoldable pub put :
    ℕ → ServerConditioner.State → (ℕ → ServerConditioner.State) → ℕ → ServerConditioner.State
put h s handles k = if k == h then s else handles k

-- The gate of a backend that is attached to a handle gets the state of the handle ...
load_attached : ServerConditioner.State → Option Attachment → ServerGate
load_attached s none = bypass
load_attached s (some a) = record { attached = some (record a { conditioner = s }) }

unfoldable pub load : Option ℕ → (ℕ → ServerConditioner.State) → ServerGate → ServerGate
unfolding load_attached
load none handles g = g
load (some h) handles g = load_attached (handles h) g.attached

-- ... and the handle gets the state that the gate leaves.
save_state :
    ℕ → Option ServerConditioner.State → (ℕ → ServerConditioner.State) → ℕ → ServerConditioner.State
unfolding put
save_state h none handles = handles
save_state h (some s) handles = put h s handles

unfoldable pub save :
    Option ℕ
    → Option ServerConditioner.State
    → (ℕ → ServerConditioner.State)
    → ℕ
    → ServerConditioner.State
unfolding save_state
save none s handles = handles
save (some h) s handles = save_state h s handles

-- The state in a gate.
abbrev pub state_in : ServerGate → Option ServerConditioner.State
state_in g = Option.map (λ a. a.conditioner) g.attached

-- A backend with renet's server and with the state of its handle.
unfoldable pub lend_udp : {p : Platform} → Mixed p → UdpServer.State (udp_platform p)
unfolding load
lend_udp m = record (m.udp) {
  server = m.server;
  packets = load m.udp_handle m.handles m.udp.packets;
}

unfoldable pub lend_webrtc : {p : Platform} → Mixed p → WebRtc.State (web_platform p)
unfolding load
lend_webrtc m = record (m.webrtc) {
  server = m.server;
  packet_gate = load m.webrtc_handle m.handles m.webrtc.packet_gate;
}

-- What a backend gives back.
unfoldable pub return_udp : {p : Platform} → Mixed p → UdpServer.State (udp_platform p) → Mixed p
unfolding save
return_udp m ran = record m {
  udp = ran;
  server = ran.server;
  handles = save m.udp_handle (state_in ran.packets) m.handles;
}

unfoldable pub return_webrtc : {p : Platform} → Mixed p → WebRtc.State (web_platform p) → Mixed p
unfolding save
return_webrtc m ran = record m {
  webrtc = ran;
  server = ran.server;
  handles = save m.webrtc_handle (state_in ran.packet_gate) m.handles;
}

-- A call of one backend.
unfoldable pub on_udp :
    {p : Platform}
    → (UdpServer.State (udp_platform p) → UdpServer.State (udp_platform p))
    → Mixed p
    → Mixed p
unfolding lend_udp return_udp
on_udp f m = return_udp m (f (lend_udp m))

unfoldable pub on_webrtc :
    {p : Platform}
    → (WebRtc.State (web_platform p) → WebRtc.State (web_platform p))
    → Mixed p
    → Mixed p
unfolding lend_webrtc return_webrtc
on_webrtc f m = return_webrtc m (f (lend_webrtc m))
