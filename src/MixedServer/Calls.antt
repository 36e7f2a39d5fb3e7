-- ===== src/MixedServer/Calls.antt =====
-- src/mixed_server.rs: the operations of `MixedServerTransport`, and the calls that a program makes.
use renet_cross.Prelude.{ℕ, none, some, List, Result}
use renet_cross.Prelude.Steps.{each, and_then}
use renet_cross.UdpIo.{IoError}
use renet_cross.ServerConditioner.{ServerConfig}
use renet_cross.ServerConditioner
use renet_cross.ServerConditioner.Traffic.{outage_at}
use renet_cross.ServerGate.{detach}
use renet_cross.UdpServer.Pump
use renet_cross.UdpServer.Keeps.{
  Call as UdpCall, step as udp_step, conditions as udp_conditions, bypasses as udp_bypasses,
}
use renet_cross.WebRtc.Frames
use renet_cross.WebRtc.Keeps.Calls.{
  Call as WebCall, step as web_step, conditions as web_conditions, bypasses as web_bypasses,
}
use renet_cross.MixedServer.{
  Platform, udp_platform, web_platform, Mixed, put, save, lend_udp, lend_webrtc, return_udp,
  return_webrtc, on_udp, on_webrtc,
}

module _ (p : Platform) (rounds : ℕ) where
  -- `self.udp.clear_conditioner()`: the packets of the backend go out of the handle's state, and the
  -- backend has no handle.
  unfoldable pub clear_udp : Mixed p → Mixed p
  unfolding lend_udp save
  clear_udp m =
      let lent = lend_udp m in
      let freed = Pump.clear_conditioner (udp_platform p) lent in
      record m {
        udp = freed;
        handles = save m.udp_handle (detach lent.packets).1 m.handles;
        udp_handle = none;
      }

  unfoldable pub clear_webrtc : Mixed p → Mixed p
  unfolding lend_webrtc save
  clear_webrtc m =
      let lent = lend_webrtc m in
      let freed = Frames.clear_conditioner (web_platform p) rounds lent in
      record m {
        webrtc = freed;
        handles = save m.webrtc_handle (detach lent.packet_gate).1 m.handles;
        webrtc_handle = none;
      }

  -- `self.udp.set_conditioner(handle)`: the old handle is left first, and the new one gives the backend
  -- an owner number of its own.
  unfoldable pub share_udp : ℕ → Mixed p → Mixed p
  unfolding clear_udp return_udp
  share_udp h m =
      let cleared = clear_udp m in
      return_udp (record cleared { udp_handle = some h })
        (Pump.set_conditioner (udp_platform p) (cleared.handles h)
          (record (cleared.udp) { server = cleared.server }))

  unfoldable pub share_webrtc : ℕ → Mixed p → Mixed p
  unfolding clear_webrtc return_webrtc
  share_webrtc h m =
      let cleared = clear_webrtc m in
      return_webrtc (record cleared { webrtc_handle = some h })
        (Frames.set_conditioner (web_platform p) rounds (cleared.handles h)
          (record (cleared.webrtc) { server = cleared.server }))

  unfoldable pub disconnect_all : Mixed p → Mixed p
  unfolding on_udp on_webrtc
  disconnect_all m =
      on_webrtc (Frames.disconnect_all (web_platform p) rounds)
        (on_udp (Pump.disconnect_all (udp_platform p)) m)

  -- `self.udp.update(duration, server)?`.
  unfoldable pub update_udp : ℕ → Mixed p → Mixed p × Result IoError (Unit {0})
  unfolding lend_udp return_udp
  update_udp duration m =
      let (ran, result) = Pump.update (udp_platform p) duration (lend_udp m) in
      (return_udp m ran, result)

  -- `self.webrtc.update(duration, server)?`, at the time that the transport's clock shows.
  unfoldable pub update_webrtc : ℕ → ℕ → Mixed p → Mixed p × Result IoError (Unit {0})
  unfolding lend_webrtc return_webrtc
  update_webrtc duration now m =
      let (ran, result) = Frames.update_at (web_platform p) rounds duration now (lend_webrtc m) in
      (return_webrtc m ran, result)

  -- An error of the UDP backend leaves the WebRTC backend as it is.
  unfoldable pub update : ℕ → ℕ → Mixed p → Mixed p × Result IoError (Unit {0})
  unfolding update_udp update_webrtc
  update duration now m = and_then (update_udp duration m) (update_webrtc duration now)

  unfoldable pub send_packets : Mixed p → Mixed p
  unfolding on_udp on_webrtc
  send_packets m =
      on_webrtc (Frames.send_packets (web_platform p) rounds)
        (on_udp (Pump.send_packets (udp_platform p)) m)

  -- One handle for both backends: the second shares the state that the first has left.
  unfoldable pub set_conditioner : ℕ → Mixed p → Mixed p
  unfolding share_udp share_webrtc
  set_conditioner h m = share_webrtc h (share_udp h m)

  unfoldable pub clear_conditioner : Mixed p → Mixed p
  unfolding clear_udp clear_webrtc
  clear_conditioner m = clear_webrtc (clear_udp m)

  -- What the program calls. `udp_mut` and `webrtc_mut` give it the backends, and it has the handles. A
  -- state that is given to one backend alone is that of a handle that nobody else has.
  pub data Call : Type 0 where
    updates : ℕ → ℕ → Call
    sends disconnects bypasses : Call
    conditions : ℕ → Call
    of_udp : UdpCall → Call
    of_webrtc : WebCall p.xs.Rtc → Call
    shares_udp shares_webrtc : ℕ → Call
    configures : ℕ → ServerConfig → Call
    outages : ℕ → ℕ → ℕ → Call

  unfoldable pub udp_call : UdpCall → Mixed p → Mixed p
  unfolding on_udp clear_udp
  udp_call (udp_conditions s) m = on_udp (Pump.set_conditioner (udp_platform p) s) (clear_udp m)
  udp_call udp_bypasses m = clear_udp m
  udp_call c m = on_udp (udp_step (udp_platform p) c) m

  unfoldable pub web_call : WebCall p.xs.Rtc → Mixed p → Mixed p
  unfolding on_webrtc clear_webrtc
  web_call (web_conditions s) m =
      on_webrtc (Frames.set_conditioner (web_platform p) rounds s) (clear_webrtc m)
  web_call web_bypasses m = clear_webrtc m
  web_call c m = on_webrtc (web_step (web_platform p) rounds c) m

  unfoldable pub step : Call → Mixed p → Mixed p
  unfolding put
  step (updates duration now) m = (update duration now m).0
  step sends m = send_packets m
  step disconnects m = disconnect_all m
  step bypasses m = clear_conditioner m
  step (conditions h) m = set_conditioner h m
  step (of_udp c) m = udp_call c m
  step (of_webrtc c) m = web_call c m
  step (shares_udp h) m = share_udp h m
  step (shares_webrtc h) m = share_webrtc h m
  step (configures h config) m = record m {
    handles = put h (ServerConditioner.configure config (m.handles h)).0 m.handles;
  }
  step (outages h duration time) m = record m {
    handles = put h (outage_at duration time (m.handles h)) m.handles;
  }

  unfoldable pub run : List Call → Mixed p → Mixed p
  run calls m = each step calls m
