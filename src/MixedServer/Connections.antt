-- ===== src/MixedServer/Connections.antt =====
-- src/mixed_server.rs: what the two backends keep of the one server of renet, and of the statistics of
-- the UDP backend.
use renet_cross.Prelude.{ℕ, ◌≡◌, refl, Option, List}
use renet_cross.Prelude.Steps.{each-keeps, and_then-keeps}
use renet_cross.Net.{SocketAddr}
use renet_cross.Egress.{native_udp_ip}
use renet_cross.Egress.Peers.Totals.{outcomes_of, new-outcomes}
use renet_cross.Datagram.{Line}
use renet_cross.Datagram.Accounts.{metered, Kept, IsBalanced, Kept-IsBalanced}
use renet_cross.NetcodeResult.{Served, watched, watched-Served}
use renet_cross.ServerConditioner
use renet_cross.UdpServer
use renet_cross.UdpServer.Pump
use renet_cross.WebRtc.Frames
use renet_cross.UdpServer.Keeps.{
  Call as UdpCall, step as udp_step, step-On as udp_step-On, updates as udp_updates,
  sends as udp_sends, disconnects as udp_disconnects, conditions as udp_conditions,
  bypasses as udp_bypasses, limits as udp_limits, budgets as udp_budgets, caps as udp_caps,
}
use renet_cross.WebRtc
use renet_cross.WebRtc.Keeps.Answers.{Rules}
use renet_cross.WebRtc.Keeps.Calls.{
  Call as WebCall, step as web_step, step-On as web_step-On, updates as web_updates,
  sends as web_sends, disconnects as web_disconnects, conditions as web_conditions,
  bypasses as web_bypasses, adds as web_adds, removes as web_removes, limits as web_limits,
  caps as web_caps,
}
use renet_cross.MixedServer.{
  Platform, udp_platform, web_platform, Mixed, new, lend_udp, lend_webrtc, return_udp,
  return_webrtc, on_udp, on_webrtc,
}
use renet_cross.MixedServer.Calls.{
  clear_udp, clear_webrtc, share_udp, share_webrtc, disconnect_all, update_udp, update_webrtc,
  update, send_packets, set_conditioner, clear_conditioner, Call, updates, sends, disconnects,
  bypasses, conditions, of_udp, of_webrtc, shares_udp, shares_webrtc, configures, outages, udp_call,
  web_call, step, run,
}

module _ (p : Platform) (rounds : ℕ) (P : Line SocketAddr p.udp_os.World → Type 0)
    (kept : Kept p.udp_os P) (Q : p.rs.Renet → Type 0) (served : Served p.rs Q) where
  abbrev On : Mixed p → Type 0
  On m = P m.udp.line × Q m.server

  -- What the WebRTC backend may do to renet's server.
  Served-Rules : Rules p.rs (λ ids pending r. Q r)
  Served-Rules = record {
    welcomed = λ client ids pending r new h. served.added client r new h;
    ended = λ client ids pending r c h. served.removed client r h;
    retired = λ client ids pending r c h. h;
    removed = λ ids pending r h. each-keeps Q p.rs.remove_connection pending r h served.removed;
    processed = λ bytes client ids pending r h. served.processed bytes client r h;
    collected = λ client ids pending r h. served.collected client r h;
  }

  on_udp-On : (c : UdpCall) (m : Mixed p) → On m → On (on_udp (udp_step (udp_platform p) c) m)
  unfolding on_udp return_udp lend_udp
  on_udp-On c m h = udp_step-On (udp_platform p) P kept Q served c (lend_udp m) h

  on_webrtc-On :
      (c : WebCall p.xs.Rtc) (m : Mixed p)
      → On m
      → On (on_webrtc (web_step (web_platform p) rounds c) m)
  unfolding on_webrtc return_webrtc lend_webrtc
  on_webrtc-On c m h = (
    h.0,
    web_step-On (web_platform p) rounds (λ ids pending r. Q r) Served-Rules c (lend_webrtc m) h.1,
  )

  -- A call that goes to both backends.
  both-On :
      (u : UdpCall) (w : WebCall p.xs.Rtc) (m : Mixed p)
      → On m
      → On (on_webrtc (web_step (web_platform p) rounds w) (on_udp (udp_step (udp_platform p) u) m))
  both-On u w m h = on_webrtc-On w (on_udp (udp_step (udp_platform p) u) m) (on_udp-On u m h)

  clear_udp-On : (m : Mixed p) → On m → On (clear_udp p rounds m)
  unfolding clear_udp lend_udp Pump.clear_conditioner
  clear_udp-On m h = h

  clear_webrtc-On : (m : Mixed p) → On m → On (clear_webrtc p rounds m)
  unfolding clear_webrtc
  clear_webrtc-On m h = h

  share_udp-On : (handle : ℕ) (m : Mixed p) → On m → On (share_udp p rounds handle m)
  unfolding share_udp return_udp clear_udp lend_udp Pump.clear_conditioner Pump.set_conditioner
  share_udp-On handle m h = h

  share_webrtc-On : (handle : ℕ) (m : Mixed p) → On m → On (share_webrtc p rounds handle m)
  unfolding share_webrtc return_webrtc clear_webrtc Frames.set_conditioner
  share_webrtc-On handle m h = h

  udp_call-On : (c : UdpCall) (m : Mixed p) → On m → On (udp_call p rounds c m)
  unfolding udp_call udp_step
  udp_call-On (udp_conditions s) m h =
      on_udp-On (udp_conditions s) (clear_udp p rounds m) (clear_udp-On m h)
  udp_call-On udp_bypasses m h = clear_udp-On m h
  udp_call-On (udp_updates duration) m h = on_udp-On (udp_updates duration) m h
  udp_call-On udp_sends m h = on_udp-On udp_sends m h
  udp_call-On udp_disconnects m h = on_udp-On udp_disconnects m h
  udp_call-On (udp_limits config now) m h = on_udp-On (udp_limits config now) m h
  udp_call-On (udp_budgets limit) m h = on_udp-On (udp_budgets limit) m h
  udp_call-On (udp_caps most) m h = on_udp-On (udp_caps most) m h

  web_call-On : (c : WebCall p.xs.Rtc) (m : Mixed p) → On m → On (web_call p rounds c m)
  unfolding web_call web_step
  web_call-On (web_conditions s) m h =
      on_webrtc-On (web_conditions s) (clear_webrtc p rounds m) (clear_webrtc-On m h)
  web_call-On web_bypasses m h = clear_webrtc-On m h
  web_call-On (web_adds client rtc) m h = on_webrtc-On (web_adds client rtc) m h
  web_call-On (web_removes client) m h = on_webrtc-On (web_removes client) m h
  web_call-On (web_updates duration now) m h = on_webrtc-On (web_updates duration now) m h
  web_call-On web_sends m h = on_webrtc-On web_sends m h
  web_call-On web_disconnects m h = on_webrtc-On web_disconnects m h
  web_call-On (web_limits config now) m h = on_webrtc-On (web_limits config now) m h
  web_call-On (web_caps most) m h = on_webrtc-On (web_caps most) m h

  step-On : (c : Call p rounds) (m : Mixed p) → On m → On (step p rounds c m)
  unfolding step update update_udp update_webrtc send_packets disconnect_all set_conditioner
      clear_conditioner on_udp on_webrtc udp_step web_step
  step-On (updates duration now) m h =
      and_then-keeps On (update_udp p rounds duration m) (update_webrtc p rounds duration now)
        (on_udp-On (udp_updates duration) m h) (λ t k. on_webrtc-On (web_updates duration now) t k)
  step-On sends m h = both-On udp_sends web_sends m h
  step-On disconnects m h = both-On udp_disconnects web_disconnects m h
  step-On bypasses m h = clear_webrtc-On (clear_udp p rounds m) (clear_udp-On m h)
  step-On (conditions handle) m h =
      share_webrtc-On handle (share_udp p rounds handle m) (share_udp-On handle m h)
  step-On (of_udp c) m h = udp_call-On c m h
  step-On (of_webrtc c) m h = web_call-On c m h
  step-On (shares_udp handle) m h = share_udp-On handle m h
  step-On (shares_webrtc handle) m h = share_webrtc-On handle m h
  step-On (configures handle config) m h = h
  step-On (outages handle duration time) m h = h

  pub run-On : (calls : List (Call p rounds)) (m : Mixed p) → On m → On (run p rounds calls m)
  unfolding run
  run-On calls m h = each-keeps On (step p rounds) calls m h step-On

-- The platform whose UDP socket counts what it is handed, and whose renet server counts the connections
-- that were added for a connected client.
abbrev pub watched_platform : Platform → Platform
watched_platform p = record p { udp_os = metered p.udp_os; rs = watched p.rs }

-- From a new transport of two backends on, after any calls of it, of its backends and of the handles that
-- they may share, two things hold. The statistics of the UDP backend say how many datagrams its socket
-- has taken whole and how many it has refused or cut short, as 64-bit counters that stop at their
-- greatest value. And neither backend has added a connection to renet's server for a client that had one
-- at that time, on either backend, whatever the two servers of renetcode and str0m have answered.
pub run-watched :
    (p : Platform) (rounds : ℕ) (calls : List (Call (watched_platform p) rounds))
    → (conditioner conditioner' : Option ServerConditioner.State)
    → (handles : ℕ → ServerConditioner.State) (destination : SocketAddr)
    → (world : p.udp_os.World) (world' : p.web_os.World)
    → (netcode : p.udp_ns.Netcode) (netcode' : p.web_ns.Netcode) (server : p.rs.Renet)
    → let q = watched_platform p in
      let udp =
        UdpServer.new_transport (udp_platform q) conditioner (world, (0, 0)) netcode (server, 0) in
      let webrtc =
        WebRtc.new_transport
          (web_platform q)
          conditioner'
          destination
          world'
          netcode'
          (server, 0) in
      let m = run q rounds calls (new udp webrtc (server, 0) handles) in
      (outcomes_of m.udp.line.egress.total ≡ m.udp.line.world.1) × (m.server.1 ≡ 0)
unfolding UdpServer.new_transport new
run-watched p rounds calls conditioner conditioner' handles destination world world' netcode
      netcode' server =
    run-On (watched_platform p) rounds (IsBalanced p.udp_os) (Kept-IsBalanced p.udp_os)
      (λ r. r.1 ≡ 0) (watched-Served p.rs) calls _ (new-outcomes SocketAddr native_udp_ip, refl)
