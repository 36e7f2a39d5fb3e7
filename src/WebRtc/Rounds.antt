-- ===== src/WebRtc/Rounds.antt =====
-- src/server.rs: how much the peers can still bring about, and that driving and sending add nothing to
-- it. What str0m has to say for a connection is bounded by a measure of the connection.
pub mod Sends
pub mod Settling
use native.Mathlib.Decide.{ℕ_discrete}
use renet_cross.Prelude.{
  ℕ, zero, suc, ◌+◌, ◌≤◌, ◌≡◌, refl, Bool, true, false, Option, none, some, List, [], ◌∷◌, ◌++◌,
  length, is_some, ◌==◌, length-append, Result, ok, err, if◌then◌else◌, if_cases, arith,
}
use renet_cross.Prelude.Assoc.{get, insert, remove}
use renet_cross.Conditioner.{incoming}
use renet_cross.NetcodeResult.{
  to_owned_server_result, OwnedServerResult, owned_nothing, owned_packet_to_send, owned_payload,
  owned_connected, owned_disconnected,
}
use renet_cross.WebRtc.{
  Event, channel_open, channel_data, ice_connection_state_change, channel_close, other_event,
  Output, timeout, transmit, event, RtcLibrary, max_drain_steps_per_peer, Platform, State, Peer,
}
use renet_cross.WebRtc.Peers.{drop_routes, drop_packets}
use renet_cross.WebRtc.Driving.{
  Next, go_on, finished, failed, Driven, shut, accept_result, process_peer_packet, gate_defer,
  take_data, handle_peer_event, obey, drive_step, drive_loop, drive_peer_with_limit, keep_results,
  settle_peer, drive_if_alive, flush_found, DriveStep, proceed, flush_peer_output, is_channel,
}

-- The data that an output of str0m hands over.
abbrev pub data_of_event : Event → ℕ
data_of_event (channel_open id) = 0
data_of_event (channel_data id binary bytes) = 1
data_of_event (ice_connection_state_change is_disconnected) = 0
data_of_event (channel_close id) = 0
data_of_event other_event = 0

abbrev pub data_of_output : {E : Type 0} → Result E Output → ℕ
data_of_output (err e) = 0
data_of_output (ok (timeout deadline)) = 0
data_of_output (ok (transmit contents destination)) = 0
data_of_output (ok (event e)) = data_of_event e

abbrev pub after_write : {X E : Type 0} → (X → ℕ) → Option (X × Result E Bool) → ℕ
after_write left none = 0
after_write left (some (rtc', verdict)) = left rtc'

-- A bound on the data that a connection can hand over before it gets a datagram or a timeout: an output
-- with data lowers it, and neither another output nor a disconnection nor a write raises it.
pub record Drains (xs : RtcLibrary) (left : xs.Rtc → ℕ) : Type 0 where
  pub polled :
      (x : xs.Rtc) → left (xs.poll_output x).0 + data_of_output (xs.poll_output x).1 ≤ left x
  pub disconnected : (x : xs.Rtc) → left (xs.disconnect x) ≤ left x
  pub wrote :
      (channel : ℕ) (payload : List ℕ) (x : xs.Rtc)
      → after_write left (xs.write channel payload x) ≤ left x

-- The sum of a weight over the entries of a map.
module _ {V : Type 0} (weight : V → ℕ) where
  unfoldable pub load : List (ℕ × V) → ℕ
  load [] = 0
  load ((k, v) ∷ m) = weight v + load m

  abbrev pub weight_of : Option V → ℕ
  weight_of none = 0
  weight_of (some v) = weight v

  pub load-insert :
      (k : ℕ) (v : V) (m : List (ℕ × V))
      → load (insert ℕ_discrete k v m) + weight_of (get ℕ_discrete k m) ≡ load m + weight v
  unfolding load get insert
  load-insert k v [] = omega arith
  load-insert k v ((j, w) ∷ m) = ground (arith, load-insert k v m)

  pub load-remove :
      (k : ℕ) (m : List (ℕ × V))
      → load (remove ℕ_discrete k m) + weight_of (get ℕ_discrete k m) ≤ load m
  unfolding load get remove
  load-remove k [] = omega arith
  load-remove k ((j, w) ∷ m) = ground (arith, load-remove k m)

module _ (p : Platform) (left : p.xs.Rtc → ℕ) where
  open p use {ns, xs}

  abbrev pub peer_weight : Peer p → ℕ
  peer_weight peer = left peer.rtc + 1

  -- The results that wait, the peers, and what the peers can still bring about.
  abbrev pub work : State p → ℕ
  work s = load peer_weight s.peers + length s.pending_server_results

  -- The same while a peer is out of the table.
  abbrev pub driven_work : Driven p → ℕ
  driven_work d = work d.state + length d.results + left d.peer.rtc

  module _ (drains : Drains p.xs left) where
    accept_result-le :
        (r : OwnedServerResult) (d : Driven p)
        → driven_work (accept_result p r d) ≤ driven_work d + 1
    unfolding accept_result shut
    accept_result-le owned_nothing d = omega (arith, length-append d.results (owned_nothing ∷ []))
    accept_result-le (owned_packet_to_send addr bytes) d =
        omega (arith, length-append d.results (owned_packet_to_send addr bytes ∷ []))
    accept_result-le (owned_payload client bytes) d =
        omega (arith, length-append d.results (owned_payload client bytes ∷ []))
    accept_result-le (owned_connected client addr bytes) d =
        let freed : State p = record (d.state) {
          netcode = (ns.disconnect client d.state.netcode).0;
        } in
        if_cases (λ r. driven_work r ≤ driven_work d + 1) (client == d.peer.client_id)
          (record d { results = d.results ++ owned_connected client addr bytes ∷ [] })
          (shut p (record d { state = freed }))
          (λ _. omega (arith, length-append d.results (owned_connected client addr bytes ∷ [])))
          (λ _. omega (arith, drains.disconnected d.peer.rtc))
    accept_result-le (owned_disconnected client addr bytes) d =
        omega (arith, length-append d.results (owned_disconnected client addr bytes ∷ []))

    pub process_peer_packet-le :
        (packet : List ℕ) (d : Driven p)
        → driven_work (process_peer_packet p packet d) ≤ driven_work d + 1
    unfolding process_peer_packet
    process_peer_packet-le packet d =
        let n = ns.process_packet d.peer.virtual_addr packet d.state.netcode in
        accept_result-le (to_owned_server_result n.1)
          (record d { state = record (d.state) { netcode = n.0 } })

    take_data-le :
        (bytes : List ℕ) (d : Driven p) → driven_work (take_data p bytes d) ≤ driven_work d + 1
    unfolding take_data gate_defer
    take_data-le bytes d =
        let g = gate_defer p incoming d.peer.client_id bytes d.state in
        let d' : Driven p = record d { state = g.0 } in
        if_cases (λ r. driven_work r ≤ driven_work d + 1) g.1 d' (process_peer_packet p bytes d')
          (λ _. omega arith) (λ _. process_peer_packet-le bytes d')

    handle_peer_event-le :
        (e : Event) (d : Driven p)
        → driven_work (handle_peer_event p e d) ≤ driven_work d + data_of_event e
    unfolding handle_peer_event shut
    handle_peer_event-le (channel_open id) d =
        if_cases (λ r. driven_work r ≤ driven_work d + 0) (is_some d.peer.data_channel) d
          (record d { peer = record (d.peer) { data_channel = some id } }) (λ _. omega arith)
          (λ _. omega arith)
    handle_peer_event-le (channel_data id binary bytes) d =
        if_cases (λ r. driven_work r ≤ driven_work d + 1) _ d (take_data p bytes d)
          (λ _. omega arith) (λ _. take_data-le bytes d)
    handle_peer_event-le (ice_connection_state_change is_disconnected) d =
        if_cases (λ r. driven_work r ≤ driven_work d + 0) is_disconnected (shut p d) d
          (λ _. omega (arith, drains.disconnected d.peer.rtc)) (λ _. omega arith)
    handle_peer_event-le (channel_close id) d =
        if_cases (λ r. driven_work r ≤ driven_work d + 0) (is_channel p id d.peer.data_channel)
          (shut p d) d (λ _. omega (arith, drains.disconnected d.peer.rtc)) (λ _. omega arith)
    handle_peer_event-le other_event d = omega arith

    obey-le :
        (o : Result xs.RtcError Output) (d : Driven p)
        → driven_work (obey p o d).0 ≤ driven_work d + data_of_output o
    unfolding obey
    obey-le (err e) d = omega arith
    obey-le (ok (timeout deadline)) d = omega arith
    obey-le (ok (transmit contents destination)) d = omega arith
    obey-le (ok (event e)) d = handle_peer_event-le e d

    drive_step-le : (d : Driven p) → driven_work (drive_step p d).0 ≤ driven_work d
    unfolding drive_step
    drive_step-le d =
        let polled = xs.poll_output d.peer.rtc in
        let d' : Driven p = record d { peer = record (d.peer) { rtc = polled.0 } } in
        omega (arith, obey-le polled.1 d', drains.polled d.peer.rtc)

    proceed-le :
        (most : ℕ) (rest : Driven p → DriveStep p)
        → ((d : Driven p) → driven_work (rest d).0 ≤ driven_work d)
        → (r : Driven p × Next xs.RtcError) → driven_work r.0 ≤ most
        → driven_work (proceed p rest r).0 ≤ most
    unfolding proceed
    proceed-le most rest keep (d, go_on) h = omega (arith, keep d, h)
    proceed-le most rest keep (d, finished) h = h
    proceed-le most rest keep (d, failed e) h = h

    drive_loop-le : (n : ℕ) (d : Driven p) → driven_work (drive_loop p n d).0 ≤ driven_work d
    unfolding drive_loop
    drive_loop-le zero d = omega arith
    drive_loop-le (suc n) d =
        proceed-le (driven_work d) (drive_loop p n) (drive_loop-le n) (drive_step p d)
          (drive_step-le d)

    keep_results-le :
        (r : DriveStep p)
        → work (keep_results p r).0 + left (keep_results p r).1.rtc ≤ driven_work r.0
    unfolding keep_results shut
    keep_results-le (d, ok tt) =
        omega (arith, length-append d.state.pending_server_results d.results)
    keep_results-le (d, err e) = omega (arith, drains.disconnected d.peer.rtc)

    drive_if_alive-le :
        (peer : Peer p) (s : State p)
        → work (drive_if_alive p peer s).0 + left (drive_if_alive p peer s).1.rtc
          ≤ work s + left peer.rtc
    unfolding drive_if_alive drive_peer_with_limit
    drive_if_alive-le peer s =
        let start : Driven p = record {
          state = s;
          peer = record peer { next_timeout = none };
          results = [];
        } in
        let d = drive_loop p max_drain_steps_per_peer start in
        if_cases (λ r. work r.0 + left r.1.rtc ≤ work s + left peer.rtc) (xs.is_alive peer.rtc)
          (keep_results p d) (s, peer)
          (λ _. omega (arith, keep_results-le d, drive_loop-le max_drain_steps_per_peer start))
          (λ _. omega arith)

    settle_peer-le :
        (client : ℕ) (peer : Peer p) (s : State p)
        → work (settle_peer p client peer s) ≤ work s + left peer.rtc + 1
    unfolding settle_peer drop_routes drop_packets
    settle_peer-le client peer s =
        let result = (ns.disconnect client s.netcode).1 in
        if_cases (λ r. work r ≤ work s + left peer.rtc + 1) (xs.is_alive peer.rtc) _ _
          (λ _. omega (arith, load-insert peer_weight client peer s.peers))
          (λ _.
            omega
              (arith, length-append s.pending_server_results (to_owned_server_result result ∷ [])))

    flush_found-le :
        (client : ℕ) (o : Option (Peer p)) (s : State p)
        → load peer_weight (remove ℕ_discrete client s.peers) + weight_of peer_weight o
          ≤ load peer_weight s.peers
        → work (flush_found p client o s) ≤ work s
    unfolding flush_found
    flush_found-le client none s h = omega arith
    flush_found-le client (some peer) s h =
        let out : State p = record s { peers = remove ℕ_discrete client s.peers } in
        let d = drive_if_alive p peer out in
        omega (arith, h, settle_peer-le client d.1 d.0, drive_if_alive-le peer out)

    pub flush_peer_output-le :
        (client : ℕ) (s : State p) → work (flush_peer_output p client s) ≤ work s
    unfolding flush_peer_output
    flush_peer_output-le client s =
        flush_found-le client (get ℕ_discrete client s.peers) s
          (load-remove peer_weight client s.peers)
