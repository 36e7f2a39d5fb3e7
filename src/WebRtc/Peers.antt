-- ===== src/WebRtc/Peers.antt =====
-- src/server.rs: the peers of the transport, their routes, and what is left of a peer that goes.
pub mod Removal
use native.Mathlib.Decide.{ℕ_discrete}
use mathlib.Core.Option
use renet_cross.Prelude.{
  ℕ, Bool, true, false, not, Option, none, some, List, [], ◌∷◌, ◌==◌, if◌then◌else◌, any, filter,
}
use renet_cross.Prelude.Assoc.{get, insert, remove, contains_key, retain}
use renet_cross.Net.{SocketAddr, SocketAddr-discrete}
use renet_cross.Egress.{Allowance, reserve_queued, EgressStats, EgressConfig, EgressError}
use renet_cross.Egress.Peers.{peer_stats, peer_allowance}
use renet_cross.Egress.Peers
use renet_cross.ServerConditioner.{web_rtc}
use renet_cross.ServerConditioner
use renet_cross.ServerGate
use renet_cross.ServerGate.{queued}
use renet_cross.NetcodeResult.{
  OwnedServerResult, owned_nothing, owned_packet_to_send, owned_payload, owned_connected,
  owned_disconnected,
}
use renet_cross.WebRtc.{Platform, State, Peer, virtual_addr_for_client, new_peer}

-- Hash sets of clients.
abbrev pub contains : ℕ → List ℕ → Bool
contains id = any (λ other. other == id)

abbrev pub insert_id : ℕ → List ℕ → List ℕ
insert_id id ids = if contains id ids then ids else id ∷ ids

abbrev pub remove_id : ℕ → List ℕ → List ℕ
remove_id id = filter (λ other. not (other == id))

-- `addr == other`.
abbrev pub same_addr : SocketAddr → SocketAddr → Bool
same_addr a b = elim (SocketAddr-discrete a b) [ yes _ ↦ true | no _ ↦ false ]

-- The results that `remove_peer` keeps.
unfoldable pub of_others : ℕ → OwnedServerResult → Bool
of_others client owned_nothing = true
of_others client (owned_packet_to_send addr bytes) =
    not (same_addr addr (virtual_addr_for_client client))
of_others client (owned_payload id bytes) = not (id == client)
of_others client (owned_connected id addr bytes) = not (id == client)
of_others client (owned_disconnected id addr bytes) = not (id == client)

module _ (p : Platform) where
  open p use {ns}

  -- `addr_to_client_id.retain(|_, value| *value != client_id)`.
  unfoldable pub drop_routes : ℕ → State p → State p
  drop_routes client s = record s {
    addr_to_client_id =
        retain SocketAddr-discrete (λ addr id. not (id == client)) s.addr_to_client_id;
  }

  unfoldable pub drop_packets : ℕ → State p → State p
  drop_packets client s = record s {
    packet_gate = ServerGate.remove (web_rtc client) s.packet_gate;
  }

  -- The connection that renet's server still has is removed later.
  unfoldable pub retire_connection : ℕ → State p → State p
  retire_connection client s =
      if contains client s.connected_client_ids
      then record s {
        connected_client_ids = remove_id client s.connected_client_ids;
        pending_renet_removals = insert_id client s.pending_renet_removals;
      }
      else s

  unfoldable pub remove_peer : ℕ → State p → State p × Option (Peer p)
  unfolding drop_packets drop_routes retire_connection of_others
  remove_peer client s =
      let routed = drop_routes client (drop_packets client s) in
      let left : State p = record routed { netcode = (ns.disconnect client routed.netcode).0 } in
      let retired = retire_connection client left in
      (
        record retired {
          pending_server_results = filter (of_others client) retired.pending_server_results;
          peers = remove ℕ_discrete client retired.peers;
        },
        get ℕ_discrete client retired.peers,
      )

  unfoldable pub add_peer : ℕ → p.xs.Rtc → State p → State p × Option (Peer p)
  unfolding remove_peer new_peer
  add_peer client rtc s =
      let (removed, previous) = remove_peer client s in
      let peer : Peer p = new_peer client rtc in
      (
        record removed {
          addr_to_client_id =
              insert SocketAddr-discrete peer.virtual_addr client removed.addr_to_client_id;
          peers = insert ℕ_discrete client peer removed.peers;
        },
        previous,
      )

  pub peer_egress_stats : ℕ → State p → Option EgressStats
  peer_egress_stats client s = peer_stats ℕ_discrete client s.line.egress

  -- `peer_egress_allowance`, at the time that the egress clock shows.
  pub peer_egress_allowance : ℕ → ℕ → State p → Option Allowance
  peer_egress_allowance client now s =
      let waiting = queued (web_rtc client) s.packet_gate in
      let allowance = peer_allowance ℕ_discrete client now s.line.egress in
      if contains_key ℕ_discrete client s.peers
      then some (reserve_queued waiting.queued_bytes waiting.queued_packets allowance)
      else none
