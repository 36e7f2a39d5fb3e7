-- ===== src/WebRtc/Tests.antt =====
-- src/server.rs: the theorems at work on a small platform.
use native.Mathlib.Decide.{ℕ_discrete}
use renet_cross.Prelude.{
  ℕ, ◌+◌, ◌≤◌, ◌≡◌, false, ◌||◌, none, some, List, [], ◌∷◌, length, replicate, count, All, arith,
}
use renet_cross.Prelude.Assoc.{get}
use renet_cross.NetcodeResult.{owned_payload, owned_connected}
use renet_cross.WebRtc.{
  RtcLibrary, Output, timeout, event, channel_data, Platform, State, new_transport,
  virtual_addr_for_client, new_peer,
}
use renet_cross.WebRtc.Toy.{browser, toy, toy_rtc, next_output}
use renet_cross.WebRtc.Addresses.{client_of, client_of-virtual_addr_for_client}
use renet_cross.WebRtc.Peers.{contains, remove_peer}
use renet_cross.ServerConditioner.{web_rtc}
use renet_cross.ServerGate.Removal.{HoldsNone}
use renet_cross.WebRtc.Peers.Removal.{Elsewhere, LeadsElsewhere, remove_peer-forgets}
use renet_cross.WebRtc.Pump.{route_loop}
use renet_cross.WebRtc.Pump.Quota.{Feeds, route_loop-Quota}
use renet_cross.WebRtc.Keeps.Calls.{Call, adds, removes, updates, sends, disconnects, run}
use renet_cross.WebRtc.Results.{apply_pending_results}
use renet_cross.WebRtc.Rounds.{Drains, data_of_output}
use renet_cross.WebRtc.Rounds.Settling.{apply_pending_results-settles}
use renet_cross.WebRtc.Ledger.{Ledger, ledgered_platform, run-Honest}

client_of-virtual_addr_for_client_example :
    client_of (virtual_addr_for_client 0x0123456789abcdef) ≡ 0x0123456789abcdef
client_of-virtual_addr_for_client_example =
    client_of-virtual_addr_for_client 0x0123456789abcdef (omega arith)

-- Two peers, one of them connected, with results that wait.
abbrev busy : State toy
busy = record (new_transport toy none browser (0, []) 0 []) {
  peers = (7, new_peer 7 []) ∷ (8, new_peer 8 []) ∷ [];
  connected_client_ids = 7 ∷ [];
  addr_to_client_id = (browser, 7) ∷ [];
  pending_server_results = owned_payload 7 (1 ∷ []) ∷ owned_connected 8 browser [] ∷ [];
}

remove_peer-forgets_example :
    let r = remove_peer toy 7 busy in
    (get ℕ_discrete 7 (r.0).peers ≡ none)
    × (get ℕ_discrete 8 (r.0).peers ≡ get ℕ_discrete 8 busy.peers)
    × All (LeadsElsewhere 7) (r.0).addr_to_client_id
    × All (Elsewhere 7) (r.0).pending_server_results
    × HoldsNone (web_rtc 7) (r.0).packet_gate
    × (contains 7 (r.0).connected_client_ids ≡ false)
    × (contains 7 (r.0).pending_renet_removals
        ≡ (contains 7 busy.connected_client_ids || contains 7 busy.pending_renet_removals))
    × (r.1 ≡ get ℕ_discrete 7 busy.peers)
remove_peer-forgets_example = remove_peer-forgets toy 7 8 busy (λ e. omega arith)

abbrev calls : List (Call (List (List ℕ)))
calls =
    adds 7 ((1 ∷ 7 ∷ []) ∷ (2 ∷ 7 ∷ 5 ∷ []) ∷ [])
    ∷ updates 5 10
    ∷ sends
    ∷ adds 7 ((1 ∷ 7 ∷ []) ∷ [])
    ∷ updates 5 20
    ∷ removes 7
    ∷ disconnects
    ∷ []

run-Honest_example :
    let opened : Ledger = record { opened = []; foreign = 0; doubled = 0 } in
    let s =
      run
        (ledgered_platform toy)
        4
        calls
        (new_transport (ledgered_platform toy) none browser (0, (3 ∷ []) ∷ []) 0 ([], opened)) in
    ((s.server.1).foreign ≡ 0) × ((s.server.1).doubled ≡ 0)
run-Honest_example = run-Honest toy 4 calls none browser (0, (3 ∷ []) ∷ []) 0 []

-- Thirty datagrams that the first peer accepts wait.
abbrev flooded : State toy
flooded = record busy {
  line = record (busy.line) { world = (0, replicate 30 (2 ∷ 7 ∷ [])) };
  peers = (7, record (new_peer 7 []) { next_timeout = some 0 }) ∷ [];
}

route_loop-Quota_example :
    (trace : List ℕ) × Feeds toy 3 flooded trace ((route_loop toy 256 3 (flooded, [])).0).0
    × ((k : ℕ) → count k trace ≤ 24)
    × (length trace ≤ 256)
route_loop-Quota_example = route_loop-Quota toy 3 flooded

next_output-le :
    (x : List (List ℕ)) → length (next_output x).0 + data_of_output (next_output x).1 ≤ length x
unfolding next_output
next_output-le [] = omega arith
next_output-le (packet ∷ rest) = omega arith

-- The toy connection hands over one packet for each that it has received.
next_output-Drains : Drains toy_rtc length
next_output-Drains = record {
  polled = λ x. next_output-le x;
  disconnected = λ x. omega arith;
  wrote = λ channel payload x. omega arith;
}

-- The connection of client 8 has a packet to hand over when the results are handled.
abbrev talkative : State toy
talkative = record busy {
  peers = (7, new_peer 7 []) ∷ (8, new_peer 8 ((2 ∷ 8 ∷ 5 ∷ []) ∷ [])) ∷ [];
}

apply_pending_results-settles_example :
    ((apply_pending_results toy 5 talkative).pending_server_results ≡ [])
    × (apply_pending_results toy (5 + 3) talkative ≡ apply_pending_results toy 5 talkative)
unfolding renet_cross.WebRtc.Rounds.load new_peer
apply_pending_results-settles_example =
    apply_pending_results-settles toy length next_output-Drains 5 3 talkative (omega arith)
