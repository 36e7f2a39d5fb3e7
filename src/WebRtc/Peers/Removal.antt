-- ===== src/WebRtc/Peers/Removal.antt =====
-- src/server.rs: nothing of a removed peer is left for a peer that takes its place.
use native.Mathlib.Decide.{ℕ_discrete}
use renet_cross.Prelude.{
  ℕ, ◌≡◌, ◌≢◌, refl, ap, ◌∙◌, true, false, not, Bool-cases, inl, inr, none, List, [], ◌∷◌, All,
  filter, if_cases, ◌||◌, ◌==◌, arith,
}
use renet_cross.Prelude.Assoc.{get, retain, get-remove_self, get-remove_ne}
use renet_cross.Net.{SocketAddr, SocketAddr-discrete}
use renet_cross.ServerConditioner.{web_rtc}
use renet_cross.ServerGate.Removal.{HoldsNone, remove-HoldsNone}
use renet_cross.NetcodeResult.{
  OwnedServerResult, owned_nothing, owned_packet_to_send, owned_payload, owned_connected,
  owned_disconnected,
}
use renet_cross.WebRtc.{Platform, State, virtual_addr_for_client}
use renet_cross.WebRtc.Peers.{
  contains, insert_id, remove_id, same_addr, of_others, drop_routes, drop_packets,
  retire_connection, remove_peer,
}

-- A result that neither names the client nor goes to its address.
abbrev pub Elsewhere : ℕ → OwnedServerResult → Type 0
Elsewhere client owned_nothing = Unit {0}
Elsewhere client (owned_packet_to_send addr bytes) = addr ≢ virtual_addr_for_client client
Elsewhere client (owned_payload id bytes) = id ≢ client
Elsewhere client (owned_connected id addr bytes) = id ≢ client
Elsewhere client (owned_disconnected id addr bytes) = id ≢ client

-- A route to another client.
abbrev pub LeadsElsewhere : ℕ → SocketAddr × ℕ → Type 0
LeadsElsewhere client route = route.1 ≢ client

not_decided : {A : Type 0} (d : Dec A) → not (elim d [ yes _ ↦ true | no _ ↦ false ]) ≡ true → A → ⊥
not_decided (yes y) h e = cc
not_decided (no n) h e = n e

not_same : (a b : SocketAddr) → not (same_addr a b) ≡ true → a ≢ b
not_same a b h e = not_decided (SocketAddr-discrete a b) h e

not_equal : (a b : ℕ) → not (a == b) ≡ true → a ≢ b
not_equal a b h e = ground arith

of_others-Elsewhere :
    (client : ℕ) (r : OwnedServerResult) → of_others client r ≡ true → Elsewhere client r
unfolding of_others
of_others-Elsewhere client owned_nothing h = tt
of_others-Elsewhere client (owned_packet_to_send addr bytes) h =
    not_same addr (virtual_addr_for_client client) h
of_others-Elsewhere client (owned_payload id bytes) h = not_equal id client h
of_others-Elsewhere client (owned_connected id addr bytes) h = not_equal id client h
of_others-Elsewhere client (owned_disconnected id addr bytes) h = not_equal id client h

filter-Elsewhere :
    (client : ℕ) (l : List OwnedServerResult) → All (Elsewhere client) (filter (of_others client) l)
filter-Elsewhere client [] = tt
filter-Elsewhere client (r ∷ l) =
    if_cases (All (Elsewhere client)) (of_others client r) (r ∷ filter (of_others client) l)
      (filter (of_others client) l)
      (λ h. (of_others-Elsewhere client r h, filter-Elsewhere client l))
      (λ _. filter-Elsewhere client l)

retain-LeadsElsewhere :
    (client : ℕ) (m : List (SocketAddr × ℕ))
    → All (LeadsElsewhere client) (retain SocketAddr-discrete (λ addr id. not (id == client)) m)
unfolding retain
retain-LeadsElsewhere client [] = tt
retain-LeadsElsewhere client ((addr, id) ∷ m) =
    if_cases (All (LeadsElsewhere client)) (not (id == client)) _ _
      (λ h. (not_equal id client h, retain-LeadsElsewhere client m))
      (λ _. retain-LeadsElsewhere client m)

contains-remove_id : (client : ℕ) (ids : List ℕ) → contains client (remove_id client ids) ≡ false
contains-remove_id client [] = refl
contains-remove_id client (id ∷ ids) = ground (arith, contains-remove_id client ids)

contains-insert_id : (client : ℕ) (ids : List ℕ) → contains client (insert_id client ids) ≡ true
contains-insert_id client ids =
    if_cases (λ l. contains client l ≡ true) (contains client ids) ids (client ∷ ids) (λ e. e)
      (λ _. ground arith)

module _ (p : Platform) where
  -- What is left of a client, in the parts that `retire_connection` leaves alone and in its own.
  Retired : ℕ → State p → State p → Type 0
  Retired client s t =
      (t.peers ≡ s.peers)
      × (t.packet_gate ≡ s.packet_gate)
      × (t.addr_to_client_id ≡ s.addr_to_client_id)
      × (t.pending_server_results ≡ s.pending_server_results)
      × (contains client t.connected_client_ids ≡ false)
      × (contains client t.pending_renet_removals
          ≡ (contains client s.connected_client_ids || contains client s.pending_renet_removals))

  retire_connection-Retired :
      (client : ℕ) (s : State p) → Retired client s (retire_connection p client s)
  unfolding retire_connection Retired
  retire_connection-Retired client s = elim (Bool-cases (contains client s.connected_client_ids)) [
    | inl e ↦
        rw (e, retire_connection)
          (
            refl,
            refl,
            refl,
            refl,
            contains-remove_id client s.connected_client_ids,
            contains-insert_id client s.pending_renet_removals,
          )
    | inr e ↦ rw (e, retire_connection) (refl, refl, refl, refl, e, refl)
  ]

  -- After the removal of a peer nothing of it is left that could reach a peer that takes its place: the
  -- table has no entry for the client, no route leads to it, no result waits that names it or goes to
  -- its address, no packet of it waits in the gate in either direction, and it is not among the connected
  -- clients. Its connection is due to be removed from
  -- renet's server if it had one, or if that was due before. The entry of any other client stays.
  pub remove_peer-forgets :
      (client other : ℕ) (s : State p)
      → other ≢ client
      → let r = remove_peer p client s in
        (get ℕ_discrete client (r.0).peers ≡ none)
        × (get ℕ_discrete other (r.0).peers ≡ get ℕ_discrete other s.peers)
        × All (LeadsElsewhere client) (r.0).addr_to_client_id
        × All (Elsewhere client) (r.0).pending_server_results
        × HoldsNone (web_rtc client) (r.0).packet_gate
        × (contains client (r.0).connected_client_ids ≡ false)
        × (contains client (r.0).pending_renet_removals
            ≡ (contains client s.connected_client_ids || contains client s.pending_renet_removals))
        × (r.1 ≡ get ℕ_discrete client s.peers)
  unfolding remove_peer drop_routes drop_packets Retired
  remove_peer-forgets client other s ne =
      let routed = drop_routes p client (drop_packets p client s) in
      let left : State p = record routed { netcode = (p.ns.disconnect client routed.netcode).0 } in
      let (peers', gate', routes', pending', gone, due) = retire_connection-Retired client left in
      (
        get-remove_self ℕ_discrete client _,
        get-remove_ne ℕ_discrete client other _ ne ∙ ap (get ℕ_discrete other) peers',
        rw routes' (retain-LeadsElsewhere client s.addr_to_client_id),
        filter-Elsewhere client _,
        rw gate' (remove-HoldsNone (web_rtc client) s.packet_gate),
        gone,
        due,
        ap (get ℕ_discrete client) peers',
      )
