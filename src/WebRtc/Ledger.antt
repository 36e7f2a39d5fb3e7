-- ===== src/WebRtc/Ledger.antt =====
-- src/server.rs: the transport connects no client twice, and ends no connection but its own.
use renet_cross.Prelude.{
  ℕ, ◌+◌, ◌-◌, ◌≤◌, ◌<◌, ◌≡◌, refl, count, true, Option, List, [], ◌∷◌, if◌then◌else◌, ◌==◌, arith,
}
use renet_cross.Prelude.Steps.{each}
use renet_cross.Net.{SocketAddr}
use renet_cross.ServerConditioner
use renet_cross.NetcodeResult.{RenetServer}
use renet_cross.WebRtc.{Platform, new_transport}
use renet_cross.WebRtc.Peers.{contains, insert_id, remove_id}
use renet_cross.WebRtc.Keeps.Answers.{Rules}
use renet_cross.WebRtc.Keeps.Calls.{Call, run, run-On}

-- The connections that the transport has added and not removed since, by their clients, how often it has
-- removed one that is not among them, and how often it has added one where one was.
pub record Ledger : Type 0 where
  pub opened : List ℕ
  pub foreign : ℕ
  pub doubled : ℕ

-- The list without the first entry of a client.
abbrev pub drop_one : ℕ → List ℕ → List ℕ
drop_one client [] = []
drop_one client (id ∷ l) = if id == client then l else id ∷ drop_one client l

-- Renet's server with the ledger of one transport.
abbrev pub ledgered : RenetServer → RenetServer
ledgered rs = record {
  Renet = rs.Renet × Ledger;
  is_connected = λ client r. rs.is_connected client r.0;
  add_connection = λ client r. (
    rs.add_connection client r.0,
    record (r.1) {
      opened = client ∷ (r.1).opened;
      doubled = if rs.is_connected client r.0 then (r.1).doubled + 1 else (r.1).doubled;
    },
  );
  remove_connection = λ client r. (
    rs.remove_connection client r.0,
    record (r.1) {
      opened = drop_one client (r.1).opened;
      foreign = if contains client (r.1).opened then (r.1).foreign else (r.1).foreign + 1;
    },
  );
  process_packet_from = λ bytes client r. (rs.process_packet_from bytes client r.0, r.1);
  disconnections_id = λ r. rs.disconnections_id r.0;
  get_packets_to_send =
      λ client r. let (r', packets) = rs.get_packets_to_send client r.0 in ((r', r.1), packets);
}

count-drop_one :
    (client k : ℕ) (l : List ℕ)
    → count k (drop_one client l) ≡ count k l - (if client == k then 1 else 0)
count-drop_one client k [] = ground arith
count-drop_one client k (id ∷ l) = ground (arith, count-drop_one client k l)

contains_counted : (client : ℕ) (l : List ℕ) → 0 < count client l → contains client l ≡ true
contains_counted client [] h = absurd (omega (arith, h))
contains_counted client (id ∷ l) h = ground (arith, contains_counted client l, h)

counted_contains : (client : ℕ) (l : List ℕ) → contains client l ≡ true → 0 < count client l
counted_contains client [] h = cc
counted_contains client (id ∷ l) h = ground (arith, counted_contains client l, h)

count-remove_id :
    (client k : ℕ) (l : List ℕ)
    → count k (remove_id client l) ≡ (if client == k then 0 else count k l)
count-remove_id client k [] = ground arith
count-remove_id client k (id ∷ l) = ground (arith, count-remove_id client k l)

count-insert_id :
    (client k : ℕ) (l : List ℕ)
    → count k (insert_id client l) ≤ count k l + (if client == k then 1 else 0)
count-insert_id client k l = ground arith

-- The transport has made the connections of these clients, each once for every time it is named.
abbrev Covers : List ℕ → List ℕ → List ℕ → Type 0
Covers opened ids pending = (k : ℕ) → count k ids + count k pending ≤ count k opened

Covers-contains :
    (client : ℕ) (opened ids pending : List ℕ)
    → contains client ids ≡ true
    → Covers opened ids pending
    → contains client opened ≡ true
Covers-contains client opened ids pending c h =
    contains_counted client opened (omega (arith, h client, counted_contains client ids c))

module _ (rs : RenetServer) where
  -- What the ledger says while the transport keeps to its own.
  abbrev Honest : List ℕ → List ℕ → (ledgered rs).Renet → Type 0
  Honest ids pending r = Covers (r.1).opened ids pending × ((r.1).foreign ≡ 0) × ((r.1).doubled ≡ 0)

  removed-Honest :
      (ids pending : List ℕ) (r : (ledgered rs).Renet)
      → Honest ids pending r
      → Honest ids [] (each (ledgered rs).remove_connection pending r)
  unfolding each
  removed-Honest ids [] r h = h
  removed-Honest ids (client ∷ pending) r h =
      removed-Honest ids pending ((ledgered rs).remove_connection client r) (
        λ k. ground (arith, h.0 k, count-drop_one client k (r.1).opened),
        rw (contains_counted client (r.1).opened (ground (arith, h.0 client))) h.1,
        h.2,
      )

  Rules-Honest : Rules (ledgered rs) Honest
  Rules-Honest = record {
    welcomed = λ client ids pending r new h.
        (λ k. ground (arith, h.0 k, count-insert_id client k ids), h.1, rw new h.2);
    ended = λ client ids pending r c h. (
      λ k. ground (
        arith,
        h.0 k,
        h.0 client,
        counted_contains client ids c,
        count-remove_id client k ids,
        count-drop_one client k (r.1).opened,
      ),
      rw (Covers-contains client (r.1).opened ids pending c h.0) h.1,
      h.2,
    );
    retired = λ client ids pending r c h. (
      λ k. ground (
        arith,
        h.0 k,
        counted_contains client ids c,
        count-remove_id client k ids,
        count-insert_id client k pending,
      ),
      h.1,
      h.2,
    );
    removed = removed-Honest;
    processed = λ bytes client ids pending r h. h;
    collected = λ client ids pending r h. h;
  }

-- The platform whose renet server keeps the ledger of the transport.
abbrev pub ledgered_platform : Platform → Platform
ledgered_platform p = record p { rs = ledgered p.rs }

-- From a new transport on, after any calls and whatever renetcode's server and str0m have answered, the
-- transport has removed no connection from renet's server but those that it had added itself and not
-- removed since, and it has added no connection for a client that had one at that time.
pub run-Honest :
    (p : Platform) (rounds : ℕ) (calls : List (Call p.xs.Rtc))
    → (conditioner : Option ServerConditioner.State) (destination : SocketAddr)
    → (world : p.os.World) (netcode : p.ns.Netcode) (server : p.rs.Renet)
    → let opened : Ledger = record { opened = []; foreign = 0; doubled = 0 } in
      let s = run (ledgered_platform p) rounds calls (
        new_transport
          (ledgered_platform p)
          conditioner
          destination
          world
          netcode
          (server, opened)) in
      ((s.server.1).foreign ≡ 0) × ((s.server.1).doubled ≡ 0)
unfolding new_transport
run-Honest p rounds calls conditioner destination world netcode server =
    let opened : Ledger = record { opened = []; foreign = 0; doubled = 0 } in
    let kept =
      run-On (ledgered_platform p) rounds (Honest p.rs) (Rules-Honest p.rs) calls
        (new_transport (ledgered_platform p) conditioner destination world netcode (server, opened))
        (λ k. omega arith, refl, refl) in
    (kept.1, kept.2)
