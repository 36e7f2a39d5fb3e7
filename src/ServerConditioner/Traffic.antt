-- ===== src/ServerConditioner/Traffic.antt =====
-- src/server_conditioner.rs: what the transports call, and the other operations of the handle.
use mathlib.Core.Option
use renet_cross.Prelude.{
  ℕ, ◌+◌, ◌-◌, Bool, true, false, not, ◌||◌, ◌&&◌, Option, none, some, List, [], ◌∷◌, ◌++◌, map,
  length, Result, ok, err, ltb, leb, ◌==◌, if◌then◌else◌, is_some, is_some_and, u64_max,
  u64_sat_add, duration_sat_add,
}
use renet_cross.Prelude.Assoc.{get}
use renet_cross.Float.{F64}
use renet_cross.Net.{v4, v6}
use renet_cross.Conditioner.{
  Direction, DirectionStats, ConditionerStats, empty_direction, Control, ConfigError, new_handle,
}
use renet_cross.Conditioner.Engine.{Conditioner, enqueue, drain_ready}
use renet_cross.Conditioner.Engine
use renet_cross.ServerConditioner.{
  PeerId, udp, web_rtc, PeerId-discrete, ServerStats, Peer, State, peer_config, add_stats,
  configure_engine, outage_engine, retire, map_peers, ids_where, poll,
}

-- Two numbers in turn: the first that differs decides.
then_compare : ℕ → ℕ → Bool → Bool
then_compare a b rest = ltb a b || (a == b && rest)

-- The derived order of the keys.
before : PeerId → PeerId → Bool
unfolding then_compare
before (udp (v4 a p)) (udp (v4 b q)) = then_compare a b (ltb p q)
before (udp (v4 a p)) (udp (v6 b q g t)) = true
before (udp (v6 a p f s)) (udp (v4 b q)) = false
before (udp (v6 a p f s)) (udp (v6 b q g t)) =
    then_compare a b (then_compare p q (then_compare f g (ltb s t)))
before (udp a) (web_rtc i) = true
before (web_rtc i) (udp a) = false
before (web_rtc i) (web_rtc j) = ltb i j

-- `BTreeMap::insert` of a key that is new.
unfoldable pub place : PeerId → Peer → List (PeerId × Peer) → List (PeerId × Peer)
unfolding before
place id peer [] = (id, peer) ∷ []
place id peer ((j, p) ∷ m) =
    if before id j then (id, peer) ∷ (j, p) ∷ m else (j, p) ∷ place id peer m

-- `get_mut` and a write through it: the entry of the key is changed in place.
unfoldable pub update_peer : PeerId → (Peer → Peer) → List (PeerId × Peer) → List (PeerId × Peer)
update_peer id f [] = []
update_peer id f ((j, p) ∷ m) = elim (PeerId-discrete j id) [
  | yes _ ↦ (j, f p) ∷ m
  | no _ ↦ (j, p) ∷ update_peer id f m
]

unfoldable pub outage_at : ℕ → ℕ → State → State
unfolding poll map_peers configure_engine
outage_at duration time s =
    let polled = poll time s in
    record polled {
      peers =
          map_peers
            (λ id peer. record peer {
              engine = configure_engine peer.engine.control.config peer.engine;
            })
            polled.peers;
      outage_until = if duration == 0 then none else some (duration_sat_add polled.now duration);
    }

-- The source panics where the numbers are used up.
unfoldable pub allocate_owner : State → State × Option ℕ
allocate_owner s =
    if s.next_owner == u64_max
    then (s, none)
    else (record s { next_owner = s.next_owner + 1 }, some s.next_owner)

unfoldable pub retire_all : List PeerId → State → State
unfolding retire
retire_all [] s = s
retire_all (id ∷ ids) s = retire_all ids (retire id s)

unfoldable pub remove_owner : ℕ → State → State
unfolding retire_all ids_where
remove_owner owner s = retire_all (ids_where (λ peer. peer.owner == owner) s.peers) s

unfoldable pub remove_peer : ℕ → PeerId → State → State
unfolding retire
remove_peer owner id s =
    if is_some_and (get PeerId-discrete id s.peers) (λ peer. peer.owner == owner)
    then retire id s
    else s

pub queued_outgoing : ℕ → PeerId → State → DirectionStats
queued_outgoing owner id s = elim (get PeerId-discrete id s.peers) [
  | none ↦ empty_direction
  | some peer ↦
      if peer.owner == owner then peer.engine.control.stats.outgoing_stats else empty_direction
]

sum_stats : ConditionerStats → List (PeerId × Peer) → ConditionerStats
unfolding add_stats
sum_stats total [] = total
sum_stats total ((id, peer) ∷ m) = sum_stats (add_stats total peer.engine.control.stats) m

pub stats : State → ServerStats
unfolding sum_stats
stats s = record {
  packets = record summed { outage_active = is_some_and s.outage_until (λ end. ltb s.now end) };
  peers = length s.peers;
  peer_limit_drops = s.peer_limit_drops;
  expired_peers = s.expired_peers;
}
  where
    summed : ConditionerStats
    summed = sum_stats s.retired s.peers

unfoldable pub count_limit_drop : State → State
count_limit_drop s = record s { peer_limit_drops = u64_sat_add s.peer_limit_drops 1 }

-- What is left of the outage at the state's time.
unfoldable pub remaining_outage : State → Option ℕ
remaining_outage s = Option.map (λ end. end - s.now) s.outage_until

module _ (fl : F64) where
  -- A packet of a peer that is there: the state, and whether the conditioner has taken the packet.
  unfoldable pub defer_known : ℕ → Direction → PeerId → List ℕ → Peer → State → State × Bool
  unfolding count_limit_drop outage_engine remaining_outage update_peer
  defer_known owner d id bytes peer s =
      if not (peer.owner == owner)
      then (count_limit_drop s, true)
      else let (engine', passed) =
          enqueue fl d s.now bytes (length bytes)
            (outage_engine (remaining_outage s) peer.engine) in
        let seen : Peer → Peer = λ p. record p { last_seen = s.now; engine = engine' } in
        (record s { peers = update_peer id seen s.peers }, not (is_some passed))

  -- The entry of a new peer, and its packet. The source panics on invalid settings, which no handle
  -- holds.
  unfoldable pub defer_entry :
      ℕ → Direction → PeerId → List ℕ → Result ConfigError Control → State → State × Bool
  unfolding place defer_known
  defer_entry owner d id bytes (err e) s = (s, true)
  defer_entry owner d id bytes (ok control) s =
      let peer : Peer = record { owner = owner; last_seen = s.now; engine = Engine.new control } in
      defer_known owner d id bytes peer (record s { peers = place id peer s.peers })

  -- A packet of a peer that is not there: its entry is made if there is room, else the packet is
  -- dropped.
  unfoldable pub defer_new : ℕ → Direction → PeerId → List ℕ → State → State × Bool
  unfolding count_limit_drop peer_config defer_entry
  defer_new owner d id bytes s =
      if leb s.config.max_peers (length s.peers)
      then (count_limit_drop s, true)
      else defer_entry owner d id bytes (new_handle (peer_config s.config.packets id)) s

  unfoldable pub defer_at : ℕ → Direction → PeerId → List ℕ → ℕ → State → State × Bool
  unfolding poll defer_new defer_known
  defer_at owner d id bytes time s =
      let polled = poll time s in
      if not polled.config.packets.enabled && not (is_some polled.outage_until)
      then (polled, false)
      else elim (get PeerId-discrete id polled.peers) [
        | some peer ↦ defer_known owner d id bytes peer polled
        | none ↦ defer_new owner d id bytes polled
      ]

-- The loop of `drain_at` over the peers: what stays, and what is handed over.
unfoldable pub drain_peers :
    ℕ
    → Direction
    → ℕ
    → Option ℕ
    → List (PeerId × Peer)
    → List (PeerId × Peer) × List (PeerId × List ℕ)
unfolding outage_engine
drain_peers owner d now remaining [] = ([], [])
drain_peers owner d now remaining ((id, peer) ∷ m) =
    let rest = drain_peers owner d now remaining m in
    if peer.owner == owner
    then (let (engine', ready) = drain_ready d now (outage_engine remaining peer.engine) in
        (
          (id, record peer { engine = engine' }) ∷ rest.0,
          map (λ bytes. (id, bytes)) ready ++ rest.1,
        ))
    else ((id, peer) ∷ rest.0, rest.1)

unfoldable pub drain_at : ℕ → Direction → ℕ → State → State × List (PeerId × List ℕ)
unfolding poll remaining_outage drain_peers
drain_at owner d time s =
    let polled = poll time s in
    let (peers', result) = drain_peers owner d polled.now (remaining_outage polled) polled.peers in
    (record polled { peers = peers' }, result)
