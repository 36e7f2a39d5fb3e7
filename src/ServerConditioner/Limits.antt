-- ===== src/ServerConditioner/Limits.antt =====
-- src/server_conditioner.rs: the number of peers stays within the limit, whoever sends packets.
use renet_cross.Prelude.{
  ℕ, ◌≤◌, ◌<◌, ◌≡◌, refl, inl, inr, arith, Bool, not, ◌&&◌, Bool-cases, Option-cases, List, [], ◌∷◌,
  length, Result, ok, err, Result-cases, leb, is_some, ◌==◌,
}
use renet_cross.Prelude.Assoc.{get}
use renet_cross.Float.{F64}
use renet_cross.Conditioner.{Direction, Control, ConfigError}
use renet_cross.Conditioner.Engine
use renet_cross.ServerConditioner.{
  PeerId, PeerId-discrete, ServerConfig, Peer, State, validate_server, new, ids_where, apply_config,
  poll, configure,
}
use renet_cross.ServerConditioner.Traffic.{
  place, outage_at, allocate_owner, remove_owner, remove_peer, defer_known, defer_entry, defer_new,
  defer_at, drain_at,
}
use renet_cross.ServerConditioner.Sizes.{
  Within, retire-Within, poll-Within, retire_all-Within, evict-bounded, length-map_peers,
  length-place, length-update_peer, length-drain_peers,
}

-- The calls of the transports and of the handle.
pub data Call : Type 0 where
  configures : ServerConfig → Call
  outages : ℕ → ℕ → Call
  allocates : Call
  removes_owner : ℕ → Call
  removes_peer : ℕ → PeerId → Call
  defers : ℕ → Direction → PeerId → List ℕ → ℕ → Call
  drains : ℕ → Direction → ℕ → Call

abbrev pub IsBounded : State → Type 0
IsBounded s = length s.peers ≤ s.config.max_peers

module _ (fl : F64) where
  unfoldable pub step : Call → State → State
  step (configures config) s = (configure config s).0
  step (outages duration time) s = outage_at duration time s
  step allocates s = (allocate_owner s).0
  step (removes_owner owner) s = remove_owner owner s
  step (removes_peer owner id) s = remove_peer owner id s
  step (defers owner d id bytes time) s = (defer_at fl owner d id bytes time s).0
  step (drains owner d time) s = (drain_at owner d time s).0

  unfoldable pub run : List Call → State → State
  run [] s = s
  run (c ∷ cs) s = run cs (step c s)

  bounded : (s' s : State) → Within s' s → IsBounded s → IsBounded s'
  bounded s' s w b = ground (arith, w, b)

  configure-IsBounded :
      (config : ServerConfig) (s : State) → IsBounded s → IsBounded (configure config s).0
  unfolding configure
  configure-IsBounded config s b = elim (Result-cases (validate_server config)) [
    | inr (e, bad) ↦ rw (bad, configure) b
    | inl (_, good) ↦
        rw (good, configure)
          (let c : State = apply_config config s in
            let (same, bound) = evict-bounded (length c.peers) c (omega arith) in
            ground (arith, same, bound))
  ]

  defer_known-Within :
      (owner : ℕ) (d : Direction) (id : PeerId) (bytes : List ℕ) (peer : Peer) (s : State)
      → Within (defer_known fl owner d id bytes peer s).0 s
  unfolding defer_known
  defer_known-Within owner d id bytes peer s = elim (Bool-cases (peer.owner == owner)) [
    | inr other ↦ rw (other, defer_known) (omega arith, refl)
    | inl own ↦ rw (own, defer_known) (omega (arith, length-update_peer id _ s.peers), refl)
  ]

  defer_entry-IsBounded :
      (owner : ℕ) (d : Direction) (id : PeerId) (bytes : List ℕ)
      (handle : Result ConfigError Control) (s : State)
      → length s.peers < s.config.max_peers
      → IsBounded (defer_entry fl owner d id bytes handle s).0
  unfolding defer_entry
  defer_entry-IsBounded owner d id bytes (err e) s room = omega arith
  defer_entry-IsBounded owner d id bytes (ok control) s room =
      let peer : Peer = record { owner = owner; last_seen = s.now; engine = Engine.new control } in
      let placed : State = record s { peers = place id peer s.peers } in
      bounded (defer_known fl owner d id bytes peer placed).0 placed
        (defer_known-Within owner d id bytes peer placed)
        (omega (arith, length-place id peer s.peers))

  defer_new-IsBounded :
      (owner : ℕ) (d : Direction) (id : PeerId) (bytes : List ℕ) (s : State)
      → IsBounded s
      → IsBounded (defer_new fl owner d id bytes s).0
  unfolding defer_new
  defer_new-IsBounded owner d id bytes s b =
      elim (Bool-cases (leb s.config.max_peers (length s.peers))) [
        | inl full ↦ rw (full, defer_new) b
        | inr room ↦
            rw (room, defer_new) (defer_entry-IsBounded owner d id bytes _ s (ground (arith, room)))
      ]

  defer_at-IsBounded :
      (owner : ℕ) (d : Direction) (id : PeerId) (bytes : List ℕ) (time : ℕ) (s : State)
      → IsBounded s
      → IsBounded (defer_at fl owner d id bytes time s).0
  unfolding defer_at
  defer_at-IsBounded owner d id bytes time s b =
      let polled : State = poll time s in
      let b' = bounded polled s (poll-Within time s) b in
      let bypass : Bool = not polled.config.packets.enabled && not (is_some polled.outage_until) in
      elim (Bool-cases bypass) [
        | inl off ↦ rw (off, defer_at) b'
        | inr on ↦
            rw (on, defer_at)
              (elim (Option-cases (get PeerId-discrete id polled.peers)) [
                | inl gone ↦ rw gone (defer_new-IsBounded owner d id bytes polled b')
                | inr (peer, there) ↦ rw there (
                    bounded (defer_known fl owner d id bytes peer polled).0 polled
                      (defer_known-Within owner d id bytes peer polled) b')
              ])
      ]

  step-IsBounded : (c : Call) (s : State) → IsBounded s → IsBounded (step c s)
  unfolding step outage_at allocate_owner remove_owner remove_peer drain_at
  step-IsBounded (configures config) s b = configure-IsBounded config s b
  step-IsBounded (outages duration time) s b =
      let polled : State = poll time s in
      let b' = bounded polled s (poll-Within time s) b in
      omega (arith, b', length-map_peers _ polled.peers)
  step-IsBounded allocates s b = ground (arith, b)
  step-IsBounded (removes_owner owner) s b =
      bounded (remove_owner owner s) s
        (retire_all-Within (ids_where (λ peer. peer.owner == owner) s.peers) s) b
  step-IsBounded (removes_peer owner id) s b =
      bounded (remove_peer owner id s) s (ground (arith, retire-Within id s)) b
  step-IsBounded (defers owner d id bytes time) s b = defer_at-IsBounded owner d id bytes time s b
  step-IsBounded (drains owner d time) s b =
      let polled : State = poll time s in
      let b' = bounded polled s (poll-Within time s) b in
      omega (arith, b', length-drain_peers owner d polled.now _ polled.peers)

  run-keeps_bound : (cs : List Call) (s : State) → IsBounded s → IsBounded (run cs s)
  unfolding run
  run-keeps_bound [] s b = b
  run-keeps_bound (c ∷ cs) s b = run-keeps_bound cs (step c s) (step-IsBounded c s b)

  -- From a new handle on, after any packets, polls, outages, removals and changes of settings, there are
  -- never more peers than the limit in force; a lower limit is kept to at once.
  pub run-IsBounded :
      (config : ServerConfig) (s : State) (cs : List Call)
      → new config ≡ ok s
      → IsBounded (run cs s)
  unfolding new
  run-IsBounded config s cs e = run-keeps_bound cs s (ground (arith, e))
