-- ===== src/ServerGate.antt =====
-- src/packet_io/server.rs: `ServerPacketGate`, a server conditioner that a transport may have, as one
-- of the owners that share its handle. The clock of the handle is an argument of each call. The gate
-- holds the state behind the handle; where two gates share a handle, the mixed transport takes the state
-- from one to the other.
mod Tests
pub mod Silence
pub mod Removal
use renet_cross.Prelude.{ℕ, Bool, true, false, Option, none, some, List, [], ◌∷◌}
use renet_cross.Float.{F64}
use renet_cross.Conditioner.{Direction, DirectionStats, empty_direction}
use renet_cross.ServerConditioner.{PeerId, State}
use renet_cross.ServerConditioner.Traffic.{
  allocate_owner, remove_owner, remove_peer, queued_outgoing, defer_at, drain_at,
}

pub record Attachment : Type 0 where
  pub conditioner : State
  pub owner : ℕ

pub record ServerGate : Type 0 where
  pub attached : Option Attachment

-- `ServerPacketGate::default`.
abbrev pub bypass : ServerGate
bypass = record { attached = none }

with_state : Attachment → State → ServerGate
with_state a s = record { attached = some (record a { conditioner = s }) }

unfoldable pub reset_attached : Option Attachment → ServerGate
unfolding with_state
reset_attached none = bypass
reset_attached (some a) = with_state a (remove_owner a.owner a.conditioner)

unfoldable pub reset : ServerGate → ServerGate
unfolding reset_attached
reset g = reset_attached g.attached

-- The gate without its attachment, and the state that it leaves behind the handle. The same happens
-- when a gate is dropped.
left_state : Option Attachment → Option State
left_state none = none
left_state (some a) = some a.conditioner

unfoldable pub detach : ServerGate → ServerGate × Option State
unfolding reset left_state
detach g = (bypass, left_state (reset g).attached)

-- A new owner of the handle. The source panics where the owner numbers are used up; here the gate is
-- then left detached.
attach_owner : State × Option ℕ → ServerGate
attach_owner (s, none) = bypass
attach_owner (s, some owner) = record {
  attached = some (record { conditioner = s; owner = owner });
}

-- `attach`, with the state behind the new handle after the old one was detached; the state that is
-- left behind the old handle is the second result.
unfoldable pub attach : State → ServerGate → ServerGate × Option State
unfolding attach_owner detach
attach s g = (attach_owner (allocate_owner s), (detach g).1)

unfoldable pub remove_attached : PeerId → Option Attachment → ServerGate
unfolding with_state
remove_attached peer none = bypass
remove_attached peer (some a) = with_state a (remove_peer a.owner peer a.conditioner)

unfoldable pub remove : PeerId → ServerGate → ServerGate
unfolding remove_attached
remove peer g = remove_attached peer g.attached

queued_attached : PeerId → Option Attachment → DirectionStats
queued_attached peer none = empty_direction
queued_attached peer (some a) = queued_outgoing a.owner peer a.conditioner

pub queued : PeerId → ServerGate → DirectionStats
unfolding queued_attached
queued peer g = queued_attached peer g.attached

unfoldable pub drain_attached :
    Direction → ℕ → Option Attachment → ServerGate × List (PeerId × List ℕ)
unfolding with_state
drain_attached d time none = (bypass, [])
drain_attached d time (some a) =
    let (s, ready) = drain_at a.owner d time a.conditioner in (with_state a s, ready)

unfoldable pub drain : Direction → ℕ → ServerGate → ServerGate × List (PeerId × List ℕ)
unfolding drain_attached
drain d time g = drain_attached d time g.attached

module _ (fl : F64) where
  unfoldable pub defer_attached :
      Direction → PeerId → List ℕ → ℕ → Option Attachment → ServerGate × Bool
  unfolding with_state
  defer_attached d peer bytes time none = (bypass, false)
  defer_attached d peer bytes time (some a) =
      let (s, taken) = defer_at fl a.owner d peer bytes time a.conditioner in
      (with_state a s, taken)

  -- The gate after the packet, and whether it has taken the packet.
  unfoldable pub defer : Direction → PeerId → List ℕ → ℕ → ServerGate → ServerGate × Bool
  unfolding defer_attached
  defer d peer bytes time g = defer_attached d peer bytes time g.attached
