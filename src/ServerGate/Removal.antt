-- ===== src/ServerGate/Removal.antt =====
-- src/packet_io/server.rs: what is left in a gate of a peer that goes.
use renet_cross.Prelude.{Option, none, some}
use renet_cross.Prelude.Assoc.{get}
use renet_cross.ServerConditioner.{PeerId, PeerId-discrete}
use renet_cross.ServerConditioner.Expiry.{IsForgotten, remove_peer-IsForgotten}
use renet_cross.ServerGate.{Attachment, ServerGate, with_state, remove_attached, remove}

-- No packet of a peer waits in a gate: the table of its handle has no entry for the peer, or another
-- owner's.
abbrev pub SlotHoldsNone : PeerId → Option Attachment → Type 0
SlotHoldsNone peer none = Unit {0}
SlotHoldsNone peer (some a) = IsForgotten a.owner (get PeerId-discrete peer a.conditioner.peers)

abbrev pub HoldsNone : PeerId → ServerGate → Type 0
HoldsNone peer g = SlotHoldsNone peer g.attached

remove_attached-HoldsNone :
    (peer : PeerId) (o : Option Attachment) → HoldsNone peer (remove_attached peer o)
unfolding remove_attached with_state
remove_attached-HoldsNone peer none = tt
remove_attached-HoldsNone peer (some a) = remove_peer-IsForgotten a.owner peer a.conditioner

pub remove-HoldsNone : (peer : PeerId) (g : ServerGate) → HoldsNone peer (remove peer g)
unfolding remove
remove-HoldsNone peer g = remove_attached-HoldsNone peer g.attached
