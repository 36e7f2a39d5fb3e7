-- ===== src/ServerGate/Silence.antt =====
-- src/packet_io/server.rs: a gate that does nothing does not show.
use renet_cross.Prelude.{ℕ, ◌≡◌, refl, ap, Bool, false, Option, none, some, List, [], ◌∷◌}
use renet_cross.Float.{F64}
use renet_cross.Conditioner.{Direction}
use renet_cross.ServerConditioner.{PeerId}
use renet_cross.ServerConditioner.Quiet.{
  Quiet, drain_at-Quiet, defer_at-Quiet, remove_peer-Quiet, remove_owner-Quiet,
}
use renet_cross.ServerGate.{
  Attachment, ServerGate, bypass, reset_attached, reset, remove_attached, remove, drain_attached,
  drain, defer_attached, defer,
}

-- What a transport asks of its gate, and what the gate answers.
pub data Call : Type 0 where
  defers : Direction → PeerId → List ℕ → ℕ → Call
  drains : Direction → ℕ → Call
  removes : PeerId → Call
  resets : Call

pub data Reply : Type 0 where
  taken : Bool → Reply
  handed : List (PeerId × List ℕ) → Reply
  done : Reply

abbrev pub QuietSlot : Option Attachment → Type 0
QuietSlot none = Unit {0}
QuietSlot (some a) = Quiet a.conditioner

-- A gate that is not attached, or whose handle conditions nothing.
abbrev pub IsSilent : ServerGate → Type 0
IsSilent g = QuietSlot g.attached

reset_attached-Quiet : (o : Option Attachment) → QuietSlot o → IsSilent (reset_attached o)
unfolding reset_attached
reset_attached-Quiet none q = tt
reset_attached-Quiet (some a) q = remove_owner-Quiet a.owner a.conditioner q

pub reset-IsSilent : (g : ServerGate) → IsSilent g → IsSilent (reset g)
unfolding reset
reset-IsSilent g q = reset_attached-Quiet g.attached q

remove_attached-Quiet :
    (peer : PeerId) (o : Option Attachment) → QuietSlot o → IsSilent (remove_attached peer o)
unfolding remove_attached
remove_attached-Quiet peer none q = tt
remove_attached-Quiet peer (some a) q = remove_peer-Quiet a.owner peer a.conditioner q

pub remove-IsSilent : (peer : PeerId) (g : ServerGate) → IsSilent g → IsSilent (remove peer g)
unfolding remove
remove-IsSilent peer g q = remove_attached-Quiet peer g.attached q

drain_attached-Quiet :
    (d : Direction) (time : ℕ) (o : Option Attachment)
    → QuietSlot o
    → IsSilent (drain_attached d time o).0 × ((drain_attached d time o).1 ≡ [])
unfolding drain_attached
drain_attached-Quiet d time none q = (tt, refl)
drain_attached-Quiet d time (some a) q = drain_at-Quiet a.owner d time a.conditioner q

pub drain-IsSilent :
    (d : Direction) (time : ℕ) (g : ServerGate)
    → IsSilent g
    → IsSilent (drain d time g).0 × ((drain d time g).1 ≡ [])
unfolding drain
drain-IsSilent d time g q = drain_attached-Quiet d time g.attached q

module _ (fl : F64) where
  defer_attached-Quiet :
      (d : Direction) (peer : PeerId) (bytes : List ℕ) (time : ℕ) (o : Option Attachment)
      → QuietSlot o
      → IsSilent (defer_attached fl d peer bytes time o).0
        × ((defer_attached fl d peer bytes time o).1 ≡ false)
  unfolding defer_attached
  defer_attached-Quiet d peer bytes time none q = (tt, refl)
  defer_attached-Quiet d peer bytes time (some a) q =
      defer_at-Quiet fl a.owner d peer bytes time a.conditioner q

  pub defer-IsSilent :
      (d : Direction) (peer : PeerId) (bytes : List ℕ) (time : ℕ) (g : ServerGate)
      → IsSilent g
      → IsSilent (defer fl d peer bytes time g).0 × ((defer fl d peer bytes time g).1 ≡ false)
  unfolding defer
  defer-IsSilent d peer bytes time g q = defer_attached-Quiet d peer bytes time g.attached q

  pub step : Call → ServerGate → ServerGate × Reply
  step (defers d peer bytes time) g = let (g', b) = defer fl d peer bytes time g in (g', taken b)
  step (drains d time) g = let (g', ready) = drain d time g in (g', handed ready)
  step (removes peer) g = (remove peer g, done)
  step resets g = (reset g, done)

  unfoldable pub run : List Call → ServerGate → List Reply
  unfolding step
  run [] g = []
  run (c ∷ calls) g = (step c g).1 ∷ run calls (step c g).0

  -- Conditioning that is switched off does not show: a gate whose handle has conditioning off, no
  -- outage, and only peers with nothing queued answers every sequence of calls as a gate without a
  -- handle does.
  pub run-IsSilent :
      (calls : List Call) (g : ServerGate) → IsSilent g → run calls g ≡ run calls bypass
  unfolding run step drain defer drain_attached defer_attached remove remove_attached reset
      reset_attached
  run-IsSilent [] g h = refl
  run-IsSilent (defers d peer bytes time ∷ calls) g h =
      let (silent, passed) = defer-IsSilent d peer bytes time g h in
      rw (passed, run-IsSilent calls (defer fl d peer bytes time g).0 silent) refl
  run-IsSilent (drains d time ∷ calls) g h =
      let (silent, nothing) = drain-IsSilent d time g h in
      rw (nothing, run-IsSilent calls (drain d time g).0 silent) refl
  run-IsSilent (removes peer ∷ calls) g h =
      ap (◌∷◌ done) (run-IsSilent calls (remove peer g) (remove-IsSilent peer g h))
  run-IsSilent (resets ∷ calls) g h =
      ap (◌∷◌ done) (run-IsSilent calls (reset g) (reset-IsSilent g h))
