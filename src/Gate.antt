-- ===== src/Gate.antt =====
-- src/packet_io/client.rs: `PacketGate`, a packet conditioner that a client's transport may have.
-- The mutex is held for a whole call, so that a call is a function of the gate; the clock is an
-- argument of each call. The settings that the gate shares with a handle are the control block of
-- its engine.
mod Tests
pub mod Sessions
use mathlib.Core.Option
use renet_cross.Prelude.{ℕ, Bool, true, false, not, Option, none, some, List, [], length, is_some}
use renet_cross.Float.{F64}
use renet_cross.Conditioner.{Direction, Control}
use renet_cross.Conditioner.Engine.{Conditioner, enqueue, drain_ready, clear_session}
use renet_cross.Conditioner.Engine

-- `State`: the engine of an attached gate. A packet is its bytes with the transport's metadata.
pub record Gate (T : Type 0) : Type 0 where
  pub engine : Option (Conditioner (T × List ℕ))

module _ {T : Type 0} where
  -- `PacketGate::default`.
  abbrev pub bypass : Gate T
  bypass = record { engine = none }

  -- `PacketGate::handle`, which `PacketConditioner::handle` answers.
  abbrev pub handle : Gate T → Option Control
  handle g = Option.map (λ e. e.control) g.engine

  unfoldable pub reset : Gate T → Gate T
  reset g = record { engine = Option.map clear_session g.engine }

  -- The gate without its engine, and the control block that the engine leaves to its handle. The
  -- same happens when the last owner of a gate drops it.
  unfoldable pub detach : Gate T → Gate T × Option Control
  unfolding reset
  detach g = (bypass, handle (reset g))

  -- The new engine reads the handle's block as `detach` has left it.
  unfoldable pub attach : Control → Gate T → Gate T × Option Control
  unfolding detach
  attach control g = (record { engine = some (Engine.new control) }, (detach g).1)

  -- What is ready, when there is an engine.
  unfoldable pub drain_engine :
      Direction → ℕ → Option (Conditioner (T × List ℕ)) → Gate T × List (T × List ℕ)
  drain_engine d now none = (bypass, [])
  drain_engine d now (some e) =
      let (e', ready) = drain_ready d now e in (record { engine = some e' }, ready)

  unfoldable pub drain : Direction → ℕ → Gate T → Gate T × List (T × List ℕ)
  unfolding drain_engine
  drain d now g = drain_engine d now g.engine

  module _ (fl : F64) where
    unfoldable pub defer_engine :
        Direction → T → List ℕ → ℕ → Option (Conditioner (T × List ℕ)) → Gate T × Bool
    defer_engine d metadata bytes now none = (bypass, false)
    defer_engine d metadata bytes now (some e) =
        let (e', passed) = enqueue fl d now (metadata, bytes) (length bytes) e in
        (record { engine = some e' }, not (is_some passed))

    -- The gate after the packet, and whether it has taken the packet.
    unfoldable pub defer : Direction → T → List ℕ → ℕ → Gate T → Gate T × Bool
    unfolding defer_engine
    defer d metadata bytes now g = defer_engine d metadata bytes now g.engine
