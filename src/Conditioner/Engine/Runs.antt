-- ===== src/Conditioner/Engine/Runs.antt =====
-- src/conditioner.rs: histories of calls on one conditioner and on the handle that controls it.
use renet_cross.Prelude.{ℕ, Option, none, some, List, [], ◌∷◌, ◌++◌}
use renet_cross.Float.{F64}
use renet_cross.Conditioner.{Config, InRange, Direction, configure, outage, reset_session}
use renet_cross.Conditioner.Engine.{Conditioner, enqueue, drain_ready, clear_session}

-- The handle's calls (`configures`, `outages`, `resets`) and the transport's.
pub data Call (T : Type 0) : Type 0 where
  configures : Config → Call T
  outages : ℕ → Call T
  resets : Call T
  enqueues : Direction → ℕ → T → ℕ → Call T
  drains : Direction → ℕ → Call T
  clears : Call T

abbrev pub CallInRange : {T : Type 0} → Call T → Type 0
CallInRange (configures c) = InRange c
CallInRange _ = Unit

abbrev pub option_list : {T : Type 0} → Option T → List T
option_list none = []
option_list (some x) = x ∷ []

module _ (fl : F64) {T : Type 0} where
  -- The state after a call, and the packets that it hands back to the transport.
  unfoldable pub step : Call T → Conditioner T → Conditioner T × List T
  unfolding configure outage reset_session
  step (configures c) s = (record s { control = (configure c s.control).0 }, [])
  step (outages duration) s = (record s { control = outage duration s.control }, [])
  step resets s = (record s { control = reset_session s.control }, [])
  step (enqueues d now payload bytes) s =
      let (s', passed) = enqueue fl d now payload bytes s in (s', option_list passed)
  step (drains d now) s = drain_ready d now s
  step clears s = (clear_session s, [])

  unfoldable pub run : List (Call T) → Conditioner T → Conditioner T × List T
  run [] s = (s, [])
  run (c ∷ cs) s = let (s', out) = step c s in let rest = run cs s' in (rest.0, out ++ rest.1)
