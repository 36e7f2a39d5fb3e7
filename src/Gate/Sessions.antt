-- ===== src/Gate/Sessions.antt =====
-- src/packet_io/client.rs: what a gate keeps of an ended session, and a gate that does nothing.
use renet_cross.Prelude.{
  ℕ, ◌≡◌, refl, ap, Bool, false, not, is_some, Option, none, some, List, [], ◌∷◌, All, length,
}
use mathlib.Core.Option
use renet_cross.Float.{F64}
use renet_cross.Conditioner.{Direction, Control}
use renet_cross.Conditioner.Engine.{Conditioner, clear_session}
use renet_cross.Conditioner.Engine
use renet_cross.Conditioner.Engine.Idle.{
  Idle, new-Idle, new-Emptied, clear_session-Emptied, clear_session-Idle, enqueue-Idle,
  drain_ready-Idle, drain_ready-Emptied,
}
use renet_cross.Conditioner.Engine.Contents.{
  Contains, Emptied-Contains, enqueue-Contains, drain_ready-Contains,
}
use renet_cross.Gate.{Gate, bypass, attach, reset, detach, drain, drain_engine, defer, defer_engine}

-- What a transport asks of its gate within a session, and what the gate answers.
pub data Call (T : Type 0) : Type 0 where
  defers : Direction → T → List ℕ → ℕ → Call T
  drains : Direction → ℕ → Call T
  resets : Call T

pub data Reply (T : Type 0) : Type 0 where
  taken : Bool → Reply T
  handed : List (T × List ℕ) → Reply T
  emptied : Reply T

abbrev pub Slot : Type 0 → Type 0
Slot T = Option (Conditioner (T × List ℕ))

-- How a session ends: `set_conditioner`, a disconnection, or `clear_conditioner`.
pub data Ending : Type 0 where
  attached : Control → Ending
  was_reset detached : Ending

-- An engine that is not there, or that conditions nothing.
abbrev pub IdleSlot : {T : Type 0} → Slot T → Type 0
IdleSlot none = Unit {0}
IdleSlot (some e) = Idle e

abbrev pub IsIdle : {T : Type 0} → Gate T → Type 0
IsIdle g = IdleSlot g.engine

-- Of every packet that waits, with its metadata, `P` holds.
abbrev pub SlotHolds : {T : Type 0} → (T × List ℕ → Type 0) → Slot T → Type 0
SlotHolds P none = Unit {0}
SlotHolds P (some e) = Contains P e

-- `P` holds of the packet that a call brings ...
abbrev pub Brings : {T : Type 0} → (T × List ℕ → Type 0) → Call T → Type 0
Brings P (defers d metadata bytes now) = P (metadata, bytes)
Brings P (drains d now) = Unit {0}
Brings P resets = Unit {0}

-- ... or of all packets that a reply hands over.
abbrev pub Hands : {T : Type 0} → (T × List ℕ → Type 0) → Reply T → Type 0
Hands P (taken b) = Unit {0}
Hands P (handed packets) = All P packets
Hands P emptied = Unit {0}

module _ {T : Type 0} where
  drain_engine-Idle :
      (d : Direction) (now : ℕ) (o : Slot T)
      → IdleSlot o
      → IsIdle (drain_engine d now o).0 × ((drain_engine d now o).1 ≡ [])
  unfolding drain_engine
  drain_engine-Idle d now none h = (tt, refl)
  drain_engine-Idle d now (some e) h =
      (drain_ready-Idle d now e h, (drain_ready-Emptied d now e h.emptied).1)

  pub drain-IsIdle :
      (d : Direction) (now : ℕ) (g : Gate T)
      → IsIdle g
      → IsIdle (drain d now g).0 × ((drain d now g).1 ≡ [])
  unfolding drain
  drain-IsIdle d now g h = drain_engine-Idle d now g.engine h

  reset_engine-Idle : (o : Slot T) → IdleSlot o → IdleSlot (Option.map clear_session o)
  reset_engine-Idle none h = tt
  reset_engine-Idle (some e) h = clear_session-Idle e h.off

  pub reset-IsIdle : (g : Gate T) → IsIdle g → IsIdle (reset g)
  unfolding reset
  reset-IsIdle g h = reset_engine-Idle g.engine h

  drain_engine-Holds :
      (P : T × List ℕ → Type 0) (d : Direction) (now : ℕ) (o : Slot T)
      → SlotHolds P o
      → SlotHolds P ((drain_engine d now o).0).engine × All P (drain_engine d now o).1
  unfolding drain_engine
  drain_engine-Holds P d now none h = (tt, tt)
  drain_engine-Holds P d now (some e) h = drain_ready-Contains P d now e h

  reset_engine-Holds :
      (P : T × List ℕ → Type 0) (o : Slot T) → SlotHolds P (Option.map clear_session o)
  reset_engine-Holds P none = tt
  reset_engine-Holds P (some e) = Emptied-Contains P (clear_session e) (clear_session-Emptied e)

  pub reset-Holds : (P : T × List ℕ → Type 0) (g : Gate T) → SlotHolds P (reset g).engine
  unfolding reset
  reset-Holds P g = reset_engine-Holds P g.engine

  pub attach-IsIdle :
      (control : Control) (g : Gate T)
      → control.config.enabled ≡ false
      → IsIdle (attach control g).0
  unfolding attach
  attach-IsIdle control g h = new-Idle control h

  attach-Holds :
      (P : T × List ℕ → Type 0) (control : Control) (g : Gate T)
      → SlotHolds P ((attach control g).0).engine
  unfolding attach
  attach-Holds P control g = Emptied-Contains P (Engine.new control) (new-Emptied control)

module _ {T : Type 0} where
  unfoldable pub end_session : Ending → Gate T → Gate T
  end_session (attached control) g = (attach control g).0
  end_session was_reset g = reset g
  end_session detached g = (detach g).0

module _ (fl : F64) {T : Type 0} where
  unfoldable pub step : Call T → Gate T → Gate T × Reply T
  step (defers d metadata bytes now) g =
      let (g', b) = defer fl d metadata bytes now g in (g', taken b)
  step (drains d now) g = let (g', ready) = drain d now g in (g', handed ready)
  step resets g = (reset g, emptied)

  unfoldable pub run : List (Call T) → Gate T → List (Reply T)
  unfolding step
  run [] g = []
  run (c ∷ calls) g = (step c g).1 ∷ run calls (step c g).0

  defer_engine-Idle :
      (d : Direction) (metadata : T) (bytes : List ℕ) (now : ℕ) (o : Slot T)
      → IdleSlot o
      → IsIdle (defer_engine fl d metadata bytes now o).0
        × ((defer_engine fl d metadata bytes now o).1 ≡ false)
  unfolding defer_engine
  defer_engine-Idle d metadata bytes now none h = (tt, refl)
  defer_engine-Idle d metadata bytes now (some e) h =
      let (idle, back) = enqueue-Idle fl d now (metadata, bytes) (length bytes) e h in
      (idle, ap (λ o. not (is_some o)) back)

  pub defer-IsIdle :
      (d : Direction) (metadata : T) (bytes : List ℕ) (now : ℕ) (g : Gate T)
      → IsIdle g
      → IsIdle (defer fl d metadata bytes now g).0 × ((defer fl d metadata bytes now g).1 ≡ false)
  unfolding defer
  defer-IsIdle d metadata bytes now g h = defer_engine-Idle d metadata bytes now g.engine h

  -- Conditioning that is switched off does not show: a gate whose engine has conditioning off, nothing
  -- queued and no outage answers every sequence of calls as a gate without an engine does.
  pub run-IsIdle : (calls : List (Call T)) (g : Gate T) → IsIdle g → run calls g ≡ run calls bypass
  unfolding run step drain defer drain_engine defer_engine reset
  run-IsIdle [] g h = refl
  run-IsIdle (defers d metadata bytes now ∷ calls) g h =
      let (idle, passed) = defer-IsIdle d metadata bytes now g h in
      rw (passed, run-IsIdle calls (defer fl d metadata bytes now g).0 idle) refl
  run-IsIdle (drains d now ∷ calls) g h =
      let (idle, nothing) = drain-IsIdle d now g h in
      rw (nothing, run-IsIdle calls (drain d now g).0 idle) refl
  run-IsIdle (resets ∷ calls) g h = ap (◌∷◌ emptied) (run-IsIdle calls (reset g) (reset-IsIdle g h))

  defer_engine-Holds :
      (P : T × List ℕ → Type 0) (d : Direction) (metadata : T) (bytes : List ℕ) (now : ℕ)
      → (o : Slot T) → P (metadata, bytes)
      → SlotHolds P o
      → SlotHolds P ((defer_engine fl d metadata bytes now o).0).engine
  unfolding defer_engine
  defer_engine-Holds P d metadata bytes now none p h = tt
  defer_engine-Holds P d metadata bytes now (some e) p h =
      enqueue-Contains P fl d now (metadata, bytes) (length bytes) e p h

  step-Holds :
      (P : T × List ℕ → Type 0) (c : Call T) (g : Gate T)
      → Brings P c
      → SlotHolds P g.engine
      → SlotHolds P ((step c g).0).engine × Hands P (step c g).1
  unfolding step drain defer
  step-Holds P (defers d metadata bytes now) g b h =
      (defer_engine-Holds P d metadata bytes now g.engine b h, tt)
  step-Holds P (drains d now) g b h = drain_engine-Holds P d now g.engine h
  step-Holds P resets g b h = (reset-Holds P g, tt)

  run-Holds :
      (P : T × List ℕ → Type 0) (calls : List (Call T)) (g : Gate T)
      → All (Brings P) calls
      → SlotHolds P g.engine
      → All (Hands P) (run calls g)
  unfolding run
  run-Holds P [] g b h = tt
  run-Holds P (c ∷ calls) g b h =
      let (kept, handed') = step-Holds P c g b.0 h in
      (handed', run-Holds P calls (step c g).0 b.1 kept)

  -- No packet outlives its session: whatever is true of every packet that is brought to a gate after
  -- its session ended, by a new attachment, by a reset or by a detachment, is true of every packet that
  -- the gate hands over from then on, whatever it held before.
  pub run-end_session :
      (P : T × List ℕ → Type 0) (ending : Ending) (calls : List (Call T)) (g : Gate T)
      → All (Brings P) calls
      → All (Hands P) (run calls (end_session ending g))
  unfolding end_session detach
  run-end_session P (attached control) calls g b =
      run-Holds P calls (attach control g).0 b (attach-Holds P control g)
  run-end_session P was_reset calls g b = run-Holds P calls (reset g) b (reset-Holds P g)
  run-end_session P detached calls g b = run-Holds P calls bypass b tt
