-- ===== src/Conditioner/Engine/Idle.antt =====
-- src/conditioner.rs: an engine that conditions nothing, and the empty queues of a new session.
use renet_cross.Prelude.{ℕ, ◌≡◌, refl, none, some, false, [], arith}
use renet_cross.Float.{F64}
use renet_cross.Conditioner.{Direction, incoming, outgoing, Control}
use renet_cross.Conditioner.Engine.{
  Conditioner, sync, adopt, show_outage, end_outage, release, drain_loop, drain_ready, enqueue,
  accept, clear_session, new,
}

-- Nothing waits in either queue.
abbrev pub Emptied : {T : Type 0} → Conditioner T → Type 0
Emptied e = (e.incoming_queue ≡ []) × (e.outgoing_queue ≡ [])

-- Conditioning is off, nothing waits, and there is no outage.
pub record Idle {T : Type 0} (e : Conditioner T) : Type 0 where
  pub off : e.control.config.enabled ≡ false
  pub emptied : Emptied e
  pub calm : e.outage_until ≡ none
  pub unasked : e.control.pending_outage ≡ none

module _ {T : Type 0} where
  sync-Emptied : (now : ℕ) (e : Conditioner T) → Emptied e → Emptied (sync now e)
  unfolding sync adopt show_outage
  sync-Emptied now e h = ground (arith, h)

  release-Emptied :
      (d : Direction) (e : Conditioner T)
      → Emptied e
      → Emptied (release d e).0 × ((release d e).1 ≡ [])
  unfolding release drain_loop
  release-Emptied incoming e h = ground (arith, h)
  release-Emptied outgoing e h = ground (arith, h)

  pub clear_session-Emptied : (e : Conditioner T) → Emptied (clear_session e)
  unfolding clear_session
  clear_session-Emptied e = (refl, refl)

  pub new-Emptied : (control : Control) → Emptied {T = T} (new control)
  unfolding new
  new-Emptied control = (refl, refl)

  pub drain_ready-Emptied :
      (d : Direction) (now : ℕ) (e : Conditioner T)
      → Emptied e
      → Emptied (drain_ready d now e).0 × ((drain_ready d now e).1 ≡ [])
  unfolding drain_ready
  drain_ready-Emptied d now e h = release-Emptied d (sync now e) (sync-Emptied now e h)

  sync-Idle : (now : ℕ) (e : Conditioner T) → Idle e → Idle (sync now e)
  unfolding sync adopt show_outage end_outage
  sync-Idle now e h = record {
    off = ground (arith, h.off);
    emptied = sync-Emptied now e h.emptied;
    calm = ground (arith, h.calm, h.unasked);
    unasked = ground (arith, h.unasked);
  }

  release-Idle : (d : Direction) (e : Conditioner T) → Idle e → Idle (release d e).0
  unfolding release drain_loop
  release-Idle incoming e h = record {
    off = h.off;
    emptied = (release-Emptied incoming e h.emptied).0;
    calm = h.calm;
    unasked = h.unasked;
  }
  release-Idle outgoing e h = record {
    off = h.off;
    emptied = (release-Emptied outgoing e h.emptied).0;
    calm = h.calm;
    unasked = h.unasked;
  }

  pub drain_ready-Idle :
      (d : Direction) (now : ℕ) (e : Conditioner T) → Idle e → Idle (drain_ready d now e).0
  unfolding drain_ready
  drain_ready-Idle d now e h = release-Idle d (sync now e) (sync-Idle now e h)

  accept-Idle :
      (fl : F64) (d : Direction) (payload : T) (bytes : ℕ) (e : Conditioner T)
      → Idle e
      → accept fl d payload bytes e ≡ (e, some payload)
  unfolding accept
  accept-Idle fl d payload bytes e h = ground (arith, h.calm, h.off)

  -- An idle engine hands every packet back and stays idle.
  pub enqueue-Idle :
      (fl : F64) (d : Direction) (now : ℕ) (payload : T) (bytes : ℕ) (e : Conditioner T)
      → Idle e
      → Idle (enqueue fl d now payload bytes e).0
        × ((enqueue fl d now payload bytes e).1 ≡ some payload)
  unfolding enqueue
  enqueue-Idle fl d now payload bytes e h =
      let quiet = sync-Idle now e h in
      rw (accept-Idle fl d payload bytes (sync now e) quiet) (quiet, refl)

  pub clear_session-Idle :
      (e : Conditioner T) → e.control.config.enabled ≡ false → Idle (clear_session e)
  unfolding clear_session
  clear_session-Idle e h = record { off = h; emptied = (refl, refl); calm = refl; unasked = refl }

  pub new-Idle : (control : Control) → control.config.enabled ≡ false → Idle {T = T} (new control)
  unfolding new
  new-Idle control h = record { off = h; emptied = (refl, refl); calm = refl; unasked = refl }
