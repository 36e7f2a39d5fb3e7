-- ===== src/Conditioner/Engine/Contents.antt =====
-- src/conditioner.rs: what is said of every packet that waits stays true of what waits and of what
-- is handed over.
use renet_cross.Prelude.{
  ℕ, zero, suc, inl, inr, Bool-cases, Option, none, some, List, [], ◌∷◌, All, if_cases, leb,
  is_some, not, arith,
}
use renet_cross.Float.{F64}
use renet_cross.Conditioner.{Direction, incoming, outgoing, DirectionStats}
use renet_cross.Conditioner.Engine.{
  Scheduled, Conditioner, update_stats, sync, adopt, show_outage, release, drain_loop, drain_ready,
  enqueue, accept, impair, admit, random, draw_delay, schedule, insert_at, count_loss, count_outage,
}
use renet_cross.Conditioner.Engine.Idle.{Emptied}

module _ {T : Type 0} (P : T → Type 0) where
  abbrev pub Waits : List (Scheduled T) → Type 0
  Waits = All (λ p. P p.payload)

  abbrev pub Contains : Conditioner T → Type 0
  Contains e = Waits e.incoming_queue × Waits e.outgoing_queue

  abbrev pub HandedBack : Option T → Type 0
  HandedBack none = Unit {0}
  HandedBack (some x) = P x

  pub Emptied-Contains : (e : Conditioner T) → Emptied e → Contains e
  Emptied-Contains e h = rw (h.0, h.1) (tt, tt)

  insert_at-Waits :
      (n : ℕ) (p : Scheduled T) (q : List (Scheduled T))
      → P p.payload
      → Waits q
      → Waits (insert_at n p q)
  unfolding insert_at
  insert_at-Waits zero p q h w = (h, w)
  insert_at-Waits (suc n) p [] h w = (h, tt)
  insert_at-Waits (suc n) p (r ∷ q) h w = (w.0, insert_at-Waits n p q h w.1)

  drain_loop-Waits :
      (now : ℕ) (q : List (Scheduled T)) (d : DirectionStats)
      → Waits q
      → Waits (drain_loop now q d).1 × All P (drain_loop now q d).0
  unfolding drain_loop
  drain_loop-Waits now [] d w = (tt, tt)
  drain_loop-Waits now (p ∷ q) d w = elim (Bool-cases (leb p.due now)) [
    | inl e ↦ let rest = drain_loop-Waits now q _ w.1 in rw e (rest.0, (w.0, rest.1))
    | inr e ↦ rw e (w, tt)
  ]

  sync-Contains : (now : ℕ) (e : Conditioner T) → Contains e → Contains (sync now e)
  unfolding sync adopt show_outage
  sync-Contains now e h = ground (arith, h)

  release-Contains :
      (d : Direction) (e : Conditioner T)
      → Contains e
      → Contains (release d e).0 × All P (release d e).1
  unfolding release
  release-Contains incoming e h =
      let r = drain_loop-Waits e.last_now e.incoming_queue _ h.0 in ((r.0, h.1), r.1)
  release-Contains outgoing e h =
      let r = drain_loop-Waits e.last_now e.outgoing_queue _ h.1 in ((h.0, r.0), r.1)

  pub drain_ready-Contains :
      (d : Direction) (now : ℕ) (e : Conditioner T)
      → Contains e
      → Contains (drain_ready d now e).0 × All P (drain_ready d now e).1
  unfolding drain_ready
  drain_ready-Contains d now e h = release-Contains d (sync now e) (sync-Contains now e h)

  admit-Contains :
      (delay : ℕ → ℕ × ℕ) (d : Direction) (payload : T) (bytes : ℕ) (e : Conditioner T)
      → P payload
      → Contains e
      → Contains (admit delay d payload bytes e)
  unfolding admit schedule
  admit-Contains delay incoming payload bytes e p h =
      if_cases Contains _ _ _ (λ _. h) (λ _. (insert_at-Waits _ _ _ p h.0, h.1))
  admit-Contains delay outgoing payload bytes e p h =
      if_cases Contains _ _ _ (λ _. h) (λ _. (h.0, insert_at-Waits _ _ _ p h.1))

  update_stats-Contains :
      (f : DirectionStats → DirectionStats) (d : Direction) (e : Conditioner T)
      → Contains e
      → Contains (update_stats f d e)
  update_stats-Contains f incoming e h = h
  update_stats-Contains f outgoing e h = h

  impair-Contains :
      (fl : F64) (d : Direction) (payload : T) (bytes : ℕ) (e : Conditioner T)
      → P payload
      → Contains e
      → Contains (impair fl d payload bytes e)
  unfolding impair
  impair-Contains fl d payload bytes e p h =
      let drawn : Conditioner T = record e { rng = (random fl e.rng).0 } in
      if_cases Contains (fl.lt (random fl e.rng).1 (fl.of_f32 e.control.config.packet_loss))
        (update_stats count_loss d drawn)
        (admit (draw_delay fl e.control.config) d payload bytes drawn)
        (λ _. update_stats-Contains count_loss d drawn h)
        (λ _. admit-Contains (draw_delay fl e.control.config) d payload bytes drawn p h)

  accept-Contains :
      (fl : F64) (d : Direction) (payload : T) (bytes : ℕ) (e : Conditioner T)
      → P payload
      → Contains e
      → Contains (accept fl d payload bytes e).0 × HandedBack (accept fl d payload bytes e).1
  unfolding accept
  accept-Contains fl d payload bytes e p h =
      if_cases {A = Conditioner T × Option T} (λ r. Contains r.0 × HandedBack r.1)
        (is_some e.outage_until) _ _ (λ _. (update_stats-Contains count_outage d e h, tt))
        (λ _.
          if_cases {A = Conditioner T × Option T} (λ r. Contains r.0 × HandedBack r.1)
            (not e.control.config.enabled) _ _ (λ _. (h, p))
            (λ _. (impair-Contains fl d payload bytes e p h, tt)))

  pub enqueue-Contains :
      (fl : F64) (d : Direction) (now : ℕ) (payload : T) (bytes : ℕ) (e : Conditioner T)
      → P payload
      → Contains e
      → Contains (enqueue fl d now payload bytes e).0
  unfolding enqueue
  enqueue-Contains fl d now payload bytes e p h =
      (accept-Contains fl d payload bytes (sync now e) p (sync-Contains now e h)).0
