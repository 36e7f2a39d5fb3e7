-- ===== src/Conditioner/Engine/Safety.antt =====
-- src/conditioner.rs: what holds of a conditioner after any history of calls.
use renet_cross.Prelude.{
  ℕ, ◌+◌, ◌≤◌, ◌<◌, max, ◌≡◌, refl, ◌∙◌, ap, ◌⊎◌, inl, inr, ◌≢◌, false, ◌==◌, ==_iff, Bool-cases,
  List, [], ◌∷◌, map, length, All, ok, arith, u64_mod,
}
use renet_cross.Float.{F64}
use renet_cross.Conditioner.{
  Config, InRange, Direction, incoming, outgoing, Control, configure, validate_cases, configure-ok,
  configure-err, new_handle,
}
use renet_cross.Conditioner.Engine.{
  Conditioner, queue, sync, enqueue, drain_ready, clear_session, new, release,
}
use renet_cross.Conditioner.Engine.Queue.{due_by, due_after, drain_loop-due}
use renet_cross.Conditioner.Engine.Invariant.{
  Synced, Tracked, sync-Synced, accept-Synced, release-Synced, word_of, gap_of, ranged_of,
  Behind-configured,
}
use renet_cross.Conditioner.Engine.Runs.{
  Call, configures, outages, resets, enqueues, drains, clears, CallInRange, step, run,
}

new_handle_fresh :
    (c : Config) (control : Control)
    → new_handle c ≡ ok control
    → (control.config ≡ c) × (control.revision ≡ 0)
unfolding new_handle
new_handle_fresh c control e = ground arith

module _ (fl : F64) {T : Type 0} where
  configure-Tracked :
      (n : ℕ) (c : Config) (s : Conditioner T)
      → InRange c
      → Tracked n s
      → (m : ℕ) × (m ≤ n + 1) × Tracked m (record s { control = (configure c s.control).0 })
  configure-Tracked n c s r v = elim (validate_cases c) [
    | inl good ↦
        rw (configure-ok c s.control good) (n + 1, omega arith, inr (Behind-configured n s c r v))
    | inr bad ↦ rw (configure-err c s.control bad) (n, omega arith, v)
  ]

  pub step-Tracked :
      (n : ℕ) (c : Call T) (s : Conditioner T)
      → n < u64_mod
      → CallInRange c
      → Tracked n s
      → (m : ℕ) × (m ≤ n + 1) × Tracked m (step fl c s).0
  unfolding step enqueue drain_ready clear_session
  step-Tracked n (configures c) s h r v = configure-Tracked n c s r v
  step-Tracked n (outages duration) s h r v = (
    n + 1,
    omega arith,
    inr (record {
      ranged = ranged_of n s v;
      positive = omega arith;
      word = word_of n s v;
      gap = omega (arith, gap_of n s v);
      incoming_emptied = (refl, refl);
      outgoing_emptied = (refl, refl);
    }),
  )
  step-Tracked n resets s h r v = (
    n + 1,
    omega arith,
    inr (record {
      ranged = ranged_of n s v;
      positive = omega arith;
      word = word_of n s v;
      gap = omega (arith, gap_of n s v);
      incoming_emptied = (refl, refl);
      outgoing_emptied = (refl, refl);
    }),
  )
  step-Tracked n (enqueues d now payload bytes) s h r v =
      (0, omega arith, inl (refl, accept-Synced fl d payload bytes _ (sync-Synced now n s h v)))
  step-Tracked n (drains d now) s h r v =
      (0, omega arith, inl (refl, release-Synced d _ (sync-Synced now n s h v)))
  step-Tracked n clears s h r v = (
    n + 1,
    omega arith,
    inr (record {
      ranged = ranged_of n s v;
      positive = omega arith;
      word = word_of n s v;
      gap = omega (arith, gap_of n s v);
      incoming_emptied = (refl, refl);
      outgoing_emptied = (refl, refl);
    }),
  )

  run-Tracked :
      (n : ℕ) (cs : List (Call T)) (s : Conditioner T)
      → n + length cs < u64_mod
      → All CallInRange cs
      → Tracked n s
      → (m : ℕ) × (m ≤ n + length cs) × Tracked m (run fl cs s).0
  unfolding run
  run-Tracked n [] s h r v = (n, omega arith, v)
  run-Tracked n (c ∷ cs) s h r v =
      let (m, le, t) = step-Tracked n c s (omega arith) r.0 v in
      let (k, le', t') = run-Tracked m cs (step fl c s).0 (omega (arith, le)) r.1 t in
      (k, omega (arith, le, le'), t')

  pub new-Tracked :
      (c : Config) (control : Control)
      → InRange c
      → new_handle c ≡ ok control
      → Tracked 2 (new {T = T} control)
  unfolding new
  new-Tracked c control r e =
      let (same, fresh) = new_handle_fresh c control e in
      inr (record {
        ranged = record {
          packets_fit = ground (arith, same, r.packets_fit);
          bytes_fit = ground (arith, same, r.bytes_fit);
        };
        positive = omega arith;
        word = omega arith;
        gap = omega (arith, fresh);
        incoming_emptied = (refl, refl);
        outgoing_emptied = (refl, refl);
      })

  -- After any history of fewer than 2^64 - 2 calls on a new handle and the engine behind it, once
  -- the engine polls (here by a drain) the two agree: in both directions the counters equal the
  -- queue's packets and bytes, the queue is ordered by due time, it is within the configured limits
  -- on packets and bytes, and it is empty while an outage lasts.
  pub drain_ready-Synced :
      (c : Config) (control : Control) (cs : List (Call T)) (d : Direction) (now : ℕ)
      → InRange c
      → new_handle c ≡ ok control
      → All CallInRange cs
      → 2 + length cs < u64_mod
      → Synced (drain_ready d now (run fl cs (new control)).0).0
  unfolding drain_ready
  drain_ready-Synced c control cs d now r e rs h =
      let (m, le, t) = run-Tracked 2 cs (new control) h rs (new-Tracked c control r e) in
      release-Synced d _ (sync-Synced now m _ (omega (arith, le)) t)

module _ {T : Type 0} where
  -- A poll that finds no new settings leaves the queues as they are ...
  sync-kept :
      (now : ℕ) (d : Direction) (s : Conditioner T)
      → s.revision ≡ s.control.revision
      → queue (sync now s) d ≡ queue s d
  unfolding sync
  sync-kept now incoming s same = ground (arith, same)
  sync-kept now outgoing s same = ground (arith, same)

  -- ... and one that finds new settings empties them.
  sync-emptied :
      (now : ℕ) (d : Direction) (s : Conditioner T)
      → (s.revision == s.control.revision) ≡ false
      → queue (sync now s) d ≡ []
  unfolding sync
  sync-emptied now incoming s other = ground (arith, other)
  sync-emptied now outgoing s other = ground (arith, other)

  sync-time : (now : ℕ) (s : Conditioner T) → (sync now s).last_now ≡ max now s.last_now
  unfolding sync
  sync-time now s = ground arith

  drain_ready-polled :
      (n : ℕ) (d other : Direction) (now : ℕ) (s : Conditioner T)
      → n < u64_mod
      → Tracked n s
      → other ≢ d
      → let q = queue (sync now s) d in
        let t = (sync now s).last_now in
        ((drain_ready d now s).1 ≡ map (λ p. p.payload) (due_by t q))
        × (queue (drain_ready d now s).0 d ≡ due_after t q)
        × (queue (drain_ready d now s).0 other ≡ queue (sync now s) other)
  unfolding drain_ready release
  drain_ready-polled n incoming other now s h v ne =
      let sorted = (sync-Synced now n s h v).incoming_lane.sorted in
      let facts = drain_loop-due (sync now s).last_now (queue (sync now s) incoming) _ sorted in
      (facts.0, facts.1, ground arith)
  drain_ready-polled n outgoing other now s h v ne =
      let sorted = (sync-Synced now n s h v).outgoing_lane.sorted in
      let facts = drain_loop-due (sync now s).last_now (queue (sync now s) outgoing) _ sorted in
      (facts.0, facts.1, ground arith)

  -- A drain of one direction at `now`, in a state as any history of calls leaves it, at most `n`
  -- revisions behind its handle. Where the settings have not changed since the last poll, it hands over
  -- the payloads of exactly the packets due by then, in order of delivery, keeps exactly the later ones
  -- queued, and leaves the other direction's queue alone. Where they have changed, it hands over
  -- nothing, and both queues are empty afterwards. A clock that went back counts as standing still.
  pub drain_ready-due :
      (n : ℕ) (d other : Direction) (now : ℕ) (s : Conditioner T)
      → n < u64_mod
      → Tracked n s
      → other ≢ d
      → let t = max now s.last_now in
        let r = drain_ready d now s in
        ((s.revision ≡ s.control.revision)
          × (r.1 ≡ map (λ p. p.payload) (due_by t (queue s d)))
          × (queue r.0 d ≡ due_after t (queue s d))
          × (queue r.0 other ≡ queue s other))
        ⊎ ((s.revision ≢ s.control.revision)
            × (r.1 ≡ [])
            × (queue r.0 d ≡ [])
            × (queue r.0 other ≡ []))
  drain_ready-due n d other now s h v ne =
      let (handed, left, same) = drain_ready-polled n d other now s h v ne in
      elim (Bool-cases (s.revision == s.control.revision)) [
        | inl e ↦
            let kept : s.revision ≡ s.control.revision = (==_iff _ _).0 e in
            let q = sync-kept now d s kept in
            inl (
              kept,
              handed ∙ rw (sync-time now s, q) refl,
              left ∙ rw (sync-time now s, q) refl,
              same ∙ sync-kept now other s kept,
            )
        | inr e ↦
            let q = sync-emptied now d s e in
            inr (
              λ k. ground (arith, e, k),
              handed ∙ ap (λ x. map (λ p. p.payload) (due_by (sync now s).last_now x)) q,
              left ∙ ap (λ x. due_after (sync now s).last_now x) q,
              same ∙ sync-emptied now other s e,
            )
      ]
