-- ===== src/UdpIo/Budget.antt =====
-- src/udp_io.rs: how often the loop receives, and why it ends.
use renet_cross.Prelude.{
  ℕ, zero, suc, ◌≤◌, ◌≡◌, refl, sym, ap, ◌∙◌, ◌⊎◌, inl, inr, List, [], ◌∷◌, ◌++◌, length, All,
  Result, ok, err, arith, length-append,
}
use mathlib.Core.List.{append_assoc}
use renet_cross.Prelude.Blind.{Blind, stripped}
use renet_cross.Prelude.Steps.{Fails}
use renet_cross.UdpIo.{
  IoError, would_block, interrupted, connection_reset, other_error, addr_not_available,
  network_unreachable, host_unreachable, connection_aborted, connection_refused, timed_out,
  not_connected, go_on, stop, fail, verdict, receive_with_budget,
}

-- The errors of the socket that a transport reports: neither a full buffer nor an interruption.
abbrev pub IsReported : IoError → Type 0
IsReported would_block = ⊥
IsReported interrupted = ⊥
IsReported _ = Unit {0}

abbrev pub Outcome : Type 0
Outcome = Result IoError (Unit {0})

-- The operation with a log of its outcomes, the newest first.
pub logged : {S : Type 0} → (S → S × Outcome) → S × List Outcome → (S × List Outcome) × Outcome
logged receive (s, log) = let (s', outcome) = receive s in ((s', outcome ∷ log), outcome)

-- An attempt after which the loop goes on: a datagram, or one of the two errors that are retried.
abbrev pub IsRetried : Outcome → Type 0
IsRetried (ok tt) = Unit {0}
IsRetried (err interrupted) = Unit {0}
IsRetried (err connection_reset) = Unit {0}
IsRetried (err _) = ⊥

-- An error that is neither retried nor the sign of an empty socket.
abbrev pub IsFatal : Outcome → Type 0
IsFatal (ok tt) = ⊥
IsFatal (err would_block) = ⊥
IsFatal (err interrupted) = ⊥
IsFatal (err connection_reset) = ⊥
IsFatal (err _) = Unit {0}

-- Why a loop with this budget, these attempts (newest first) and this result ended: the budget is
-- used up by attempts that all go on; or the last attempt found nothing; or it failed.
pub data Ended (budget : ℕ) (attempts : List Outcome) (result : Outcome) : Type 0 where
  spent :
      length attempts ≡ budget
      → All IsRetried attempts
      → result ≡ ok tt
      → Ended budget attempts result
  drained :
      (last : Outcome) (before : List Outcome)
      → attempts ≡ last ∷ before
      → length attempts ≤ budget
      → All IsRetried before
      → last ≡ err would_block
      → result ≡ ok tt
      → Ended budget attempts result
  failed :
      (last : Outcome) (before : List Outcome)
      → attempts ≡ last ∷ before
      → length attempts ≤ budget
      → All IsRetried before
      → IsFatal last
      → result ≡ last
      → Ended budget attempts result

verdict_cases : (o : Outcome) → (verdict o ≡ go_on) ⊎ (o ≡ err would_block) ⊎ (verdict o ≡ fail)
unfolding verdict
verdict_cases o = ground arith

verdict-IsRetried : (o : Outcome) → verdict o ≡ go_on → IsRetried o
unfolding verdict
verdict-IsRetried (ok tt) h = tt
verdict-IsRetried (err would_block) h = cc
verdict-IsRetried (err interrupted) h = tt
verdict-IsRetried (err connection_reset) h = tt
verdict-IsRetried (err addr_not_available) h = cc
verdict-IsRetried (err network_unreachable) h = cc
verdict-IsRetried (err host_unreachable) h = cc
verdict-IsRetried (err connection_aborted) h = cc
verdict-IsRetried (err connection_refused) h = cc
verdict-IsRetried (err timed_out) h = cc
verdict-IsRetried (err not_connected) h = cc
verdict-IsRetried (err (other_error kind)) h = cc

verdict-IsFatal : (o : Outcome) → verdict o ≡ fail → IsFatal o
unfolding verdict
verdict-IsFatal (ok tt) h = cc
verdict-IsFatal (err would_block) h = cc
verdict-IsFatal (err interrupted) h = cc
verdict-IsFatal (err connection_reset) h = cc
verdict-IsFatal (err addr_not_available) h = tt
verdict-IsFatal (err network_unreachable) h = tt
verdict-IsFatal (err host_unreachable) h = tt
verdict-IsFatal (err connection_aborted) h = tt
verdict-IsFatal (err connection_refused) h = tt
verdict-IsFatal (err timed_out) h = tt
verdict-IsFatal (err not_connected) h = tt
verdict-IsFatal (err (other_error kind)) h = tt

All-append : (xs ys : List Outcome) → All IsRetried xs → All IsRetried ys → All IsRetried (xs ++ ys)
All-append [] ys h k = k
All-append (x ∷ xs) ys h k = (h.0, All-append xs ys h.1 k)

-- One more attempt in front that went on.
Ended-snoc :
    (n : ℕ) (attempts : List Outcome) (o result : Outcome)
    → IsRetried o
    → Ended n attempts result
    → Ended (suc n) (attempts ++ o ∷ []) result
Ended-snoc n attempts o result h (spent l a r) =
    spent (omega (arith, l, length-append attempts (o ∷ []))) (All-append attempts _ a (h, tt)) r
Ended-snoc n attempts o result h (drained last before e l a b r) =
    drained last (before ++ o ∷ []) (rw e refl) (omega (arith, l, length-append attempts (o ∷ [])))
      (All-append before _ a (h, tt)) b r
Ended-snoc n attempts o result h (failed last before e l a b r) =
    failed last (before ++ o ∷ []) (rw e refl) (omega (arith, l, length-append attempts (o ∷ [])))
      (All-append before _ a (h, tt)) b r

module _ {S : Type 0} (receive : S → S × Outcome) where
  -- With any operation, the loop makes a list of attempts of at most the budget, and ends for one of
  -- three reasons: datagrams, interruptions and resets of the connection use up the budget and end
  -- well, an empty socket ends it well at once, and any other error ends it at once and is returned.
  pub receive_with_budget-Ended :
      (budget : ℕ) (s : S) (log : List Outcome)
      → let r = receive_with_budget budget (logged receive) (s, log) in
        (attempts : List Outcome) × ((r.0).1 ≡ attempts ++ log) × Ended budget attempts r.1
  unfolding receive_with_budget logged verdict
  receive_with_budget-Ended zero s log = ([], refl, spent refl tt refl)
  receive_with_budget-Ended (suc n) s log =
      let o = (receive s).1 in
      elim (verdict_cases o) [
        | inl on ↦
            let (attempts, same, ended) = receive_with_budget-Ended n (receive s).0 (o ∷ log) in
            (
              attempts ++ o ∷ [],
              rw (on, receive_with_budget) (same ∙ sym (append_assoc attempts (o ∷ []) log)),
              rw (on, receive_with_budget)
                  (Ended-snoc n attempts o _ (verdict-IsRetried o on) ended),
            )
        | inr (inl empty) ↦
            let halts : verdict o ≡ stop = rw empty refl in
            (
              o ∷ [],
              rw (halts, receive_with_budget) refl,
              rw (halts, receive_with_budget) (drained o [] refl (omega arith) tt empty refl),
            )
        | inr (inr fatal) ↦ (
          o ∷ [],
          rw (fatal, receive_with_budget) refl,
          rw (fatal, receive_with_budget)
              (failed o [] refl (omega arith) tt (verdict-IsFatal o fatal) refl),
        )
      ]

  fatal_error : (o : Outcome) → verdict o ≡ fail → Fails IsReported o
  unfolding verdict
  fatal_error (ok tt) h = tt
  fatal_error (err would_block) h = cc
  fatal_error (err interrupted) h = cc
  fatal_error (err connection_reset) h = tt
  fatal_error (err addr_not_available) h = tt
  fatal_error (err network_unreachable) h = tt
  fatal_error (err host_unreachable) h = tt
  fatal_error (err connection_aborted) h = tt
  fatal_error (err connection_refused) h = tt
  fatal_error (err timed_out) h = tt
  fatal_error (err not_connected) h = tt
  fatal_error (err (other_error kind)) h = tt

  -- The errors of the loop are errors that a transport reports.
  pub receive_with_budget-Fails :
      (budget : ℕ) (s : S) → Fails IsReported (receive_with_budget budget receive s).1
  unfolding receive_with_budget
  receive_with_budget-Fails zero s = tt
  receive_with_budget-Fails (suc n) s = elim (verdict_cases (receive s).1) [
    | inl on ↦ rw (on, receive_with_budget) (receive_with_budget-Fails n (receive s).0)
    | inr (inl empty) ↦
        let halts : verdict (receive s).1 ≡ stop = rw empty refl in
        rw (halts, receive_with_budget) tt
    | inr (inr fatal) ↦ rw (fatal, receive_with_budget) (fatal_error (receive s).1 fatal)
  ]

  -- What every attempt keeps, the loop keeps.
  pub receive_with_budget-keeps :
      (P : S → Type 0)
      → ((s : S) → P s → P (receive s).0)
      → (budget : ℕ) (s : S) → P s
      → P (receive_with_budget budget receive s).0
  unfolding receive_with_budget
  receive_with_budget-keeps P keep zero s h = h
  receive_with_budget-keeps P keep (suc n) s h = elim (verdict_cases (receive s).1) [
    | inl on ↦
        rw (on, receive_with_budget) (receive_with_budget-keeps P keep n (receive s).0 (keep s h))
    | inr (inl empty) ↦
        let halts : verdict (receive s).1 ≡ stop = rw empty refl in
        rw (halts, receive_with_budget) (keep s h)
    | inr (inr fatal) ↦ rw (fatal, receive_with_budget) (keep s h)
  ]

-- The loop is blind to what every attempt is blind to.
pub receive_with_budget-Blind :
    {S : Type 0} (I : S → Type 0) (strip : S → S) (receive : S → S × Outcome)
    → Blind I strip receive
    → (budget : ℕ) → Blind I strip (receive_with_budget budget receive)
unfolding receive_with_budget
receive_with_budget-Blind I strip receive b zero s i = (i, refl)
receive_with_budget-Blind I strip receive b (suc n) s i =
    let (kept, same) = b s i in
    let (kept', same') = receive_with_budget-Blind I strip receive b n (receive s).0 kept in
    let verdicts : verdict (receive s).1 ≡ verdict (receive (strip s)).1 =
      ap (λ r. verdict r.1) same in
    let rest : stripped strip (receive_with_budget n receive (receive s).0)
        ≡ receive_with_budget n receive (receive (strip s)).0 =
      same' ∙ ap (λ r. receive_with_budget n receive r.0) same in
    elim (verdict_cases (receive s).1) [
      | inl on ↦ rw (on, sym verdicts ∙ on, receive_with_budget) (kept', rest)
      | inr (inl empty) ↦
          let halts : verdict (receive s).1 ≡ stop = rw empty refl in
          rw (halts, sym verdicts ∙ halts, receive_with_budget) (kept, ap (λ r. (r.0, ok tt)) same)
      | inr (inr fatal) ↦ rw (fatal, sym verdicts ∙ fatal, receive_with_budget) (kept, same)
    ]
