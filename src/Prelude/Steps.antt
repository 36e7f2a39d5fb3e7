-- ===== src/Prelude/Steps.antt =====
-- Steps on a state that may fail: the next step runs on success only, and the state is kept either way.
use renet_cross.Prelude.Tests.{Result, ok, err, map_err}
use mathlib.Core.List.{List, [], ◌∷◌}
use mathlib.Core.Path.{◌≡◌, refl}

-- `step(...)?; rest`.
abbrev pub and_then :
    {S E : Type 0}
    → S × Result E (Unit {0})
    → (S → S × Result E (Unit {0}))
    → S × Result E (Unit {0})
and_then (s, ok tt) rest = rest s
and_then (s, err e) rest = (s, err e)

-- `for x in xs { step(x)?; }`.
unfoldable pub for_each :
    {A S E : Type 0} → (A → S → S × Result E (Unit {0})) → List A → S → S × Result E (Unit {0})
for_each step [] s = (s, ok tt)
for_each step (x ∷ xs) s = and_then (step x s) (for_each step xs)

-- `for x in xs { step(x); }`.
unfoldable pub each : {A S : Type 0} → (A → S → S) → List A → S → S
each step [] s = s
each step (x ∷ xs) s = each step xs (step x s)

-- The conversion of an error by `?`.
abbrev pub lift_err : {S E F : Type 0} → (E → F) → S × Result E (Unit {0}) → S × Result F (Unit {0})
lift_err f r = (r.0, map_err f r.1)

-- The error, if there is one, is as `Q` says.
abbrev pub Fails : {E : Type 0} → (E → Type 0) → Result E (Unit {0}) → Type 0
Fails Q (ok tt) = Unit {0}
Fails Q (err e) = Q e

module _ {S E : Type 0} where
  -- What holds of every failed first step, and of the rest after every other, holds of the outcome.
  pub and_then-cases :
      (P : S × Result E (Unit {0}) → Type 0) (r : S × Result E (Unit {0}))
      → (rest : S → S × Result E (Unit {0})) → ((e : E) → r.1 ≡ err e → P (r.0, err e))
      → (r.1 ≡ ok tt → P (rest r.0))
      → P (and_then r rest)
  and_then-cases P (s, ok tt) rest f g = g refl
  and_then-cases P (s, err e) rest f g = f e refl

  -- What every step keeps, all of them keep.
  pub and_then-keeps {κ} :
      (P : S → Type κ) (r : S × Result E (Unit {0})) (rest : S → S × Result E (Unit {0}))
      → P r.0
      → ((s : S) → P s → P (rest s).0)
      → P (and_then r rest).0
  and_then-keeps P (s, ok tt) rest p keep = keep s p
  and_then-keeps P (s, err e) rest p keep = p

  pub for_each-keeps {κ} :
      {A : Type 0} (P : S → Type κ) (step : A → S → S × Result E (Unit {0})) (xs : List A) (s : S)
      → P s
      → ((x : A) (t : S) → P t → P (step x t).0)
      → P (for_each step xs s).0
  unfolding for_each
  for_each-keeps P step [] s p keep = p
  for_each-keeps P step (x ∷ xs) s p keep =
      and_then-keeps P (step x s) (for_each step xs) (keep x s p)
        (λ t q. for_each-keeps P step xs t q keep)

  pub and_then-Fails :
      (Q : E → Type 0) (r : S × Result E (Unit {0})) (rest : S → S × Result E (Unit {0}))
      → Fails Q r.1
      → ((s : S) → Fails Q (rest s).1)
      → Fails Q (and_then r rest).1
  and_then-Fails Q (s, ok tt) rest q h = h s
  and_then-Fails Q (s, err e) rest q h = q

  pub for_each-Fails :
      {A : Type 0} (Q : E → Type 0) (step : A → S → S × Result E (Unit {0})) (xs : List A) (s : S)
      → ((x : A) (t : S) → Fails Q (step x t).1)
      → Fails Q (for_each step xs s).1
  unfolding for_each
  for_each-Fails Q step [] s h = tt
  for_each-Fails Q step (x ∷ xs) s h =
      and_then-Fails Q (step x s) (for_each step xs) (h x s) (λ t. for_each-Fails Q step xs t h)

pub each-keeps {κ} :
    {A S : Type 0} (P : S → Type κ) (step : A → S → S) (xs : List A) (s : S)
    → P s
    → ((x : A) (t : S) → P t → P (step x t))
    → P (each step xs s)
unfolding each
each-keeps P step [] s p keep = p
each-keeps P step (x ∷ xs) s p keep = each-keeps P step xs (step x s) (keep x s p) keep
