-- ===== src/Prelude/Blind.antt =====
-- Steps that do not see a part of the state: what `strip` forgets changes neither their results nor
-- the rest of the state, while `I` holds.
use mathlib.Core.List.{List, [], ◌∷◌}
use mathlib.Core.Path.{◌≡◌, refl, sym, ap, ◌∙◌}
use mathlib.Core.Logic.{inl, inr}
use mathlib.Core.Bool.{Bool}
use renet_cross.Prelude.Tests.{Result, ok, err, if◌then◌else◌, Bool-cases}
use renet_cross.Prelude.Steps.{and_then, for_each, each, lift_err}

-- A state and the result of a step, without the part.
abbrev pub stripped : {S R : Type 0} → (S → S) → S × R → S × R
stripped strip r = (strip r.0, r.1)

module _ {S : Type 0} (I : S → Type 0) (strip : S → S) where
  -- A step with a result ...
  abbrev pub Blind : {R : Type 0} → (S → S × R) → Type 0
  Blind f = (s : S) → I s → I (f s).0 × (stripped strip (f s) ≡ f (strip s))

  -- ... and one without.
  abbrev pub Blindly : (S → S) → Type 0
  Blindly f = (s : S) → I s → I (f s) × (strip (f s) ≡ f (strip s))

  stripped-and_then :
      {E : Type 0} (r : S × Result E (Unit {0})) (rest : S → S × Result E (Unit {0}))
      → Blind rest
      → I r.0
      → I (and_then r rest).0
        × (stripped strip (and_then r rest) ≡ and_then (stripped strip r) rest)
  stripped-and_then (s, ok tt) rest b i = b s i
  stripped-and_then (s, err e) rest b i = (i, refl)

  pub and_then-Blind :
      {E : Type 0} (f rest : S → S × Result E (Unit {0}))
      → Blind f
      → Blind rest
      → Blind (λ s. and_then (f s) rest)
  and_then-Blind f rest a b s i =
      let (kept, same) = a s i in
      let (kept', same') = stripped-and_then (f s) rest b kept in
      (kept', same' ∙ ap (λ r. and_then r rest) same)

  pub for_each-Blind :
      {A E : Type 0} (step : A → S → S × Result E (Unit {0})) (xs : List A)
      → ((x : A) → Blind (step x))
      → Blind (for_each step xs)
  unfolding for_each
  for_each-Blind step [] b s i = (i, refl)
  for_each-Blind step (x ∷ xs) b s i =
      and_then-Blind (step x) (for_each step xs) (b x) (for_each-Blind step xs b) s i

  pub each-Blindly :
      {A : Type 0} (step : A → S → S) (xs : List A)
      → ((x : A) → Blindly (step x))
      → Blindly (each step xs)
  unfolding each
  each-Blindly step [] b s i = (i, refl)
  each-Blindly step (x ∷ xs) b s i =
      let (kept, same) = b x s i in
      let (kept', same') = each-Blindly step xs b (step x s) kept in
      (kept', same' ∙ ap (each step xs) same)

  pub lift_err-Blind :
      {E F : Type 0} (g : E → F) (f : S → S × Result E (Unit {0}))
      → Blind f
      → Blind (λ s. lift_err g (f s))
  lift_err-Blind g f b s i = let (kept, same) = b s i in (kept, ap (lift_err g) same)

  pub after-Blind :
      {R : Type 0} (f : S → S) (g : S → S × R) → Blindly f → Blind g → Blind (λ s. g (f s))
  after-Blind f g a b s i =
      let (kept, same) = a s i in let (kept', same') = b (f s) kept in (kept', same' ∙ ap g same)

  pub bind-Blind :
      {A R : Type 0} (f : S → S × A) (g : A → S → S × R)
      → Blind f
      → ((a : A) → Blind (g a))
      → Blind (λ s. g (f s).1 (f s).0)
  bind-Blind f g a b s i =
      let (kept, same) = a s i in
      let (kept', same') = b (f s).1 (f s).0 kept in (kept', same' ∙ ap (λ r. g r.1 r.0) same)

  pub bind-Blindly :
      {A : Type 0} (f : S → S × A) (g : A → S → S)
      → Blind f
      → ((a : A) → Blindly (g a))
      → Blindly (λ s. g (f s).1 (f s).0)
  bind-Blindly f g a b s i =
      let (kept, same) = a s i in
      let (kept', same') = b (f s).1 (f s).0 kept in (kept', same' ∙ ap (λ r. g r.1 r.0) same)

  pub if-Blind :
      {R : Type 0} (test : S → Bool) (f g : S → S × R)
      → ((s : S) → test s ≡ test (strip s))
      → Blind f
      → Blind g
      → Blind (λ s. if test s then f s else g s)
  if-Blind test f g t a b s i = elim (Bool-cases (test s)) [
    | inl e ↦ rw (e, sym (t s) ∙ e) (a s i)
    | inr e ↦ rw (e, sym (t s) ∙ e) (b s i)
  ]

  pub if-Blindly :
      (test : S → Bool) (f g : S → S)
      → ((s : S) → test s ≡ test (strip s))
      → Blindly f
      → Blindly g
      → Blindly (λ s. if test s then f s else g s)
  if-Blindly test f g t a b s i = elim (Bool-cases (test s)) [
    | inl e ↦ rw (e, sym (t s) ∙ e) (a s i)
    | inr e ↦ rw (e, sym (t s) ∙ e) (b s i)
  ]

  pub skip-Blind : {R : Type 0} (r : R) → Blind (λ s. (s, r))
  skip-Blind r s i = (i, refl)

  pub skip-Blindly : Blindly (λ s. s)
  skip-Blindly s i = (i, refl)

  pub compose-Blindly : (f g : S → S) → Blindly f → Blindly g → Blindly (λ s. g (f s))
  compose-Blindly f g a b s i =
      let (kept, same) = a s i in let (kept', same') = b (f s) kept in (kept', same' ∙ ap g same)
