-- ===== src/Prelude/Assoc.antt =====
-- Hash maps and sets as association lists over a key with decidable equality. The program never
-- depends on the order of a hash map's entries where this representation is used.
use Prim.Native.Nat.{◌+◌, ◌≤◌}
use mathlib.Core.Path.{◌≡◌, refl, subst}
use mathlib.Core.Logic.{◌≢◌, inl, inr, ite, if_pos, if_neg}
use mathlib.Core.Bool.{Bool, true}
use mathlib.Core.List.{List, [], ◌∷◌}
use mathlib.Core.Option.{Option, none, some}
use native.Mathlib.Omega.{arith}
use renet_cross.Prelude.Tests.{if◌then◌else◌, is_some, Option-cases}
use renet_cross.Prelude.Lists.{length, All}

module _ {ℓ} {K V : Type ℓ} (dec : Discrete K) where
  -- `HashMap::get`.
  unfoldable pub get : K → List (K × V) → Option V
  get k [] = none
  get k ((j, v) ∷ m) = ite (dec j k) (some v) (get k m)

  -- `HashMap::contains_key`.
  abbrev pub contains_key : K → List (K × V) → Bool
  contains_key k m = is_some (get k m)

  -- `HashMap::insert`: the old entry is overwritten in place.
  unfoldable pub insert : K → V → List (K × V) → List (K × V)
  insert k v [] = (k, v) ∷ []
  insert k v ((j, w) ∷ m) = ite (dec j k) ((j, v) ∷ m) ((j, w) ∷ insert k v m)

  -- `HashMap::remove`, without the value.
  unfoldable pub remove : K → List (K × V) → List (K × V)
  remove k [] = []
  remove k ((j, v) ∷ m) = ite (dec j k) (remove k m) ((j, v) ∷ remove k m)

  -- `HashMap::retain`.
  unfoldable pub retain : (K → V → Bool) → List (K × V) → List (K × V)
  retain p [] = []
  retain p ((j, v) ∷ m) = if p j v then (j, v) ∷ retain p m else retain p m

  pub get-insert_self : (k : K) (v : V) (m : List (K × V)) → get k (insert k v m) ≡ some v
  unfolding get insert
  get-insert_self k v [] = ground arith
  get-insert_self k v ((j, w) ∷ m) = ground (arith, get-insert_self k v m)

  pub get-insert_ne : (k j : K) (v : V) (m : List (K × V)) → j ≢ k → get j (insert k v m) ≡ get j m
  unfolding get insert
  get-insert_ne k j v [] h = ground arith
  get-insert_ne k j v ((i, w) ∷ m) h = ground (arith, get-insert_ne k j v m h)

  pub get-remove_self : (k : K) (m : List (K × V)) → get k (remove k m) ≡ none
  unfolding get remove
  get-remove_self k [] = refl
  get-remove_self k ((j, w) ∷ m) = ground (arith, get-remove_self k m)

  pub get-remove_ne : (k j : K) (m : List (K × V)) → j ≢ k → get j (remove k m) ≡ get j m
  unfolding get remove
  get-remove_ne k j [] h = refl
  get-remove_ne k j ((i, w) ∷ m) h = ground (arith, get-remove_ne k j m h)

  pub length-remove-le : (k : K) (m : List (K × V)) → length (remove k m) ≤ length m
  unfolding remove
  length-remove-le k [] = omega arith
  length-remove-le k ((j, w) ∷ m) = ground (arith, length-remove-le k m)

  pub length-retain-le : (p : K → V → Bool) (m : List (K × V)) → length (retain p m) ≤ length m
  unfolding retain
  length-retain-le p [] = omega arith
  length-retain-le p ((j, w) ∷ m) = ground (arith, length-retain-le p m)

  -- An insertion adds one entry for a new key, and none for an old one.
  pub length-insert :
      (k : K) (v : V) (m : List (K × V))
      → length (insert k v m) ≡ (if contains_key k m then length m else length m + 1)
  unfolding get insert
  length-insert k v [] = omega arith
  length-insert k v ((j, w) ∷ m) = ground (arith, length-insert k v m)

  -- What holds of the value and of all entries holds of all entries after the insertion.
  pub All-insert {κ} :
      (P : K × V → Type κ) (k : K) (v : V) (m : List (K × V))
      → ((j : K) → P (j, v))
      → All P m
      → All P (insert k v m)
  unfolding insert
  All-insert P k v [] h a = (h k, tt)
  All-insert P k v ((j, w) ∷ m) h a = elim (dec j k) [
    | yes e ↦ rw (if_pos _ e) (h j, a.1)
    | no ne ↦ rw (if_neg _ ne) (a.0, All-insert P k v m h a.1)
  ]

  pub get-All {κ} :
      (P : K × V → Type κ) (k : K) (v : V) (m : List (K × V))
      → ((j : K) → P (j, v) → P (k, v))
      → get k m ≡ some v
      → All P m
      → P (k, v)
  unfolding get
  get-All P k v [] h e a = cc
  get-All P k v ((j, w) ∷ m) h e a = elim (dec j k) [
    | yes hit ↦ h j (subst (λ x. P (j, x)) (ground arith) a.0)
    | no miss ↦ get-All P k v m h (ground arith) a.1
  ]

  -- An entry that is left after `retain` passed the test ...
  pub get-retain_passed :
      (p : K → V → Bool) (k : K) (v : V) (m : List (K × V))
      → get k (retain p m) ≡ some v
      → p k v ≡ true
  unfolding get retain
  get-retain_passed p k v [] e = cc
  get-retain_passed p k v ((j, w) ∷ m) e = ground (arith, get-retain_passed p k v m)

  -- ... its key had an entry before ...
  pub get-retain_key :
      (p : K → V → Bool) (k : K) (m : List (K × V))
      → contains_key k (retain p m) ≡ true
      → contains_key k m ≡ true
  unfolding get retain
  get-retain_key p k [] e = e
  get-retain_key p k ((j, w) ∷ m) e = ground (arith, get-retain_key p k m)

  -- ... and an entry that passes the test is left.
  pub get-retain_kept :
      (p : K → V → Bool) (k : K) (v : V) (m : List (K × V))
      → get k m ≡ some v
      → p k v ≡ true
      → get k (retain p m) ≡ some v
  unfolding get retain
  get-retain_kept p k v [] e h = e
  get-retain_kept p k v ((j, w) ∷ m) e h = ground (arith, get-retain_kept p k v m)

  pub contains_key-retain :
      (p : K → V → Bool) (k : K) (m : List (K × V))
      → contains_key k (retain p m) ≡ true
      → (v : V) × (p k v ≡ true)
  contains_key-retain p k m h = elim (Option-cases (get k (retain p m))) [
    | inl e ↦ ground (arith, e)
    | inr (v, e) ↦ (v, get-retain_passed p k v m e)
  ]

  -- A test of the keys alone keeps all of a key's entry or none of it.
  pub get-retain_by_key :
      (p : K → Bool) (k : K) (m : List (K × V))
      → get k (retain (λ j _. p j) m) ≡ (if p k then get k m else none)
  unfolding get retain
  get-retain_by_key p k [] = ground arith
  get-retain_by_key p k ((j, w) ∷ m) = ground (arith, get-retain_by_key p k m)
