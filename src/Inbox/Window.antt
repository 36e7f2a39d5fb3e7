-- ===== src/Inbox/Window.antt =====
-- src/web_config.rs: the inbox keeps the newest packets, in order, and counts the others.
use renet_cross.Prelude.{
  ℕ, zero, suc, ◌+◌, ◌-◌, ◌≤◌, ◌<◌, ◌≡◌, refl, sym, ap, ◌∙◌, List, [], ◌∷◌, ◌++◌, length, drop,
  length-append, length-drop, drop-append, arith, u64_mod, ◌==◌, Bool-cases, inl, inr,
}
use mathlib.Core.List.{append-nil, append_assoc}
use renet_cross.Inbox.{Inbox, push, tail}

pub push_all : List (List ℕ) → Inbox → Inbox
push_all [] i = i
push_all (p ∷ ps) i = push_all ps (push p i)

drop-nil : {A : Type 0} (n : ℕ) → ◌≡◌ {A = List A} (drop n []) []
drop-nil zero = refl
drop-nil (suc n) = refl

drop-drop : {A : Type 0} (n m : ℕ) (xs : List A) → drop m (drop n xs) ≡ drop (n + m) xs
drop-drop zero m xs = ground arith
drop-drop (suc n) m [] = drop-nil m ∙ sym (drop-nil (suc n + m))
drop-drop (suc n) m (x ∷ xs) =
    let e : suc (n + m) ≡ suc n + m = omega arith in
    drop-drop n m xs ∙ ap (λ (k : ℕ). drop k (x ∷ xs)) e

tail-append :
    (q : List (List ℕ)) (p : List ℕ) → 0 < length q → tail q ++ p ∷ [] ≡ drop 1 (q ++ p ∷ [])
unfolding tail
tail-append [] p h = absurd (omega arith)
tail-append (r ∷ q) p h = refl

-- How many packets a push of `n` more drops.
abbrev pub lost : ℕ → Inbox → ℕ
lost n i = length i.packets + n - i.capacity

push-window :
    (p : List ℕ) (i : Inbox)
    → 0 < i.capacity
    → length i.packets ≤ i.capacity
    → ((push p i).packets ≡ drop (lost 1 i) (i.packets ++ p ∷ []))
      × ((push p i).capacity ≡ i.capacity)
      × (i.stats.receive_overflow_drops + 1 < u64_mod
          → (push p i).stats.receive_overflow_drops ≡ i.stats.receive_overflow_drops + lost 1 i)
unfolding push
push-window p i pos fits = elim (Bool-cases (length i.packets == i.capacity)) [
  | inl full ↦ (ground (arith, tail-append i.packets p), ground arith, λ h. ground arith)
  | inr room ↦ (ground arith, ground arith, λ h. ground arith)
]

push_all-held :
    (ps : List (List ℕ)) (i : Inbox)
    → 0 < i.capacity
    → length i.packets ≤ i.capacity
    → ((push_all ps i).packets ≡ drop (lost (length ps) i) (i.packets ++ ps))
      × (length (push_all ps i).packets ≤ i.capacity)
      × (i.stats.receive_overflow_drops + length ps < u64_mod
          → (push_all ps i).stats.receive_overflow_drops
            ≡ i.stats.receive_overflow_drops + lost (length ps) i)
unfolding push_all
push_all-held [] i pos fits =
    let kept : lost 0 i ≡ 0 = omega arith in
    (
      sym (ap (λ (n : ℕ). drop n (i.packets ++ [])) kept ∙ append-nil i.packets),
      fits,
      λ h. omega (arith, kept),
    )
push_all-held (p ∷ ps) i pos fits =
    let i' = push p i in
    let (held, same, counted) = push-window p i pos fits in
    let size : length i'.packets ≡ length i.packets + 1 - lost 1 i = omega (
      arith,
      ap length held,
      length-drop (lost 1 i) (i.packets ++ p ∷ []),
      length-append i.packets (p ∷ []),
    ) in
    let (rest, bound, more) =
      push_all-held ps i' (omega (arith, same)) (omega (arith, size, same)) in
    let shape : i'.packets ++ ps ≡ drop (lost 1 i) (i.packets ++ p ∷ ps) =
      ap (λ (q : List (List ℕ)). q ++ ps) held
      ∙ sym (
          drop-append (lost 1 i) (i.packets ++ p ∷ []) ps
            (omega (arith, length-append i.packets (p ∷ []))))
      ∙ ap (drop (lost 1 i)) (append_assoc i.packets (p ∷ []) ps) in
    let total : lost 1 i + lost (length ps) i' ≡ lost (suc (length ps)) i =
      omega (arith, size, same) in
    (
      rest
          ∙ ap (drop (lost (length ps) i')) shape
          ∙ drop-drop (lost 1 i) (lost (length ps) i') (i.packets ++ p ∷ ps)
          ∙ ap (λ (n : ℕ). drop n (i.packets ++ p ∷ ps)) total,
      omega (arith, bound, same),
      λ h. omega (arith, counted (omega arith), more (omega (arith, counted (omega arith))), total),
    )

-- With a positive capacity that is kept to, after any packets the inbox holds the newest of the old
-- and the new, as many as fit, in the order of arrival; and, with room in the counter of overflows
-- for all of them, it has counted each of the others.
pub push_all-window :
    (ps : List (List ℕ)) (i : Inbox)
    → 0 < i.capacity
    → length i.packets ≤ i.capacity
    → i.stats.receive_overflow_drops + length ps < u64_mod
    → ((push_all ps i).packets ≡ drop (lost (length ps) i) (i.packets ++ ps))
      × (length (push_all ps i).packets ≤ i.capacity)
      × ((push_all ps i).stats.receive_overflow_drops
          ≡ i.stats.receive_overflow_drops + lost (length ps) i)
push_all-window ps i pos fits room =
    let (held, bound, counted) = push_all-held ps i pos fits in (held, bound, counted room)
