-- ===== src/Session/Encoding.antt =====
-- src/session_security.rs: the layout of `SessionGrant::user_data`, read back.
use mathlib.Core.Path.{ap₂}
use mathlib.Core.List.{append_assoc}
use renet_cross.Prelude.{
  ℕ, zero, suc, ◌+◌, ◌-◌, ◌*◌, ◌/◌, ◌%◌, ◌≤◌, ◌<◌, ◌≡◌, refl, sym, ap, ◌∙◌, List, [], ◌∷◌, ◌++◌,
  length, take, drop, replicate, length-append, length-replicate, take-length, drop-length,
  drop_zero, arith, ok, u64_mod, false,
}
use renet_cross.Net.{to_le_bytes}
use renet_cross.Session.{Grant, write, put_field, put_header, oversized, user_data, Text}

-- A reader that is written independently of the writer.
pub from_le_bytes : List ℕ → ℕ
from_le_bytes [] = 0
from_le_bytes (b ∷ bs) = b + 256 * from_le_bytes bs

-- A field is a length and as many bytes; the rest comes after it.
pub read_field : List ℕ → List ℕ × List ℕ
read_field [] = ([], [])
read_field (n ∷ rest) = (take n rest, drop n rest)

-- The protocol, the expiry, the service, the match and the application's bytes.
pub read_user_data : List ℕ → ℕ × ℕ × Text × Text × List ℕ
unfolding read_field
read_user_data buffer =
    let (service, rest) = read_field (drop 17 buffer) in
    let (match_id, rest') = read_field rest in
    (
      from_le_bytes (take 8 (drop 1 buffer)),
      from_le_bytes (take 8 (drop 9 buffer)),
      service,
      match_id,
      (read_field rest').0,
    )

-- A number that `k` bytes hold.
abbrev Fits : ℕ → ℕ → Type 0
Fits zero x = x ≡ 0
Fits (suc k) x = Fits k (x / 256)

length-to_le_bytes : (k x : ℕ) → length (to_le_bytes k x) ≡ k
unfolding to_le_bytes
length-to_le_bytes zero x = refl
length-to_le_bytes (suc k) x = ap suc (length-to_le_bytes k (x / 256))

from_le_bytes-to_le_bytes : (k x : ℕ) → Fits k x → from_le_bytes (to_le_bytes k x) ≡ x
unfolding from_le_bytes to_le_bytes
from_le_bytes-to_le_bytes zero x h = sym h
from_le_bytes-to_le_bytes (suc k) x h = omega (arith, from_le_bytes-to_le_bytes k (x / 256) h)

abbrev zeros : ℕ → List ℕ
zeros n = replicate n 0

drop-zeros : (k n : ℕ) → drop k (zeros n) ≡ zeros (n - k)
drop-zeros zero n = ground arith
drop-zeros (suc k) zero = ground arith
drop-zeros (suc k) (suc n) = ground (arith, drop-zeros k n)

drop_past : (pre rest : List ℕ) (k : ℕ) → drop (length pre + k) (pre ++ rest) ≡ drop k rest
drop_past [] rest k = ground arith
drop_past (x ∷ pre) rest k =
    let e : suc (length pre) + k ≡ suc (length pre + k) = omega arith in
    ap (λ (m : ℕ). drop m (x ∷ pre ++ rest)) e ∙ drop_past pre rest k

-- A write right behind what is written, into the zeros.
write-zeros :
    (pre bytes : List ℕ) (n at : ℕ)
    → at ≡ length pre
    → write at bytes (pre ++ zeros n) ≡ (pre ++ bytes) ++ zeros (n - length bytes)
unfolding write
write-zeros pre bytes n at e =
    rw (e, take-length pre (zeros n), drop_past pre (zeros n) (length bytes)) (rw drop-zeros refl)

abbrev pub field : List ℕ → List ℕ
field bytes = length bytes ∷ bytes

abbrev placed : List ℕ → ℕ → List ℕ × ℕ
placed pre n = (pre ++ zeros n, length pre)

abbrev pair : List ℕ → ℕ → List ℕ × ℕ
pair a b = (a, b)

abbrev both : List ℕ → List ℕ → List ℕ × List ℕ
both a b = (a, b)

put_field-zeros :
    (pre bytes : List ℕ) (n : ℕ)
    → length bytes < 256
    → put_field bytes (placed pre n) ≡ placed (pre ++ field bytes) (n - suc (length bytes))
unfolding put_field
put_field-zeros pre bytes n small =
    let size : length bytes % 256 ≡ length bytes = omega arith in
    let first = write-zeros pre (length bytes % 256 ∷ []) n (length pre) refl in
    let end : length pre + 1 ≡ length (pre ++ length bytes % 256 ∷ []) =
      omega (arith, length-append pre (length bytes % 256 ∷ [])) in
    let second = write-zeros (pre ++ length bytes % 256 ∷ []) bytes (n - 1) (length pre + 1) end in
    let room : n - 1 - length bytes ≡ n - suc (length bytes) = omega arith in
    ap₂ pair
      (ap (write (length pre + 1) bytes) first
        ∙ second
        ∙ ap₂ (λ (xs : List ℕ) (k : ℕ). xs ++ zeros k)
            (append_assoc pre (length bytes % 256 ∷ []) bytes
              ∙ ap (λ (k : ℕ). pre ++ k ∷ bytes) size)
            room)
      (omega (arith, length-append pre (field bytes)))

-- The first seventeen bytes.
header : Grant → List ℕ
header g = 1 ∷ to_le_bytes 8 g.protocol_id ++ to_le_bytes 8 g.expires_at

put_header-zeros : (g : Grant) → (put_header g ≡ header g ++ zeros 239) × (length (header g) ≡ 17)
unfolding put_header header
put_header-zeros g =
    let p = to_le_bytes 8 g.protocol_id in
    let x = to_le_bytes 8 g.expires_at in
    let lp = length-to_le_bytes 8 g.protocol_id in
    let lx = length-to_le_bytes 8 g.expires_at in
    let one : List ℕ = 1 ∷ [] in
    let w0 = write-zeros [] one 256 0 refl in
    let w1 = write-zeros one p 255 1 refl in
    let w2 = write-zeros (one ++ p) x (255 - length p) 9 (omega (arith, lp, length-append one p)) in
    let room : 255 - length p - length x ≡ 239 = omega (arith, lp, lx) in
    (
      ap (λ (b : List ℕ). write 9 x (write 1 p b)) w0
          ∙ ap (write 9 x) w1
          ∙ w2
          ∙ ap (λ (k : ℕ). (one ++ p ++ x) ++ zeros k) room,
      omega (arith, lp, lx, length-append (one ++ p) x, length-append one p),
    )

-- The bytes in use.
layout : Grant → List ℕ
layout g = header g ++ field g.service ++ field g.match_id ++ field g.application

-- The sizes that `user_data` accepts.
pub record HasRoom (g : Grant) : Type 0 where
  pub service_fits : length g.service ≤ 32
  pub match_fits : length g.match_id ≤ 64
  pub application_fits : length g.application ≤ 128

padding : Grant → ℕ
padding g = 239 - suc (length g.service) - suc (length g.match_id) - suc (length g.application)

user_data-layout :
    (g : Grant)
    → HasRoom g
    → (k : ℕ) × (user_data g ≡ ok (layout g ++ zeros k)) × (length (layout g) + k ≡ 256)
unfolding user_data layout padding
user_data-layout g v =
    let (h, size) = put_header-zeros g in
    let start : pair (put_header g) 17 ≡ placed (header g) 239 = ap₂ pair h (sym size) in
    let s = put_field-zeros (header g) g.service 239 (omega (arith, v.service_fits)) in
    let m =
      put_field-zeros (header g ++ field g.service) g.match_id _ (omega (arith, v.match_fits)) in
    let a =
      put_field-zeros (header g ++ field g.service ++ field g.match_id) g.application _
        (omega (arith, v.application_fits)) in
    let small : oversized g ≡ false =
      ground (arith, v.service_fits, v.match_fits, v.application_fits) in
    let all =
      ap (put_field g.application)
        (ap (put_field g.match_id) (ap (put_field g.service) start ∙ s) ∙ m)
      ∙ a in
    (
      padding g,
      rw small (ap (λ (r : List ℕ × ℕ). ok r.0) all),
      omega (
        arith,
        size,
        v.service_fits,
        v.match_fits,
        v.application_fits,
        length-append (header g ++ field g.service ++ field g.match_id) (field g.application),
        length-append (header g ++ field g.service) (field g.match_id),
        length-append (header g) (field g.service),
      ),
    )

-- What follows the version byte, bracketed to the right as a reader takes it apart.
reassociated :
    (g : Grant) (z : List ℕ)
    → layout g ++ z
      ≡ 1
        ∷ (to_le_bytes 8 g.protocol_id
            ++ (to_le_bytes 8 g.expires_at
                ++ (field g.service ++ (field g.match_id ++ (field g.application ++ z)))))
unfolding layout header
reassociated g z = simp append_assoc

take_exact : (n : ℕ) (xs ys : List ℕ) → n ≡ length xs → take n (xs ++ ys) ≡ xs
take_exact n xs ys e = ap (λ (k : ℕ). take k (xs ++ ys)) e ∙ take-length xs ys

drop_exact : (n k : ℕ) (xs ys : List ℕ) → n ≡ length xs + k → drop n (xs ++ ys) ≡ drop k ys
drop_exact n k xs ys e = ap (λ (m : ℕ). drop m (xs ++ ys)) e ∙ drop_past xs ys k

read_field-field : (bytes rest : List ℕ) → read_field (field bytes ++ rest) ≡ (bytes, rest)
unfolding read_field
read_field-field bytes rest = ap₂ both (take-length bytes rest) (drop-length bytes rest)

read_user_data-layout :
    (g : Grant) (z : List ℕ)
    → g.protocol_id < u64_mod
    → g.expires_at < u64_mod
    → read_user_data (layout g ++ z)
      ≡ (g.protocol_id, g.expires_at, g.service, g.match_id, g.application)
unfolding read_user_data
read_user_data-layout g z hp hx =
    let p = to_le_bytes 8 g.protocol_id in
    let x = to_le_bytes 8 g.expires_at in
    let fields = field g.service ++ (field g.match_id ++ (field g.application ++ z)) in
    let lp = length-to_le_bytes 8 g.protocol_id in
    let lx = length-to_le_bytes 8 g.expires_at in
    let e8 = take_exact 8 p (x ++ fields) (sym lp) in
    let d9 = drop_exact 8 0 p (x ++ fields) (omega (arith, lp)) ∙ drop_zero (x ++ fields) in
    let e9 = take_exact 8 x fields (sym lx) in
    let d17 =
      drop_exact 16 8 p (x ++ fields) (omega (arith, lp))
      ∙ drop_exact 8 0 x fields (omega (arith, lx))
      ∙ drop_zero fields in
    let f1 = read_field-field g.service (field g.match_id ++ (field g.application ++ z)) in
    let f2 = read_field-field g.match_id (field g.application ++ z) in
    let f3 = read_field-field g.application z in
    rw (reassociated g z) (
      rw (e8, d9, e9, d17)
        (rw
          (ap (λ x. x.0) f1, ap (λ x. x.1) f1, ap (λ x. x.0) f2, ap (λ x. x.1) f2, ap (λ x. x.0) f3)
          (rw (from_le_bytes-to_le_bytes 8 g.protocol_id (omega arith))
            (rw (from_le_bytes-to_le_bytes 8 g.expires_at (omega arith)) refl))))

-- The user data of a grant within the documented sizes, with 64-bit numbers, fills the netcode field of 256 bytes exactly,
-- and a reader gets back the protocol, the expiry, the service, the match and the application's
-- bytes.
pub read_user_data-user_data :
    (g : Grant)
    → HasRoom g
    → g.protocol_id < u64_mod
    → g.expires_at < u64_mod
    → (buffer : List ℕ) × (user_data g ≡ ok buffer)
      × (length buffer ≡ 256)
      × (read_user_data buffer
          ≡ (g.protocol_id, g.expires_at, g.service, g.match_id, g.application))
read_user_data-user_data g v hp hx =
    let (k, done, size) = user_data-layout g v in
    (
      layout g ++ zeros k,
      done,
      omega (arith, size, length-append (layout g) (zeros k), length-replicate {A = ℕ} k 0),
      read_user_data-layout g (zeros k) hp hx,
    )
