-- ===== src/Prelude/Bytes.antt =====
-- Little-endian words: `to_le_bytes` and `from_le_bytes` at any width, and bytes as small numbers.
use Prim.Native.Nat.{ℕ, zero, suc, ◌+◌, ◌-◌, ◌*◌, ◌/◌, ◌%◌, ◌^◌, ◌<◌}
use mathlib.Core.Path.{◌≡◌, refl, sym, ap, ap₂, ◌∙◌}
use mathlib.Core.List.{List, [], ◌∷◌, ◌++◌}
use native.Mathlib.Omega.{arith}
use native.Mathlib.Nat.{pow-suc, pow-zero}
use mmbus.Prelude.Lists.{length, take, drop, slice}

-- The `n` low bytes of `v`, lowest first.
unfoldable pub to_le_bytes : ℕ → ℕ → List ℕ
to_le_bytes zero v = []
to_le_bytes (suc n) v = (v % 256) ∷ to_le_bytes n (v / 256)

unfoldable pub from_le_bytes : List ℕ → ℕ
from_le_bytes [] = 0
from_le_bytes (b ∷ bs) = b + 256 * from_le_bytes bs

-- Every element is a byte.
abbrev pub AllBytes : List ℕ → Type 0
AllBytes [] = Unit
AllBytes (b ∷ bs) = (b < 256) × AllBytes bs

pub length-to_le_bytes : (n v : ℕ) → length (to_le_bytes n v) ≡ n
unfolding to_le_bytes
length-to_le_bytes zero v = refl
length-to_le_bytes (suc n) v = ap suc (length-to_le_bytes n (v / 256))

pub to_le_bytes-AllBytes : (n v : ℕ) → AllBytes (to_le_bytes n v)
unfolding to_le_bytes
to_le_bytes-AllBytes zero v = tt
to_le_bytes-AllBytes (suc n) v = (omega arith, to_le_bytes-AllBytes n (v / 256))

-- Writing a value that fits and reading it back gives the value.
pub from_le_bytes-to_le_bytes : (n v : ℕ) → v < 256 ^ n → from_le_bytes (to_le_bytes n v) ≡ v
unfolding to_le_bytes from_le_bytes
from_le_bytes-to_le_bytes zero v h = omega (arith, pow-zero 256)
from_le_bytes-to_le_bytes (suc n) v h =
    omega (arith, from_le_bytes-to_le_bytes n (v / 256) (omega (arith, pow-suc 256 n)))

-- Reading bytes and writing the value back gives the bytes.
pub to_le_bytes-from_le_bytes :
    (bs : List ℕ) → AllBytes bs → to_le_bytes (length bs) (from_le_bytes bs) ≡ bs
unfolding to_le_bytes from_le_bytes
to_le_bytes-from_le_bytes [] h = refl
to_le_bytes-from_le_bytes (b ∷ bs) h =
    let low : (b + 256 * from_le_bytes bs) % 256 ≡ b = omega (arith, h.0) in
    let high : (b + 256 * from_le_bytes bs) / 256 ≡ from_le_bytes bs = omega (arith, h.0) in
    ap₂ ◌∷◌ low (rw high (to_le_bytes-from_le_bytes bs h.1))

pub from_le_bytes-lt : (bs : List ℕ) → AllBytes bs → from_le_bytes bs < 256 ^ length bs
unfolding from_le_bytes
from_le_bytes-lt [] h = omega (arith, pow-zero 256)
from_le_bytes-lt (b ∷ bs) h = omega (arith, h.0, from_le_bytes-lt bs h.1, pow-suc 256 (length bs))

-- A value reads the same from any width: only its low bytes are kept.
pub from_le_bytes-to_le_bytes_two : (v : ℕ) → from_le_bytes (to_le_bytes 2 v) ≡ v % 65536
unfolding to_le_bytes from_le_bytes
from_le_bytes-to_le_bytes_two v = omega arith

pub AllBytes-append : (xs ys : List ℕ) → AllBytes xs → AllBytes ys → AllBytes (xs ++ ys)
AllBytes-append [] ys hx hy = hy
AllBytes-append (x ∷ xs) ys hx hy = (hx.0, AllBytes-append xs ys hx.1 hy)

pub AllBytes-take : (n : ℕ) (xs : List ℕ) → AllBytes xs → AllBytes (take n xs)
AllBytes-take zero xs h = tt
AllBytes-take (suc n) [] h = tt
AllBytes-take (suc n) (x ∷ xs) h = (h.0, AllBytes-take n xs h.1)

pub AllBytes-drop : (n : ℕ) (xs : List ℕ) → AllBytes xs → AllBytes (drop n xs)
AllBytes-drop zero xs h = h
AllBytes-drop (suc n) [] h = tt
AllBytes-drop (suc n) (x ∷ xs) h = AllBytes-drop n xs h.1

-- The word of `n` bytes at a given place, written back.
pub to_le_bytes-from_le_bytes_at :
    (n : ℕ) (bs : List ℕ) → AllBytes bs → length bs ≡ n → to_le_bytes n (from_le_bytes bs) ≡ bs
to_le_bytes-from_le_bytes_at n bs h e =
    ap (λ k. to_le_bytes k (from_le_bytes bs)) (sym e) ∙ to_le_bytes-from_le_bytes bs h

pub from_le_bytes-lt_at :
    (n : ℕ) (bs : List ℕ) → AllBytes bs → length bs ≡ n → from_le_bytes bs < 256 ^ n
from_le_bytes-lt_at n bs h e = rw (← e) (from_le_bytes-lt bs h)

pub AllBytes-slice : (a b : ℕ) (xs : List ℕ) → AllBytes xs → AllBytes (slice a b xs)
AllBytes-slice a b xs h = AllBytes-take (b - a) (drop a xs) (AllBytes-drop a xs h)
