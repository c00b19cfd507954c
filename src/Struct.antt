-- ===== src/Struct.antt =====
-- The formats of Python's `struct` module that the library packs and unpacks: unsigned and two's
-- complement signed integers of k bytes, little endian (`<H`, `<I`, `<Q`, `<i`, `<q`).
use python_bitcointx.Prelude.{
  ℕ, zero, suc, ◌+◌, ◌-◌, ◌*◌, ◌/◌, ◌%◌, ◌^◌, ◌<◌, ◌≡◌, refl, ap, Bool, true, [], ◌∷◌, arith,
  length, Bytes, AreBytes, ltb, if◌then◌else◌,
}
use python_bitcointx.Prelude.Int.{ℤ, pos, negsuc}
use python_bitcointx.Result.{Result, ok, err, struct_error}

-- The k low bytes of `v`, lowest first.
unfoldable pub le_bytes : ℕ → ℕ → Bytes
le_bytes zero v = []
le_bytes (suc k) v = (v % 256) ∷ le_bytes k (v / 256)

unfoldable pub from_le : Bytes → ℕ
from_le [] = 0
from_le (b ∷ bs) = b + 256 * from_le bs

-- `struct.pack` of an unsigned integer of `k` bytes.
unfoldable pub pack : ℕ → ℕ → Result Bytes
pack k v = if ltb v (256 ^ k) then ok (le_bytes k v) else err struct_error

-- The two's complement pattern of `v` on `k` bytes.
unfoldable pub to_word : ℕ → ℤ → ℕ
to_word k (pos n) = n
to_word k (negsuc n) = 256 ^ k - 1 - n

-- The integer that a pattern on `k` bytes stands for.
unfoldable pub of_word : ℕ → ℕ → ℤ
of_word k w = if ltb w (256 ^ k / 2) then pos w else negsuc (256 ^ k - 1 - w)

unfoldable pub fits_signed : ℕ → ℤ → Bool
fits_signed k (pos n) = ltb n (256 ^ k / 2)
fits_signed k (negsuc n) = ltb n (256 ^ k / 2)

-- `struct.pack` of a signed integer of `k` bytes.
unfoldable pub pack_signed : ℕ → ℤ → Result Bytes
pack_signed k v = if fits_signed k v then ok (le_bytes k (to_word k v)) else err struct_error

unfoldable pub unpack_signed : ℕ → Bytes → ℤ
unpack_signed k bs = of_word k (from_le bs)

pub length-le_bytes : (k v : ℕ) → length (le_bytes k v) ≡ k
unfolding le_bytes
length-le_bytes zero v = refl
length-le_bytes (suc k) v = ap suc (length-le_bytes k (v / 256))

pub le_bytes-AreBytes : (k v : ℕ) → AreBytes (le_bytes k v)
unfolding le_bytes
le_bytes-AreBytes zero v = tt
le_bytes-AreBytes (suc k) v = (omega arith, le_bytes-AreBytes k (v / 256))

pub from_le-le_bytes : (k v : ℕ) → v < 256 ^ k → from_le (le_bytes k v) ≡ v
unfolding le_bytes from_le
from_le-le_bytes zero v h = omega arith
from_le-le_bytes (suc k) v h = omega (arith, from_le-le_bytes k (v / 256) (omega arith))

pub pow256 : (n : ℕ) → 256 ^ suc n ≡ 256 * 256 ^ n
pow256 n = omega arith

pub from_le-lt : (bs : Bytes) → AreBytes bs → from_le bs < 256 ^ length bs
unfolding from_le
from_le-lt [] h = omega arith
from_le-lt (b ∷ bs) h =
    let e : 256 ^ length (b ∷ bs) ≡ 256 * 256 ^ length bs = pow256 (length bs) in
    omega (arith, e, from_le-lt bs h.1, h.0)

pub le_bytes-from_le : (bs : Bytes) → AreBytes bs → le_bytes (length bs) (from_le bs) ≡ bs
unfolding le_bytes from_le
le_bytes-from_le [] h = refl
le_bytes-from_le (b ∷ bs) h =
    let low : (b + 256 * from_le bs) % 256 ≡ b = omega (arith, h.0) in
    let high : (b + 256 * from_le bs) / 256 ≡ from_le bs = omega (arith, h.0) in
    rw low (rw high (ap (λ t. b ∷ t) (le_bytes-from_le bs h.1)))

-- 256 ^ k is even, for k of at least one byte.
half_word : (k : ℕ) → 256 ^ suc k / 2 + 256 ^ suc k / 2 ≡ 256 ^ suc k
half_word k = omega arith

pub unpack_signed-pack_signed :
    (k : ℕ) (v : ℤ)
    → fits_signed (suc k) v ≡ true
    → unpack_signed (suc k) (le_bytes (suc k) (to_word (suc k) v)) ≡ v
unfolding unpack_signed of_word to_word fits_signed
unpack_signed-pack_signed k (pos n) h =
    rw (from_le-le_bytes (suc k) n (ground (arith, half_word k))) (rw h)
unpack_signed-pack_signed k (negsuc n) h =
    rw (from_le-le_bytes (suc k) (256 ^ suc k - 1 - n) (ground (arith, half_word k)))
      (ground (arith, half_word k))
