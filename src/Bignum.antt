-- ===== src/Bignum.antt =====
-- bitcointx/core/_bignum.py: numbers of the script language, as MPI strings (a length of four bytes
-- and the big-endian magnitude with a sign bit) and as vectors (the same bytes, little endian).
pub mod Magnitude
pub mod RoundTrip
use Prim.Native.Nat.{bit_and, bit_or}
use mathlib.Core.List.{reverse}
use python_bitcointx.Prelude.{
  ℕ, zero, suc, ◌+◌, ◌-◌, ◌*◌, ◌/◌, ◌%◌, ◌^◌, Bool, true, false, not, ◌&&◌, Option, none, some, [],
  ◌∷◌, ◌++◌, length, take, drop, get_or, ltb, ◌==◌, if◌then◌else◌, Bytes,
}
use python_bitcointx.Prelude.Int.{ℤ, pos, negsuc, neg_ℤ}
use python_bitcointx.Result.{Result, ok, err, ◌>>=◌, struct_error}
use python_bitcointx.Struct.{le_bytes, from_le}

-- Python's `abs` and `int.bit_length`; a halving a bit, so `n` rounds are enough.
unfoldable pub magnitude : ℤ → ℕ
magnitude (pos n) = n
magnitude (negsuc n) = suc n

unfoldable pub is_negative : ℤ → Bool
is_negative (pos n) = false
is_negative (negsuc n) = true

unfoldable pub bit_length_loop : ℕ → ℕ → ℕ
bit_length_loop zero n = 0
bit_length_loop (suc f) n = elim n [ zero ↦ 0 | suc m ↦ suc (bit_length_loop f (suc m / 2)) ]

unfoldable pub bit_length : ℕ → ℕ
bit_length n = bit_length_loop n n

unfoldable pub bn_bytes : ℕ → Bool → ℕ
bn_bytes v have_ext = (bit_length v + 7) / 8 + (if have_ext then 1 else 0)

-- The loop of `bn2bin`: `(v >> (i * 8)) & 0xff` for i from the top down.
unfoldable pub bn2bin_loop : ℕ → ℕ → Bytes
bn2bin_loop zero v = []
bn2bin_loop (suc i) v = (v / 256 ^ i % 256) ∷ bn2bin_loop i v

unfoldable pub bn2bin : ℕ → Bytes
bn2bin v = bn2bin_loop (bn_bytes v false) v

-- `bin2bn`, from the number read so far. A byte is or-ed into bits that are free: it is added.
unfoldable pub bin2bn_loop : ℕ → Bytes → ℕ
bin2bn_loop res [] = res
bin2bn_loop res (ch ∷ s) = bin2bn_loop (res * 256 + ch) s

unfoldable pub bin2bn : Bytes → ℕ
bin2bn s = bin2bn_loop 0 s

-- `struct.pack(b">I", n)` and its inverse.
unfoldable pub pack_be4 : ℕ → Result Bytes
pack_be4 n = if ltb n (2 ^ 32) then ok (reverse (le_bytes 4 n)) else err struct_error

unfoldable pub unpack_be : Bytes → ℕ
unpack_be s = from_le (reverse s)

unfoldable pub needs_ext : ℕ → Bool
needs_ext v = ltb 0 (bit_length v) && bit_length v % 8 == 0

-- `s[0] |= 0x80`
unfoldable pub set_sign : Bytes → Bytes
set_sign [] = []
set_sign (b ∷ s) = bit_or b 0x80 ∷ s

-- `ext + v_bin`, with the sign bit in `ext` if there is one.
unfoldable pub signed_bytes : Bool → ℕ → Bytes
signed_bytes neg v =
    if needs_ext v
    then (if neg then set_sign (0 ∷ []) else 0 ∷ []) ++ bn2bin v
    else if neg
    then set_sign (bn2bin v)
    else bn2bin v

unfoldable pub bn2mpi : ℤ → Result Bytes
bn2mpi v = do
  s ← pack_be4 (bn_bytes (magnitude v) (needs_ext (magnitude v)))
  ok (s ++ signed_bytes (is_negative v) (magnitude v))

-- The magnitude and the sign of `v_str`; `i &= ~0x80` keeps the low seven bits of a byte.
unfoldable pub read_signed : Bytes → ℤ
read_signed [] = pos 0
read_signed (i ∷ v_str) =
    if bit_and i 0x80 == 0
    then pos (bin2bn (i ∷ v_str))
    else neg_ℤ (pos (bin2bn (bit_and i 0x7f ∷ v_str)))

unfoldable pub mpi2bn : Bytes → Option ℤ
mpi2bn s =
    if ltb (length s) 4
    then none
    else if not (length s == unpack_be (take 4 s) + 4)
    then none
    else if unpack_be (take 4 s) == 0
    then some (pos 0)
    else some (read_signed (drop 4 s))

unfoldable pub mpi2vch : Bytes → Bytes
mpi2vch s = reverse (drop 4 s)

unfoldable pub bn2vch : ℤ → Result Bytes
bn2vch v = do s ← bn2mpi v; ok (mpi2vch s)

unfoldable pub vch2mpi : Bytes → Result Bytes
vch2mpi s = do r ← pack_be4 (length s); ok (r ++ reverse s)

unfoldable pub vch2bn : Bytes → Result (Option ℤ)
vch2bn s = do r ← vch2mpi s; ok (mpi2bn r)
