-- ===== src/Bignum/RoundTrip.antt =====
-- `bn2vch` and `vch2bn` are inverse on every number whose bytes can be counted in four bytes, and
-- how many bytes a number takes.
use Prim.Native.Nat.{bit_and, bit_or}
use mathlib.Core.List.{reverse, reverse-reverse}
use native.Mathlib.Nat.{div-lt_iff_lt-mul, pow-le-pow_right}
use python_bitcointx.Prelude.{
  ℕ, zero, suc, ◌+◌, ◌*◌, ◌/◌, ◌%◌, ◌^◌, ◌≤◌, ◌<◌, ◌≡◌, inl, inr, refl, ap, ◌∙◌, Bool, true, false,
  some, [], ◌∷◌, ◌++◌, arith, length, length-append, take, drop, take-append, drop-append, ◌==◌,
  if◌then◌else◌, Bytes, Bool-cases, lt→ltb, ne→==_false,
}
use python_bitcointx.Prelude.Bits.{low_bits, top_bit, set_top_bit}
use python_bitcointx.Prelude.Int.{ℤ, pos, negsuc, neg_ℤ}
use python_bitcointx.Result.{ok}
use python_bitcointx.Struct.{le_bytes, length-le_bytes, from_le-le_bytes}
use python_bitcointx.Bignum.{
  magnitude, is_negative, bit_length_loop, bit_length, bn_bytes, bn2bin_loop, bin2bn_loop, bn2bin,
  bin2bn, pack_be4, unpack_be, needs_ext, set_sign, signed_bytes, bn2mpi, read_signed, mpi2bn,
  mpi2vch, bn2vch, vch2mpi, vch2bn,
}
use python_bitcointx.Bignum.Magnitude.{
  length-reverse, length-bn2bin_loop, bin2bn-bn2bin_loop, bn_bytes_room, bn_bytes-eq,
  bit_length-bounds, pow_eight,
}

-- The number that a vector stands for, by its sign-and-magnitude bytes.
abbrev pub vch_value : Bytes → ℤ
vch_value t = if length t == 0 then pos 0 else read_signed (reverse t)

size_bytes : ℕ → Bytes
size_bytes n = reverse (le_bytes 4 n)

length-size_bytes : (n : ℕ) → length (size_bytes n) ≡ 4
unfolding size_bytes
length-size_bytes n = length-reverse (le_bytes 4 n) ∙ length-le_bytes 4 n

unpack_be-size_bytes : (n : ℕ) → n < 2 ^ 32 → unpack_be (size_bytes n) ≡ n
unfolding unpack_be size_bytes
unpack_be-size_bytes n h = rw (reverse-reverse (le_bytes 4 n)) (from_le-le_bytes 4 n h)

mpi2bn-size_bytes :
    (s : Bytes)
    → length s < 2 ^ 32
    → mpi2bn (size_bytes (length s) ++ s) ≡ some (if length s == 0 then pos 0 else read_signed s)
unfolding mpi2bn
mpi2bn-size_bytes s h =
    let n : Bytes = size_bytes (length s) in
    let front : take 4 (n ++ s) ≡ n = rw (length-size_bytes (length s)) at (take-append n s) in
    let back : drop 4 (n ++ s) ≡ s = rw (length-size_bytes (length s)) at (drop-append n s) in
    rw (front, back, unpack_be-size_bytes (length s) h)
      (ground (arith, length-append n s, length-size_bytes (length s)))

pack_be4-size_bytes : (n : ℕ) → n < 2 ^ 32 → pack_be4 n ≡ ok (size_bytes n)
unfolding pack_be4 size_bytes
pack_be4-size_bytes n h = rw (lt→ltb n (2 ^ 32) h)

vch2mpi-eq : (t : Bytes) → length t < 2 ^ 32 → vch2mpi t ≡ ok (size_bytes (length t) ++ reverse t)
vch2mpi-eq t h = unfold vch2mpi in rw (pack_be4-size_bytes (length t) h)

-- A vector of fewer than 2 ^ 32 bytes always stands for a number.
pub vch2bn-eq : (t : Bytes) → length t < 2 ^ 32 → vch2bn t ≡ ok (some (vch_value t))
unfolding vch2bn
vch2bn-eq t h =
    let len : length (reverse t) ≡ length t = length-reverse t in
    let back = mpi2bn-size_bytes (reverse t) (omega (arith, len)) in
    rw (vch2mpi-eq t h) (ap (λ r. ok r) (rw len at back))

-- The bytes of a positive number, without the extra one.
bn2bin_fits : (v : ℕ) → v < 256 ^ bn_bytes v false
bn2bin_fits v =
    let n : ℕ = bit_length v in
    let wide : 2 ^ n ≤ 2 ^ (8 * ((n + 7) / 8)) = pow-le-pow_right (omega arith) (omega arith) in
    let e : bn_bytes v false ≡ (n + 7) / 8 = unfold bn_bytes in omega arith in
    rw e (omega (arith, (bit_length-bounds v).0, wide, pow_eight ((n + 7) / 8)))

bin2bn-bn2bin : (v : ℕ) → bin2bn (bn2bin v) ≡ v
unfolding bn2bin
bin2bn-bn2bin v = bin2bn-bn2bin_loop (bn_bytes v false) v (bn2bin_fits v)

bin2bn-zero : (s : Bytes) → bin2bn (0 ∷ s) ≡ bin2bn s
unfolding bin2bn bin2bn_loop
bin2bn-zero s = refl

-- The sign bit is set on a free bit, and is read back.
read_signed-set_sign :
    (neg : Bool) (h : ℕ) (t : Bytes)
    → h < 128
    → read_signed (if neg then set_sign (h ∷ t) else h ∷ t)
      ≡ (if neg then neg_ℤ (pos (bin2bn (h ∷ t))) else pos (bin2bn (h ∷ t)))
unfolding set_sign
read_signed-set_sign true h t lt =
    let e : bit_or h 0x80 ≡ h + 128 = set_top_bit h lt in
    let sign : bit_and (h + 128) 0x80 ≡ 128 = top_bit (h + 128) (omega arith) ∙ omega arith in
    let low : bit_and (h + 128) 0x7f ≡ h = low_bits (h + 128) (omega arith) ∙ omega arith in
    rw e (unfold read_signed in rw (sign, low))
read_signed-set_sign false h t lt =
    let sign : bit_and h 0x80 ≡ 0 = top_bit h (omega arith) ∙ omega arith in
    unfold read_signed in rw sign

head_lt : (j v : ℕ) → 2 * v < 256 ^ suc j → v / 256 ^ j % 256 < 128
head_lt j v h =
    let small : v / 256 ^ j < 128 = (div-lt_iff_lt-mul (pow_pos j)).1 (omega arith) in
    omega (arith, small)
  where
    pow_pos : (i : ℕ) → 0 < 256 ^ i
    pow_pos zero = omega arith
    pow_pos (suc i) = omega (arith, pow_pos i)

abbrev with_sign : Bool → ℕ → ℤ
with_sign neg v = if neg then neg_ℤ (pos v) else pos v

-- Without an extra byte, the first byte of the magnitude has its sign bit free.
read_signed-bn2bin_loop :
    (neg : Bool) (k v : ℕ)
    → 0 < v
    → 2 * v < 256 ^ k
    → read_signed (if neg then set_sign (bn2bin_loop k v) else bn2bin_loop k v)
      ≡ with_sign neg (bin2bn (bn2bin_loop k v))
read_signed-bn2bin_loop neg zero v hv h = absurd (omega arith)
read_signed-bn2bin_loop neg (suc j) v hv h =
    unfold bn2bin_loop in
    read_signed-set_sign neg (v / 256 ^ j % 256) (bn2bin_loop j v) (head_lt j v h)

in_front :
    (neg : Bool) (t : Bytes)
    → ((if neg then set_sign (0 ∷ []) else 0 ∷ []) ++ t) ≡ (if neg then set_sign (0 ∷ t) else 0 ∷ t)
unfolding set_sign
in_front true t = refl
in_front false t = refl

read_signed-signed_bytes :
    (neg : Bool) (v : ℕ) → 0 < v → read_signed (signed_bytes neg v) ≡ with_sign neg v
read_signed-signed_bytes neg v h = elim (Bool-cases (needs_ext v)) [
  | inl ext ↦
      unfold signed_bytes in
      rw ext (
        rw (in_front neg (bn2bin v)) (
          read_signed-set_sign neg 0 (bn2bin v) (omega arith)
          ∙ ap (with_sign neg) (bin2bn-zero (bn2bin v) ∙ bin2bn-bn2bin v)))
  | inr plain ↦
      let room = rw plain at (bn_bytes_room v h) in
      unfold signed_bytes in
      rw plain (
        unfold bn2bin in
        read_signed-bn2bin_loop neg (bn_bytes v false) v h room
        ∙ ap (with_sign neg) (bin2bn-bn2bin_loop (bn_bytes v false) v (bn2bin_fits v)))
]

length-set_sign : (neg : Bool) (s : Bytes) → length (if neg then set_sign s else s) ≡ length s
unfolding set_sign
length-set_sign true [] = refl
length-set_sign true (b ∷ s) = refl
length-set_sign false s = refl

length-bn2bin : (v : ℕ) → length (bn2bin v) ≡ bn_bytes v false
unfolding bn2bin
length-bn2bin v = length-bn2bin_loop (bn_bytes v false) v

length-signed_bytes : (neg : Bool) (v : ℕ) → length (signed_bytes neg v) ≡ bn_bytes v (needs_ext v)
unfolding signed_bytes
length-signed_bytes neg v = elim (Bool-cases (needs_ext v)) [
  | inl ext ↦
      rw (ext, in_front neg (bn2bin v), length-set_sign neg (0 ∷ bn2bin v), length-bn2bin v)
        (unfold bn_bytes in omega arith)
  | inr plain ↦ rw (plain, length-set_sign neg (bn2bin v), length-bn2bin v)
]

signed_bytes-zero : (neg : Bool) → signed_bytes neg 0 ≡ []
unfolding signed_bytes needs_ext bn2bin bn_bytes bit_length bit_length_loop bn2bin_loop set_sign
signed_bytes-zero true = refl
signed_bytes-zero false = refl

bn2vch-eq :
    (v : ℤ)
    → bn_bytes (magnitude v) (needs_ext (magnitude v)) < 2 ^ 32
    → bn2vch v ≡ ok (reverse (signed_bytes (is_negative v) (magnitude v)))
unfolding bn2vch bn2mpi mpi2vch
bn2vch-eq v h =
    let n : ℕ = bn_bytes (magnitude v) (needs_ext (magnitude v)) in
    let s : Bytes = signed_bytes (is_negative v) (magnitude v) in
    rw (pack_be4-size_bytes n h)
      (ap (λ t. ok (reverse t)) (rw (length-size_bytes n) at (drop-append (size_bytes n) s)))

vch_value-reverse : (s : Bytes) → 0 < length s → vch_value (reverse s) ≡ read_signed s
vch_value-reverse s h =
    rw (reverse-reverse s, length-reverse s, ne→==_false (length s) 0 (omega arith))

vch_value_positive :
    (neg : Bool) (v : ℕ) → 0 < v → vch_value (reverse (signed_bytes neg v)) ≡ with_sign neg v
vch_value_positive neg v h =
    vch_value-reverse (signed_bytes neg v)
      (omega (arith, length-signed_bytes neg v, bn_bytes-eq v h))
    ∙ read_signed-signed_bytes neg v h

vch_value-signed_bytes :
    (v : ℤ) → vch_value (reverse (signed_bytes (is_negative v) (magnitude v))) ≡ v
unfolding magnitude is_negative
vch_value-signed_bytes (pos zero) = rw (signed_bytes-zero false)
vch_value-signed_bytes (pos (suc n)) = vch_value_positive false (suc n) (omega arith)
vch_value-signed_bytes (negsuc n) = vch_value_positive true (suc n) (omega arith)

-- A number whose bytes, the extra one for its sign included, are fewer than 2 ^ 32 is written as a
-- vector of that many bytes, and reading that vector returns the number.
pub bn2vch_round_trip :
    (v : ℤ)
    → bn_bytes (magnitude v) (needs_ext (magnitude v)) < 2 ^ 32
    → (s : Bytes) × (bn2vch v ≡ ok s)
      × (length s ≡ bn_bytes (magnitude v) (needs_ext (magnitude v)))
      × (vch2bn s ≡ ok (some v))
bn2vch_round_trip v h =
    let s : Bytes = signed_bytes (is_negative v) (magnitude v) in
    let len : length (reverse s) ≡ bn_bytes (magnitude v) (needs_ext (magnitude v)) =
      length-reverse s ∙ length-signed_bytes (is_negative v) (magnitude v) in
    (
      reverse s,
      bn2vch-eq v h,
      len,
      vch2bn-eq (reverse s) (omega (arith, len)) ∙ ap (λ n. ok (some n)) (vch_value-signed_bytes v),
    )
