-- ===== src/Bignum/Magnitude.antt =====
-- The magnitude's bytes: how many there are, and that they are read back.
use mathlib.Core.List.{reverse, reverse-cons}
use native.Mathlib.Decide.{dec_lt}
use native.Mathlib.Nat.{div-div-eq-div-mul, pow-le-pow_right}
use python_bitcointx.Prelude.{
  ℕ, zero, suc, ◌+◌, ◌*◌, ◌/◌, ◌%◌, ◌^◌, ◌≤◌, ◌<◌, ◌≡◌, refl, sym, ap, ◌∙◌, [], ◌∷◌, ◌++◌, arith,
  length, length-append, Bytes,
}
use python_bitcointx.Struct.{le_bytes, from_le, from_le-le_bytes, pow256}
use python_bitcointx.Bignum.{
  bit_length_loop, bit_length, bn_bytes, bn2bin_loop, bin2bn_loop, bin2bn, needs_ext,
}

bit_length_loop-zero : (f : ℕ) → bit_length_loop f 0 ≡ 0
unfolding bit_length_loop
bit_length_loop-zero zero = refl
bit_length_loop-zero (suc f) = refl

bit_length_loop_bounds :
    (f n : ℕ) → n ≤ f → (n < 2 ^ bit_length_loop f n) × (0 < n → 2 ^ bit_length_loop f n ≤ 2 * n)
unfolding bit_length_loop
bit_length_loop_bounds zero n h = ground arith
bit_length_loop_bounds (suc f) zero h = ground arith
bit_length_loop_bounds (suc f) (suc m) h =
    let (upper, lower) = bit_length_loop_bounds f (suc m / 2) (omega arith) in
    let twice : 2 ^ suc (bit_length_loop f (suc m / 2)) ≡ 2 * 2 ^ bit_length_loop f (suc m / 2) =
      omega arith in
    elim (dec_lt 0 (suc m / 2)) [
      | yes more ↦ (omega (arith, upper, twice), λ _. omega (arith, lower more, twice))
      | no last ↦
          let one : suc m / 2 ≡ 0 = omega arith in
          let none_left : bit_length_loop f (suc m / 2) ≡ 0 = rw one (bit_length_loop-zero f) in
          (omega (arith, upper, twice), λ _. rw none_left (omega arith))
    ]

pub length-reverse : (s : Bytes) → length (reverse s) ≡ length s
length-reverse [] = refl
length-reverse (x ∷ s) =
    rw reverse-cons (omega (arith, length-append (reverse s) (x ∷ []), length-reverse s))

le_bytes-snoc : (k v : ℕ) → le_bytes (suc k) v ≡ le_bytes k v ++ (v / 256 ^ k % 256) ∷ []
unfolding le_bytes
le_bytes-snoc zero v = ap (λ (t : ℕ). (t % 256) ∷ []) (omega arith)
le_bytes-snoc (suc k) v =
    let e : v / 256 / 256 ^ k ≡ v / 256 ^ suc k =
      div-div-eq-div-mul v 256 (256 ^ k) ∙ ap (λ (t : ℕ). v / t) (sym (pow256 k)) in
    ap (λ t. (v % 256) ∷ t)
      (le_bytes-snoc k (v / 256) ∙ ap (λ (t : ℕ). le_bytes k (v / 256) ++ (t % 256) ∷ []) e)

from_le-snoc : (s : Bytes) (x : ℕ) → from_le (s ++ x ∷ []) ≡ from_le s + x * 256 ^ length s
unfolding from_le
from_le-snoc [] x = omega arith
from_le-snoc (b ∷ s) x = omega (arith, from_le-snoc s x, ap (λ (t : ℕ). x * t) (pow256 (length s)))

-- The loop of `bn2bin` lays the number out as `struct` does, the other way round.
pub reverse-bn2bin_loop : (k v : ℕ) → reverse (bn2bin_loop k v) ≡ le_bytes k v
unfolding bn2bin_loop
reverse-bn2bin_loop zero v = unfold le_bytes in refl
reverse-bn2bin_loop (suc k) v =
    reverse-cons (v / 256 ^ k % 256) (bn2bin_loop k v)
    ∙ ap (λ t. t ++ (v / 256 ^ k % 256) ∷ []) (reverse-bn2bin_loop k v)
    ∙ sym (le_bytes-snoc k v)

pub length-bn2bin_loop : (k v : ℕ) → length (bn2bin_loop k v) ≡ k
unfolding bn2bin_loop
length-bn2bin_loop zero v = refl
length-bn2bin_loop (suc k) v = ap suc (length-bn2bin_loop k v)

bin2bn_loop-eq :
    (res : ℕ) (s : Bytes) → bin2bn_loop res s ≡ res * 256 ^ length s + from_le (reverse s)
unfolding bin2bn_loop
bin2bn_loop-eq res [] = unfold from_le in omega arith
bin2bn_loop-eq res (ch ∷ s) =
    let last : from_le (reverse (ch ∷ s)) ≡ from_le (reverse s) + ch * 256 ^ length s =
      rw (reverse-cons ch s, ← length-reverse s) (from_le-snoc (reverse s) ch) in
    bin2bn_loop-eq (res * 256 + ch) s
    ∙ omega (arith, last, ap (λ (t : ℕ). res * t) (pow256 (length s)))

-- `bin2bn` reads what `struct` reads, the other way round.
pub bin2bn-eq : (s : Bytes) → bin2bn s ≡ from_le (reverse s)
unfolding bin2bn
bin2bn-eq s = omega (arith, bin2bn_loop-eq 0 s)

pub bin2bn-bn2bin_loop : (k v : ℕ) → v < 256 ^ k → bin2bn (bn2bin_loop k v) ≡ v
bin2bn-bn2bin_loop k v h =
    bin2bn-eq (bn2bin_loop k v) ∙ rw (reverse-bn2bin_loop k v) (from_le-le_bytes k v h)

pub pow_eight : (k : ℕ) → 2 ^ (8 * k) ≡ 256 ^ k
pow_eight zero = refl
pow_eight (suc k) =
    let e : 8 * suc k ≡ suc (suc (suc (suc (suc (suc (suc (suc (8 * k)))))))) = omega arith in
    rw e (omega (arith, pow_eight k))

pub bit_length-bounds : (v : ℕ) → (v < 2 ^ bit_length v) × (0 < v → 2 ^ bit_length v ≤ 2 * v)
unfolding bit_length
bit_length-bounds v = bit_length_loop_bounds v v (omega arith)

pub bit_length_pos : (v : ℕ) → 0 < v → 0 < bit_length v
bit_length_pos v h = elim (dec_lt 0 (bit_length v)) [
  | yes p ↦ p
  | no p ↦
      let e : bit_length v ≡ 0 = omega arith in
      absurd (omega (arith, rw e at ((bit_length-bounds v).0)))
]

-- With the extra byte, a byte more than the whole bytes of the bit length.
pub bn_bytes-eq : (v : ℕ) → 0 < v → bn_bytes v (needs_ext v) ≡ bit_length v / 8 + 1
unfolding bn_bytes needs_ext
bn_bytes-eq v h = ground (arith, bit_length_pos v h)

-- The bytes of a number, with the extra one if there is one, leave room for the sign bit.
pub bn_bytes_room : (v : ℕ) → 0 < v → 2 * v < 256 ^ bn_bytes v (needs_ext v)
bn_bytes_room v h =
    let n : ℕ = bit_length v in
    let wide : 2 ^ suc n ≤ 2 ^ (8 * (n / 8 + 1)) = pow-le-pow_right (omega arith) (omega arith) in
    let e : 256 ^ bn_bytes v (needs_ext v) ≡ 2 ^ (8 * (n / 8 + 1)) =
      ap (λ (k : ℕ). 256 ^ k) (bn_bytes-eq v h) ∙ sym (pow_eight (n / 8 + 1)) in
    omega (arith, (bit_length-bounds v).0, wide, e)

-- A number of fewer than `8 * k` bits takes at most `k` bytes with its sign.
pub bn_bytes-le : (k v : ℕ) → 2 * v < 256 ^ suc k → bn_bytes v (needs_ext v) ≤ suc k
bn_bytes-le k zero h = unfold bn_bytes needs_ext bit_length bit_length_loop in omega arith
bn_bytes-le k (suc m) h = elim (dec_lt (bit_length (suc m)) (8 * suc k)) [
  | yes p ↦ rw (bn_bytes-eq (suc m) (omega arith)) (omega arith)
  | no p ↦
      let wide : 2 ^ (8 * suc k) ≤ 2 ^ bit_length (suc m) =
        pow-le-pow_right (omega arith) (omega arith) in
      absurd (omega (arith, (bit_length-bounds (suc m)).1 (omega arith), wide, pow_eight (suc k)))
]
