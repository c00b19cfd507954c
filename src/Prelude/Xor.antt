-- ===== src/Prelude/Xor.antt =====
-- Exclusive or on the native numbers, by its lowest digit.
use Prim.Native.Nat.{
  ℕ, zero, suc, ◌+◌, ◌*◌, ◌/◌, ◌%◌, ◌^◌, ◌≤◌, ◌<◌, digits, differ, bit_xor, bit_xor-bitwise,
}
use mathlib.Core.Path.{◌≡◌, refl, sym, ap, ◌∙◌}
use native.Mathlib.Nat.{le_refl, pow-suc}
use native.Mathlib.Omega.{arith}

-- The digits of the sum, by the recursion that the native operation means. More fuel than enough
-- changes nothing.
abbrev xor_digits : ℕ → ℕ → ℕ → ℕ
xor_digits = digits (λ y. y) differ

spare_fuel :
    (a b : ℕ) {enough more : ℕ}
    → a ≤ enough
    → enough ≤ more
    → xor_digits more a b ≡ xor_digits enough a b
spare_fuel zero b {enough = zero} {more = zero} h k = refl
spare_fuel zero b {enough = zero} {more = suc more} h k = refl
spare_fuel zero b {enough = suc enough} {more = suc more} h k = refl
spare_fuel (suc a) b {enough = suc enough} {more = suc more} h k =
    ap (λ t. t * 2 + differ (suc a % 2) (b % 2))
      (spare_fuel (suc a / 2) (b / 2) {enough = enough} {more = more} (omega arith) (omega arith))
spare_fuel a b {enough = suc enough} {more = zero} h k = absurd (omega arith)
spare_fuel (suc a) b {enough = zero} h k = absurd (omega arith)

differ_bits : (x y : ℕ) → x < 2 → y < 2 → differ x y ≡ (x + y) % 2
differ_bits zero y p q = omega arith
differ_bits (suc zero) zero p q = refl
differ_bits (suc zero) (suc zero) p q = refl
differ_bits (suc zero) (suc (suc y)) p q = absurd (omega arith)
differ_bits (suc (suc x)) y p q = absurd (omega arith)

pub xor_step : (a b : ℕ) → bit_xor a b ≡ bit_xor (a / 2) (b / 2) * 2 + (a % 2 + b % 2) % 2
xor_step zero b = simp bit_xor-bitwise (omega arith)
xor_step (suc a) b =
    let half : suc a / 2 ≤ a = omega arith in
    simp bit_xor-bitwise (
      omega (
        arith,
        spare_fuel (suc a / 2) (b / 2) (le_refl _) half,
        differ_bits (suc a % 2) (b % 2) (omega arith) (omega arith),
      ))

pub xor_zero : (b : ℕ) → bit_xor 0 b ≡ b
xor_zero b = simp bit_xor-bitwise refl

nil : (a : ℕ) → a ≤ 0 → (b : ℕ) → b ≤ 0 → bit_xor a b ≡ bit_xor b a
nil a p b q = let e : a ≡ 0 = omega arith in let f : b ≡ 0 = omega arith in rw (e, f) refl

-- The laws, for numbers up to a bound on which the proof recurs.
comm_below : (n a b : ℕ) → a ≤ n → b ≤ n → bit_xor a b ≡ bit_xor b a
comm_below zero a b p q = nil a p b q
comm_below (suc n) a b p q =
    omega
      (arith, xor_step a b, xor_step b a, comm_below n (a / 2) (b / 2) (omega arith) (omega arith))

assoc_below :
    (n a b c : ℕ) → a ≤ n → b ≤ n → c ≤ n → bit_xor (bit_xor a b) c ≡ bit_xor a (bit_xor b c)
assoc_below zero a b c p q r =
    let e : a ≡ 0 = omega arith in
    let f : b ≡ 0 = omega arith in
    let g : c ≡ 0 = omega arith in
    rw (e, f, g) (ap (λ t. bit_xor t 0) (xor_zero 0) ∙ sym (ap (bit_xor 0) (xor_zero 0)))
assoc_below (suc n) a b c p q r =
    let low_ab = xor_step a b in
    let low_bc = xor_step b c in
    let ab : bit_xor a b / 2 ≡ bit_xor (a / 2) (b / 2) = omega (arith, low_ab) in
    let bc : bit_xor b c / 2 ≡ bit_xor (b / 2) (c / 2) = omega (arith, low_bc) in
    let left = xor_step (bit_xor a b) c in
    let right = xor_step a (bit_xor b c) in
    let ih = assoc_below n (a / 2) (b / 2) (c / 2) (omega arith) (omega arith) (omega arith) in
    omega (
      arith,
      low_ab,
      low_bc,
      left,
      right,
      ih,
      ap (λ t. bit_xor t (c / 2)) ab,
      ap (λ t. bit_xor (a / 2) t) bc,
    )

self_below : (n a : ℕ) → a ≤ n → bit_xor a a ≡ 0
self_below zero a p = let e : a ≡ 0 = omega arith in rw e (xor_zero 0)
self_below (suc n) a p = omega (arith, xor_step a a, self_below n (a / 2) (omega arith))

pub xor_comm : (a b : ℕ) → bit_xor a b ≡ bit_xor b a
xor_comm a b = comm_below (a + b) a b (omega arith) (omega arith)

pub xor_assoc : (a b c : ℕ) → bit_xor (bit_xor a b) c ≡ bit_xor a (bit_xor b c)
xor_assoc a b c = assoc_below (a + b + c) a b c (omega arith) (omega arith) (omega arith)

pub xor_self : (a : ℕ) → bit_xor a a ≡ 0
xor_self a = self_below a a (omega arith)

pub xor_zero_right : (a : ℕ) → bit_xor a 0 ≡ a
xor_zero_right a = xor_comm a 0 ∙ xor_zero a

pub xor_lt : (k a b : ℕ) → a < 2 ^ k → b < 2 ^ k → bit_xor a b < 2 ^ k
xor_lt zero a b p q =
    let e : a ≡ 0 = omega arith in let f : b ≡ 0 = omega arith in rw (e, f) (omega arith)
xor_lt (suc k) a b p q = omega (
  arith,
  xor_step a b,
  pow-suc 2 k,
  xor_lt k (a / 2) (b / 2) (omega (arith, pow-suc 2 k)) (omega (arith, pow-suc 2 k)),
)

-- High digits over a field of `k` digits stay.
pub xor_fields :
    (k h l d : ℕ) → l < 2 ^ k → d < 2 ^ k → bit_xor (h * 2 ^ k + l) d ≡ h * 2 ^ k + bit_xor l d
xor_fields zero h l d p q =
    let e : l ≡ 0 = omega arith in
    let f : d ≡ 0 = omega arith in rw (e, f, xor_zero 0) (xor_zero_right (h * 1 + 0))
xor_fields (suc k) h l d p q =
    let twice : h * 2 ^ suc k ≡ 2 * (h * 2 ^ k) =
      omega (arith, ap (λ (t : ℕ). h * t) (pow-suc 2 k)) in
    let half : (h * 2 ^ suc k + l) / 2 ≡ h * 2 ^ k + l / 2 = omega (arith, twice) in
    let ih =
      xor_fields k h (l / 2) (d / 2) (omega (arith, pow-suc 2 k)) (omega (arith, pow-suc 2 k)) in
    omega (
      arith,
      twice,
      xor_step (h * 2 ^ suc k + l) d,
      xor_step l d,
      ap (λ t. bit_xor t (d / 2)) half,
      ih,
    )

pub xor_swap : (a b c : ℕ) → bit_xor (bit_xor a b) c ≡ bit_xor (bit_xor a c) b
xor_swap a b c = xor_assoc a b c ∙ ap (bit_xor a) (xor_comm b c) ∙ sym (xor_assoc a c b)

pub xor_cancel : (a b : ℕ) → bit_xor a (bit_xor a b) ≡ b
xor_cancel a b = sym (xor_assoc a a b) ∙ ap (λ t. bit_xor t b) (xor_self a) ∙ xor_zero b

twice : (a b : ℕ) → bit_xor (2 * a) (2 * b) ≡ 2 * bit_xor a b
twice a b =
    let e : 2 * a / 2 ≡ a = omega arith in
    let f : 2 * b / 2 ≡ b = omega arith in
    omega (arith, xor_step (2 * a) (2 * b), ap (λ t. bit_xor t (2 * b / 2)) e, ap (bit_xor a) f)

-- Both sides shifted by five digits.
pub xor_shift : (a b : ℕ) → bit_xor (a * 32) (b * 32) ≡ bit_xor a b * 32
xor_shift a b =
    let e : a * 32 ≡ 2 * (2 * (2 * (2 * (2 * a)))) = omega arith in
    let f : b * 32 ≡ 2 * (2 * (2 * (2 * (2 * b)))) = omega arith in
    rw (e, f)
      (omega (
        arith,
        twice (2 * (2 * (2 * (2 * a)))) (2 * (2 * (2 * (2 * b)))),
        twice (2 * (2 * (2 * a))) (2 * (2 * (2 * b))),
        twice (2 * (2 * a)) (2 * (2 * b)),
        twice (2 * a) (2 * b),
        twice a b,
      ))
