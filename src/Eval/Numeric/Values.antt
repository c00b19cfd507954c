-- ===== src/Eval/Numeric/Values.antt =====
-- The tests and the size of the integers that the numeric opcodes compute.
use mathlib.Core.Logic.{◌≢◌, ◌⊎◌}
use python_bitcointx.Prelude.{
  ◌+◌, ◌≤◌, ◌≡◌, refl, sym, ap, ◌∙◌, inl, inr, Bool, true, false, not, ◌&&◌, ◌||◌, arith,
  Bool-cases,
}
use python_bitcointx.Prelude.Int.{ℤ, pos, negsuc, ◌+ℤ◌, ◌-ℤ◌, eq_ℤ}
use python_bitcointx.Bignum.{magnitude}
use python_bitcointx.Eval.Numeric.{int_of}

-- The number of a truth value.
abbrev pub IsTruth : ℤ → Type 0 → Type 0
IsTruth r P = ((r ≡ pos 1) × P) ⊎ ((r ≡ pos 0) × (¬ P))

pub IsTruth-int_of :
    {P : Type 0} (b : Bool) → (b ≡ true → P) → (b ≡ false → ¬ P) → IsTruth (int_of b) P
IsTruth-int_of true holds fails = inl (refl, holds refl)
IsTruth-int_of false holds fails = inr (refl, fails refl)

pub eq_ℤ→eq : (a b : ℤ) → eq_ℤ a b ≡ true → a ≡ b
eq_ℤ→eq (pos m) (pos n) h = ground arith
eq_ℤ→eq (pos m) (negsuc n) h = ground arith
eq_ℤ→eq (negsuc m) (pos n) h = ground arith
eq_ℤ→eq (negsuc m) (negsuc n) h = ground arith

eq_ℤ_refl : (a : ℤ) → eq_ℤ a a ≡ true
eq_ℤ_refl (pos m) = ground arith
eq_ℤ_refl (negsuc m) = ground arith

pub eq_ℤ→ne : (a b : ℤ) → eq_ℤ a b ≡ false → a ≢ b
eq_ℤ→ne a b h = λ e. cc (sym h ∙ ap (λ x. eq_ℤ x b) e ∙ eq_ℤ_refl b)

pub not-eq_ℤ→ne : (a b : ℤ) → not (eq_ℤ a b) ≡ true → a ≢ b
not-eq_ℤ→ne a b h = eq_ℤ→ne a b (ground (arith, Bool-cases (eq_ℤ a b)))

pub not-eq_ℤ→eq : (a b : ℤ) → not (eq_ℤ a b) ≡ false → ¬ (a ≢ b)
not-eq_ℤ→eq a b h = λ ne. ne (eq_ℤ→eq a b (ground (arith, Bool-cases (eq_ℤ a b))))

pub both_nonzero :
    (a b : ℤ) → (not (eq_ℤ a (pos 0)) && not (eq_ℤ b (pos 0))) ≡ true → (a ≢ pos 0) × (b ≢ pos 0)
both_nonzero a b h = (not-eq_ℤ→ne a (pos 0) (ground arith), not-eq_ℤ→ne b (pos 0) (ground arith))

pub one_zero :
    (a b : ℤ)
    → (not (eq_ℤ a (pos 0)) && not (eq_ℤ b (pos 0))) ≡ false
    → ¬ ((a ≢ pos 0) × (b ≢ pos 0))
one_zero a b h = λ ne. elim (Bool-cases (eq_ℤ a (pos 0))) [
  | inl e ↦ ne.0 (eq_ℤ→eq a (pos 0) e)
  | inr e ↦ ne.1 (eq_ℤ→eq b (pos 0) (ground arith))
]

pub one_nonzero :
    (a b : ℤ) → (not (eq_ℤ a (pos 0)) || not (eq_ℤ b (pos 0))) ≡ true → (a ≢ pos 0) ⊎ (b ≢ pos 0)
one_nonzero a b h = elim (Bool-cases (eq_ℤ a (pos 0))) [
  | inl e ↦ inr (eq_ℤ→ne b (pos 0) (ground arith))
  | inr e ↦ inl (eq_ℤ→ne a (pos 0) e)
]

pub both_zero :
    (a b : ℤ)
    → (not (eq_ℤ a (pos 0)) || not (eq_ℤ b (pos 0))) ≡ false
    → ¬ ((a ≢ pos 0) ⊎ (b ≢ pos 0))
both_zero a b h (inl ne) = ne (eq_ℤ→eq a (pos 0) (ground arith))
both_zero a b h (inr ne) = ne (eq_ℤ→eq b (pos 0) (ground arith))

pub sub-add : (a b : ℤ) → (a -ℤ b) +ℤ b ≡ a
unfolding ◌-ℤ◌ ◌+ℤ◌
sub-add (pos m) (pos n) = ground arith
sub-add (pos m) (negsuc n) = ground arith
sub-add (negsuc m) (pos n) = ground arith
sub-add (negsuc m) (negsuc n) = ground arith

pub magnitude-add : (a b : ℤ) → magnitude (a +ℤ b) ≤ magnitude a + magnitude b
unfolding ◌+ℤ◌ magnitude
magnitude-add (pos m) (pos n) = ground arith
magnitude-add (pos m) (negsuc n) = ground arith
magnitude-add (negsuc m) (pos n) = ground arith
magnitude-add (negsuc m) (negsuc n) = ground arith

pub magnitude-sub : (a b : ℤ) → magnitude (a -ℤ b) ≤ magnitude a + magnitude b
unfolding ◌-ℤ◌ magnitude
magnitude-sub (pos m) (pos n) = ground arith
magnitude-sub (pos m) (negsuc n) = ground arith
magnitude-sub (negsuc m) (pos n) = ground arith
magnitude-sub (negsuc m) (negsuc n) = ground arith

pub magnitude-int_of : (b : Bool) → magnitude (int_of b) ≤ 1
unfolding magnitude
magnitude-int_of true = omega arith
magnitude-int_of false = omega arith
