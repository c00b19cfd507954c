-- ===== src/Address/Digits.antt =====
-- Numbers in a base, by their digits: `divmod` in a loop, and the sum of weighted digits.
use python_bitcointx.Prelude.{
  ℕ, zero, suc, ◌+◌, ◌*◌, ◌/◌, ◌%◌, ◌≤◌, ◌<◌, ◌≢◌, ◌≡◌, refl, ap, sym, ◌∙◌, false, List, [], ◌∷◌,
  ◌++◌, arith, All, ◌==◌, if◌then◌else◌, ==→eq, Bool-cases, inl, inr, ne→==_false,
}
use python_bitcointx.Address.{backwards}

-- The digits of a number, lowest first; enough fuel is the number.
unfoldable pub divmods : (base fuel n : ℕ) → List ℕ
divmods base zero n = []
divmods base (suc fuel) n =
    let rest = divmods base fuel (n / base) in if n == 0 then [] else (n % base) ∷ rest

-- The number that digits stand for, highest first, from the value of what stands in front.
unfoldable pub from_digits : (base acc : ℕ) → List ℕ → ℕ
from_digits base acc [] = acc
from_digits base acc (d ∷ ds) = from_digits base (acc * base + d) ds

-- The same, lowest first.
unfoldable pub value : (base : ℕ) → List ℕ → ℕ
value base [] = 0
value base (d ∷ ds) = d + base * value base ds

-- The highest digit is not zero.
abbrev pub IsReduced : List ℕ → Type 0
IsReduced [] = Unit {0}
IsReduced (d ∷ []) = d ≢ 0
IsReduced (d ∷ e ∷ ds) = IsReduced (e ∷ ds)

pub backwards-backwards :
    {A : Type 0} (xs ys zs : List A) → backwards (backwards xs ys) zs ≡ backwards ys (xs ++ zs)
unfolding backwards
backwards-backwards [] ys zs = refl
backwards-backwards (x ∷ xs) ys zs = backwards-backwards xs (x ∷ ys) zs

-- What a base has to give: at least two, and division with remainder.
pub record IsBase (base : ℕ) : Type 0 where
  pub low_digit : (d v : ℕ) → d < base → (d + base * v) % base ≡ d
  pub high_digits : (d v : ℕ) → d < base → (d + base * v) / base ≡ v
  pub grows : (v : ℕ) → 1 ≤ v → v < base * v
  pub shrinks : (n : ℕ) → n ≢ 0 → n / base < n
  pub joins : (n : ℕ) → n % base + base * (n / base) ≡ n
  pub is_digit : (n : ℕ) → n % base < base
  pub commutes : (v : ℕ) → v * base ≡ base * v

pub base_58 : IsBase 58
base_58 = record {
  low_digit = λ d v h. omega arith;
  high_digits = λ d v h. omega arith;
  grows = λ v h. omega arith;
  shrinks = λ n h. omega arith;
  joins = λ n. omega arith;
  is_digit = λ n. omega arith;
  commutes = λ v. omega arith;
}

pub base_256 : IsBase 256
base_256 = record {
  low_digit = λ d v h. omega arith;
  high_digits = λ d v h. omega arith;
  grows = λ v h. omega arith;
  shrinks = λ n h. omega arith;
  joins = λ n. omega arith;
  is_digit = λ n. omega arith;
  commutes = λ v. omega arith;
}

module _ (base : ℕ) (laws : IsBase base) where
  abbrev pub AreDigits : List ℕ → Type 0
  AreDigits ds = All (λ d. d < base) ds

  pub from_digits-backwards :
      (ds rest : List ℕ)
      → from_digits base 0 (backwards ds rest) ≡ from_digits base (value base ds) rest
  unfolding from_digits backwards value
  from_digits-backwards [] rest = refl
  from_digits-backwards (d ∷ ds) rest =
      from_digits-backwards ds (d ∷ rest)
      ∙ ap (λ t. from_digits base t rest) (omega (arith, laws.commutes (value base ds)))

  -- Reduced digits of a list that has one stand for a positive number.
  pub value_positive : (d : ℕ) (ds : List ℕ) → IsReduced (d ∷ ds) → 1 ≤ value base (d ∷ ds)
  unfolding value
  value_positive d [] h = omega arith
  value_positive d (e ∷ ds) h =
      omega (arith, value_positive e ds h, laws.grows (value base (e ∷ ds)) (value_positive e ds h))

  pub value-zero : (ds : List ℕ) → IsReduced ds → value base ds ≡ 0 → ds ≡ []
  unfolding value
  value-zero [] h e = refl
  value-zero (d ∷ ds) h e = absurd (omega (arith, value_positive d ds h))

  divmods_step :
      (fuel d v : ℕ)
      → d < base
      → d + base * v ≢ 0
      → divmods base (suc fuel) (d + base * v) ≡ (d ∷ divmods base fuel v)
  unfolding divmods
  divmods_step fuel d v h ne =
      rw (ne→==_false _ _ ne, laws.low_digit d v h, laws.high_digits d v h) refl

  -- The digits of a number are found again.
  pub divmods-value :
      (ds : List ℕ) (fuel : ℕ)
      → AreDigits ds
      → IsReduced ds
      → value base ds ≤ fuel
      → divmods base fuel (value base ds) ≡ ds
  unfolding value
  divmods-value [] zero h r f = unfold divmods in refl
  divmods-value [] (suc fuel) h r f = unfold divmods in refl
  divmods-value (d ∷ []) zero h r f = absurd (omega (arith, value_positive d [] r))
  divmods-value (d ∷ []) (suc fuel) h r f =
      let ne = value_positive d [] r in
      divmods_step fuel d 0 h.0 (omega (arith, ne))
      ∙ ap (λ t. d ∷ t) (divmods-value [] fuel tt tt (omega arith))
  divmods-value (d ∷ e ∷ ds) zero h r f = absurd (omega (arith, value_positive d (e ∷ ds) r))
  divmods-value (d ∷ e ∷ ds) (suc fuel) h r f =
      let v : ℕ = value base (e ∷ ds) in
      let up = laws.grows v (value_positive e ds r) in
      divmods_step fuel d v h.0 (omega (arith, up))
      ∙ ap (λ t. d ∷ t) (divmods-value (e ∷ ds) fuel h.1 r (omega (arith, up)))

  pub value-divmods : (fuel n : ℕ) → n ≤ fuel → value base (divmods base fuel n) ≡ n
  unfolding divmods value
  value-divmods zero n h = omega arith
  value-divmods (suc fuel) n h = elim (Bool-cases (n == 0)) [
    | inl e ↦ rw e (sym (==→eq n 0 e))
    | inr e ↦
        let small = laws.shrinks n (λ z. let t = rw z at e in cc) in
        rw e (
          ap (λ t. n % base + base * t) (value-divmods fuel (n / base) (omega (arith, small)))
          ∙ laws.joins n)
  ]

  pub divmods-AreDigits : (fuel n : ℕ) → AreDigits (divmods base fuel n)
  unfolding divmods
  divmods-AreDigits zero n = tt
  divmods-AreDigits (suc fuel) n = elim (Bool-cases (n == 0)) [
    | inl e ↦ rw e tt
    | inr e ↦ rw e (laws.is_digit n, divmods-AreDigits fuel (n / base))
  ]

  not_zero : (n : ℕ) → (n == 0) ≡ false → n ≢ 0
  not_zero n e z = ground arith

  last_digit : (n : ℕ) → n ≢ 0 → n / base ≡ 0 → n % base ≢ 0
  last_digit n ne z d = ne (sym (laws.joins n) ∙ rw (z, d) (omega arith))

  IsReduced-cons : (x : ℕ) (xs : List ℕ) → IsReduced xs → (xs ≡ [] → x ≢ 0) → IsReduced (x ∷ xs)
  IsReduced-cons x [] h g = g refl
  IsReduced-cons x (y ∷ ys) h g = h

  pub divmods-IsReduced : (fuel n : ℕ) → n ≤ fuel → IsReduced (divmods base fuel n)
  unfolding divmods value
  divmods-IsReduced zero n h = tt
  divmods-IsReduced (suc fuel) n h = elim (Bool-cases (n == 0)) [
    | inl e ↦ rw e tt
    | inr e ↦
        let ne : n ≢ 0 = λ z. not_zero n e z in
        let small = laws.shrinks n ne in
        let fits : n / base ≤ fuel = omega (arith, small) in
        rw e (
          IsReduced-cons (n % base) (divmods base fuel (n / base))
            (divmods-IsReduced fuel (n / base) fits)
            (λ z. last_digit n ne (sym (value-divmods fuel (n / base) fits) ∙ ap (value base) z)))
  ]

  pub backwards-AreDigits :
      (ds rest : List ℕ) → AreDigits ds → AreDigits rest → AreDigits (backwards ds rest)
  unfolding backwards
  backwards-AreDigits [] rest h r = r
  backwards-AreDigits (d ∷ ds) rest h r = backwards-AreDigits ds (d ∷ rest) h.1 (h.0, r)

-- The highest digit comes first when reduced digits are turned round.
pub reversed_head :
    (d : ℕ) (ds rest : List ℕ)
    → IsReduced (d ∷ ds)
    → (c : ℕ) × (cs : List ℕ) × (backwards (d ∷ ds) rest ≡ (c ∷ cs)) × (c ≢ 0)
unfolding backwards
reversed_head d [] rest h = (d, rest, refl, h)
reversed_head d (e ∷ ds) rest h = reversed_head e ds (d ∷ rest) h

pub backwards-IsReduced :
    (ds : List ℕ) (d : ℕ) (rest : List ℕ)
    → IsReduced (d ∷ rest)
    → IsReduced (backwards ds (d ∷ rest))
unfolding backwards
backwards-IsReduced [] d rest h = h
backwards-IsReduced (e ∷ ds) d rest h = backwards-IsReduced ds e (d ∷ rest) h

pub reversed_not_nil : {A : Type 0} (x : A) (xs rest : List A) → backwards (x ∷ xs) rest ≢ []
unfolding backwards
reversed_not_nil x [] rest e = cc
reversed_not_nil x (y ∷ xs) rest e = reversed_not_nil y xs (x ∷ rest) e
